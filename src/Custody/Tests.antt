-- ===== src/Custody/Tests.antt =====
-- Custody of a concrete boot.
use agent_bash_tool.Common.{◌≡◌, ◌⊎◌, refl, true, false, List, [], ◌∷◌}
use agent_bash_tool.Effects.{
  ok, error_other, done, pure, Fault, fine, fails_after, lift, look, commit, attempt, ◌>>=◌, ◌>>◌,
}
use agent_bash_tool.Custody.{
  Text, absent, file, is_absent, valid_boot_id, is_hex_digit, accept_recorded, end_locked,
  mark_drained, record_durable_create_once_marker, published_or_rolled_back,
  rollback_created_marker, sync, durable_marker_exists, accept_terminal_custody_cancel,
  end_physical_custody,
}
use agent_bash_tool.Custody.History.{
  Call, after_call, accept_cancel, end_physical, after_calls, accepted_stays_owed, in_custody_of,
  calm, either_order,
}

abbrev boot : Text
boot =
    b'3' ∷ b'f' ∷ b'0' ∷ b'a' ∷ b'1' ∷ b'1' ∷ b'c' ∷ b'2' ∷ b'-' ∷ b'9' ∷ b'9' ∷ b'0' ∷ b'0' ∷ b'-'
    ∷ b'4' ∷ b'a' ∷ b'b' ∷ b'c' ∷ b'-' ∷ b'8' ∷ b'0' ∷ b'0' ∷ b'1' ∷ b'-' ∷ b'0' ∷ b'1' ∷ b'2'
    ∷ b'3' ∷ b'4' ∷ b'5' ∷ b'6' ∷ b'7' ∷ b'8' ∷ b'9' ∷ b'a' ∷ b'b' ∷ []

boot_is_valid : valid_boot_id boot ≡ true
unfolding valid_boot_id is_hex_digit
boot_is_valid = refl

either_order_example :
    ((do
      accepted ← accept_terminal_custody_cancel (ok tt) boot
      end_physical_custody (ok tt)
      pure accepted)
        (calm (in_custody_of boot absent))
      ≡ (
        done true,
        calm (record {
          physical_custody = absent;
          external_transfer_custody = absent;
          accepted_cancel = file [];
          cancellation_drained = file [];
        }),
      ))
    × ((do end_physical_custody (ok tt); accept_terminal_custody_cancel (ok tt) boot)
          (calm (in_custody_of boot absent))
        ≡ (
          done false,
          calm (record {
            physical_custody = absent;
            external_transfer_custody = absent;
            accepted_cancel = absent;
            cancellation_drained = absent;
          }),
        ))
either_order_example = either_order boot absent boot_is_valid

-- The cancellation is accepted; one observer of the empty tree fails after the drain is recorded, and
-- the next one completes the discharge.
abbrev calls : List (Call × List Fault)
calls =
    (accept_cancel (ok tt) boot, [])
    ∷ (
      end_physical (ok tt),
      fine ∷ fine ∷ fine ∷ fine ∷ fine ∷ fails_after (error_other "eio") ∷ [],
    )
    ∷ (end_physical (ok tt), [])
    ∷ []

run_accepts : is_absent (after_calls calls (in_custody_of boot absent)).accepted_cancel ≡ false
unfolding after_call after_calls accept_terminal_custody_cancel accept_recorded end_physical_custody
    end_locked mark_drained record_durable_create_once_marker published_or_rolled_back
    rollback_created_marker sync durable_marker_exists valid_boot_id is_hex_digit pure lift look
    commit attempt ◌>>=◌
run_accepts = refl

accepted_stays_owed_example :
    let d = after_calls calls (in_custody_of boot absent) in
    (is_absent d.physical_custody ≡ false) ⊎ (is_absent d.cancellation_drained ≡ false)
accepted_stays_owed_example = accepted_stays_owed calls (in_custody_of boot absent) refl run_accepts
