-- ===== src/Custody/History.antt =====
-- The custody operations in any sequence: any number of processes take the custody lock in turn, and
-- each may fail, or die, at any of its file operations.
use agent_bash_tool.Common.{
  ◌≡◌, ◌⊎◌, refl, ap, inl, inr, Bool, true, false, some, List, [], ◌∷◌, arith,
}
use agent_bash_tool.Effects.{
  Result, ok, World, Fault, Outcome, done, failed, killed, pure, lift, look, commit, attempt, ◌>>=◌,
  ◌>>◌, continue,
}
use agent_bash_tool.Effects.Meets.{Post}
use agent_bash_tool.Custody.{
  Text, Entry, absent, file, Files, same_text, valid_boot_id, durable_marker_exists, is_absent,
  sync, rollback_created_marker, published_or_rolled_back, record_durable_create_once_marker,
  begin_physical_custody, accept_recorded, accept_terminal_custody_cancel, mark_drained, end_locked,
  end_physical_custody, begin_external_transfer_custody, end_external_transfer_custody,
}
use agent_bash_tool.Custody.Discharge.{
  IsOwed, begin-Meets, accept-Meets, end-Meets, begin_external-Meets, end_external-Meets,
}

-- A call, with the answer to `lock_custody` and the boot that the process sees. The live loop's own
-- `record_explicit_cancel_acceptance`, which takes no lock, is none of them.
pub data Call : Type 0 where
  begin_physical : Text → Call
  accept_cancel : Result (Unit {0}) → Text → Call
  end_physical : Result (Unit {0}) → Call
  begin_external : Text → Call
  end_external : Call

-- The files that a run leaves.
abbrev left : {A : Type 0} → Outcome A × World Files → Files
left r = r.1.disk

unfoldable pub after_call : Call → List Fault → Files → Files
after_call (begin_physical boot) fs d =
    left (begin_physical_custody boot (record { disk = d; faults = fs }))
after_call (accept_cancel lock boot) fs d =
    left (accept_terminal_custody_cancel lock boot (record { disk = d; faults = fs }))
after_call (end_physical lock) fs d =
    left (end_physical_custody lock (record { disk = d; faults = fs }))
after_call (begin_external boot) fs d =
    left (begin_external_transfer_custody boot (record { disk = d; faults = fs }))
after_call end_external fs d =
    left (end_external_transfer_custody (record { disk = d; faults = fs }))

unfoldable pub after_calls : List (Call × List Fault) → Files → Files
unfolding after_call
after_calls [] d = d
after_calls (c ∷ cs) d = after_calls cs (after_call c.0 c.1 d)

Post-left :
    {A : Type 0} (r : Outcome A × World Files) → Post IsOwed (λ _ d. IsOwed d) r → IsOwed (left r)
Post-left (done a, w) h = h
Post-left (failed e, w) h = h
Post-left (killed, w) h = h

after_call-IsOwed : (c : Call) (fs : List Fault) (d : Files) → IsOwed d → IsOwed (after_call c fs d)
unfolding after_call
after_call-IsOwed (begin_physical boot) fs d h = Post-left _ ((begin-Meets boot).at _ h)
after_call-IsOwed (accept_cancel lock boot) fs d h = Post-left _ ((accept-Meets lock boot).at _ h)
after_call-IsOwed (end_physical lock) fs d h = Post-left _ ((end-Meets lock).at _ h)
after_call-IsOwed (begin_external boot) fs d h = Post-left _ ((begin_external-Meets boot).at _ h)
after_call-IsOwed end_external fs d h = Post-left _ (end_external-Meets.at _ h)

after_calls-IsOwed :
    (cs : List (Call × List Fault)) (d : Files) → IsOwed d → IsOwed (after_calls cs d)
unfolding after_calls
after_calls-IsOwed [] d h = h
after_calls-IsOwed (c ∷ cs) d h =
    after_calls-IsOwed cs (after_call c.0 c.1 d) (after_call-IsOwed c.0 c.1 d h)

-- From a handle with no accepted cancellation, whatever calls but the live loop's own acceptance are made in
-- whatever order, and whatever file operations of theirs fail or are cut short: where an accepted cancellation is on record, the
-- physical custody still stands or the drain of the cancelled tree is on record too.
pub accepted_stays_owed :
    (cs : List (Call × List Fault)) (d : Files)
    → is_absent d.accepted_cancel ≡ true
    → is_absent (after_calls cs d).accepted_cancel ≡ false
    → (is_absent (after_calls cs d).physical_custody ≡ false)
      ⊎ (is_absent (after_calls cs d).cancellation_drained ≡ false)
accepted_stays_owed cs d h a = owed_of (after_calls cs d) (after_calls-IsOwed cs d (inl h)) a
  where
    owed_of :
        (x : Files)
        → IsOwed x
        → is_absent x.accepted_cancel ≡ false
        → (is_absent x.physical_custody ≡ false) ⊎ (is_absent x.cancellation_drained ≡ false)
    owed_of x (inl e) a = ground arith
    owed_of x (inr r) a = r

-- A running boot's custody, no cancellation yet; `x` is the external transfer's file.
abbrev pub in_custody_of : Text → Entry → Files
in_custody_of boot x = record {
  physical_custody = file boot;
  external_transfer_custody = x;
  accepted_cancel = absent;
  cancellation_drained = absent;
}

abbrev pub calm : Files → World Files
calm d = record { disk = d; faults = [] }

same_text_refl : (t : Text) → same_text t t ≡ true
same_text_refl [] = refl
same_text_refl (x ∷ xs) = let ih = same_text_refl xs in ground arith

-- The custody of the running boot lets the cancellation be recorded.
accept_recorded-live :
    (boot : Text) (x : Entry)
    → valid_boot_id boot ≡ true
    → accept_recorded boot (some boot) (calm (in_custody_of boot x))
      ≡ (done true, calm (record (in_custody_of boot x) { accepted_cancel = file [] }))
unfolding accept_recorded record_durable_create_once_marker published_or_rolled_back sync
    durable_marker_exists pure lift look commit attempt ◌>>=◌
accept_recorded-live boot x v = simp (v, same_text_refl boot)

-- In a boot with a valid id, when no file operation fails: a cancellation that takes the custody lock
-- before the discharge is accepted, and the discharge then records the drain and lets the custody go;
-- one that takes it after the discharge is refused, and leaves every file as the discharge left it.
pub either_order :
    (boot : Text) (x : Entry)
    → valid_boot_id boot ≡ true
    → ((do
      accepted ← accept_terminal_custody_cancel (ok tt) boot
      end_physical_custody (ok tt)
      pure accepted)
          (calm (in_custody_of boot x))
        ≡ (
          done true,
          calm (record {
            physical_custody = absent;
            external_transfer_custody = x;
            accepted_cancel = file [];
            cancellation_drained = file [];
          }),
        ))
      × ((do end_physical_custody (ok tt); accept_terminal_custody_cancel (ok tt) boot)
            (calm (in_custody_of boot x))
          ≡ (
            done false,
            calm (record {
              physical_custody = absent;
              external_transfer_custody = x;
              accepted_cancel = absent;
              cancellation_drained = absent;
            }),
          ))
unfolding accept_terminal_custody_cancel end_physical_custody end_locked mark_drained
    record_durable_create_once_marker published_or_rolled_back rollback_created_marker sync
    durable_marker_exists pure lift look commit attempt ◌>>=◌
either_order boot x v = (
  ap
      (λ (r : Outcome Bool × World Files).
        continue r.0 r.1 (λ accepted. end_physical_custody (ok tt) >> pure {S = Files} accepted))
      (accept_recorded-live boot x v),
  refl,
)
