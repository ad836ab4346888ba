-- ===== src/Supervisor/Terminal/Recorded.antt =====
-- What a publication that nothing disturbs records.
use agent_bash_tool.Common.{
  ◌≡◌, refl, ap, subst, sym, true, false, Bool, Option, none, some, String, [], arith,
}
use agent_bash_tool.Effects.{World, Outcome, ok, done, pure, lift, look, commit, ◌>>=◌}
use agent_bash_tool.Meta.{Meta, terminal}
use agent_bash_tool.Custody.{durable_marker_exists}
use agent_bash_tool.Transfer.{stored}
use agent_bash_tool.Common.Int.{ℤ, pos}
use agent_bash_tool.Supervisor.Cancellation.{
  CancellationCause, completion_reason, from_completion_reason,
}
use agent_bash_tool.Supervisor.Cancellation.Order.{reason_roundtrip}
use agent_bash_tool.Supervisor.Metadata.{
  exit, exit_before_ready, cancellation, apply_ready_sentinel_metadata, apply_terminal_metadata,
  terminal_status, apply_cancellation_metadata, apply_supervisor_error_metadata,
  apply_lost_supervisor_metadata, cancellation_terminal_status,
}
use agent_bash_tool.Supervisor.Terminal.{
  TerminalProposal, Disposition, claim_pending, leave_pending, live_loop, HandleDisk, Surroundings,
  meta_of, published, drain_first, write_terminal, publish_final, publish_unless_terminal,
  publish_locked, apply_proposal, or_software, ready_sentinel, exits, cancels, supervisor_error,
  supervisor_lost, PublishResult,
}

abbrev pub calm : HandleDisk → World HandleDisk
calm d = record { disk = d; faults = [] }

abbrev pub in_empty_tree : Disposition → Bool
in_empty_tree (live_loop b) = b
in_empty_tree _ = false

-- The proposal applied to the caller's metadata with the delivery on record, and its exit code.
abbrev recorded : Surroundings → Meta → TerminalProposal → HandleDisk → HandleDisk
recorded s m p d =
    let n = apply_proposal s.clock p (record m { delivery = (meta_of d).delivery }) in
    record d { rc = some (or_software n.rc); transfer = stored n d.transfer }

-- On a record that is not terminal, with no cancellation on record, the locks and the log answering, no
-- file operation failing, and not from a live loop with an empty tree, the proposal itself is published.
publish_locked-calm :
    (s : Surroundings) (m : Meta) (p : TerminalProposal) (v : Disposition) (d : HandleDisk)
    → s.lock ≡ ok tt
    → s.log_synced ≡ ok tt
    → terminal (meta_of d) ≡ false
    → durable_marker_exists (d.files).accepted_cancel ≡ ok false
    → in_empty_tree v ≡ false
    → publish_locked s m p v (calm d) ≡ (done published, calm (recorded s m p d))
unfolding publish_locked publish_unless_terminal publish_final drain_first write_terminal pure lift
    look commit ◌>>=◌
publish_locked-calm s m p claim_pending d l g t a e = rw (l, t, a, g) refl
publish_locked-calm s m p leave_pending d l g t a e = rw (l, t, a, g) refl
publish_locked-calm s m p (live_loop false) d l g t a e = rw (l, t, a, g) refl
publish_locked-calm s m p (live_loop true) d l g t a e = absurd (ground arith)

-- The cause of a cancellation, if the proposal is one.
abbrev pub cause_of : TerminalProposal → Option CancellationCause
cause_of (ready_sentinel now) = none
cause_of (exits status exit) = none
cause_of (exits status exit_before_ready) = none
cause_of (exits status (cancellation cause)) = some cause
cause_of (cancels cause) = some cause
cause_of (supervisor_error message) = none
cause_of supervisor_lost = none

-- The exit code that the caller of the tool is told: the root's own, 128 + SIGTERM of a cancellation, and
-- EX_SOFTWARE where the supervisor failed.
abbrev pub exit_code_of : TerminalProposal → ℤ
exit_code_of (ready_sentinel now) = pos 0
exit_code_of (exits status exit) = status.rc
exit_code_of (exits status exit_before_ready) = status.rc
exit_code_of (exits status (cancellation cause)) = pos 143
exit_code_of (cancels cause) = pos 143
exit_code_of (supervisor_error message) = pos 70
exit_code_of supervisor_lost = pos 70

abbrev cause_read : Option String → Option CancellationCause
cause_read none = none
cause_read (some reason) = from_completion_reason reason

-- What is on record of an end: that it is one, its cause as a reader of the reason finds it, its code in
-- the metadata and in the `rc` file, and the delivery that was on record before.
pub record IsRecordOf (p : TerminalProposal) (before after : HandleDisk) : Type 0 where
  pub is_terminal : terminal (meta_of after) ≡ true
  pub cause : cause_read (meta_of after).completion_reason ≡ cause_of p
  pub code : (meta_of after).rc ≡ some (exit_code_of p)
  pub code_file : after.rc ≡ some (exit_code_of p)
  pub same_delivery : (meta_of after).delivery ≡ (meta_of before).delivery
  pub same_custody : after.files ≡ before.files

written_cause : (c : CancellationCause) → from_completion_reason (completion_reason c) ≡ some c
written_cause c = (reason_roundtrip (completion_reason c) c).1 refl

kept :
    (p : TerminalProposal) (before after : HandleDisk)
    → terminal (meta_of after) ≡ true
    → cause_read (meta_of after).completion_reason ≡ cause_of p
    → (meta_of after).rc ≡ some (exit_code_of p)
    → after.rc ≡ some (exit_code_of p)
    → (meta_of after).delivery ≡ (meta_of before).delivery
    → after.files ≡ before.files
    → IsRecordOf p before after
kept p before after is_terminal cause code code_file same_delivery same_custody = record {
  is_terminal = is_terminal;
  cause = cause;
  code = code;
  code_file = code_file;
  same_delivery = same_delivery;
  same_custody = same_custody;
}

recorded-IsRecordOf :
    (s : Surroundings) (m : Meta) (p : TerminalProposal) (d : HandleDisk)
    → IsRecordOf p d (recorded s m p d)
unfolding apply_proposal apply_ready_sentinel_metadata apply_terminal_metadata terminal_status
    apply_cancellation_metadata apply_supervisor_error_metadata apply_lost_supervisor_metadata
    cancellation_terminal_status terminal from_completion_reason
recorded-IsRecordOf s m (ready_sentinel now) d = kept _ d _ refl refl refl refl refl refl
recorded-IsRecordOf s m (exits status exit) d = kept _ d _ refl refl refl refl refl refl
recorded-IsRecordOf s m (exits status exit_before_ready) d =
    kept _ d _ refl refl refl refl refl refl
recorded-IsRecordOf s m (exits status (cancellation cause)) d =
    kept _ d _ refl (written_cause cause) refl refl refl refl
recorded-IsRecordOf s m (cancels cause) d =
    kept _ d _ refl (written_cause cause) refl refl refl refl
recorded-IsRecordOf s m (supervisor_error message) d = kept _ d _ refl refl refl refl refl refl
recorded-IsRecordOf s m supervisor_lost d = kept _ d _ refl refl refl refl refl refl

-- On a record that is not terminal, with no cancellation on record, the locks and the log answering, no
-- file operation failing, and not from a live loop with an empty tree, the record becomes terminal: its
-- reason is read back as the cause of a cancellation exactly where the proposal is one of that cause, its
-- code and the `rc` file agree on the code of the end, and the delivery and the custody files on record
-- are kept.
pub publish_locked-IsRecordOf :
    (s : Surroundings) (m : Meta) (p : TerminalProposal) (v : Disposition) (d : HandleDisk)
    → s.lock ≡ ok tt
    → s.log_synced ≡ ok tt
    → terminal (meta_of d) ≡ false
    → durable_marker_exists (d.files).accepted_cancel ≡ ok false
    → in_empty_tree v ≡ false
    → let e = publish_locked s m p v (calm d) in (e.0 ≡ done published) × IsRecordOf p d (e.1).disk
publish_locked-IsRecordOf s m p v d l g t a e =
    let run = publish_locked-calm s m p v d l g t a e in
    (
      ap (λ (x : Outcome PublishResult × World HandleDisk). x.0) run,
      subst (λ (x : Outcome PublishResult × World HandleDisk). IsRecordOf p d (x.1).disk) (sym run)
          (recorded-IsRecordOf s m p d),
    )
