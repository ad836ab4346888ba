-- ===== src/Publication/Recovery.antt =====
-- The recovery of a registered source without its observer, src/continuation.rs: `reconcile`.
use agent_bash_tool.Common.{
  ◌+◌, Bool, true, false, not, ◌&&◌, Option, none, some, String, ltb, if◌then◌else◌,
}
use agent_bash_tool.Common.Int.{pos}
use agent_bash_tool.Common.Bytes.{codes}
use agent_bash_tool.Effects.{IoError, error_other, Result, ok, err}
use agent_bash_tool.Effects.Actors.{
  Program, returns, fails, ◌>>=◌, ◌>>◌, attempt, lifted, reads, writes, touches,
}
use agent_bash_tool.Meta.{Meta}
use agent_bash_tool.RootProtocol.Json.{Value, str, at, is_text, is_true, value_eq}
use agent_bash_tool.Publication.Basis.{binding, own_fence}
use agent_bash_tool.Publication.Evidence.{Evidence, Observation, Outside, text, with_text}
use agent_bash_tool.Publication.Finish.{finish_observation, finish_snapshot, publish}
use agent_bash_tool.Publication.Immutable.{immutable, is_there, require}
use agent_bash_tool.Publication.Losing.{recover_output}
use agent_bash_tool.Publication.Select.{restore_selected_event}
use agent_bash_tool.Continuation.Files.{
  Binding, Fence, Phase, exact, or_missing, phase_eq, revoked_never_launched, unreleased, with_key,
}

abbrev pub confirmation_file : Evidence → Option Value
confirmation_file d = d.confirmation

abbrev pub put_confirmation : Value → Evidence → Evidence
put_confirmation v d = record d { confirmation = some v }

abbrev pub put_fence : Fence → Evidence → Evidence
put_fence f d = record d { source = record d.source { fence = some f } }

abbrev pub put_local : Value → Evidence → Evidence
put_local v d = record d { source = record d.source { local = some v } }

abbrev pub put_closed : Meta → Evidence → Evidence
put_closed m d = record d { meta = some m }

module _ (o : Outside) where
  abbrev pub may_confirm : Value → Bool
  may_confirm reply =
      is_text (at reply (codes "status")) (codes "exact_committed")
      && is_text (at reply (codes "authority")) (codes "completion_only")
      && is_true (at reply (codes "registration_committed"))

  abbrev pub is_pinned_recovery : Binding → Bool
  is_pinned_recovery b =
      is_text (at (at b.registration (codes "recovery")) (codes "sha256")) o.executable_digest
      && is_text (at (at b.registration (codes "recovery")) (codes "environment_sha256"))
          o.environment_digest

  unfoldable pub transition : Fence → Phase → Program Evidence (Unit {0})
  transition f phase =
      if ltb f.revision 18446744073709551615
      then writes (put_fence (record f { revision = f.revision + 1; phase = phase }))
      else fails (error_other "launch revision overflow")

  abbrev pub is_unreleased : Fence → Bool
  is_unreleased f = phase_eq f.phase unreleased

  -- The part under the launch lock; whether the recovery may go on.
  unfoldable pub close_launch : Value → Fence → Program Evidence Bool
  unfolding transition immutable
  close_launch confirmation fence =
      if is_unreleased fence && not (o.worker_gone fence.registration_worker)
      then returns false
      else do
        if is_unreleased fence then transition fence revoked_never_launched else returns tt
        immutable value_eq confirmation_file put_confirmation confirmation
        returns true

  abbrev pub pending_with : Value → String → Value
  pending_with common reason = with_text (with_text common "status" "pending") "reason" reason

  -- The event is told again from its selection, and the output sought; whether both are there.
  unfoldable pub recover_event : Program Evidence Bool
  unfolding recover_output
  recover_event = do
    frozen ← reads (λ d. is_there d.output)
    if frozen then returns true else recover_output o

  unfoldable pub finish_event : Bool → Program Evidence Bool
  unfolding finish_observation
  finish_event false = returns false
  finish_event true = do
    bundled_already ← reads (λ d. is_there d.chain.bundle)
    if bundled_already then returns tt else finish_observation o
    returns true

  unfoldable pub tell_event : Program Evidence Bool
  unfolding recover_event finish_event
  tell_event = do
    observed ← reads (λ d. is_there d.chain.observation)
    if observed then recover_event >>= finish_event else returns true

  abbrev pub restore_if : Bool → Program Evidence (Unit {0})
  restore_if true = restore_selected_event o
  restore_if false = returns tt

  unfoldable pub restore_missing : Program Evidence (Result (Unit {0}))
  restore_missing = do
    observed ← reads (λ d. is_there d.chain.observation)
    if observed
        then returns (ok tt)
        else reads (λ d. is_there d.chain.selection) >>= (λ selected. attempt (restore_if selected))

  abbrev pub never_launched_meta : Meta → Meta
  never_launched_meta m = record m {
    state = "ERROR";
    rc = some (pos 70);
    completion_reason = some "registration-never-launched";
    completed_at = some o.now;
  }

  abbrev pub never_launched : Observation
  never_launched = record {
    kind = codes "never_launched";
    root_wait_status = none;
    tree_drained = true;
    output_closed = true;
    ready_sentinel = none;
    output_trusted = true;
  }

  abbrev pub put_rc : Evidence → Evidence
  put_rc d = record d { rc = some (pos 70) }

  unfoldable pub publish_never_launched : Program Evidence (Unit {0})
  unfolding publish
  publish_never_launched = do
    file ← reads (λ d. d.meta)
    meta ← lifted (or_missing file)
    publish o (never_launched_meta meta) never_launched
    writes put_rc
    writes (put_closed (never_launched_meta meta))

  unfoldable pub publish_unless_told : Bool → Program Evidence (Unit {0})
  unfolding publish_never_launched
  publish_unless_told told = if told then returns tt else publish_never_launched

  unfoldable pub close_unlaunched : Fence → Program Evidence (Unit {0})
  unfolding publish_unless_told
  close_unlaunched fence =
      if phase_eq fence.phase revoked_never_launched
      then reads (λ d. is_there d.chain.outcome) >>= publish_unless_told
      else returns tt

  unfoldable pub finish_bundled : Program Evidence (Unit {0})
  unfolding finish_snapshot
  finish_bundled = do
    bundled_already ← reads (λ d. is_there d.chain.bundle)
    if bundled_already then finish_snapshot o else returns tt

  abbrev pub is_missing_output : Value → Bool
  is_missing_output snapshot =
      is_text (at (at snapshot (codes "output")) (codes "representation"))
        (codes "missing-original-output-v1")

  abbrev pub ready_status : Value → Value
  ready_status snapshot =
      if is_missing_output snapshot then text "source_output_missing" else text "source_ready"

  unfoldable pub answer_of : Value → Option Value → Program Evidence Value
  answer_of common none = returns (with_text common "status" "pending")
  answer_of common (some snapshot) = do
    file ← reads (λ d. d.chain.outcome)
    outcome ← lifted (or_missing file)
    returns (
        with_key
          (with_key (with_key common (codes "snapshot_sha256") (str (o.digest snapshot)))
            (codes "outcome_sha256") (str (o.digest outcome)))
          (codes "status") (ready_status snapshot))

  unfoldable pub answer_told : Value → Fence → Bool → Program Evidence Value
  unfolding close_unlaunched finish_bundled answer_of
  answer_told common fence false =
      returns (pending_with common "original_output_capture_incomplete")
  answer_told common fence true = do
    close_unlaunched fence
    finish_bundled
    snapshot ← reads (λ d. d.chain.snapshot)
    answer_of common snapshot

  abbrev pub pending_error : Value → IoError → Value
  pending_error common e = pending_with common e.message

  unfoldable pub after_restore : Value → Fence → Result (Unit {0}) → Program Evidence Value
  unfolding tell_event answer_told
  after_restore common fence (err e) = returns (pending_error common e)
  after_restore common fence (ok restored) = tell_event >>= answer_told common fence

  unfoldable pub confirm_local : Program Evidence (Unit {0})
  confirm_local = do
    touches
    file ← reads (λ d. d.source.local)
    local_value ← lifted (or_missing file)
    writes (put_local (with_text local_value "registration" "completion_only_confirmed"))

  unfoldable pub recover_closed : Value → Bool → Program Evidence Value
  unfolding confirm_local restore_missing after_restore
  recover_closed common false = returns (pending_with common "registration_worker_not_proven_gone")
  recover_closed common true = do
    touches
    confirm_local
    file ← reads (λ d. d.source.fence)
    fence ← lifted (or_missing file)
    restored ← restore_missing
    after_restore common fence restored

  -- `reconcile`, of the confirmation that it is given.
  unfoldable pub reconcile : Value → Program Evidence Value
  unfolding binding own_fence close_launch recover_closed
  reconcile confirmation = do
    b ← binding o
    lifted (exact b.common confirmation)
    require (may_confirm confirmation) "no completion-only authority"
    touches
    require (is_pinned_recovery b) "pinned recovery identity conflict"
    touches
    fence ← own_fence o b
    closed ← close_launch confirmation fence
    recover_closed b.common closed
