-- ===== src/Activation/Tests.antt =====
-- The first detach of a running handle.
use agent_bash_tool.Common.Bytes.{codes}
use agent_bash_tool.Common.{◌≡◌, ◌⊎◌, refl, true, false, none, [], String}
use agent_bash_tool.Effects.{
  ◌>>?◌, done, ok, error_other, pure, lift, look, commit, in_child, attempt, ◌>>=◌,
}
use agent_bash_tool.RootProtocol.Json.{
  Value, str, bool, array, object, nothing, item, empty, field, value_eq,
}
use agent_bash_tool.Continuation.Files.{Binding, exact, fields_agree}
use agent_bash_tool.Activation.Readback.{
  is_requested, is_committed, committed_by, activation_committed, readback, reads_back,
}
use agent_bash_tool.Activation.Readback.Committed.{IsExited, IsReadBack, IsDone, retried-IsReadBack}
use agent_bash_tool.Meta.{sync}
use agent_bash_tool.Meta.Samples.{running_sample}
use agent_bash_tool.Transfer.{exited, not_started}
use agent_bash_tool.Activation.{
  ActivationDisk, Detach, outcome_of, transfer_outcome, require_settled, settle_orphaned_activation,
  settle_outcome, require_settled_activation, write_mode, write_outcome,
  repair_delivery_mode_mirror,
}
use agent_bash_tool.Activation.Attempt.{
  detach, detach_sync, run_worker, activate, record_attempt, mode_failed, claimed_result,
  pending_failed, run_activation, record_result, retried,
}
use agent_bash_tool.Activation.Settled.{
  IsSettled, detach_settles, is_orphan, calm, settle_leaves_no_orphan,
}

abbrev attached : ActivationDisk
attached = record {
  meta = running_sample;
  mode_file = sync;
  attempted = false;
  outcome = none;
  activations = 0;
}

abbrev accepted : Detach
accepted = record {
  trim = λ (text : String). text;
  clock = 9;
  request = ok tt;
  helper = exited tt;
  continuation = false;
  retry_request = ok tt;
  retry_helper = not_started (error_other "no fork");
  committed = false;
  fork = ok tt;
}

detach_succeeds : (detach accepted (record { disk = attached; faults = [] })).0 ≡ done tt
unfolding detach detach_sync settle_orphaned_activation settle_outcome require_settled_activation
    require_settled run_worker activate record_attempt write_mode write_outcome mode_failed
    claimed_result pending_failed run_activation record_result repair_delivery_mode_mirror
    transfer_outcome pure lift look commit in_child attempt ◌>>=◌
detach_succeeds = refl

detach_settles_example :
    IsSettled accepted.trim ((detach accepted (record { disk = attached; faults = [] })).1).disk
detach_settles_example = detach_settles accepted [] attached detach_succeeds

settle_leaves_no_orphan_example :
    let r =
      settle_orphaned_activation accepted.trim 9 (calm (record attached { attempted = true })) in
    (r.0 ≡ done tt) × (is_orphan (outcome_of accepted.trim (r.1).disk) ≡ false)
settle_leaves_no_orphan_example =
    settle_leaves_no_orphan accepted.trim 9 (record attached { attempted = true })

abbrev registered : Binding
registered = record {
  registration = object (field (codes "owner_invocation_uuid") (str (codes "u")) empty);
  common = object (field (codes "domain_id") (str (codes "d")) empty);
}

abbrev asked_request : Value
asked_request = object (
    field (codes "listener_id") (str (codes "u")) (
      field (codes "requested_at") (str (codes "9")) (
        field (codes "request_basis") (str (codes "explicit_listener_activation_unattributed"))
          empty)))

abbrev committed_reply : Value
committed_reply = object (
    field (codes "domain_id") (str (codes "d")) (
      field (codes "status") (str (codes "exact_committed")) (
        field (codes "registration_committed") (bool true)
          (field (codes "notification_dispositions") (array (item asked_request nothing)) empty))))

read_back : readback (ok registered) (ok committed_reply) ≡ true
unfolding readback activation_committed committed_by is_committed is_requested exact fields_agree
    value_eq ◌>>?◌
read_back = refl

retried_succeeds :
    IsDone
      (retried
        (reads_back (ok registered) (ok committed_reply) accepted)
        (not_started (error_other "no fork"))
        (record { disk = attached; faults = [] })).0
unfolding retried readback activation_committed committed_by is_committed is_requested exact
    fields_agree value_eq ◌>>?◌ write_outcome commit
retried_succeeds = tt

retried-IsReadBack_example :
    IsExited (not_started (error_other "no fork")) ⊎ IsReadBack (ok registered) (ok committed_reply)
retried-IsReadBack_example =
    retried-IsReadBack accepted (ok registered) (ok committed_reply)
      (not_started (error_other "no fork")) (record { disk = attached; faults = [] })
      retried_succeeds
