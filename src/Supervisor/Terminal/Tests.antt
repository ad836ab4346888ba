-- ===== src/Supervisor/Terminal/Tests.antt =====
-- A publication that finds a cancellation on record.
use agent_bash_tool.Common.{◌≡◌, ◌⊎◌, refl, true, false, none, [], ◌∷◌}
use agent_bash_tool.Common.Int.{pos}
use agent_bash_tool.Effects.{ok, done, fine}
use agent_bash_tool.Meta.{sync, terminal}
use agent_bash_tool.Meta.Samples.{running_sample}
use agent_bash_tool.Custody.{absent, file, durable_marker_exists}
use agent_bash_tool.Supervisor.Terminal.{
  HandleDisk, Surroundings, meta_of, exits, live_loop, leave_pending, published, publish_locked,
}
use agent_bash_tool.Supervisor.Metadata.{RootStatus, exit}
use agent_bash_tool.Supervisor.Terminal.Recorded.{calm, IsRecordOf, publish_locked-IsRecordOf}
use agent_bash_tool.Supervisor.Terminal.Accepted.{IsCancelled, accepted_wins}

abbrev around : Surroundings
around = record {
  clock = 9;
  lock = ok tt;
  continuation = false;
  bundle = ok false;
  log_synced = ok tt;
}

abbrev cancelled_disk : HandleDisk
cancelled_disk = record {
  transfer = record { meta = running_sample; mode_file = sync; admissions = 0 };
  files = record {
    physical_custody = absent;
    external_transfer_custody = absent;
    accepted_cancel = file [];
    cancellation_drained = absent;
  };
  rc = none;
}

abbrev status : RootStatus
status = record { raw = pos 0; rc = pos 0; signal = none }

is_accepted : durable_marker_exists cancelled_disk.files.accepted_cancel ≡ ok true
unfolding durable_marker_exists
is_accepted = refl

accepted_wins_example :
    let e =
      ((publish_locked around running_sample
        (exits status exit)
        (live_loop true)
        (record { disk = cancelled_disk; faults = fine ∷ [] })).1
      ).disk in
    (meta_of e ≡ running_sample) ⊎ IsCancelled (live_loop true) e
accepted_wins_example =
    accepted_wins around running_sample (exits status exit) (live_loop true) (fine ∷ [])
      cancelled_disk is_accepted

abbrev running_disk : HandleDisk
running_disk = record cancelled_disk {
  files = record cancelled_disk.files { accepted_cancel = absent };
}

none_accepted : durable_marker_exists running_disk.files.accepted_cancel ≡ ok false
unfolding durable_marker_exists
none_accepted = refl

still_running_sample : terminal (meta_of running_disk) ≡ false
unfolding terminal
still_running_sample = refl

publish_locked-IsRecordOf_example :
    let e =
      publish_locked around running_sample (exits status exit) leave_pending (calm running_disk) in
    (e.0 ≡ done published) × IsRecordOf (exits status exit) running_disk (e.1).disk
publish_locked-IsRecordOf_example =
    publish_locked-IsRecordOf around running_sample (exits status exit) leave_pending running_disk
      refl refl still_running_sample none_accepted refl
