-- ===== src/Supervisor/Cancel/Tests.antt =====
-- A request that reaches a live supervisor.
use agent_bash_tool.Common.{◌≡◌, refl, true, false, none, [], ◌∷◌}
use agent_bash_tool.Effects.{ok, done, fine, error_other, pure, lift, look, zoom, ◌>>=◌}
use agent_bash_tool.Meta.{sync, terminal}
use agent_bash_tool.Meta.Samples.{running_sample}
use agent_bash_tool.Custody.{absent, file, record_durable_create_once_marker}
use agent_bash_tool.Transfer.{not_started}
use agent_bash_tool.Transfer.Outcomes.{clean}
use agent_bash_tool.Supervisor.Terminal.{HandleDisk}
use agent_bash_tool.Supervisor.Terminal.Keeps.{IsRequested}
use agent_bash_tool.Supervisor.Cancel.{
  Request, CancelOutcome, sent, delivered, request_cancel, with_supervisor, woken_outcome,
}
use agent_bash_tool.Supervisor.Cancel.Durable.{told_requested}

abbrev asked : Request
asked = record {
  awaited = ok running_sample;
  lock = ok tt;
  captured = ok true;
  custody_lock = ok tt;
  boot = [];
  woken = delivered;
  reconciliation_lock = ok tt;
  around = record {
    clock = 9;
    lock = ok tt;
    continuation = false;
    bundle = ok false;
    log_synced = ok tt;
  };
  round = clean 9 (not_started (error_other "no fork"));
  gone = λ m. false;
}

-- A second request, after one that is on record.
abbrev cancelled_disk : HandleDisk
cancelled_disk = record {
  transfer = record { meta = running_sample; mode_file = sync; admissions = 0 };
  files = record {
    physical_custody = absent;
    external_transfer_custody = absent;
    accepted_cancel = file [];
    cancellation_drained = absent;
  };
  rc = none;
}

abbrev told : CancelOutcome
told = record { requested = true; wake = sent; wake_error = none }

asked_answered :
    (request_cancel asked (record { disk = cancelled_disk; faults = fine ∷ [] })).0 ≡ done told
unfolding request_cancel with_supervisor woken_outcome terminal record_durable_create_once_marker
    pure lift look zoom ◌>>=◌
asked_answered = refl

told_requested_example :
    IsRequested
      ((request_cancel asked (record { disk = cancelled_disk; faults = fine ∷ [] })).1).disk
told_requested_example = told_requested asked (fine ∷ []) cancelled_disk told asked_answered refl
