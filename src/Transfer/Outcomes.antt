-- ===== src/Transfer/Outcomes.antt =====
-- What one undisturbed transfer records, and how often a helper that cannot be started is tried.
use agent_bash_tool.Common.{ℕ, suc, true, false, []}
use agent_bash_tool.Effects.{ok, World}
use agent_bash_tool.Completion.{ExitStatus}
use agent_bash_tool.Transfer.{
  Disk, Round, request_ok, HelperRun, exited, not_started, not_awaited, helper_outcome,
  with_delivery, reconcile_completion_delivery,
}

-- A transfer of a handle without continuation, outside the live loop and with external custody taken, in
-- which nothing fails but, perhaps, the helper.
abbrev pub clean : ℕ → HelperRun ExitStatus → Round
clean now helper = record {
  now = now;
  continuation = false;
  snapshot = ok false;
  handed_off = ok false;
  pair = ok tt;
  fork = ok tt;
  role = false;
  publish = ok tt;
  prepared = ok tt;
  custodian = ok tt;
  external = true;
  custody = ok true;
  request = request_ok;
  helper = helper;
  reply = exited (ok tt);
  owner_lives = true;
}

abbrev pub started : HelperRun ExitStatus → ℕ → ℕ
started (exited s) n = suc n
started (not_awaited e) n = suc n
started (not_started e) n = n

abbrev pub undisturbed : Disk → World Disk
undisturbed d = record { disk = d; faults = [] }

abbrev recorded : ℕ → HelperRun ExitStatus → ℕ → Disk → Disk
recorded now helper retry_count d = record d {
  meta =
      with_delivery now (helper_outcome helper retry_count)
        (record d.meta { delivery_mode = d.mode_file });
  admissions = started helper d.admissions;
}

abbrev pub after : ℕ → HelperRun ExitStatus → Disk → Disk
after now helper d = ((reconcile_completion_delivery (clean now helper) (undisturbed d)).1).disk
