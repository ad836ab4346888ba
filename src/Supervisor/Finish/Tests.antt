-- ===== src/Supervisor/Finish/Tests.antt =====
-- A loop whose root ended, and the end of which is deferred once.
use agent_bash_tool.Common.{◌≡◌, refl, ap, true, false, none, some, [], ◌∷◌}
use agent_bash_tool.Common.Int.{pos}
use agent_bash_tool.Supervisor.Metadata.{RootStatus, exit, cancellation}
use agent_bash_tool.Supervisor.Finish.{
  EventLoop, tree, records_exit, maybe_finish, should_exit, finish_decision, spawn_error_complete,
  exit_completion_ready, exit_completion_reason, output_closed,
}
use agent_bash_tool.Supervisor.Terminal.{published, deferred_for_accepted_cancel}
use agent_bash_tool.Supervisor.Cancellation.{
  explicit_request, with_observed_explicit_cancel, with_precedence_over,
}
use agent_bash_tool.Supervisor.Finish.Runs.{
  Run, begins, publishes, defers, is_end, would_block, request_cancellation,
  integrate_terminal_publication,
}
use agent_bash_tool.Supervisor.Finish.Runs.Once.{IsOnce, Run-IsOnce}

abbrev status : RootStatus
status = record { raw = pos 0; rc = pos 0; signal = none }

abbrev ended : EventLoop
ended = record {
  completion_recorded = false;
  spawn_error = none;
  root_status = some status;
  tree_empty = true;
  stdout_open = false;
  stderr_open = false;
  exec_err_open = false;
  cancelled = none;
  sentinel = false;
  completion_scope = tree;
  root_settlement_granted = true;
  capture_error = none;
  pending_source = false;
  completion_delivery_settled = true;
  completion_tree_pending = false;
  root_status_pending = false;
  root_control = false;
  root_terminal_sent = false;
}

ended_records : maybe_finish ended ≡ records_exit status exit
unfolding maybe_finish finish_decision spawn_error_complete exit_completion_ready
    exit_completion_reason output_closed
ended_records = refl

-- The end is deferred to an accepted cancellation, and then published.
abbrev once_deferred : EventLoop
once_deferred = integrate_terminal_publication deferred_for_accepted_cancel would_block true ended

deferred_end : maybe_finish once_deferred ≡ records_exit status (cancellation explicit_request)
unfolding maybe_finish finish_decision spawn_error_complete exit_completion_ready
    exit_completion_reason output_closed integrate_terminal_publication request_cancellation
    with_observed_explicit_cancel with_precedence_over
deferred_end = refl

two_turns :
    Run ended true
      (record { loop = once_deferred; finish = maybe_finish once_deferred } ∷ [])
      (integrate_terminal_publication published would_block true once_deferred)
two_turns =
    publishes would_block true (defers would_block true begins (ap is_end ended_records))
      (ap is_end deferred_end)

recorded_leaves : should_exit (record ended { completion_recorded = true }) ≡ true
unfolding should_exit output_closed
recorded_leaves = refl

Run-IsOnce_example :
    IsOnce true
      (record { loop = once_deferred; finish = maybe_finish once_deferred } ∷ [])
      (integrate_terminal_publication published would_block true once_deferred)
Run-IsOnce_example = Run-IsOnce ended _ true _ two_turns
