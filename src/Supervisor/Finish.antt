-- ===== src/Supervisor/Finish.antt =====
-- When the event loop of src/supervisor.rs records a completion and when it leaves: `finish_decision`,
-- `maybe_finish` and `should_exit`, over the fields of `EventLoop` that they read.
pub mod Settled
pub mod Runs
mod Tests
use agent_bash_tool.Common.{
  Bool, true, false, not, ◌&&◌, ◌||◌, Option, none, some, String, if◌then◌else◌,
}
use Prim.Native.String.{◌++◌}
use agent_bash_tool.Completion.{is_some}
use agent_bash_tool.Supervisor.Cancellation.{CancellationCause}
use agent_bash_tool.Supervisor.Metadata.{
  RootStatus, ExitCompletionReason, exit, exit_before_ready, cancellation,
}

pub data CompletionScope : Type 0 where
  root tree : CompletionScope

-- File descriptors and handles count by whether they are there.
pub record EventLoop : Type 0 where
  pub completion_recorded : Bool
  pub spawn_error : Option String
  pub root_status : Option RootStatus
  pub tree_empty : Bool
  pub stdout_open : Bool
  pub stderr_open : Bool
  pub exec_err_open : Bool
  -- the provisional cause
  pub cancelled : Option CancellationCause
  pub sentinel : Bool
  pub completion_scope : CompletionScope
  pub root_settlement_granted : Bool
  pub capture_error : Option String
  pub pending_source : Bool
  pub completion_delivery_settled : Bool
  pub completion_tree_pending : Bool
  pub root_status_pending : Bool
  pub root_control : Bool
  pub root_terminal_sent : Bool

unfoldable pub output_closed : EventLoop → Bool
output_closed l = not l.stdout_open && not l.stderr_open && not l.exec_err_open

abbrev pub is_complete : CompletionScope → Bool → Bool
is_complete root tree_empty = true
is_complete tree tree_empty = tree_empty

abbrev pub or_empty : Option String → String
or_empty none = ""
or_empty (some text) = text

pub data FinishDecision : Type 0 where
  undecided : FinishDecision
  spawn_failed : String → FinishDecision
  exited : RootStatus → ExitCompletionReason → FinishDecision

pub spawn_error_complete : EventLoop → Bool
unfolding output_closed
spawn_error_complete l =
    is_some l.spawn_error && is_some l.root_status && l.tree_empty && output_closed l

pub exit_completion_ready : EventLoop → Bool
unfolding output_closed
exit_completion_ready l =
    if is_some l.cancelled
    then l.tree_empty && output_closed l
    else is_complete l.completion_scope l.tree_empty && output_closed l

abbrev reason_of : Option CancellationCause → Bool → ExitCompletionReason
reason_of (some cause) sentinel = cancellation cause
reason_of none true = exit_before_ready
reason_of none false = exit

pub exit_completion_reason : EventLoop → ExitCompletionReason
exit_completion_reason l = reason_of l.cancelled l.sentinel

abbrev decide_exit : EventLoop → Option RootStatus → FinishDecision
decide_exit l none = undecided
decide_exit l (some root_status) =
    if not (exit_completion_ready l)
    then undecided
    else exited root_status (exit_completion_reason l)

pub finish_decision : EventLoop → FinishDecision
unfolding spawn_error_complete exit_completion_ready exit_completion_reason
finish_decision l =
    if l.completion_recorded
    then undecided
    else if spawn_error_complete l
    then spawn_failed ("workload spawn failed: " ++ or_empty l.spawn_error)
    else decide_exit l l.root_status

-- What `maybe_finish` does: nothing, announce that the root is ready, or record.
pub data Finish : Type 0 where
  waits announces : Finish
  records_error : String → Finish
  records_exit : RootStatus → ExitCompletionReason → Finish

abbrev message_or : Option String → String → String
message_or none message = message
message_or (some error) message = error

abbrev granted : Option String → FinishDecision → Finish
granted error undecided = waits
granted error (spawn_failed message) = records_error (message_or error message)
granted none (exited root_status reason) = records_exit root_status reason
granted (some error) (exited root_status reason) = records_error error

abbrev settle : Bool → Option String → FinishDecision → Finish
settle granted_settlement error undecided = waits
settle false error decision = announces
settle true error decision = granted error decision

pub maybe_finish : EventLoop → Finish
unfolding finish_decision
maybe_finish l = settle l.root_settlement_granted l.capture_error (finish_decision l)

pub should_exit : EventLoop → Bool
unfolding output_closed
should_exit l =
    l.completion_recorded
    && not l.pending_source
    && l.completion_delivery_settled
    && (not l.completion_tree_pending || l.tree_empty)
    && not l.root_status_pending
    && is_some l.root_status
    && is_complete l.completion_scope l.tree_empty
    && (not l.root_control || l.tree_empty)
    && (not l.root_control || l.root_terminal_sent)
    && output_closed l
