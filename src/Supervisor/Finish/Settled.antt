-- ===== src/Supervisor/Finish/Settled.antt =====
-- What is settled when the loop records a completion.
use agent_bash_tool.Common.{◌≡◌, ◌⊎◌, true, false, none, some, arith}
use agent_bash_tool.Supervisor.Metadata.{RootStatus, ExitCompletionReason}
use agent_bash_tool.Supervisor.Finish.{
  root, EventLoop, FinishDecision, exited, records_exit, output_closed, finish_decision,
  exit_completion_ready, exit_completion_reason, maybe_finish, settle,
}

-- A recorded exit: the root's status, and all that it waited for.
abbrev pub IsSettled : EventLoop → RootStatus → ExitCompletionReason → Type 0
IsSettled l status reason =
    (l.completion_recorded ≡ false)
    × (l.root_status ≡ some status)
    × (reason ≡ exit_completion_reason l)
    × (output_closed l ≡ true)
    × (l.root_settlement_granted ≡ true)
    × (l.capture_error ≡ none)
    × ((l.tree_empty ≡ true) ⊎ ((l.completion_scope ≡ root) × (l.cancelled ≡ none)))

decision_of :
    (l : EventLoop) (d : FinishDecision) (status : RootStatus) (reason : ExitCompletionReason)
    → settle l.root_settlement_granted l.capture_error d ≡ records_exit status reason
    → (d ≡ exited status reason) × (l.root_settlement_granted ≡ true) × (l.capture_error ≡ none)
decision_of l d status reason h = ground arith

exited_of :
    (l : EventLoop) (status : RootStatus) (reason : ExitCompletionReason)
    → finish_decision l ≡ exited status reason
    → (l.completion_recorded ≡ false)
      × (l.root_status ≡ some status)
      × (exit_completion_ready l ≡ true)
      × (reason ≡ exit_completion_reason l)
unfolding finish_decision
exited_of l status reason h = ground arith

ready_of :
    (l : EventLoop)
    → exit_completion_ready l ≡ true
    → (output_closed l ≡ true)
      × ((l.tree_empty ≡ true) ⊎ ((l.completion_scope ≡ root) × (l.cancelled ≡ none)))
unfolding exit_completion_ready
ready_of l h = ground arith

-- The loop records an exit only where none is recorded, of a root whose status it has, with every output
-- closed, the settlement granted and no capture error, and with the tree empty, unless the completion is
-- scoped to the root and nothing was cancelled.
pub records-IsSettled :
    (l : EventLoop) (status : RootStatus) (reason : ExitCompletionReason)
    → maybe_finish l ≡ records_exit status reason
    → IsSettled l status reason
unfolding maybe_finish
records-IsSettled l status reason h =
    let d = decision_of l (finish_decision l) status reason h in
    let e = exited_of l status reason d.0 in
    let r = ready_of l e.2 in (e.0, e.1, e.3, r.0, d.1, d.2, r.1)
