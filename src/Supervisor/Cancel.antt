-- ===== src/Supervisor/Cancel.antt =====
-- `request_cancel` of src/supervisor.rs: where a cancellation is admitted, and what the requester learns.
pub mod Durable
mod Tests
use agent_bash_tool.Common.{Bool, true, false, ◌&&◌, Option, none, some, String, if◌then◌else◌}
use agent_bash_tool.Effects.{IoError, Result, ok, err, Exec, pure, lift, look, attempt, ◌>>=◌, ◌>>◌}
use agent_bash_tool.Meta.{Meta, terminal}
use agent_bash_tool.Custody.{
  Text, Files, at_accepted, record_durable_create_once_marker, accept_terminal_custody_cancel,
}
use agent_bash_tool.Transfer.{Round}
use agent_bash_tool.Supervisor.Terminal.{
  HandleDisk, Surroundings, meta_of, on_files, claim_pending, reconcile_lost_supervisor,
}

pub data CancelWake : Type 0 where
  not_requested custody_polling sent supervisor_gone wake_failed : CancelWake

pub record CancelOutcome : Type 0 where
  pub requested : Bool
  pub wake : CancelWake
  pub wake_error : Option String

abbrev pub was_not_requested : CancelOutcome
was_not_requested = record { requested = false; wake = not_requested; wake_error = none }

-- What the signal to the captured supervisor gives; `no_process` is ESRCH.
pub data WakeResult : Type 0 where
  delivered : WakeResult
  no_process undelivered : String → WakeResult

-- The environment of a request: the metadata waited for, the completion lock, whether the recorded
-- supervisor could be captured, the custody lock and the running boot, and the wake.
pub record Request : Type 0 where
  pub awaited : Result Meta
  pub lock : Result (Unit {0})
  pub captured : Result Bool
  pub custody_lock : Result (Unit {0})
  pub boot : Text
  pub woken : WakeResult
  -- of the reconciliation that may follow, with the lock that it takes
  pub reconciliation_lock : Result (Unit {0})
  pub around : Surroundings
  pub round : Round
  pub gone : Meta → Bool

terminal_outcome : Bool → CancelOutcome
terminal_outcome false = was_not_requested
terminal_outcome true = record { requested = true; wake = custody_polling; wake_error = none }

-- `request_terminal_cancel`
pub request_terminal_cancel : Request → Exec HandleDisk CancelOutcome
unfolding terminal_outcome
request_terminal_cancel q = do
  accepted ← on_files (accept_terminal_custody_cancel q.custody_lock q.boot)
  pure (terminal_outcome accepted)

-- `reconcile_lost_supervisor`, that claims the delivery
reconcile : Request → Exec HandleDisk (Unit {0})
reconcile q = do
  lift q.reconciliation_lock
  reconcile_lost_supervisor q.round q.around q.gone claim_pending false

after_gone : CancelOutcome → Result (Unit {0}) → CancelOutcome
after_gone outcome (ok _) = outcome
after_gone outcome (err e) = record outcome {
  wake_error = some "supervisor gone; reconciliation failed";
}

woken_outcome : Request → WakeResult → Exec HandleDisk CancelOutcome
unfolding after_gone reconcile
woken_outcome q delivered = pure (record { requested = true; wake = sent; wake_error = none })
woken_outcome q (undelivered text) =
    pure (record { requested = true; wake = wake_failed; wake_error = some text })
woken_outcome q (no_process text) = do
  reconciled ← attempt (reconcile q)
  pure (
      after_gone (record { requested = true; wake = supervisor_gone; wake_error = some text })
        reconciled)

-- The supervisor is not there to be woken.
lost_outcome : Request → CancelOutcome → Exec HandleDisk CancelOutcome
unfolding reconcile
lost_outcome q outcome =
    if outcome.requested then pure outcome else (do reconcile q; pure was_not_requested)

with_supervisor : Request → Bool → Exec HandleDisk CancelOutcome
unfolding woken_outcome lost_outcome request_terminal_cancel
with_supervisor q true = do
  on_files (record_durable_create_once_marker at_accepted)
  woken_outcome q q.woken
with_supervisor q false = do
  outcome ← (if (q.around).continuation then request_terminal_cancel q else pure was_not_requested)
  lost_outcome q outcome

-- `request_cancel_using`
pub request_cancel : Request → Exec HandleDisk CancelOutcome
unfolding with_supervisor request_terminal_cancel
request_cancel q = do
  first ← lift q.awaited
  if terminal first then request_terminal_cancel q else (do
    lift q.lock
    current ← look meta_of
    if terminal current
        then request_terminal_cancel q
        else (do captured ← lift q.captured; with_supervisor q captured))
