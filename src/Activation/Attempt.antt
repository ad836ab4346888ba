-- ===== src/Activation/Attempt.antt =====
-- `detach` of src/delivery.rs, under the delivery lock, with the helper that it starts and the retry of an
-- attempt whose outcome is uncertain. The marker of an attempt is one durable step here: where its write
-- fails, the code takes it back.
use agent_bash_tool.Activation.{
  ActivationDisk, ActivationTransferOutcome, failed_with, transfer_outcome_unknown,
  activation_pending, activation_succeeded, pre_admission_failed_prefix, outcome_of, Detach,
  write_outcome, write_mode, same_mode, repair_delivery_mode_mirror, settle_orphaned_activation,
  require_settled_activation,
}
use Prim.Native.String.{◌++◌}
use agent_bash_tool.Common.{suc, Bool, true, false, not, ◌&&◌, if◌then◌else◌}
use agent_bash_tool.Effects.{
  IoError, error_other, Result, ok, err, Exec, pure, raise, lift, look, commit, in_child, attempt,
  ◌>>=◌, ◌>>◌,
}
use agent_bash_tool.Meta.{async}
use agent_bash_tool.Transfer.{HelperRun, exited, not_started, not_awaited}

unfoldable pub run_activation : HelperRun (Unit {0}) → Exec ActivationDisk (HelperRun (Unit {0}))
run_activation (exited u) = do
  commit (λ d. record d { activations = suc d.activations })
  pure (exited u)
run_activation (not_awaited e) = do
  commit (λ d. record d { activations = suc d.activations })
  pure (not_awaited e)
run_activation (not_started e) = pure (not_started e)

unfoldable pub record_result : Detach → HelperRun (Unit {0}) → Exec ActivationDisk (Unit {0})
unfolding write_outcome settle_orphaned_activation repair_delivery_mode_mirror
record_result q (not_started e) = do
  write_outcome (pre_admission_failed_prefix ++ (e.message ++ "\n"))
  settle_orphaned_activation q.trim q.clock
  raise e
record_result q (not_awaited e) = do
  write_outcome ("failed: " ++ (e.message ++ "\n"))
  repair_delivery_mode_mirror q.clock async
  raise e
record_result q (exited u) = do
  write_outcome activation_succeeded
  repair_delivery_mode_mirror q.clock async
  pure tt

unfoldable pub pending_failed : Detach → Result (Unit {0}) → Exec ActivationDisk (Unit {0})
unfolding settle_orphaned_activation
pending_failed q (ok u) = pure tt
pending_failed q (err e) = do settle_orphaned_activation q.trim q.clock; raise e

unfoldable pub claimed_result : Detach → Bool → Exec ActivationDisk (HelperRun (Unit {0}))
unfolding run_activation require_settled_activation write_outcome pending_failed
claimed_result q false = do require_settled_activation q.trim; pure (exited tt)
claimed_result q true = do
  written ← attempt (write_outcome activation_pending)
  pending_failed q written
  run_activation q.helper

-- A failed write of the mode gives the attempt back, ignoring a failure to do so.
unfoldable pub mode_failed : Bool → Result (Unit {0}) → Exec ActivationDisk (Unit {0})
mode_failed claimed (ok u) = pure tt
mode_failed false (err e) = raise e
mode_failed true (err e) = do
  attempt (commit (λ (d : ActivationDisk). record d { attempted = false }))
  raise e

unfoldable pub record_attempt : Exec ActivationDisk Bool
record_attempt = do
  attempted ← look (λ (d : ActivationDisk). d.attempted)
  if attempted
      then pure false
      else (do commit (λ (d : ActivationDisk). record d { attempted = true }); pure true)

-- The operation of the forked worker.
unfoldable pub activate : Detach → Exec ActivationDisk (Unit {0})
unfolding record_attempt write_mode mode_failed claimed_result record_result
activate q = do
  claimed ← record_attempt
  written ← attempt (write_mode async)
  mode_failed claimed written
  result ← claimed_result q claimed
  record_result q result

abbrev worker_failed : IoError
worker_failed = error_other "delivery transfer worker failed"

-- `run_delivery_transfer_worker_holding_lock`
unfoldable pub run_worker :
    Detach → Exec ActivationDisk (Unit {0}) → Exec ActivationDisk (Result (Unit {0}))
run_worker q m = elim q.fork [ ok u ↦ in_child worker_failed m | err e ↦ pure (err e) ]

unfoldable pub retried : Detach → HelperRun (Unit {0}) → Exec ActivationDisk (Unit {0})
unfolding write_outcome
retried q (exited u) = write_outcome activation_succeeded
retried q (not_started e) = if q.committed then write_outcome activation_succeeded else raise e
retried q (not_awaited e) = if q.committed then write_outcome activation_succeeded else raise e

retry : Detach → Exec ActivationDisk (Unit {0})
unfolding run_activation retried
retry q = do result ← run_activation q.retry_helper; retried q result

abbrev is_uncertain : ActivationTransferOutcome → Bool
is_uncertain (failed_with error) = true
is_uncertain transfer_outcome_unknown = true
is_uncertain _ = false

pub retry_uncertain_activation : Detach → Exec ActivationDisk (Unit {0})
unfolding run_worker retry
retry_uncertain_activation q = do
  outcome ← look (outcome_of q.trim)
  if not (q.continuation && is_uncertain outcome)
      then pure tt
      else (do lift q.retry_request; status ← run_worker q (retry q); lift status)

unfoldable pub detach_async : Detach → Exec ActivationDisk (Unit {0})
unfolding retry_uncertain_activation require_settled_activation repair_delivery_mode_mirror
detach_async q = do
  retry_uncertain_activation q
  require_settled_activation q.trim
  repair_delivery_mode_mirror q.clock async
  pure tt

unfoldable pub detach_sync : Detach → Exec ActivationDisk (Unit {0})
unfolding run_worker activate settle_orphaned_activation require_settled_activation
detach_sync q = do
  lift q.request
  status ← run_worker q (activate q)
  settle_orphaned_activation q.trim q.clock
  require_settled_activation q.trim
  lift status

-- `detach`, the delivery lock being held, up to the text of its answer.
unfoldable pub detach : Detach → Exec ActivationDisk (Unit {0})
unfolding detach_async detach_sync settle_orphaned_activation
detach q = do
  settle_orphaned_activation q.trim q.clock
  mode ← look (λ (d : ActivationDisk). d.mode_file)
  if same_mode mode async then detach_async q else detach_sync q
