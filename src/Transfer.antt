-- ===== src/Transfer.antt =====
-- One completion transfer of src/delivery.rs: claiming it under the delivery lock, the worker that runs
-- the helper, and the integration of what became of the worker. The durable state is the handle's
-- metadata; `admissions` counts the helper processes that were started, which the code cannot see.
-- What the environment answers is a `Round`.
pub mod Safety
pub mod Once
pub mod Outcomes
mod Tests
use agent_bash_tool.Common.{
  ℕ, suc, ◌+◌, Bool, true, false, not, ◌&&◌, ◌||◌, Option, none, some, min, List, [], ◌∷◌,
  if◌then◌else◌,
}
use agent_bash_tool.Effects.{
  IoError, error_other, Result, ok, err, World, Exec, pure, raise, lift, look, commit, in_child,
  attempt, ◌>>=◌, ◌>>◌,
}
use agent_bash_tool.Completion.{
  CompletionDelivery, Lifecycle, unclaimed, provisional_transfer, retryable_pre_admission_failure,
  permits_attempt, completion_lifecycle, from_unknown_transfer, from_status, from_error,
  from_launch_error, from_owner_launch_error, from_helper_error, provisional, HelperError,
  helper_error_text, ExitStatus, code,
}
use agent_bash_tool.Common.Int.{pos}
use agent_bash_tool.Meta.{Meta, DeliveryMode, touch}

pub record Disk : Type 0 where
  pub meta : Meta
  -- the `delivery_mode` file
  pub mode_file : DeliveryMode
  pub admissions : ℕ

-- `DeliveryHelperCommandError`, and what starting and awaiting a helper gives.
pub data HelperRun (A : Type 0) : Type 0 where
  exited : A → HelperRun A
  not_started not_awaited : IoError → HelperRun A

pub data Request : Type 0 where
  request_ok : Request
  request_fails : HelperError → Request

pub record Round : Type 0 where
  pub now : ℕ
  -- `continuation::enabled`, the snapshot's `try_exists`, and `continuation::handed_off`
  pub continuation : Bool
  pub snapshot : Result Bool
  pub handed_off : Result Bool
  -- the socket pair, `fork`, and `delivery_role`'s `enabled` and `publish`
  pub pair : Result (Unit {0})
  pub fork : Result (Unit {0})
  pub role : Bool
  pub publish : Result (Unit {0})
  -- in the worker: the admission gate and `prepare_completion_worker`, and the custodian's own fork
  pub prepared : Result (Unit {0})
  pub custodian : Result (Unit {0})
  -- whether the helper may run outside the live loop, and `begin_external_transfer_custody`
  pub external : Bool
  pub custody : Result Bool
  pub request : Request
  pub helper : HelperRun ExitStatus
  -- the structured helper, whose reply `continuation::accept` judges
  pub reply : HelperRun (Result (Unit {0}))
  -- whether the process that started the transfer is still there to integrate its result
  pub owner_lives : Bool

pub data CompletionStart : Type 0 where
  busy settled : CompletionStart
  running : Meta → ℕ → CompletionStart

-- What `state::write_meta_atomic` stores: the delivery mode is that of its own file.
abbrev pub stored : Meta → Disk → Disk
stored m d = record d { meta = record m { delivery_mode = d.mode_file } }

-- `state::write_meta_atomic`
pub write_meta : Meta → Exec Disk (Unit {0})
write_meta m = commit (stored m)

abbrev with_delivery : ℕ → CompletionDelivery → Meta → Meta
with_delivery now delivery m = touch now (record m { delivery = delivery })

-- The outcome that integration records for a worker that failed, or `none` where one is recorded.
abbrev after_lost_worker : Lifecycle → IoError → ℕ → Option CompletionDelivery
after_lost_worker unclaimed e n = some (from_owner_launch_error e n)
after_lost_worker retryable_pre_admission_failure e n = some (from_owner_launch_error e n)
after_lost_worker provisional_transfer e n = some (from_unknown_transfer e n)
after_lost_worker _ e n = none

abbrev integrate_with : ℕ → Meta → Option CompletionDelivery → Exec Disk Meta
integrate_with now observed none = pure observed
integrate_with now observed (some delivery) = do
  write_meta (with_delivery now delivery observed)
  pure (with_delivery now delivery observed)

integrate_after : ℕ → Meta → Result (Unit {0}) → ℕ → Exec Disk Meta
integrate_after now observed (ok _) retry_count = pure observed
integrate_after now observed (err e) retry_count =
    integrate_with now observed
      (after_lost_worker (completion_lifecycle observed.delivery) e retry_count)

-- `integrate_completion_transfer`, with the metadata that it hands back.
pub integrate_completion_transfer : ℕ → Result (Unit {0}) → ℕ → Exec Disk Meta
unfolding integrate_after write_meta
integrate_completion_transfer now worker_result retry_count = do
  observed ← look (λ d. d.meta)
  integrate_after now observed worker_result retry_count

-- `with_external_transfer_custody`, around starting a helper.
abbrev pub in_custody {ℓ} : {A : Type ℓ} → Bool → Result Bool → (IoError → A) → A → A
in_custody false custody refused run = run
in_custody true (ok owned) refused run = run
in_custody true (err e) refused run = refused e

-- The child process exists from here on, unless it was not started. A fault here is the loss of the
-- worker just before or just after its child starts.
admit : {A : Type 0} → HelperRun A → Exec Disk (HelperRun A)
admit (exited a) = do commit (λ d. record d { admissions = suc d.admissions }); pure (exited a)
admit (not_awaited e) = do
  commit (λ d. record d { admissions = suc d.admissions })
  pure (not_awaited e)
admit (not_started e) = pure (not_started e)

abbrev helper_outcome : HelperRun ExitStatus → ℕ → CompletionDelivery
helper_outcome (exited status) retry_count = from_status status
helper_outcome (not_started e) retry_count = from_launch_error e retry_count
helper_outcome (not_awaited e) retry_count = from_error e

-- `run_structured_helper(..).and_then(accept)`: both kinds of error are the helper's.
abbrev reply_outcome : HelperRun (Result (Unit {0})) → CompletionDelivery
reply_outcome (exited (ok _)) = from_status (code (pos 0))
reply_outcome (exited (err e)) = from_error e
reply_outcome (not_started e) = from_error e
reply_outcome (not_awaited e) = from_error e

run_helper : Round → Meta → ℕ → Exec Disk (Unit {0})
unfolding write_meta admit
run_helper r persisted retry_count = do
  write_meta (with_delivery r.now provisional persisted)
  result ← admit (in_custody r.external r.custody not_started r.helper)
  write_meta (with_delivery r.now (helper_outcome result retry_count) persisted)

-- `execute_continuation_transfer`
execute_continuation_transfer : Round → Meta → Request → Exec Disk (Unit {0})
unfolding write_meta admit
execute_continuation_transfer r persisted (request_fails e) =
    raise (error_other (helper_error_text e))
execute_continuation_transfer r persisted request_ok = do
  write_meta (record persisted { delivery = provisional })
  result ← admit (in_custody r.external r.custody not_started r.reply)
  write_meta (with_delivery r.now (reply_outcome result) persisted)

execute_with : Round → Meta → ℕ → Request → Exec Disk (Unit {0})
unfolding write_meta run_helper
execute_with r persisted retry_count (request_fails e) =
    write_meta (with_delivery r.now (from_helper_error e retry_count) persisted)
execute_with r persisted retry_count request_ok = run_helper r persisted retry_count

-- `execute_completion_transfer`
pub execute_completion_transfer : Round → Meta → ℕ → Exec Disk (Unit {0})
unfolding execute_continuation_transfer execute_with
execute_completion_transfer r persisted retry_count =
    if r.continuation
    then execute_continuation_transfer r persisted r.request
    else execute_with r persisted retry_count r.request

abbrev worker_failed : IoError
worker_failed = error_other "delivery transfer worker failed"

-- `run_custodian`, over the transfer: the work in a worker below it, then its outcome.
under_custodian : Round → Meta → ℕ → Exec Disk (Unit {0})
under_custodian r persisted retry_count = do
  lift r.custodian
  status ← in_child worker_failed (execute_completion_transfer r persisted retry_count)
  integrate_completion_transfer r.now status retry_count
  pure tt

-- The forked child of `start_completion_delivery`: the gate, then the transfer, either itself or in a
-- worker below a role custodian that integrates the worker's status.
pub worker : Round → Meta → ℕ → Exec Disk (Unit {0})
unfolding under_custodian
worker r persisted retry_count = do
  lift r.prepared
  if r.role
      then under_custodian r persisted retry_count
      else execute_completion_transfer r persisted retry_count

-- `retry_count.saturating_add(1)` on a `u8`, for a retry.
abbrev next_retry_count : Lifecycle → ℕ → ℕ
next_retry_count retryable_pre_admission_failure n = min 255 (n + 1)
next_retry_count _ n = n

-- A provisional record that nobody owns any more is closed as unknown.
close_orphan : Round → Meta → Lifecycle → Exec Disk Meta
unfolding write_meta
close_orphan r persisted provisional_transfer =
    let closed =
      with_delivery r.now
        (from_unknown_transfer (error_other "delivery transfer owner is gone")
          persisted.delivery.retry_count)
        persisted in
    do write_meta closed; pure closed
close_orphan r persisted _ = pure persisted

fork_worker : Round → Meta → ℕ → Result (Unit {0}) → Exec Disk CompletionStart
fork_worker r persisted retry_count (err e) = do
  integrate_completion_transfer r.now (err e) retry_count
  pure settled
fork_worker r persisted retry_count (ok _) =
    if r.role
    then (do lift r.publish; pure (running persisted retry_count))
    else pure (running persisted retry_count)

abbrev when : {A : Type 0} → Bool → Exec Disk A → A → Exec Disk A
when true m a = m
when false m a = pure a

claim : Round → Meta → Lifecycle → Exec Disk CompletionStart
unfolding close_orphan fork_worker
claim r persisted lifecycle = do
  closed ← close_orphan r persisted lifecycle
  handed_off ← when (r.continuation && closed.delivery.attempted) (lift r.handed_off) false
  if handed_off || not (permits_attempt lifecycle) then pure settled else (do
    lift r.pair
    fork_worker r closed (next_retry_count lifecycle closed.delivery.retry_count) r.fork)

-- `start_completion_delivery`, the delivery lock being held.
pub start_completion_delivery : Round → Exec Disk CompletionStart
unfolding claim
start_completion_delivery r = do
  m ← look (λ d. d.meta)
  mode ← look (λ d. d.mode_file)
  ready ← when r.continuation (lift r.snapshot) true
  if ready
      then claim r (record m { delivery_mode = mode }) (completion_lifecycle m.delivery)
      else pure busy

-- The rest of a transfer: the worker, and the owner's integration if the owner is still there.
finish_transfer : Round → CompletionStart → Exec Disk (Unit {0})
unfolding worker
finish_transfer r busy = pure tt
finish_transfer r settled = pure tt
finish_transfer r (running persisted retry_count) = do
  status ← in_child worker_failed (worker r persisted retry_count)
  if r.owner_lives
      then (do integrate_completion_transfer r.now status retry_count; pure tt)
      else pure tt

-- `reconcile_completion_delivery`: one whole transfer under the delivery lock, which the worker
-- inherits, so that the next one starts only after it.
pub reconcile_completion_delivery : Round → Exec Disk (Unit {0})
unfolding finish_transfer
reconcile_completion_delivery r = do start ← start_completion_delivery r; finish_transfer r start
