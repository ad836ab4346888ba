-- ===== src/Activation.antt =====
-- Activation of asynchronous delivery: the outcome file of src/state.rs, read and settled under the delivery
-- lock. `activations` counts the helpers started for it, which the code cannot see.
pub mod Attempt
pub mod Readback
pub mod Settled
mod Tests
use Prim.Native.String.{◌++◌, len, slice}
use text.Mathlib.Text.{starts_with}
use agent_bash_tool.Common.{
  ℕ, suc, ◌+◌, Bool, true, false, not, ◌&&◌, ◌||◌, Option, none, some, String, str_eq,
  if◌then◌else◌,
}
use agent_bash_tool.Effects.{
  IoError, error_other, Result, ok, err, Exec, pure, raise, lift, look, commit, in_child, attempt,
  ◌>>=◌, ◌>>◌,
}
use agent_bash_tool.Meta.{Meta, DeliveryMode, sync, async, touch, terminal}
use agent_bash_tool.Transfer.{HelperRun, exited, not_started, not_awaited}

pub record ActivationDisk : Type 0 where
  pub meta : Meta
  pub mode_file : DeliveryMode
  pub attempted : Bool
  -- the `activation_outcome` file
  pub outcome : Option String
  pub activations : ℕ

pub data ActivationTransferOutcome : Type 0 where
  unclaimed claimed_without_outcome pending succeeded : ActivationTransferOutcome
  pre_admission_failed failed_with : String → ActivationTransferOutcome
  transfer_outcome_unknown : ActivationTransferOutcome

abbrev pub activation_pending : String
activation_pending = "pending\n"

abbrev pub activation_succeeded : String
activation_succeeded = "succeeded\n"

abbrev pub pre_admission_failed_prefix : String
pre_admission_failed_prefix = "pre_admission_failed: "

abbrev pub activation_unknown : String
activation_unknown = "transfer_outcome_unknown\n"

-- `str::trim` is the standard library's.
abbrev outcome_of_text : (String → String) → String → ActivationTransferOutcome
outcome_of_text trim text =
    if str_eq text activation_pending
    then pending
    else if str_eq text activation_succeeded
    then succeeded
    else if starts_with text pre_admission_failed_prefix
    then pre_admission_failed (trim (slice text (len pre_admission_failed_prefix) (len text)))
    else if str_eq text activation_unknown
    then transfer_outcome_unknown
    else failed_with (trim text)

-- The outcome of `activation_transfer_state`, whose mode is the `delivery_mode` file.
unfoldable pub transfer_outcome :
    (String → String) → Option String → Bool → ActivationTransferOutcome
transfer_outcome trim none true = claimed_without_outcome
transfer_outcome trim none false = unclaimed
transfer_outcome trim (some text) attempted = outcome_of_text trim text

abbrev pub outcome_of : (String → String) → ActivationDisk → ActivationTransferOutcome
outcome_of trim d = transfer_outcome trim d.outcome d.attempted

-- What the environment answers to one detach: `activate_request`, the two helpers, whether a continuation
-- is enabled and whether its readback finds the activation committed, and the forks of the workers.
pub record Detach : Type 0 where
  pub trim : String → String
  pub clock : ℕ
  pub request : Result (Unit {0})
  pub helper : HelperRun (Unit {0})
  pub continuation : Bool
  pub retry_request : Result (Unit {0})
  pub retry_helper : HelperRun (Unit {0})
  pub committed : Bool
  pub fork : Result (Unit {0})

write_outcome : String → Exec ActivationDisk (Unit {0})
write_outcome text = commit (λ d. record d { outcome = some text })

write_mode : DeliveryMode → Exec ActivationDisk (Unit {0})
write_mode mode = commit (λ d. record d { mode_file = mode })

abbrev same_mode : DeliveryMode → DeliveryMode → Bool
same_mode sync sync = true
same_mode async async = true
same_mode _ _ = false

-- `repair_delivery_mode_mirror`; the write of the metadata takes its mode from the mode file.
repair_delivery_mode_mirror : ℕ → DeliveryMode → Exec ActivationDisk Meta
repair_delivery_mode_mirror clock mode = do
  m ← look (λ (d : ActivationDisk). d.meta)
  if same_mode m.delivery_mode mode then pure m else (do
    commit (λ (d : ActivationDisk). record d {
      meta = record (touch clock (record m { delivery_mode = mode })) {
        delivery_mode = d.mode_file;
      };
    })
    pure (touch clock (record m { delivery_mode = mode })))

-- Back to synchronous delivery, as if there had been no attempt.
roll_back : ℕ → Exec ActivationDisk (Unit {0})
unfolding write_mode repair_delivery_mode_mirror
roll_back clock = do
  write_mode sync
  repair_delivery_mode_mirror clock sync
  commit (λ d. record d { outcome = none })
  commit (λ d. record d { attempted = false })

settle_outcome : ℕ → ActivationTransferOutcome → Exec ActivationDisk (Unit {0})
unfolding roll_back write_outcome
settle_outcome clock claimed_without_outcome = roll_back clock
settle_outcome clock (pre_admission_failed error) = roll_back clock
settle_outcome clock pending = write_outcome activation_unknown
settle_outcome clock _ = pure tt

pub settle_orphaned_activation : (String → String) → ℕ → Exec ActivationDisk (Unit {0})
unfolding settle_outcome
settle_orphaned_activation trim clock = do
  outcome ← look (outcome_of trim)
  settle_outcome clock outcome

unfoldable pub require_settled : ActivationTransferOutcome → Result (Unit {0})
require_settled unclaimed = ok tt
require_settled succeeded = ok tt
require_settled claimed_without_outcome = err (error_other "delivery activation outcome is unknown")
require_settled pending = err (error_other "delivery activation outcome is unknown")
require_settled (pre_admission_failed error) = err (error_other error)
require_settled (failed_with error) = err (error_other error)
require_settled transfer_outcome_unknown = err (error_other "transfer_outcome_unknown")

pub require_settled_activation : (String → String) → Exec ActivationDisk (Unit {0})
require_settled_activation trim = do
  outcome ← look (outcome_of trim)
  lift (require_settled outcome)

-- `observed_delivery_mode`, and under the delivery lock `settled_delivery_mode`.
pub observed_delivery_mode : (String → String) → Exec ActivationDisk DeliveryMode
unfolding require_settled_activation
observed_delivery_mode trim = do
  mode ← look (λ (d : ActivationDisk). d.mode_file)
  if same_mode mode async then (do require_settled_activation trim; pure mode) else pure mode

pub settled_delivery_mode : (String → String) → ℕ → Exec ActivationDisk DeliveryMode
unfolding settle_orphaned_activation observed_delivery_mode
settled_delivery_mode trim clock = do
  settle_orphaned_activation trim clock
  observed_delivery_mode trim
