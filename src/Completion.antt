-- ===== src/Completion.antt =====
-- The completion-delivery record of src/state.rs (`CompletionDeliveryMeta`), what each field pattern
-- means (`completion_lifecycle`), and the records that src/delivery.rs writes into it.
pub mod Records
use Prim.Native.String.{◌++◌}
use agent_bash_tool.Common.{
  ℕ, ◌+◌, Bool, true, false, not, ◌&&◌, ◌||◌, Option, none, some, String, str_eq, ◌==◌,
  if◌then◌else◌,
}
use agent_bash_tool.Common.Int.{ℤ}
use agent_bash_tool.Effects.{IoError}

abbrev pub delivery_attempt_in_progress : String
delivery_attempt_in_progress = "delivery_attempt_in_progress"

abbrev pub delivery_transfer_outcome_unknown : String
delivery_transfer_outcome_unknown = "transfer_outcome_unknown"

pub data Lifecycle : Type 0 where
  unclaimed provisional_transfer retryable_pre_admission_failure : Lifecycle
  closed_pre_admission_failure non_replayable_unknown_transfer : Lifecycle
  admitted_outcome legacy_skipped invalid : Lifecycle

unfoldable pub permits_attempt : Lifecycle → Bool
permits_attempt unclaimed = true
permits_attempt retryable_pre_admission_failure = true
permits_attempt _ = false

unfoldable pub needs_progress : Lifecycle → Bool
needs_progress unclaimed = true
needs_progress provisional_transfer = true
needs_progress retryable_pre_admission_failure = true
needs_progress _ = false

-- `retry_count` is a `u8`.
pub record CompletionDelivery : Type 0 where
  pub attempted : Bool
  pub exit_code : Option ℤ
  pub error : Option String
  pub error_code : Option String
  pub retryable : Option Bool
  pub retry_count : ℕ
  pub skipped : Option String

unfoldable pub default_delivery : CompletionDelivery
default_delivery = record {
  attempted = false;
  exit_code = none;
  error = none;
  error_code = none;
  retryable = none;
  retry_count = 0;
  skipped = none;
}

abbrev pub is_some {ℓ} : {A : Type ℓ} → Option A → Bool
is_some none = false
is_some (some a) = true

abbrev of_attempted : Option String → Lifecycle
of_attempted none = admitted_outcome
of_attempted (some code) =
    if str_eq code delivery_attempt_in_progress
    then provisional_transfer
    else if str_eq code delivery_transfer_outcome_unknown
    then non_replayable_unknown_transfer
    else admitted_outcome

abbrev of_not_attempted : Bool → Option Bool → Lifecycle
of_not_attempted false retryable = unclaimed
of_not_attempted true (some true) = retryable_pre_admission_failure
of_not_attempted true (some false) = closed_pre_admission_failure
of_not_attempted true none = closed_pre_admission_failure

unfoldable pub completion_lifecycle : CompletionDelivery → Lifecycle
completion_lifecycle d =
    if is_some d.skipped
    then (if not d.attempted && not (is_some d.error_code) then legacy_skipped else invalid)
    else if d.attempted
    then of_attempted d.error_code
    else of_not_attempted (is_some d.error_code) d.retryable

pub from_unknown_transfer : IoError → ℕ → CompletionDelivery
from_unknown_transfer e retry_count = record {
  attempted = true;
  exit_code = none;
  error = some ("delivery helper outcome is unknown: " ++ e.message);
  error_code = some delivery_transfer_outcome_unknown;
  retryable = some false;
  retry_count = retry_count;
  skipped = none;
}

pub admitted : CompletionDelivery
admitted = record {
  attempted = true;
  exit_code = none;
  error = none;
  error_code = none;
  retryable = none;
  retry_count = 0;
  skipped = none;
}

-- How a helper process ended; the text is that of `delivery_signal_error`.
pub data ExitStatus : Type 0 where
  code : ℤ → ExitStatus
  signalled : String → ExitStatus

pub from_status : ExitStatus → CompletionDelivery
from_status (code c) = record admitted { exit_code = some c }
from_status (signalled detail) = record admitted { error = some detail }

pub from_error : IoError → CompletionDelivery
from_error e = record admitted { error = some e.message }

unfoldable pub from_launch_error : IoError → ℕ → CompletionDelivery
from_launch_error e retry_count = record {
  attempted = false;
  exit_code = none;
  error = some e.message;
  error_code = some "delivery_helper_launch_failed";
  retryable = some (retry_count == 0);
  retry_count = retry_count;
  skipped = none;
}

pub from_owner_launch_error : IoError → ℕ → CompletionDelivery
from_owner_launch_error e retry_count = record {
  attempted = false;
  exit_code = none;
  error = some e.message;
  error_code = some "delivery_transfer_worker_launch_failed";
  retryable = some (retry_count == 0);
  retry_count = retry_count;
  skipped = none;
}

abbrev pub helper_unavailable : String
helper_unavailable = "delivery_helper_unavailable"

abbrev pub helper_changed : String
helper_changed = "delivery_helper_changed"

pub record HelperError : Type 0 where
  pub code : String
  pub detail : String

-- Its `Display`.
abbrev pub helper_error_text : HelperError → String
helper_error_text e = e.code ++ (": " ++ e.detail)

pub from_helper_error : HelperError → ℕ → CompletionDelivery
from_helper_error e retry_count = record {
  attempted = false;
  exit_code = none;
  error = some (helper_error_text e);
  error_code = some e.code;
  retryable =
      some ((str_eq e.code helper_unavailable || str_eq e.code helper_changed) && retry_count == 0);
  retry_count = retry_count;
  skipped = none;
}

pub provisional : CompletionDelivery
provisional = record {
  attempted = true;
  exit_code = none;
  error = some "delivery helper outcome is unknown until the admitted attempt exits";
  error_code = some delivery_attempt_in_progress;
  retryable = some false;
  retry_count = 0;
  skipped = none;
}
