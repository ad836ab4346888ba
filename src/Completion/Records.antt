-- ===== src/Completion/Records.antt =====
-- What the records that src/delivery.rs writes mean to a reader of the metadata.
use agent_bash_tool.Common.{
  ℕ, ◌≡◌, refl, Bool, false, ◌||◌, ◌&&◌, str_eq, ◌==◌, arith, if◌then◌else◌,
}
use agent_bash_tool.Effects.{IoError}
use agent_bash_tool.Completion.{
  CompletionDelivery, Lifecycle, unclaimed, provisional_transfer, retryable_pre_admission_failure,
  closed_pre_admission_failure, non_replayable_unknown_transfer, admitted_outcome, permits_attempt,
  completion_lifecycle, default_delivery, from_unknown_transfer, admitted, ExitStatus, code,
  signalled, from_status, from_error, from_launch_error, from_owner_launch_error, HelperError,
  from_helper_error, provisional, helper_unavailable, helper_changed,
}

-- No attempt is permitted on the record.
abbrev pub IsClosed : CompletionDelivery → Type 0
IsClosed c = permits_attempt (completion_lifecycle c) ≡ false

pub provisional-IsClosed : IsClosed provisional
unfolding permits_attempt completion_lifecycle provisional
provisional-IsClosed = refl

pub from_status-IsClosed : (s : ExitStatus) → IsClosed (from_status s)
unfolding permits_attempt completion_lifecycle from_status admitted
from_status-IsClosed (code c) = refl
from_status-IsClosed (signalled s) = refl

pub from_error-IsClosed : (e : IoError) → IsClosed (from_error e)
unfolding permits_attempt completion_lifecycle from_error admitted
from_error-IsClosed e = refl

pub from_unknown_transfer-IsClosed : (e : IoError) (n : ℕ) → IsClosed (from_unknown_transfer e n)
unfolding permits_attempt completion_lifecycle from_unknown_transfer
from_unknown_transfer-IsClosed e n = refl

abbrev pub retry_class : Bool → Lifecycle
retry_class b = if b then retryable_pre_admission_failure else closed_pre_admission_failure

pub default-lifecycle : completion_lifecycle default_delivery ≡ unclaimed
unfolding completion_lifecycle default_delivery
default-lifecycle = refl

pub provisional-lifecycle : completion_lifecycle provisional ≡ provisional_transfer
unfolding completion_lifecycle provisional
provisional-lifecycle = refl

pub from_status-lifecycle :
    (s : ExitStatus) → completion_lifecycle (from_status s) ≡ admitted_outcome
unfolding completion_lifecycle from_status admitted
from_status-lifecycle (code c) = refl
from_status-lifecycle (signalled s) = refl

pub from_error-lifecycle : (e : IoError) → completion_lifecycle (from_error e) ≡ admitted_outcome
unfolding completion_lifecycle from_error admitted
from_error-lifecycle e = refl

pub from_unknown_transfer-lifecycle :
    (e : IoError) (n : ℕ)
    → completion_lifecycle (from_unknown_transfer e n) ≡ non_replayable_unknown_transfer
unfolding completion_lifecycle from_unknown_transfer
from_unknown_transfer-lifecycle e n = refl

pub from_launch_error-lifecycle :
    (e : IoError) (n : ℕ) → completion_lifecycle (from_launch_error e n) ≡ retry_class (n == 0)
unfolding completion_lifecycle from_launch_error
from_launch_error-lifecycle e n = ground arith

pub from_owner_launch_error-lifecycle :
    (e : IoError) (n : ℕ)
    → completion_lifecycle (from_owner_launch_error e n) ≡ retry_class (n == 0)
unfolding completion_lifecycle from_owner_launch_error
from_owner_launch_error-lifecycle e n = ground arith

pub from_helper_error-lifecycle :
    (e : HelperError) (n : ℕ)
    → completion_lifecycle (from_helper_error e n)
      ≡ retry_class ((str_eq e.code helper_unavailable || str_eq e.code helper_changed) && n == 0)
unfolding completion_lifecycle from_helper_error
from_helper_error-lifecycle e n = ground arith

-- Of the records that are written, whatever the error, the reply or the exit status, and under retry
-- count `n`: the default one is unclaimed, the one of a running helper is provisional, an exit and an
-- error of the helper's are admitted outcomes, an unknown transfer is never replayed, and a helper that
-- was not started may be retried only at count 0, and after a helper error only for the two codes.
written_records :
    (e : IoError) (h : HelperError) (s : ExitStatus) (n : ℕ)
    → (completion_lifecycle default_delivery ≡ unclaimed)
      × (completion_lifecycle provisional ≡ provisional_transfer)
      × (completion_lifecycle (from_status s) ≡ admitted_outcome)
      × (completion_lifecycle (from_error e) ≡ admitted_outcome)
      × (completion_lifecycle (from_unknown_transfer e n) ≡ non_replayable_unknown_transfer)
      × (completion_lifecycle (from_launch_error e n) ≡ retry_class (n == 0))
      × (completion_lifecycle (from_owner_launch_error e n) ≡ retry_class (n == 0))
      × (completion_lifecycle (from_helper_error h n)
          ≡ retry_class
              ((str_eq h.code helper_unavailable || str_eq h.code helper_changed) && n == 0))
written_records e h s n = (
  default-lifecycle,
  provisional-lifecycle,
  from_status-lifecycle s,
  from_error-lifecycle e,
  from_unknown_transfer-lifecycle e n,
  from_launch_error-lifecycle e n,
  from_owner_launch_error-lifecycle e n,
  from_helper_error-lifecycle h n,
)
