-- ===== src/Supervisor/Cancellation.antt =====
-- Why a run is cancelled: `CancellationCause` of src/supervisor.rs, its precedence and its names.
pub mod Order
use agent_bash_tool.Common.{
  ℕ, Bool, true, false, Option, none, some, String, str_eq, leb, if◌then◌else◌,
}

pub data CancellationCause : Type 0 where
  owner_exit explicit_request causal_parent : CancellationCause
  root_authority_lost output_capture_failure : CancellationCause

abbrev pub rank : CancellationCause → ℕ
rank root_authority_lost = 0
rank output_capture_failure = 3
rank owner_exit = 1
rank causal_parent = 2
rank explicit_request = 4

unfoldable pub with_precedence_over : CancellationCause → CancellationCause → CancellationCause
with_precedence_over self other = if leb (rank other) (rank self) then self else other

unfoldable pub with_observed_explicit_cancel : CancellationCause → Bool → CancellationCause
unfolding with_precedence_over
with_observed_explicit_cancel self explicit_cancel_accepted =
    if explicit_cancel_accepted then with_precedence_over self explicit_request else self

unfoldable pub from_completion_reason : String → Option CancellationCause
from_completion_reason reason =
    if str_eq reason "cancel-request"
    then some explicit_request
    else if str_eq reason "owner-exit"
    then some owner_exit
    else if str_eq reason "causal-parent-cancelled"
    then some causal_parent
    else if str_eq reason "root-authority-lost"
    then some root_authority_lost
    else if str_eq reason "output-capture-failed"
    then some output_capture_failure
    else none

unfoldable pub completion_reason : CancellationCause → String
completion_reason explicit_request = "cancel-request"
completion_reason owner_exit = "owner-exit"
completion_reason causal_parent = "causal-parent-cancelled"
completion_reason root_authority_lost = "root-authority-lost"
completion_reason output_capture_failure = "output-capture-failed"
