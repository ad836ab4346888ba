-- ===== src/Meta.antt =====
-- The metadata of a handle (`Meta` and `DeliveryMode` of src/state.rs), and what is asked of it. The
-- fields that only identify the caller and the command line are left out.
pub mod Samples
use agent_bash_tool.Common.{ℕ, Bool, ◌&&◌, ◌||◌, Option, String, str_eq}
use agent_bash_tool.Common.Int.{ℤ}
use agent_bash_tool.Completion.{CompletionDelivery, is_some, completion_lifecycle, needs_progress}

pub data DeliveryMode : Type 0 where
  sync async : DeliveryMode

pub record Meta : Type 0 where
  pub handle : String
  pub updated_at : ℕ
  pub state : String
  pub completion_reason : Option String
  pub supervisor_pid : Option ℤ
  pub supervisor_starttime : Option ℕ
  pub workload_pid : Option ℤ
  pub workload_starttime : Option ℕ
  pub process_boot_id : Option String
  pub mode : String
  pub delivery_mode : DeliveryMode
  pub ready_at : Option ℕ
  pub completed_at : Option ℕ
  pub rc : Option ℤ
  pub signal : Option ℤ
  pub workload_rc : Option ℤ
  pub workload_signal : Option ℤ
  pub delivery : CompletionDelivery
  pub error : Option String

-- `touch` at the time `now`.
abbrev pub touch : ℕ → Meta → Meta
touch now m = record m { updated_at = now }

abbrev pub is_final_state : String → Bool
is_final_state s = str_eq s "DONE" || str_eq s "ERROR"

unfoldable pub terminal : Meta → Bool
terminal m = is_final_state m.state && is_some m.completed_at

unfoldable pub running_exit_mode : Meta → Bool
running_exit_mode m = str_eq m.state "RUNNING" && str_eq m.mode "exit"

unfoldable pub completion_delivery_pending : Meta → Bool
unfolding terminal
completion_delivery_pending m = terminal m && needs_progress (completion_lifecycle m.delivery)
