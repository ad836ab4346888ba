-- ===== src/Identity.antt =====
-- Process identity in src/state.rs: what is known of a recorded process, and the chain of callers. The
-- /proc file system is an argument.
pub mod Stat
pub mod Evidence
pub mod Callers
mod Tests
use agent_bash_tool.Common.{
  ℕ, zero, suc, Bool, true, false, not, ◌&&◌, ◌||◌, Option, none, some, String, str_eq, List, [],
  ◌∷◌, ◌==◌, if◌then◌else◌,
}
use agent_bash_tool.Common.Int.{ℤ, pos, int_eq, int_leb}
use agent_bash_tool.Meta.{Meta, running_exit_mode}

-- The fields of /proc/<pid>/stat that are read.
pub record ProcStat : Type 0 where
  pub ppid : ℤ
  pub starttime_ticks : ℕ

-- `read_proc_stat_result`; `no_entry` is NotFound.
pub data StatResult : Type 0 where
  stat : ProcStat → StatResult
  no_entry unreadable : StatResult

pub data ProcessIdentityEvidence : Type 0 where
  live gone mismatch unavailable : ProcessIdentityEvidence

abbrev pub compare_stat : ℕ → StatResult → ProcessIdentityEvidence
compare_stat expected (stat s) = if s.starttime_ticks == expected then live else mismatch
compare_stat expected no_entry = gone
compare_stat expected unreadable = unavailable

abbrev pub inspect_recorded : (ℤ → StatResult) → ℤ → ℕ → String → String → ProcessIdentityEvidence
inspect_recorded proc pid expected_starttime expected_boot current_boot =
    if int_leb pid (pos 1)
      || expected_starttime == 0
      || str_eq expected_boot ""
      || str_eq current_boot ""
    then unavailable
    else if not (str_eq expected_boot current_boot)
    then mismatch
    else compare_stat expected_starttime (proc pid)

unfoldable pub inspect_process_identity :
    (ℤ → StatResult) → Option ℤ → Option ℕ → Option String → String → ProcessIdentityEvidence
inspect_process_identity proc (some pid) (some starttime) (some expected_boot) current_boot =
    inspect_recorded proc pid starttime expected_boot current_boot
inspect_process_identity proc _ _ _ current_boot = unavailable

abbrev is_gone : ProcessIdentityEvidence → Bool
is_gone gone = true
is_gone _ = false

-- Of the running boot's id.
pub exact_supervisor_and_workload_are_gone : (ℤ → StatResult) → String → Meta → Bool
unfolding running_exit_mode inspect_process_identity
exact_supervisor_and_workload_are_gone proc current_boot m =
    if not (running_exit_mode m)
    then false
    else if str_eq current_boot ""
    then false
    else is_gone (
        inspect_process_identity proc m.supervisor_pid m.supervisor_starttime m.process_boot_id
          current_boot)
      && is_gone (
          inspect_process_identity proc m.workload_pid m.workload_starttime m.process_boot_id
            current_boot)

pub record CallerChainEntry : Type 0 where
  pub pid : ℤ
  pub starttime_ticks : ℕ
  pub boot_id : String

abbrev chain_from : ℤ → String → StatResult → (ℤ → List CallerChainEntry) → List CallerChainEntry
chain_from pid boot (stat s) rest =
    record { pid = pid; starttime_ticks = s.starttime_ticks; boot_id = boot }
    ∷ (if int_eq pid (pos 1) then [] else rest s.ppid)
chain_from pid boot no_entry rest = []
chain_from pid boot unreadable rest = []

-- The `for` loop, of `turns` more turns.
pub caller_chain : (ℤ → StatResult) → String → ℕ → ℤ → List CallerChainEntry
caller_chain proc boot zero pid = []
caller_chain proc boot (suc turns) pid =
    let rest = λ (parent : ℤ). caller_chain proc boot turns parent in
    if int_leb pid (pos 0) then [] else chain_from pid boot (proc pid) rest

pub capture_caller_chain : (ℤ → StatResult) → String → ℤ → List CallerChainEntry
unfolding caller_chain
capture_caller_chain proc boot start_pid = caller_chain proc boot 128 start_pid
