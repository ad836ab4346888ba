-- ===== src/Identity/Evidence.antt =====
-- What it takes to call a recorded supervisor and workload gone.
use agent_bash_tool.Common.{
  ℕ, ◌≡◌, refl, ap, true, false, Option, none, some, String, eq_iff, arith,
}
use agent_bash_tool.Common.Int.{ℤ, pos, int_leb}
use agent_bash_tool.Meta.{Meta, running_exit_mode}
use agent_bash_tool.Identity.{
  StatResult, stat, no_entry, unreadable, ProcessIdentityEvidence, gone, compare_stat,
  inspect_recorded, inspect_process_identity, is_gone, exact_supervisor_and_workload_are_gone,
}

-- A complete record of this boot whose number has no entry in /proc.
abbrev pub IsGone : (ℤ → StatResult) → String → Option ℤ → Option ℕ → Option String → Type 0
IsGone proc boot pid starttime recorded_boot =
    (p : ℤ) × (t : ℕ) × (pid ≡ some p)
    × (starttime ≡ some t)
    × (recorded_boot ≡ some boot)
    × (proc p ≡ no_entry)
    × (int_leb p (pos 1) ≡ false)

compare-gone : (t : ℕ) (r : StatResult) → compare_stat t r ≡ gone → r ≡ no_entry
compare-gone t (stat s) h = ground arith
compare-gone t no_entry h = refl
compare-gone t unreadable h = ground arith

recorded-gone :
    (proc : ℤ → StatResult) (p : ℤ) (t : ℕ) (e boot : String)
    → inspect_recorded proc p t e boot ≡ gone
    → (proc p ≡ no_entry) × (e ≡ boot) × (int_leb p (pos 1) ≡ false)
recorded-gone proc p t e boot h =
    (compare-gone t (proc p) (ground arith), (eq_iff e boot).0 (ground arith), ground arith)

inspect-IsGone :
    (proc : ℤ → StatResult) (boot : String) (pid : Option ℤ) (starttime : Option ℕ)
    (recorded : Option String)
    → inspect_process_identity proc pid starttime recorded boot ≡ gone
    → IsGone proc boot pid starttime recorded
unfolding inspect_process_identity
inspect-IsGone proc boot none s r h = absurd (ground arith)
inspect-IsGone proc boot (some p) none r h = absurd (ground arith)
inspect-IsGone proc boot (some p) (some t) none h = absurd (ground arith)
inspect-IsGone proc boot (some p) (some t) (some e) h =
    let g = recorded-gone proc p t e boot h in (p, t, refl, refl, ap some g.1, g.0, g.2)

is_gone-true : (e : ProcessIdentityEvidence) → is_gone e ≡ true → e ≡ gone
is_gone-true e h = ground arith

-- Both are called gone only of a handle that still runs for its exit, where each has a complete record
-- with a number above 1 that the running boot wrote, and /proc has no entry for either number.
pub IsGone-evidence :
    (proc : ℤ → StatResult) (boot : String) (m : Meta)
    → exact_supervisor_and_workload_are_gone proc boot m ≡ true
    → (running_exit_mode m ≡ true)
      × IsGone proc boot m.supervisor_pid m.supervisor_starttime m.process_boot_id
      × IsGone proc boot m.workload_pid m.workload_starttime m.process_boot_id
unfolding exact_supervisor_and_workload_are_gone
IsGone-evidence proc boot m h = (
  ground arith,
  inspect-IsGone proc boot m.supervisor_pid m.supervisor_starttime m.process_boot_id
      (is_gone-true _ (ground arith)),
  inspect-IsGone proc boot m.workload_pid m.workload_starttime m.process_boot_id
      (is_gone-true _ (ground arith)),
)
