-- ===== src/Identity/Tests.antt =====
-- A handle of this boot whose processes have no entry, and a chain of two callers.
use agent_bash_tool.Common.{
  ◌≡◌, ◌≤◌, refl, true, length, if◌then◌else◌, ℕ, zero, suc, List, [], ◌∷◌, some, arith,
}
use agent_bash_tool.Common.Bytes.{codes}
use agent_bash_tool.Common.Int.{ℤ, pos, int_eq}
use agent_bash_tool.Meta.{running_exit_mode}
use agent_bash_tool.Meta.Samples.{running_sample}
use agent_bash_tool.Identity.{
  StatResult, stat, no_entry, inspect_process_identity, exact_supervisor_and_workload_are_gone,
  capture_caller_chain,
}
use agent_bash_tool.Common.Decimal.{parse_signed, parse_unsigned, read_digits}
use agent_bash_tool.Identity.Evidence.{IsGone, IsGone-evidence}
use agent_bash_tool.Identity.Stat.{is_whitespace, first_word, words, after_name, parse_proc_stat}
use agent_bash_tool.Identity.Stat.Printed.{
  AreWords, IsPrinted, fields, print_line, parse_proc_stat-print_line,
}
use agent_bash_tool.Identity.Callers.{Chained, callers-Chained}

abbrev nothing_runs : ℤ → StatResult
nothing_runs pid = no_entry

both_gone : exact_supervisor_and_workload_are_gone nothing_runs "b1" running_sample ≡ true
unfolding exact_supervisor_and_workload_are_gone inspect_process_identity running_exit_mode
both_gone = refl

IsGone-evidence_example :
    (running_exit_mode running_sample ≡ true)
    × IsGone nothing_runs "b1" running_sample.supervisor_pid running_sample.supervisor_starttime
        running_sample.process_boot_id
    × IsGone nothing_runs "b1" running_sample.workload_pid running_sample.workload_starttime
        running_sample.process_boot_id
IsGone-evidence_example = IsGone-evidence nothing_runs "b1" running_sample both_gone

abbrev two_run : ℤ → StatResult
two_run pid =
    if int_eq pid (pos 9)
    then stat (record { ppid = pos 1; starttime_ticks = 30 })
    else stat (record { ppid = pos 0; starttime_ticks = 1 })

callers-Chained_example :
    Chained two_run "b1" (pos 9) (capture_caller_chain two_run "b1" (pos 9))
    × (length (capture_caller_chain two_run "b1" (pos 9)) ≤ 128)
callers-Chained_example = callers-Chained two_run "b1" (pos 9)

-- Fields of no interest.
abbrev zeros : ℕ → List (List ℕ)
zeros zero = []
zeros (suc n) = codes "0" ∷ zeros n

zeros-AreWords : (n : ℕ) → AreWords (zeros n)
unfolding is_whitespace
zeros-AreWords zero = tt
zeros-AreWords (suc n) = ((refl, refl, tt), zeros-AreWords n)

sample-IsPrinted : IsPrinted 42 83 7 777 (zeros 17) (codes "5" ∷ [])
unfolding is_whitespace
sample-IsPrinted = record {
  pid_fits = omega arith;
  ppid_fits = omega arith;
  start_fits = omega arith;
  state_word = (refl, refl, tt);
  middle_words = zeros-AreWords 17;
  more_words = ((refl, refl, tt), tt);
  middle_length = refl;
}

-- A command that calls itself `) Z 1`.
parse_proc_stat-print_line_example :
    parse_proc_stat (print_line 42 (codes ") Z 1") (fields 83 7 (zeros 17) 777 (codes "5" ∷ [])))
    ≡ some (record { pid = pos 42; ppid = pos 7; state = 83; starttime_ticks = 777 })
parse_proc_stat-print_line_example =
    parse_proc_stat-print_line 42 83 7 777 (codes ") Z 1") (zeros 17) (codes "5" ∷ [])
      sample-IsPrinted

-- The line itself.
read_line :
    parse_proc_stat (codes "42 () Z 1) S 7 0 0 0 0 0 0 0 0 0 0 0 0 0 0 0 0 0 777 5\n")
    ≡ some (record { pid = pos 42; ppid = pos 7; state = 83; starttime_ticks = 777 })
unfolding parse_proc_stat after_name words first_word is_whitespace parse_signed parse_unsigned
    read_digits
read_line = refl
