-- ===== src/Transfer/Tests.antt =====
-- Transfers of a concrete handle.
use agent_bash_tool.Common.{◌≡◌, ◌≤◌, refl, true, [], ◌∷◌}
use agent_bash_tool.Common.Int.{pos}
use agent_bash_tool.Effects.{fine, killed_after}
use agent_bash_tool.Completion.{completion_lifecycle, permits_attempt, code}
use agent_bash_tool.Meta.Samples.{finished_sample}
use agent_bash_tool.Meta.{async}
use agent_bash_tool.Transfer.{Disk, exited}
use agent_bash_tool.Transfer.Once.{rounds, rounds_admit_once}
use agent_bash_tool.Transfer.Outcomes.{clean}

abbrev finished : Disk
finished = record { meta = finished_sample; mode_file = async; admissions = 0 }

-- The owner is killed once the helper has been started, and another process takes over.
rounds_admit_once_example :
    let e =
      rounds
        ((clean 6 (exited (code (pos 0))), fine ∷ fine ∷ fine ∷ killed_after ∷ [])
          ∷ (clean 9 (exited (code (pos 0))), [])
          ∷ [])
        finished in
    (e.admissions ≤ 1)
    × (permits_attempt (completion_lifecycle e.meta.delivery) ≡ true → e.admissions ≡ 0)
rounds_admit_once_example =
    rounds_admit_once
      ((clean 6 (exited (code (pos 0))), fine ∷ fine ∷ fine ∷ killed_after ∷ [])
        ∷ (clean 9 (exited (code (pos 0))), [])
        ∷ [])
      finished refl
