-- ===== src/Reaping/Released.antt =====
-- The reaper of src/state.rs and the release of src/continuation.rs together.
use agent_bash_tool.Common.{
  ℕ, ◌≡◌, refl, Bool, true, false, Option, none, some, String, List, inl, inr, arith,
}
use agent_bash_tool.Effects.{Result, World, Outcome, done, failed, killed}
use agent_bash_tool.Effects.Meets.{Post}
use agent_bash_tool.RootProtocol.Json.{Value}
use agent_bash_tool.Continuation.Files.{Paths}
use agent_bash_tool.Release.{Readings}
use agent_bash_tool.Release.Receipt.{retention_released}
use agent_bash_tool.Release.Receipt.Recorded.{
  IsReleased, KeepsRelease, AnswersRelease, retention_released-IsReleased,
}
use agent_bash_tool.Reaping.Eligible.{Handle, ReapConfig, state_dir_reap_eligible}
use agent_bash_tool.Reaping.Owed.{eligible-IsUnneeded}

-- What the caller hears of the pass: nothing where it fails.
abbrev pub heard : Outcome Bool → Option Bool
heard (done released) = some released
heard (failed e) = none
heard killed = none

module _ (parse : List ℕ → Result Value) (sha256 : List ℕ → List ℕ) (paths : Paths)
    (r : Readings) where
  heard-IsReleased :
      (before : Option Value) (run : Outcome Bool × World (Option Value))
      → Post
          (KeepsRelease parse sha256 paths r before)
          (AnswersRelease parse sha256 paths r before)
          run
      → heard run.0 ≡ some true
      → IsReleased parse sha256 paths r (run.1).disk
  heard-IsReleased before (done true, w) h e = h.1 refl
  heard-IsReleased before (done false, w) h e = absurd (ground arith)
  heard-IsReleased before (failed x, w) h e = absurd (ground arith)
  heard-IsReleased before (killed, w) h e = absurd (ground arith)

  -- The handle as the reaper sees it after the pass of the release.
  abbrev pub after_pass : World (Option Value) → Handle → Handle
  after_pass w h = record h {
    retention_released = heard (retention_released parse sha256 paths r w).0;
  }

-- The directory of a registered source is eligible for removal, by the answer of the release's pass over
-- it, only if a local release that Broker vouches for, over the original evidence, is on record.
pub eligible-IsReleased :
    (parse : List ℕ → Result Value) (sha256 : List ℕ → List ℕ) (paths : Paths) (r : Readings)
    (w : World (Option Value)) (h : Handle) (config : ReapConfig) (boot : String)
    → h.continuation_enabled ≡ true
    → state_dir_reap_eligible (after_pass parse sha256 paths r w h) config boot ≡ true
    → IsReleased parse sha256 paths r (retention_released parse sha256 paths r w).1.disk
eligible-IsReleased parse sha256 paths r w h config boot on ok =
    elim ((eligible-IsUnneeded (after_pass parse sha256 paths r w h) config boot ok).1).released [
      | inl off ↦ absurd (ground arith)
      | inr answered ↦
          heard-IsReleased parse sha256 paths r w.disk (retention_released parse sha256 paths r w)
            (retention_released-IsReleased parse sha256 paths r w) answered
    ]
