-- ===== src/RetainedOutput/Receipt/Phases.antt =====
-- The phases of publish_receipt of src/retained_output.rs, whose errors are named after them.
use agent_bash_tool.Common.{String}
use agent_bash_tool.Effects.{Result, ok, err, Exec, attempt, commit}
use agent_bash_tool.Effects.Meets.{
  Meets, Meets-pure, Meets-raise, Meets-commit, Meets-bind, Meets-attempt,
}
use agent_bash_tool.RetainedOutput.Receipt.{Shelf, in_phase, relabelled}

module _ (Kept : Shelf → Type 0) where
  abbrev Caught : {A : Type 0} → (A → Shelf → Type 0) → Result A → Shelf → Type 0
  Caught Q (ok a) d = Q a d
  Caught Q (err e) d = Kept d

  relabelled-Meets :
      {A : Type 0} (phase : String) (Q : A → Shelf → Type 0) (r : Result A)
      → Meets Kept (Caught Q r) (relabelled phase r) Q
  unfolding relabelled
  relabelled-Meets phase Q (ok a) = Meets-pure a (λ d h. h)
  relabelled-Meets phase Q (err e) = Meets-raise _ (λ d h. h)

  attempt-Meets :
      {A : Type 0} {P : Shelf → Type 0} (m : Exec Shelf A) (Q : A → Shelf → Type 0)
      → Meets Kept P m Q
      → Meets Kept P (attempt m) (Caught Q)
  attempt-Meets m Q h = Meets-attempt m Q (Caught Q) (λ a d q. q) (λ e d k. k) (λ d k. k) h

  pub in_phase-Meets :
      {A : Type 0} {P : Shelf → Type 0} (phase : String) (m : Exec Shelf A) (Q : A → Shelf → Type 0)
      → Meets Kept P m Q
      → Meets Kept P (in_phase phase m) Q
  unfolding in_phase
  in_phase-Meets phase m Q h =
      Meets-bind (Caught Q) (attempt m) (relabelled phase) (attempt-Meets m Q h)
        (relabelled-Meets phase Q)

  -- A write in its phase, from a state that is kept.
  pub writes-Meets :
      {P Q : Shelf → Type 0} (phase : String) (f : Shelf → Shelf)
      → ((d : Shelf) → P d → Kept d)
      → ((d : Shelf) → P d → Kept (f d) × Q (f d))
      → Meets Kept P (in_phase phase (commit f)) (λ _. Q)
  writes-Meets {P} {Q} phase f k h = in_phase-Meets phase (commit f) (λ _. Q) (Meets-commit f k h)
