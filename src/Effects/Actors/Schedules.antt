-- ===== src/Effects/Actors/Schedules.antt =====
-- What all programs keep, any schedule of them keeps.
use agent_bash_tool.Common.{ℕ, zero, suc, List, [], ◌∷◌}
use agent_bash_tool.Effects.{Fault, fine, killed_before, killed_after, fails_before, fails_after}
use agent_bash_tool.Effects.Actors.{
  Program, returns, fails, access, Turn, advance, give_turn, interleave,
}
use agent_bash_tool.Effects.Actors.Keeps.{Order, Ends, Kept, Kept-later, Keeps}

-- Of actors whose results nobody waits for.
module _ {S : Type 0} (o : Order S) where
  open o use {Grows, grows_refl, grows_trans, Inv}

  module _ {A : Type 0} where
    abbrev pub AllKeep : List (Program S A) → S → Type 0
    AllKeep [] d = Unit {0}
    AllKeep (p ∷ ps) d = Keeps o Ends p d × AllKeep ps d

    AllKeep-later : (ps : List (Program S A)) (d d' : S) → Grows d d' → AllKeep ps d → AllKeep ps d'
    AllKeep-later [] d d' g h = tt
    AllKeep-later (p ∷ ps) d d' g h =
        (record { at = Kept-later o Ends p d d' (λ a q. q) g h.0.at }, AllKeep-later ps d d' g h.1)

    advance-Keeps :
        (fate : Fault) (p : Program S A) (d : S)
        → Inv d
        → Keeps o Ends p d
        → let (p', d') = advance fate p d in Grows d d' × Inv d' × Keeps o Ends p' d'
    unfolding advance Kept
    advance-Keeps fate (returns a) d i h = (grows_refl d, i, record { at = tt })
    advance-Keeps fate (fails e) d i h = (grows_refl d, i, record { at = tt })
    advance-Keeps fine (access change next handler) d i h =
        let s = h.at d (grows_refl d) i in (s.0, s.1, record { at = s.2 })
    advance-Keeps killed_before (access change next handler) d i h =
        (grows_refl d, i, record { at = tt })
    advance-Keeps killed_after (access change next handler) d i h =
        let s = h.at d (grows_refl d) i in (s.0, s.1, record { at = tt })
    advance-Keeps (fails_before e) (access change next handler) d i h =
        let s = h.at d (grows_refl d) i in (grows_refl d, i, record { at = (s.3 e).0 })
    advance-Keeps (fails_after e) (access change next handler) d i h =
        let s = h.at d (grows_refl d) i in (s.0, s.1, record { at = (s.3 e).1 })

    give_turn-Keeps :
        (n : ℕ) (fate : Fault) (ps : List (Program S A)) (d : S)
        → Inv d
        → AllKeep ps d
        → let (ps', d') = give_turn n fate ps d in Grows d d' × Inv d' × AllKeep ps' d'
    unfolding give_turn
    give_turn-Keeps n fate [] d i h = (grows_refl d, i, tt)
    give_turn-Keeps zero fate (p ∷ ps) d i h =
        let s = advance-Keeps fate p d i h.0 in
        (s.0, s.1, (s.2, AllKeep-later ps d (advance fate p d).1 s.0 h.1))
    give_turn-Keeps (suc n) fate (p ∷ ps) d i h =
        let s = give_turn-Keeps n fate ps d i h.1 in
        (
          s.0,
          s.1,
          (
            record { at = Kept-later o Ends p d (give_turn n fate ps d).1 (λ a q. q) s.0 h.0.at },
            s.2,
          ),
        )

    -- What all keep, any schedule of them keeps.
    pub interleave-Grows :
        (ts : List Turn) (ps : List (Program S A)) (d : S)
        → Inv d
        → AllKeep ps d
        → Grows d (interleave ts ps d) × Inv (interleave ts ps d)
    unfolding interleave
    interleave-Grows [] ps d i h = (grows_refl d, i)
    interleave-Grows (t ∷ ts) ps d i h =
        let s = give_turn-Keeps t.actor t.fate ps d i h in
        let later = give_turn t.actor t.fate ps d in
        let rest = interleave-Grows ts later.0 later.1 s.1 s.2 in
        (grows_trans d later.1 (interleave ts later.0 later.1) s.0 rest.0, rest.1)
