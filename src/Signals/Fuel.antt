-- ===== src/Signals/Fuel.antt =====
-- The walk visits no number twice, so it ends below the limit of a `pid_t`.
use agent_bash_tool.Common.{
  ℕ, zero, suc, ◌+◌, ◌≤◌, ◌<◌, ◌≡◌, ◌≢◌, refl, sym, ◌∙◌, ap, Bool, true, false, ◌||◌, Option, none,
  some, List, [], ◌∷◌, leb, ◌==◌, arith, inl, inr, Bool-cases, if◌then◌else◌,
}
use agent_bash_tool.Effects.{Result, ok, err}
use agent_bash_tool.Signals.{
  Boundary, Link, Walk, arrives, stops, fails, out_of_fuel, walk, step_with, go_on, push, contains,
  pid_limit,
}

-- How many numbers below `n` were not seen.
unseen : List ℕ → ℕ → ℕ
unseen seen zero = 0
unseen seen (suc n) = (if contains seen n then 0 else 1) + unseen seen n

unseen-le : (seen : List ℕ) (n : ℕ) → unseen seen n ≤ n
unfolding unseen
unseen-le seen zero = omega arith
unseen-le seen (suc n) = let ih = unseen-le seen n in ground arith

unseen-above : (seen : List ℕ) (c n : ℕ) → n ≤ c → unseen (c ∷ seen) n ≡ unseen seen n
unfolding unseen
unseen-above seen c zero h = refl
unseen-above seen c (suc n) h = let ih = unseen-above seen c n (omega arith) in ground arith

unseen-drops :
    (seen : List ℕ) (c n : ℕ)
    → contains seen c ≡ false
    → c < n
    → unseen (c ∷ seen) n + 1 ≡ unseen seen n
unfolding unseen
unseen-drops seen c zero f h = absurd (omega arith)
unseen-drops seen c (suc n) f h = elim (Bool-cases (c == n)) [
  | inl e ↦
      let q : c ≡ n = ground arith in
      let g : contains seen n ≡ false = ap (contains seen) (sym q) ∙ f in
      let a = unseen-above seen c n (omega (arith, q)) in ground arith
  | inr e ↦ let ih = unseen-drops seen c n f (ground arith) in ground arith
]

module _ {Handle : Type 0} (b : Boundary Handle) (limit : ℕ)
    (bounded : (t pid q : ℕ) → b.parent t pid ≡ some q → q < limit) where
  push-ends : (l : Link Handle) (w : Walk Handle) → w ≢ out_of_fuel → push b l w ≢ out_of_fuel
  push-ends l (arrives links now) h e = absurd (cc)
  push-ends l stops h e = absurd (cc)
  push-ends l (fails x) h e = absurd (cc)
  push-ends l out_of_fuel h e = h refl

  step-ends :
      (cursor : ℕ) (c : Result Handle) (p : Option ℕ) (rest : ℕ → Walk Handle)
      → ((q : ℕ) → p ≡ some q → rest q ≢ out_of_fuel)
      → step_with b cursor c p rest ≢ out_of_fuel
  step-ends cursor (err x) p rest h e = absurd (cc)
  step-ends cursor (ok x) none rest h e = absurd (cc)
  step-ends cursor (ok x) (some q) rest h e = push-ends _ (rest q) (h q refl) e

  -- With more fuel than there are numbers below the limit that were not seen, the walk ends.
  walk-ends :
      (fuel root cursor : ℕ) (exclusions seen : List ℕ) (now : ℕ)
      → unseen seen limit < fuel
      → cursor < limit
      → walk b fuel root cursor exclusions seen now ≢ out_of_fuel
  unfolding walk
  walk-ends zero root cursor exclusions seen now h c = absurd (omega arith)
  walk-ends (suc fuel) root cursor exclusions seen now h c =
      goes (cursor == root) (leb cursor 1 || contains exclusions cursor || contains seen cursor) _
        λ f. step-ends cursor _ _ _ λ q e.
          walk-ends fuel root q exclusions (cursor ∷ seen) (now + 2)
            (omega (arith, unseen-drops seen cursor limit (ground arith) c)) (bounded _ _ q e)
    where
      goes :
          (arrived refused : Bool) (rest : Walk Handle)
          → (refused ≡ false → rest ≢ out_of_fuel)
          → go_on b arrived refused now rest ≢ out_of_fuel
      goes true refused rest h e = absurd (cc)
      goes false true rest h e = absurd (cc)
      goes false false rest h e = h refl e

-- Where the kernel's numbers are below the limit of a `pid_t`, the walk from such a number ends: it
-- arrives, stops or fails, whatever the kernel answers.
pub walk_settles :
    {Handle : Type 0} (b : Boundary Handle) (root pid : ℕ) (exclusions : List ℕ)
    → ((t p q : ℕ) → b.parent t p ≡ some q → q < pid_limit)
    → pid < pid_limit
    → walk b (suc pid_limit) root pid exclusions [] 0 ≢ out_of_fuel
walk_settles b root pid exclusions bounded h =
    walk-ends b pid_limit bounded (suc pid_limit) root pid exclusions [] 0
      (omega (arith, unseen-le [] pid_limit)) h
