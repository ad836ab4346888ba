-- ===== src/Supervisor/Sentinel/Search.antt =====
-- Plain search for a word in bytes, as a reference for what a literal pattern matches.
use agent_bash_tool.Common.{
  ℕ, zero, suc, ◌-◌, ◌≤◌, ◌≡◌, refl, sym, ◌∙◌, inl, inr, Bool, true, false, ◌&&◌, ◌||◌, List, [],
  ◌∷◌, ◌++◌, arith, ltb, ◌==◌, length, drop, Bool-cases,
}

abbrev pub starts_with : List ℕ → List ℕ → Bool
starts_with [] ys = true
starts_with (x ∷ xs) [] = false
starts_with (x ∷ xs) (y ∷ ys) = x == y && starts_with xs ys

abbrev pub contains : List ℕ → List ℕ → Bool
contains word [] = starts_with word []
contains word (y ∷ ys) = starts_with word (y ∷ ys) || contains word ys

-- A word found further on is found from the beginning.
contains-drop :
    (word : List ℕ) (n : ℕ) (ys : List ℕ)
    → contains word (drop n ys) ≡ true
    → contains word ys ≡ true
contains-drop word zero ys h = h
contains-drop word (suc n) [] h = h
contains-drop word (suc n) (y ∷ ys) h = ground (arith, contains-drop word n ys h)

pub drop-not_contains :
    (word : List ℕ) (n : ℕ) (ys : List ℕ)
    → contains word ys ≡ false
    → contains word (drop n ys) ≡ false
drop-not_contains word n ys h = elim (Bool-cases (contains word (drop n ys))) [
  | inl found ↦ absurd (cc (contains-drop word n ys found))
  | inr missing ↦ missing
]

-- Whether a word no longer than `ys` stands at its front does not depend on what follows.
starts_with-append :
    (word ys zs : List ℕ)
    → length word ≤ length ys
    → starts_with word (ys ++ zs) ≡ starts_with word ys
starts_with-append [] ys zs h = refl
starts_with-append (x ∷ word) [] zs h = absurd (omega arith)
starts_with-append (x ∷ word) (y ∷ ys) zs h =
    ground (arith, starts_with-append word ys zs (omega arith))

-- Where `ys` lacks the word, all of its occurrences in `ys ++ zs` begin in the last part of `ys`
-- that is shorter than the word, or later.
pub contains-append_tail :
    (word ys zs : List ℕ)
    → 1 ≤ length word
    → contains word ys ≡ false
    → contains word (drop (length ys - (length word - 1)) (ys ++ zs)) ≡ contains word (ys ++ zs)
contains-append_tail word [] zs pos h =
    let nothing : 0 - (length word - 1) ≡ 0 = omega arith in rw nothing
contains-append_tail word (y ∷ ys) zs pos h =
    elim (Bool-cases (ltb (length ys) (length word - 1))) [
      | inl short ↦
          let nothing : suc (length ys) - (length word - 1) ≡ 0 = ground arith in rw nothing
      | inr long ↦
          let one_more : suc (length ys) - (length word - 1) ≡ suc (length ys - (length word - 1)) =
            ground arith in
          rw one_more (
            contains-append_tail word ys zs pos (ground arith)
            ∙ sym (skip (starts_with-append word (y ∷ ys) zs (ground arith) ∙ ground arith)))
    ]
  where
    skip :
        starts_with word (y ∷ (ys ++ zs)) ≡ false
        → (starts_with word (y ∷ (ys ++ zs)) || contains word (ys ++ zs)) ≡ contains word (ys ++ zs)
    skip e = rw e
