-- ===== src/Common/Bytes.antt =====
-- Texts as the bytes of their UTF-8, for the code that looks at single bytes.
use Prim.Native.Nat.{ℕ}
use Prim.Native.String.{String}
use Prim.Native.Char.{code}
use mathlib.Core.Path.{◌≡◌, refl, ap, sym, ◌∙◌}
use mathlib.Core.Logic.{inl, inr}
use mathlib.Core.Bool.{Bool, true, false, ◌&&◌}
use mathlib.Core.List.{List, [], ◌∷◌, ◌++◌}
use mathlib.Core.Option.{Option, none, some}
use native.Mathlib.Omega.{arith}
use agent_bash_tool.Common.Tests.{equal, Bool-cases, some-injective, ◌==◌, if◌then◌else◌}

-- The bytes of an ASCII literal.
abbrev pub codes : String → List ℕ
codes String.[] = []
codes (String.◌∷◌ c s) = code c ∷ codes s

abbrev pub text_eq : List ℕ → List ℕ → Bool
text_eq [] [] = true
text_eq [] (y ∷ ys) = false
text_eq (x ∷ xs) [] = false
text_eq (x ∷ xs) (y ∷ ys) = x == y && text_eq xs ys

pub text_eq_sound : (xs ys : List ℕ) → text_eq xs ys ≡ true → xs ≡ ys
text_eq_sound [] [] h = refl
text_eq_sound [] (y ∷ ys) h = absurd (ground arith)
text_eq_sound (x ∷ xs) [] h = absurd (ground arith)
text_eq_sound (x ∷ xs) (y ∷ ys) h =
    let tail : text_eq xs ys ≡ true → xs ≡ ys = text_eq_sound xs ys in grind arith

pub text_eq_refl : (xs : List ℕ) → text_eq xs xs ≡ true
text_eq_refl [] = refl
text_eq_refl (x ∷ xs) = ground (arith, text_eq_refl xs)

abbrev push_front : ℕ → List (List ℕ) → List (List ℕ)
push_front c [] = (c ∷ []) ∷ []
push_front c (part ∷ parts) = (c ∷ part) ∷ parts

-- `text.split(separator)`
unfoldable pub split : ℕ → List ℕ → List (List ℕ)
split separator [] = [] ∷ []
split separator (c ∷ cs) =
    let rest = split separator cs in if c == separator then [] ∷ rest else push_front c rest

-- `bytes().all(test)`
abbrev pub all_of : (ℕ → Bool) → List ℕ → Bool
all_of test [] = true
all_of test (c ∷ cs) = test c && all_of test cs

-- What follows the prefix, of `strip_prefix`.
abbrev pub strip_prefix : List ℕ → List ℕ → Option (List ℕ)
strip_prefix [] text = some text
strip_prefix (p ∷ ps) [] = none
strip_prefix (p ∷ ps) (c ∷ cs) = if p == c then strip_prefix ps cs else none

abbrev pub Without : ℕ → List ℕ → Type 0
Without separator [] = Unit {0}
Without separator (c ∷ cs) = ((c == separator) ≡ false) × Without separator cs

-- A part that holds no separator is split off whole.
pub split-append :
    (separator : ℕ) (part rest : List ℕ)
    → Without separator part
    → split separator (part ++ (separator ∷ rest)) ≡ part ∷ split separator rest
unfolding split
split-append separator [] rest h =
    let same : (separator == separator) ≡ true = ground arith in rw same refl
split-append separator (c ∷ cs) rest h =
    rw (h.0) (ap (push_front c) (split-append separator cs rest h.1))

pub split-whole :
    (separator : ℕ) (part : List ℕ) → Without separator part → split separator part ≡ part ∷ []
unfolding split
split-whole separator [] h = refl
split-whole separator (c ∷ cs) h = rw (h.0) (ap (push_front c) (split-whole separator cs h.1))

-- The parts with the separator between them.
abbrev pub join : ℕ → List (List ℕ) → List ℕ
join separator [] = []
join separator (part ∷ []) = part
join separator (part ∷ next ∷ parts) = part ++ (separator ∷ join separator (next ∷ parts))

abbrev IsFull : List (List ℕ) → Type 0
IsFull [] = ⊥
IsFull (part ∷ parts) = Unit {0}

join-push :
    (separator c : ℕ) (parts : List (List ℕ))
    → IsFull parts
    → (IsFull (push_front c parts))
      × (join separator (push_front c parts) ≡ c ∷ join separator parts)
join-push separator c [] h = absurd h
join-push separator c (part ∷ []) h = (record {}, refl)
join-push separator c (part ∷ next ∷ parts) h = (record {}, refl)

join-open :
    (separator : ℕ) (parts : List (List ℕ))
    → IsFull parts
    → join separator ([] ∷ parts) ≡ separator ∷ join separator parts
join-open separator [] h = absurd h
join-open separator (part ∷ parts) h = refl

joined_parts :
    (separator : ℕ) (text : List ℕ)
    → IsFull (split separator text) × (join separator (split separator text) ≡ text)
unfolding split
joined_parts separator [] = (record {}, refl)
joined_parts separator (c ∷ cs) =
    let rest = joined_parts separator cs in
    elim (Bool-cases (c == separator)) [
      | inl same ↦ rw same (
        record {},
        join-open separator (split separator cs) rest.0
            ∙ ap (λ t. separator ∷ t) rest.1
            ∙ ap (λ b. b ∷ cs) (sym (equal c separator same)),
      )
      | inr other ↦
          let pushed = join-push separator c (split separator cs) rest.0 in
          rw other (pushed.0, pushed.1 ∙ ap (λ t. c ∷ t) rest.1)
    ]

-- Splitting loses nothing.
pub join-split : (separator : ℕ) (text : List ℕ) → join separator (split separator text) ≡ text
join-split separator text = (joined_parts separator text).1

pub strip_prefix-append :
    (prefix text rest : List ℕ) → strip_prefix prefix text ≡ some rest → text ≡ prefix ++ rest
strip_prefix-append [] text rest h = some-injective h
strip_prefix-append (p ∷ ps) [] rest h = absurd (ground arith)
strip_prefix-append (p ∷ ps) (c ∷ cs) rest h = elim (Bool-cases (p == c)) [
  | inl same ↦
      ap (λ b. b ∷ cs) (sym (equal p c same))
      ∙ ap (λ t. p ∷ t) (strip_prefix-append ps cs rest (rw same at h))
  | inr other ↦ absurd (ground arith)
]
