-- ===== src/Common/Decimal/RoundTrip.antt =====
-- A printed number is read back.
use Prim.Native.Nat.{ℕ, zero, suc, ◌+◌, ◌*◌, ◌-◌, ◌/◌, ◌%◌, ◌≤◌, ◌<◌}
use mathlib.Core.Path.{◌≡◌, refl, sym, ap, ◌∙◌}
use mathlib.Core.Logic.{inl, inr}
use mathlib.Core.Bool.{Bool, true, false}
use mathlib.Core.List.{List, [], ◌∷◌, ◌++◌, append_assoc, append-nil}
use mathlib.Core.Option.{Option, none, some, map}
use native.Mathlib.Omega.{arith}
use agent_bash_tool.Common.Tests.{
  ◌==◌, ltb, if◌then◌else◌, ltb→lt, le→leb, le→ltb_false, Bool-cases,
}
use agent_bash_tool.Common.Int.{pos, neg}
use agent_bash_tool.Common.Decimal.{
  is_digit, read_digits, read_magnitude, parse_unsigned, parse_signed, digits, print_unsigned,
  print_signed,
}

read_digit :
    (bound n d : ℕ) (rest : List ℕ)
    → d < 10
    → n * 10 + d ≤ bound
    → read_digits bound n ((48 + d) ∷ rest) ≡ read_digits bound (n * 10 + d) rest
unfolding read_digits
read_digit bound n d rest small fits =
    let same : 48 + d - 48 ≡ d = omega arith in
    rw
      (
        same,
        le→leb 48 (48 + d) (omega arith),
        le→leb (48 + d) 57 (omega arith),
        le→ltb_false bound (n * 10 + d) fits,
      )
      refl

read_digits-nil : (bound n : ℕ) → read_digits bound n [] ≡ some n
unfolding read_digits
read_digits-nil bound n = refl

abbrev pub tens : ℕ → ℕ
tens zero = 1
tens (suc n) = 10 * tens n

read_digits-digits :
    (fuel bound n : ℕ) (rest : List ℕ)
    → n < tens fuel
    → n ≤ bound
    → read_digits bound 0 (digits fuel n ++ rest) ≡ read_digits bound n rest
unfolding digits
read_digits-digits zero bound n rest small fits =
    let none_left : n ≡ 0 = omega arith in rw none_left refl
read_digits-digits (suc fuel) bound n rest small fits = elim (Bool-cases (ltb n 10)) [
  | inl short ↦ rw short (
      read_digit bound 0 n rest (ltb→lt n 10 short) (omega arith)
      ∙ ap (λ k. read_digits bound k rest) (omega arith))
  | inr long ↦ rw long (
      ap (read_digits bound 0) (append_assoc (digits fuel (n / 10)) ((48 + n % 10) ∷ []) rest)
      ∙ read_digits-digits fuel bound (n / 10) ((48 + n % 10) ∷ rest) (omega arith) (omega arith)
      ∙ read_digit bound (n / 10) (n % 10) rest (omega arith) (omega arith)
      ∙ ap (λ k. read_digits bound k rest) (omega arith))
]

-- Every byte of the text is a digit.
abbrev pub AreDigits : List ℕ → Type 0
AreDigits [] = Unit {0}
AreDigits (c ∷ cs) = (48 ≤ c) × (c ≤ 57) × AreDigits cs

append-AreDigits : (xs ys : List ℕ) → AreDigits xs → AreDigits ys → AreDigits (xs ++ ys)
append-AreDigits [] ys hx hy = hy
append-AreDigits (x ∷ xs) ys hx hy = (hx.0, hx.1, append-AreDigits xs ys hx.2 hy)

digits-AreDigits : (fuel n : ℕ) → AreDigits (digits fuel n)
unfolding digits
digits-AreDigits zero n = record {}
digits-AreDigits (suc fuel) n =
    elim (Bool-cases (ltb n 10))
      as (λ _.
        AreDigits
          (if ltb n 10 then (48 + n) ∷ [] else digits fuel (n / 10) ++ ((48 + n % 10) ∷ []))) [
            | inl short ↦
                rw short (omega arith, let small = ltb→lt n 10 short in omega arith, record {})
            | inr long ↦ rw long (
                append-AreDigits _ _ (digits-AreDigits fuel (n / 10))
                  (omega arith, omega arith, record {}))
          ]

pub print_unsigned-AreDigits : (n : ℕ) → AreDigits (print_unsigned n)
unfolding print_unsigned
print_unsigned-AreDigits n = digits-AreDigits 20 n

parse_digits :
    (bound n : ℕ) (text : List ℕ)
    → AreDigits text
    → read_digits bound 0 text ≡ some n
    → (text ≡ [] → ⊥)
    → (parse_unsigned bound text ≡ some n) × (parse_signed bound text ≡ some (pos n))
unfolding parse_unsigned parse_signed
parse_digits bound n [] h e nonempty = absurd (nonempty refl)
parse_digits bound n (c ∷ cs) h e nonempty =
    let digit : 48 ≤ c = h.0 in
    let not_plus : (c == 43) ≡ false = ground arith in
    let not_minus : (c == 45) ≡ false = ground arith in
    (rw not_plus e, rw (not_minus, not_plus) (ap (map pos) e))

if-nonempty :
    (test : Bool) (c d : ℕ) (cs : List ℕ) → (if test then c ∷ [] else cs ++ (d ∷ [])) ≡ [] → ⊥
if-nonempty true c d cs h = ground arith
if-nonempty false c d [] h = ground arith
if-nonempty false c d (x ∷ cs) h = ground arith

digits-nonempty : (fuel n : ℕ) → digits (suc fuel) n ≡ [] → ⊥
unfolding digits
digits-nonempty fuel n = if-nonempty (ltb n 10) (48 + n) (48 + n % 10) (digits fuel (n / 10))

read_digits-print :
    (bound n : ℕ) → n < tens 20 → n ≤ bound → read_digits bound 0 (print_unsigned n) ≡ some n
unfolding print_unsigned
read_digits-print bound n small fits =
    ap (read_digits bound 0) (sym (append-nil (digits 20 n)))
    ∙ read_digits-digits 20 bound n [] small fits
    ∙ read_digits-nil bound n

pub parse_unsigned-print :
    (bound n : ℕ) → n < tens 20 → n ≤ bound → parse_unsigned bound (print_unsigned n) ≡ some n
unfolding print_unsigned
parse_unsigned-print bound n small fits =
    (parse_digits bound n (print_unsigned n) (print_unsigned-AreDigits n)
      (read_digits-print bound n small fits) (digits-nonempty 19 n)).0

pub parse_signed-print :
    (bound n : ℕ)
    → n < tens 20
    → n ≤ bound
    → parse_signed bound (print_signed (pos n)) ≡ some (pos n)
unfolding print_unsigned print_signed
parse_signed-print bound n small fits =
    (parse_digits bound n (print_unsigned n) (print_unsigned-AreDigits n)
      (read_digits-print bound n small fits) (digits-nonempty 19 n)).1

-- What is read does not pass the bound.
pub read_digits_bound :
    (bound n m : ℕ) (text : List ℕ) → n ≤ bound → read_digits bound n text ≡ some m → m ≤ bound
unfolding read_digits
read_digits_bound bound n m [] h e = grind arith
read_digits_bound bound n m (c ∷ cs) h e = elim (Bool-cases (is_digit c)) [
  | inl digit ↦ elim (Bool-cases (ltb bound (n * 10 + (c - 48)))) [
    | inl over ↦ absurd (ground arith)
    | inr fits ↦ read_digits_bound bound (n * 10 + (c - 48)) m cs (ground arith) (ground arith)
  ]
  | inr other ↦ absurd (ground arith)
]

positive_bound :
    (bound n : ℕ) (text : List ℕ) → map pos (read_magnitude bound text) ≡ some (pos n) → n ≤ bound
positive_bound bound n [] h = absurd (ground arith)
positive_bound bound n (c ∷ cs) h = from_digits (read_digits bound 0 (c ∷ cs)) refl h
  where
    from_digits :
        (r : Option ℕ) → read_digits bound 0 (c ∷ cs) ≡ r → map pos r ≡ some (pos n) → n ≤ bound
    from_digits none e h = absurd (ground arith)
    from_digits (some m) e h =
        let within = read_digits_bound bound 0 m (c ∷ cs) (omega arith) e in ground arith

negative_bound : (bound n : ℕ) (r : Option ℕ) → map (λ k. neg (pos k)) r ≡ some (pos n) → n ≤ bound
negative_bound bound n none h = absurd (ground arith)
negative_bound bound n (some zero) h = ground arith
negative_bound bound n (some (suc k)) h = absurd (ground arith)

pub parse_signed_bound :
    (bound n : ℕ) (text : List ℕ) → parse_signed bound text ≡ some (pos n) → n ≤ bound
unfolding parse_signed
parse_signed_bound bound n [] h = absurd (ground arith)
parse_signed_bound bound n (c ∷ cs) h = elim (Bool-cases (c == 45)) [
  | inl minus ↦ negative_bound bound n (read_magnitude (suc bound) cs) (rw minus at h)
  | inr other ↦ elim (Bool-cases (c == 43)) [
    | inl plus ↦ positive_bound bound n cs (rw (other, plus) at h)
    | inr digit ↦ positive_bound bound n (c ∷ cs) (rw (other, digit) at h)
  ]
]
