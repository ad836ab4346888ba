-- ===== src/RootProtocol/Base64/RoundTrip.antt =====
-- What `unbase64` of src/root_v1.rs accepts: the texts that `base64` writes.
use agent_bash_tool.Common.{
  ℕ, zero, suc, ◌+◌, ◌*◌, ◌/◌, ◌%◌, ◌<◌, ◌≡◌, refl, ap, ◌∙◌, subst, ◌↔◌, ◌⊎◌, inl, inr, Bool, true,
  false, ◌&&◌, Option, none, some, List, [], ◌∷◌, arith, ◌==◌, length, take,
}
use agent_bash_tool.Common.Bytes.{text_eq, text_eq_sound, text_eq_refl}
use agent_bash_tool.RootProtocol.Base64.{
  symbol, position, padding, base64, decode_quad, decode_quads, unbase64, if_canonical,
  triple_to_bytes,
}

abbrev pub AreBytes : List ℕ → Type 0
AreBytes [] = Unit {0}
AreBytes (b ∷ bs) = (b < 256) × AreBytes bs

abbrev found_at : ℕ → Bool → Option ℕ → Bool
found_at n true place = false
found_at n false none = false
found_at n false (some m) = m == n

-- A symbol is no padding and stands at its own place of the alphabet.
symbol_ok : ℕ → Bool
unfolding symbol position
symbol_ok n = found_at n (symbol n == padding) (position (symbol n))

all_below : ℕ → Bool
unfolding symbol_ok
all_below zero = true
all_below (suc n) = symbol_ok n && all_below n

all_below_64 : all_below 64 ≡ true
unfolding all_below
all_below_64 = refl

both : (p q : Bool) → p && q ≡ true → (p ≡ true) × (q ≡ true)
both true true h = (refl, refl)
both true false h = absurd (ground arith)
both false q h = absurd (ground arith)

below-cases : (n k : ℕ) → n < suc k → (n ≡ k) ⊎ (n < k)
below-cases n k h = ground arith

all_below_lem : (k n : ℕ) → all_below k ≡ true → n < k → symbol_ok n ≡ true
unfolding all_below
all_below_lem zero n h lt = absurd (omega arith)
all_below_lem (suc k) n h lt = elim (below-cases n k lt) [
  | inl same ↦ rw same ((both (symbol_ok k) (all_below k) h).0)
  | inr less ↦ all_below_lem k n ((both (symbol_ok k) (all_below k) h).1) less
]

found_at_lem :
    (n : ℕ) (pad : Bool) (place : Option ℕ)
    → found_at n pad place ≡ true
    → (pad ≡ false) × (place ≡ some n)
found_at_lem n true none h = absurd (ground arith)
found_at_lem n true (some m) h = absurd (ground arith)
found_at_lem n false none h = absurd (ground arith)
found_at_lem n false (some m) h = ground arith

symbol_lem : (n : ℕ) → n < 64 → ((symbol n == padding) ≡ false) × (position (symbol n) ≡ some n)
unfolding symbol_ok
symbol_lem n lt = found_at_lem n _ _ (all_below_lem 64 n all_below_64 lt)

-- One quad without padding, with one and with two.
quad_0 :
    (a b c d : ℕ)
    → a < 64
    → b < 64
    → c < 64
    → d < 64
    → decode_quad (symbol a) (symbol b) (symbol c) (symbol d)
      ≡ some (triple_to_bytes (a * 262144 + b * 4096 + c * 64 + d))
quad_0 a b c d la lb lc ld =
    rw
      (
        (symbol_lem d ld).0,
        (symbol_lem a la).1,
        (symbol_lem b lb).1,
        (symbol_lem c lc).1,
        (symbol_lem d ld).1,
      )
      refl

quad_1 :
    (a b c : ℕ)
    → a < 64
    → b < 64
    → c < 64
    → decode_quad (symbol a) (symbol b) (symbol c) padding
      ≡ some (take 2 (triple_to_bytes (a * 262144 + b * 4096 + c * 64 + 0)))
quad_1 a b c la lb lc =
    rw ((symbol_lem c lc).0, (symbol_lem a la).1, (symbol_lem b lb).1, (symbol_lem c lc).1) refl

quad_2 :
    (a b : ℕ)
    → a < 64
    → b < 64
    → decode_quad (symbol a) (symbol b) padding padding
      ≡ some (take 1 (triple_to_bytes (a * 262144 + b * 4096 + 0 * 64 + 0)))
quad_2 a b la lb = rw ((symbol_lem b lb).0, (symbol_lem a la).1, (symbol_lem b lb).1) refl

-- The quad of a triple, put together again.
abbrev regrouped : ℕ → ℕ
regrouped t = t / 262144 % 64 * 262144 + t / 4096 % 64 * 4096 + t / 64 % 64 * 64 + t / 1 % 64

regrouped_lem : (t : ℕ) → t < 16777216 → regrouped t ≡ t
regrouped_lem t h = omega arith

bytes_of_triple :
    (a b c : ℕ)
    → a < 256
    → b < 256
    → c < 256
    → triple_to_bytes (a * 65536 + (b * 256 + (c * 1 + 0))) ≡ a ∷ b ∷ c ∷ []
bytes_of_triple a b c la lb lc =
    let high : (a * 65536 + (b * 256 + (c * 1 + 0))) / 65536 % 256 ≡ a = omega arith in
    let middle : (a * 65536 + (b * 256 + (c * 1 + 0))) / 256 % 256 ≡ b = omega arith in
    let low : (a * 65536 + (b * 256 + (c * 1 + 0))) % 256 ≡ c = omega arith in
    rw (high, middle, low) refl

quad-chunk_3 :
    (a b c : ℕ)
    → a < 256
    → b < 256
    → c < 256
    → let t = a * 65536 + (b * 256 + (c * 1 + 0)) in
      decode_quad
        (symbol (t / 262144 % 64))
        (symbol (t / 4096 % 64))
        (symbol (t / 64 % 64))
        (symbol (t / 1 % 64))
      ≡ some (a ∷ b ∷ c ∷ [])
quad-chunk_3 a b c la lb lc =
    let t = a * 65536 + (b * 256 + (c * 1 + 0)) in
    quad_0 (t / 262144 % 64) (t / 4096 % 64) (t / 64 % 64) (t / 1 % 64) (omega arith) (omega arith)
      (omega arith) (omega arith)
    ∙ ap (λ x. some (triple_to_bytes x)) (regrouped_lem t (omega arith))
    ∙ ap some (bytes_of_triple a b c la lb lc)

quad-chunk_2 :
    (a b : ℕ)
    → a < 256
    → b < 256
    → let t = a * 65536 + (b * 256 + 0) in
      decode_quad (symbol (t / 262144 % 64)) (symbol (t / 4096 % 64)) (symbol (t / 64 % 64)) padding
      ≡ some (a ∷ b ∷ [])
quad-chunk_2 a b la lb =
    let t = a * 65536 + (b * 256 + 0) in
    let whole : t / 262144 % 64 * 262144 + t / 4096 % 64 * 4096 + t / 64 % 64 * 64 + 0 ≡ t =
      omega arith in
    let high : t / 65536 % 256 ≡ a = omega arith in
    let middle : t / 256 % 256 ≡ b = omega arith in
    quad_1 (t / 262144 % 64) (t / 4096 % 64) (t / 64 % 64) (omega arith) (omega arith) (omega arith)
    ∙ ap (λ x. some (take 2 (triple_to_bytes x))) whole
    ∙ rw (high, middle) refl

quad-chunk_1 :
    (a : ℕ)
    → a < 256
    → let t = a * 65536 + 0 in
      decode_quad (symbol (t / 262144 % 64)) (symbol (t / 4096 % 64)) padding padding
      ≡ some (a ∷ [])
quad-chunk_1 a la =
    let t = a * 65536 + 0 in
    let whole : t / 262144 % 64 * 262144 + t / 4096 % 64 * 4096 + 0 * 64 + 0 ≡ t = omega arith in
    let high : t / 65536 % 256 ≡ a = omega arith in
    quad_2 (t / 262144 % 64) (t / 4096 % 64) (omega arith) (omega arith)
    ∙ ap (λ x. some (take 1 (triple_to_bytes x))) whole
    ∙ rw high refl

decode_quads-base64 : (bs : List ℕ) → AreBytes bs → decode_quads (base64 bs) ≡ some bs
unfolding decode_quads base64
decode_quads-base64 [] h = refl
decode_quads-base64 (a ∷ []) h = rw (quad-chunk_1 a h.0) refl
decode_quads-base64 (a ∷ b ∷ []) h = rw (quad-chunk_2 a b h.0 h.1.0) refl
decode_quads-base64 (a ∷ b ∷ c ∷ rest) h =
    rw (quad-chunk_3 a b c h.0 h.1.0 h.1.1.0, decode_quads-base64 rest h.1.1.1) refl

length-base64_mod : (bs : List ℕ) → length (base64 bs) % 4 ≡ 0
unfolding base64
length-base64_mod [] = refl
length-base64_mod (a ∷ []) = refl
length-base64_mod (a ∷ b ∷ []) = refl
length-base64_mod (a ∷ b ∷ c ∷ rest) = omega (arith, length-base64_mod rest)

-- Whatever `base64` writes of bytes, `unbase64` reads back.
reads_back : (bs : List ℕ) → AreBytes bs → unbase64 (base64 bs) ≡ some bs
unfolding unbase64 if_canonical
reads_back bs h = rw (length-base64_mod bs, decode_quads-base64 bs h, text_eq_refl (base64 bs)) refl

canonical_lem :
    (text bs : List ℕ) (out : Option (List ℕ)) → if_canonical text out ≡ some bs → base64 bs ≡ text
unfolding if_canonical
canonical_lem text bs none h = absurd (ground arith)
canonical_lem text bs (some out) h =
    let same : text_eq (base64 out) text ≡ true → base64 out ≡ text =
      text_eq_sound (base64 out) text in
    grind arith

base64-unbase64 : (text bs : List ℕ) → unbase64 text ≡ some bs → base64 bs ≡ text
unfolding unbase64
base64-unbase64 text bs h = canonical_lem text bs (decode_quads text) (ground arith)

-- Of bytes, `unbase64` reads exactly the text that `base64` writes.
pub unbase64-base64 :
    (text bs : List ℕ) → AreBytes bs → (unbase64 text ≡ some bs) ↔ (base64 bs ≡ text)
unbase64-base64 text bs h =
    (λ e. base64-unbase64 text bs e, λ e. subst (λ t. unbase64 t ≡ some bs) e (reads_back bs h))
