-- ===== src/LiveCapture/Stream.antt =====
-- What a capture is measured against: the whole stream of drained chunks, numbered without wrapping.
use agent_bash_tool.Common.{
  ℕ, ◌+◌, ◌^◌, ◌≤◌, ◌<◌, ◌≡◌, refl, ap, List, [], ◌∷◌, ◌++◌, Option, none, some, arith, length,
  is_empty, if◌then◌else◌,
}
use agent_bash_tool.LiveCapture.{
  Channel, stdout, stderr, Position, Record, LiveCapture, advance, record_chunk, charge_of,
}

abbrev pub Chunk : Type 0
Chunk = Channel × List ℕ

-- The calls of `record`, one for each drained chunk.
abbrev pub and_then : Option LiveCapture → (LiveCapture → Option LiveCapture) → Option LiveCapture
and_then none f = none
and_then (some c) f = f c

unfoldable pub run : LiveCapture → List Chunk → Option LiveCapture
run c [] = some c
run c ((channel, bytes) ∷ rest) = and_then (record_chunk c channel bytes) (λ c'. run c' rest)

-- The position after `len` more bytes of a channel, in unbounded numbers.
abbrev pub ahead : Position → Channel → ℕ → Position
ahead p stdout len = record p { seq = p.seq + 1; stdout_bytes = p.stdout_bytes + len }
ahead p stderr len = record p { seq = p.seq + 1; stderr_bytes = p.stderr_bytes + len }

-- One record for each chunk that has bytes.
abbrev pub annotate : Position → List Chunk → List Record
annotate p [] = []
annotate p ((channel, bytes) ∷ rest) =
    if is_empty bytes
    then annotate p rest
    else record { start = p; channel = channel; bytes = bytes }
      ∷ annotate (ahead p channel (length bytes)) rest

abbrev pub finish : Position → List Record → Position
finish p [] = p
finish p (r ∷ rs) = finish (ahead p r.channel (length r.bytes)) rs

abbrev pub total : List Chunk → ℕ
total [] = 0
total (chunk ∷ rest) = length (chunk.1) + total rest

abbrev pub charges : List Record → ℕ
charges [] = 0
charges (r ∷ rs) = charge_of r.bytes + charges rs

-- Each record starts where the one before it ends, and holds bytes.
abbrev pub Chained : Position → List Record → Type 0
Chained p [] = Unit {0}
Chained p (r ∷ rs) =
    (r.start ≡ p) × (1 ≤ length r.bytes) × Chained (ahead p r.channel (length r.bytes)) rs

-- No coordinate is above `n`.
pub record IsWithin (n : ℕ) (p : Position) : Type 0 where
  pub seq_le : p.seq ≤ n
  pub stdout_le : p.stdout_bytes ≤ n
  pub stderr_le : p.stderr_bytes ≤ n

pub advance-eq-ahead :
    (n : ℕ) (p : Position) (channel : Channel) (len : ℕ)
    → IsWithin n p
    → 1 ≤ len
    → n + len < 2 ^ 63
    → advance p channel len ≡ ahead p channel len
unfolding advance
advance-eq-ahead n p stdout len w pos small = ground arith
advance-eq-ahead n p stderr len w pos small = ground arith

pub ahead-IsWithin :
    (n : ℕ) (p : Position) (channel : Channel) (len : ℕ)
    → IsWithin n p
    → 1 ≤ len
    → IsWithin (n + len) (ahead p channel len)
ahead-IsWithin n p stdout len w pos = omega arith
ahead-IsWithin n p stderr len w pos = omega arith

pub finish-append :
    (p : Position) (xs ys : List Record) → finish p (xs ++ ys) ≡ finish (finish p xs) ys
finish-append p [] ys = refl
finish-append p (x ∷ xs) ys = finish-append (ahead p x.channel (length x.bytes)) xs ys

pub Chained-append :
    (p : Position) (xs ys : List Record)
    → Chained p xs
    → Chained (finish p xs) ys
    → Chained p (xs ++ ys)
Chained-append p [] ys hx hy = hy
Chained-append p (x ∷ xs) ys hx hy =
    (hx.0, hx.1, Chained-append (ahead p x.channel (length x.bytes)) xs ys hx.2 hy)

pub Chained-drop :
    (p : Position) (xs ys : List Record) → Chained p (xs ++ ys) → Chained (finish p xs) ys
Chained-drop p [] ys h = h
Chained-drop p (x ∷ xs) ys h = Chained-drop (ahead p x.channel (length x.bytes)) xs ys h.2

pub Chained-take : (p : Position) (xs ys : List Record) → Chained p (xs ++ ys) → Chained p xs
Chained-take p [] ys h = tt
Chained-take p (x ∷ xs) ys h =
    (h.0, h.1, Chained-take (ahead p x.channel (length x.bytes)) xs ys h.2)

pub annotate-Chained : (p : Position) (chunks : List Chunk) → Chained p (annotate p chunks)
annotate-Chained p [] = tt
annotate-Chained p ((channel, []) ∷ rest) = annotate-Chained p rest
annotate-Chained p ((channel, b ∷ bs) ∷ rest) =
    (refl, omega arith, annotate-Chained (ahead p channel (length (b ∷ bs))) rest)

pub annotate-append :
    (p : Position) (xs ys : List Chunk)
    → annotate p (xs ++ ys) ≡ annotate p xs ++ annotate (finish p (annotate p xs)) ys
annotate-append p [] ys = refl
annotate-append p ((channel, []) ∷ xs) ys = annotate-append p xs ys
annotate-append p ((channel, b ∷ bs) ∷ xs) ys =
    ap (◌∷◌ (record { start = p; channel = channel; bytes = b ∷ bs }))
      (annotate-append (ahead p channel (length (b ∷ bs))) xs ys)
