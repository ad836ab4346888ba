-- ===== src/LiveCapture/Annotated.antt =====
-- The bytes, the positions and the splits of an annotated stream of src/live_capture.rs.
use agent_bash_tool.Common.{
  ℕ, ◌+◌, ◌-◌, ◌≤◌, ◌≡◌, refl, sym, ap, ◌∙◌, ◌⊎◌, inl, inr, Bool, true, false, List, [], ◌∷◌, ◌++◌,
  Option, none, some, arith, leb, length, keep_if, length-append, append_assoc, if◌then◌else◌,
  le→leb, lt→leb_false,
}
use agent_bash_tool.LiveCapture.{Channel, stdout, stderr, Position, Record, Gap, LiveCapture, first}
use agent_bash_tool.LiveCapture.Stream.{
  Chunk, ahead, annotate, finish, Chained, Chained-drop, finish-append,
}

abbrev pub same : Channel → Channel → Bool
same stdout stdout = true
same stderr stderr = true
same stdout stderr = false
same stderr stdout = false

abbrev pub coordinate : Channel → Position → ℕ
coordinate stdout p = p.stdout_bytes
coordinate stderr p = p.stderr_bytes

-- The bytes of one channel, in a stream and in a list of records.
abbrev pub stream_bytes : Channel → List Chunk → List ℕ
stream_bytes channel [] = []
stream_bytes channel ((at, bytes) ∷ rest) =
    (if same channel at then bytes else []) ++ stream_bytes channel rest

abbrev pub record_bytes : Channel → List Record → List ℕ
record_bytes channel [] = []
record_bytes channel (r ∷ rs) =
    (if same channel r.channel then r.bytes else []) ++ record_bytes channel rs

-- How many bytes of a channel a gap leaves out.
abbrev pub gap_bytes : Channel → Option Gap → ℕ
gap_bytes channel none = 0
gap_bytes channel (some g) = coordinate channel g.to - coordinate channel g.from

pub record_bytes-annotate :
    (channel : Channel) (p : Position) (chunks : List Chunk)
    → record_bytes channel (annotate p chunks) ≡ stream_bytes channel chunks
record_bytes-annotate channel p [] = refl
record_bytes-annotate stdout p ((stdout, []) ∷ rest) = record_bytes-annotate stdout p rest
record_bytes-annotate stdout p ((stderr, []) ∷ rest) = record_bytes-annotate stdout p rest
record_bytes-annotate stderr p ((stdout, []) ∷ rest) = record_bytes-annotate stderr p rest
record_bytes-annotate stderr p ((stderr, []) ∷ rest) = record_bytes-annotate stderr p rest
record_bytes-annotate channel p ((at, b ∷ bs) ∷ rest) =
    ap (◌++◌ (if same channel at then b ∷ bs else []))
      (record_bytes-annotate channel (ahead p at (length (b ∷ bs))) rest)

pub record_bytes-append :
    (channel : Channel) (xs ys : List Record)
    → record_bytes channel (xs ++ ys) ≡ record_bytes channel xs ++ record_bytes channel ys
record_bytes-append channel [] ys = refl
record_bytes-append channel (x ∷ xs) ys =
    ap (◌++◌ (if same channel x.channel then x.bytes else [])) (record_bytes-append channel xs ys)
    ∙ sym (append_assoc (if same channel x.channel then x.bytes else []) _ _)

coordinate-ahead :
    (channel : Channel) (p : Position) (r : Record)
    → coordinate channel (ahead p r.channel (length r.bytes))
      ≡ coordinate channel p + length (if same channel r.channel then r.bytes else [])
coordinate-ahead stdout p r = ground arith
coordinate-ahead stderr p r = ground arith

pub coordinate-finish :
    (channel : Channel) (p : Position) (rs : List Record)
    → coordinate channel (finish p rs) ≡ coordinate channel p + length (record_bytes channel rs)
coordinate-finish channel p [] = omega arith
coordinate-finish channel p (r ∷ rs) = omega (
  arith,
  coordinate-finish channel (ahead p r.channel (length r.bytes)) rs,
  coordinate-ahead channel p r,
  length-append (if same channel r.channel then r.bytes else []) (record_bytes channel rs),
)

seq-ahead : (p : Position) (at : Channel) (len : ℕ) → (ahead p at len).seq ≡ p.seq + 1
seq-ahead p stdout len = refl
seq-ahead p stderr len = refl

pub seq-finish : (p : Position) (rs : List Record) → (finish p rs).seq ≡ p.seq + length rs
seq-finish p [] = omega arith
seq-finish p (r ∷ rs) = omega (
  arith,
  seq-finish (ahead p r.channel (length r.bytes)) rs,
  seq-ahead p r.channel (length r.bytes),
)

abbrev pub at_or_after : ℕ → List Record → List Record
at_or_after seq = keep_if λ r. leb seq r.start.seq

pub keep_all :
    (p : Position) (seq : ℕ) (rs : List Record)
    → Chained p rs
    → seq ≤ p.seq
    → at_or_after seq rs ≡ rs
keep_all p seq [] h le = refl
keep_all p seq (r ∷ rs) h le =
    rw (le→leb seq r.start.seq (omega (arith, ap (λ (q : Position). q.seq) h.0))) (
      ap (◌∷◌ r) (
        keep_all (ahead p r.channel (length r.bytes)) seq rs h.2
          (omega (arith, seq-ahead p r.channel (length r.bytes)))))

pub keep_none :
    (p : Position) (seq : ℕ) (rs : List Record)
    → Chained p rs
    → (finish p rs).seq ≤ seq
    → at_or_after seq rs ≡ []
keep_none p seq [] h le = refl
keep_none p seq (r ∷ rs) h le =
    rw
      (lt→leb_false seq r.start.seq (
        omega (
          arith,
          ap (λ (q : Position). q.seq) h.0,
          seq-ahead p r.channel (length r.bytes),
          seq-finish (ahead p r.channel (length r.bytes)) rs,
        )))
      (keep_none (ahead p r.channel (length r.bytes)) seq rs h.2 le)

abbrev Split : List Record → List Record → List Record → List Record → Type 0
Split xs ys us vs =
    ((m : List Record) × (xs ≡ us ++ m) × (vs ≡ m ++ ys))
    ⊎ ((m : List Record) × (us ≡ xs ++ m) × (ys ≡ m ++ vs))

-- Two ways to cut one list.
pub Split-cases : (xs ys us vs : List Record) → xs ++ ys ≡ us ++ vs → Split xs ys us vs
Split-cases [] ys us vs e = inr (us, refl, e)
Split-cases (x ∷ xs) ys [] vs e = inl (x ∷ xs, refl, sym e)
Split-cases (x ∷ xs) ys (u ∷ us) vs e = elim (Split-cases xs ys us vs (cc)) [
  | inl (m, p, q) ↦ inl (m, cc, q)
  | inr (m, p, q) ↦ inr (m, cc, q)
]

-- The first retained record starts at the end of the stream that was cut off.
pub first-eq-finish :
    (p : Position) (xs : List Record) (c : LiveCapture)
    → Chained p (xs ++ c.records)
    → c.next ≡ finish p (xs ++ c.records)
    → first c ≡ finish p xs
unfolding first
first-eq-finish p xs c chained at_end =
    go c.records (Chained-drop p xs c.records chained) (at_end ∙ finish-append p xs c.records)
  where
    go :
        (rs : List Record)
        → Chained (finish p xs) rs
        → c.next ≡ finish (finish p xs) rs
        → (elim rs [ [] ↦ c.next | r ∷ rest ↦ r.start ]) ≡ finish p xs
    go [] h e = e
    go (r ∷ rest) h e = h.0
