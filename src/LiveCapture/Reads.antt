-- ===== src/LiveCapture/Reads.antt =====
-- `read_from`: what a reader gets from its own position, and the exact gap.
use agent_bash_tool.Common.{
  ℕ, ◌^◌, ◌<◌, ◌≡◌, refl, sym, ap, ◌∙◌, inl, inr, List, [], ◌∷◌, ◌++◌, Option, none, some, subst,
  arith, ltb, leb, length, keep_if-append, if◌then◌else◌, lt→ltb, le→ltb_false,
}
use agent_bash_tool.LiveCapture.{
  Channel, Position, Record, Gap, Read, LiveCapture, read_from, first, new, origin,
}
use agent_bash_tool.LiveCapture.Stream.{
  Chunk, run, annotate, finish, total, Chained, Chained-drop, annotate-Chained, annotate-append,
  finish-append,
}
use agent_bash_tool.LiveCapture.Window.{Ran, Retains, run-new-Retains}
use agent_bash_tool.LiveCapture.Annotated.{
  coordinate, stream_bytes, record_bytes, gap_bytes, Split-cases, at_or_after, coordinate-finish,
  first-eq-finish, keep_all, keep_none, record_bytes-annotate, record_bytes-append, seq-finish,
}

abbrev pub Accounted : List Chunk → Read → Type 0
Accounted chunks r =
    (channel : Channel)
    → (lost : List ℕ) × (stream_bytes channel chunks ≡ lost ++ record_bytes channel r.records)
      × (length lost ≡ gap_bytes channel r.gap)

abbrev pub Exact : LiveCapture → Position → List Chunk → Type 0
Exact c cursor chunks =
    (r : Read) × (read_from c cursor ≡ some r) × Accounted chunks r × (r.next ≡ c.next)

-- The cursor lies in or before the retained records: all from it on is there.
read_whole :
    (c : LiveCapture) (dropped m : List Record) (before after : List Chunk) (cursor : Position)
    → c.next ≡ finish cursor (annotate cursor after)
    → cursor ≡ finish (finish origin dropped) m
    → c.records ≡ m ++ annotate cursor after
    → Chained (finish origin dropped) m
    → first c ≡ finish origin dropped
    → Exact c cursor after
unfolding read_from
read_whole c dropped m before after cursor at_end cut held chained start = (
  record { gap = none; records = annotate cursor after; next = c.next },
  rw (
    le→ltb_false c.next.seq cursor.seq (
        omega
          (arith, ap (λ (q : Position). q.seq) at_end, seq-finish cursor (annotate cursor after))),
    le→ltb_false cursor.seq (first c).seq (
        omega (
          arith,
          ap (λ (q : Position). q.seq) start,
          ap (λ (q : Position). q.seq) cut,
          seq-finish (finish origin dropped) m,
        )),
    kept,
  ),
  λ channel. ([], sym (record_bytes-annotate channel cursor after), refl),
  refl,
)
  where
    kept : at_or_after cursor.seq c.records ≡ annotate cursor after
    kept =
        ap (at_or_after cursor.seq) held
        ∙ keep_if-append (λ r. leb cursor.seq r.start.seq) m (annotate cursor after)
        ∙ ap (λ l. l ++ at_or_after cursor.seq (annotate cursor after))
            (keep_none (finish origin dropped) cursor.seq m chained
              (omega (arith, ap (λ (q : Position). q.seq) cut)))
        ∙ keep_all cursor cursor.seq (annotate cursor after) (annotate-Chained cursor after)
            (omega arith)

abbrev gap_between : Position → Position → Option Gap
gap_between cursor start =
    if ltb cursor.seq start.seq then some (record { from = cursor; to = start }) else none

gap_count :
    (channel : Channel) (cursor start : Position) (m : List Record)
    → start ≡ finish cursor m
    → length (record_bytes channel m) ≡ gap_bytes channel (gap_between cursor start)
gap_count channel cursor start [] e =
    rw (le→ltb_false cursor.seq start.seq (omega (arith, ap (λ (q : Position). q.seq) e)))
gap_count channel cursor start (r ∷ rs) e =
    rw
      (lt→ltb cursor.seq start.seq
        (omega (arith, ap (λ (q : Position). q.seq) e, seq-finish cursor (r ∷ rs))))
      (omega (arith, ap (coordinate channel) e, coordinate-finish channel cursor (r ∷ rs)))

-- The cursor lies before the retained records: the gap is what was evicted after the cursor.
read_gapped :
    (c : LiveCapture) (m : List Record) (after : List Chunk) (cursor : Position)
    → c.next ≡ finish cursor (annotate cursor after)
    → annotate cursor after ≡ m ++ c.records
    → first c ≡ finish cursor m
    → Exact c cursor after
unfolding read_from
read_gapped c m after cursor at_end held start = (
  record { gap = gap_between cursor (first c); records = c.records; next = c.next },
  rw (
    le→ltb_false c.next.seq cursor.seq (
        omega
          (arith, ap (λ (q : Position). q.seq) at_end, seq-finish cursor (annotate cursor after))),
    kept,
  ),
  λ channel.
      (record_bytes channel m, bytes_split channel, gap_count channel cursor (first c) m start),
  refl,
)
  where
    chained : Chained cursor (m ++ c.records)
    chained = subst (Chained cursor) held (annotate-Chained cursor after)

    kept : at_or_after cursor.seq c.records ≡ c.records
    kept =
        keep_all (finish cursor m) cursor.seq c.records (Chained-drop cursor m c.records chained)
          (omega (arith, seq-finish cursor m))

    bytes_split :
        (channel : Channel)
        → stream_bytes channel after ≡ record_bytes channel m ++ record_bytes channel c.records
    bytes_split channel =
        sym (record_bytes-annotate channel cursor after)
        ∙ ap (record_bytes channel) held
        ∙ record_bytes-append channel m c.records

-- A reader whose position is the end of the chunks `before` gets, for each channel, the bytes of the
-- chunks `after` exactly: first as many as its gap says were lost, then those of the records.
pub read_from_Exact :
    (budget : ℕ) (before after : List Chunk)
    → budget < 2 ^ 63
    → total (before ++ after) < 2 ^ 63
    → (c : LiveCapture) × (run (new budget) (before ++ after) ≡ some c)
      × Exact c (finish origin (annotate origin before)) after
unfolding new
read_from_Exact budget before after small fit =
    let r : Ran (total (before ++ after)) (annotate origin (before ++ after)) (new budget)
        (before ++ after) =
      run-new-Retains budget (total (before ++ after)) (before ++ after) small (omega arith) fit in
    (r.0, r.1, exact r.0 r.2)
  where
    cursor : Position
    cursor = finish origin (annotate origin before)

    exact :
        (c : LiveCapture)
        → Retains (total (before ++ after)) (annotate origin (before ++ after)) c
        → Exact c cursor after
    exact c h =
        let stream : annotate origin (before ++ after)
            ≡ annotate origin before ++ annotate cursor after =
          annotate-append origin before after in
        let at_end : c.next ≡ finish cursor (annotate cursor after) =
          h.at_end
          ∙ ap (finish origin) stream
          ∙ finish-append origin (annotate origin before) (annotate cursor after) in
        let start : first c ≡ finish origin h.dropped =
          first-eq-finish origin h.dropped c (subst (Chained origin) h.suffix h.chained)
            (h.at_end ∙ ap (finish origin) h.suffix) in
        elim (Split-cases (annotate origin before) (annotate cursor after) h.dropped c.records
          (sym stream ∙ h.suffix)) [
            | inl (m, p, q) ↦
                read_whole c h.dropped m before after cursor at_end
                  (ap (finish origin) p ∙ finish-append origin h.dropped m) q
                  (Chained-drop origin h.dropped m
                    (subst (Chained origin) p (annotate-Chained origin before)))
                  start
            | inr (m, p, q) ↦
                read_gapped c m after cursor at_end q
                  (start ∙ ap (finish origin) p ∙ finish-append origin (annotate origin before) m)
          ]
