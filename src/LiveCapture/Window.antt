-- ===== src/LiveCapture/Window.antt =====
-- What a capture retains of the stream: a suffix that fits the budget, and nothing faults.
use agent_bash_tool.Common.{
  ℕ, suc, ◌+◌, ◌-◌, ◌^◌, ◌≤◌, ◌<◌, ◌≡◌, refl, sym, ap, ◌∙◌, List, [], ◌∷◌, ◌++◌, true, false, some,
  subst, inl, inr, arith, ltb, length, Bool-cases, append_assoc, append-nil,
}
use agent_bash_tool.LiveCapture.{
  Channel, Position, Record, LiveCapture, advance, evict, record_chunk, charge_of, new, word,
  origin,
}
use agent_bash_tool.LiveCapture.Stream.{
  Chunk, run, ahead, annotate, finish, total, charges, Chained, IsWithin, advance-eq-ahead,
  ahead-IsWithin, finish-append, Chained-append,
}

abbrev Evicted : ℕ → ℕ → ℕ → List Record → Type 0
Evicted budget charge charged rs =
    (n : ℕ) × (kept : List Record) × (dropped : List Record) × (evict budget charge charged rs
      ≡ some (n, kept))
    × (rs ≡ dropped ++ kept)
    × (n ≡ charges kept)
    × (n + charge ≤ budget)

evict_fits :
    (budget charge charged : ℕ) (rs : List Record)
    → charged ≡ charges rs
    → charged ≤ budget
    → charge ≤ budget
    → budget < 2 ^ 63
    → Evicted budget charge charged rs
unfolding evict
evict_fits budget charge charged [] e within fits small =
    (charged, [], [], ground arith, refl, e, omega arith)
evict_fits budget charge charged (r ∷ rs) e within fits small =
    elim (Bool-cases (ltb budget (word (charged + charge)))) [
      | inl over ↦
          let ih : Evicted budget charge (word (charged + 2 ^ 64 - charge_of r.bytes)) rs =
            evict_fits budget charge (word (charged + 2 ^ 64 - charge_of r.bytes)) rs (omega arith)
              (omega arith) fits small in
          (ih.0, ih.1, r ∷ ih.2, rw over (ih.3), ap (◌∷◌ r) ih.4, ih.5, ih.6)
      | inr room ↦ (charged, r ∷ rs, [], rw room, refl, e, ground arith)
    ]

-- What holds of a capture once the records `stream`, of at most `n` bytes in all, went through it.
pub record Retains (n : ℕ) (stream : List Record) (c : LiveCapture) : Type 0 where
  pub dropped : List Record
  pub suffix : stream ≡ dropped ++ c.records
  pub charged_sum : c.charged ≡ charges c.records
  pub in_budget : c.charged ≤ c.budget
  pub at_end : c.next ≡ finish origin stream
  pub chained : Chained origin stream
  pub small : IsWithin n c.next

charges-append : (xs ys : List Record) → charges (xs ++ ys) ≡ charges xs + charges ys
charges-append [] ys = omega arith
charges-append (x ∷ xs) ys = omega (arith, charges-append xs ys)

abbrev entry : LiveCapture → Channel → List ℕ → Record
entry c channel bytes = record { start = c.next; channel = channel; bytes = bytes }

abbrev Recorded : ℕ → List Record → LiveCapture → Channel → List ℕ → Type 0
Recorded n stream c channel bytes =
    (c' : LiveCapture) × (record_chunk c channel bytes ≡ some c')
    × Retains (n + length bytes) (stream ++ entry c channel bytes ∷ []) c'
    × (c'.budget ≡ c.budget)

module _ (n : ℕ) (stream : List Record) (c : LiveCapture) (channel : Channel) (b : ℕ) (bs : List ℕ)
    (h : Retains n stream c) (fit : n + suc (length bs) < 2 ^ 63) (small : c.budget < 2 ^ 63) where
  abbrev bytes : List ℕ
  bytes = b ∷ bs

  abbrev after : Position
  after = ahead c.next channel (length bytes)

  moved : advance c.next channel (length bytes) ≡ after
  moved = advance-eq-ahead n c.next channel (length bytes) h.small (omega arith) fit

  at_end' : after ≡ finish origin (stream ++ entry c channel bytes ∷ [])
  at_end' =
      ap (λ p. ahead p channel (length bytes)) h.at_end
      ∙ sym (finish-append origin stream (entry c channel bytes ∷ []))

  chained' : Chained origin (stream ++ entry c channel bytes ∷ [])
  chained' = Chained-append origin stream _ h.chained (h.at_end, omega arith, tt)

  cleared : ltb c.budget (charge_of bytes) ≡ true → Recorded n stream c channel bytes
  unfolding record_chunk
  cleared over = (
    record c { next = after; records = []; charged = 0 },
    rw (over, moved),
    record {
      dropped = stream ++ entry c channel bytes ∷ [];
      suffix = sym (append-nil _);
      charged_sum = refl;
      in_budget = omega arith;
      at_end = at_end';
      chained = chained';
      small = ahead-IsWithin n c.next channel (length bytes) h.small (omega arith);
    },
    refl,
  )

  appended : ltb c.budget (charge_of bytes) ≡ false → Recorded n stream c channel bytes
  unfolding record_chunk
  appended room =
      let ev : Evicted c.budget (charge_of bytes) c.charged c.records =
        evict_fits c.budget (charge_of bytes) c.charged c.records h.charged_sum h.in_budget
          (ground arith) small in
      (
        record c {
          next = after;
          charged = ev.0 + charge_of bytes;
          records = ev.1 ++ entry c channel bytes ∷ [];
        },
        rw (room, moved, ev.3, unwrapped ev),
        record {
          dropped = h.dropped ++ ev.2;
          suffix =
              ap (λ (l : List Record). l ++ entry c channel bytes ∷ [])
                (h.suffix ∙ ap (◌++◌ h.dropped) ev.4)
              ∙ regroup h.dropped ev.2 ev.1;
          charged_sum = omega (arith, ev.5, charges-append ev.1 (entry c channel bytes ∷ []));
          in_budget = ev.6;
          at_end = at_end';
          chained = chained';
          small = ahead-IsWithin n c.next channel (length bytes) h.small (omega arith);
        },
        refl,
      )
    where
      unwrapped :
          (ev : Evicted c.budget (charge_of bytes) c.charged c.records)
          → word (ev.0 + charge_of bytes) ≡ ev.0 + charge_of bytes
      unwrapped ev = omega (arith, ev.6)

      regroup :
          (xs ys zs : List Record)
          → (xs ++ (ys ++ zs)) ++ entry c channel bytes ∷ []
            ≡ (xs ++ ys) ++ (zs ++ entry c channel bytes ∷ [])
      regroup xs ys zs = simp append_assoc

  record_chunk-Retains : Recorded n stream c channel bytes
  record_chunk-Retains = elim (Bool-cases (ltb c.budget (charge_of bytes))) [
    | inl over ↦ cleared over
    | inr room ↦ appended room
  ]

record_chunk-empty : (c : LiveCapture) (channel : Channel) → record_chunk c channel [] ≡ some c
unfolding record_chunk
record_chunk-empty c channel = refl

Retains-mono :
    (m n : ℕ) (stream : List Record) (c : LiveCapture)
    → m ≤ n
    → Retains m stream c
    → Retains n stream c
Retains-mono m n stream c h r = record {
  dropped = r.dropped;
  suffix = r.suffix;
  charged_sum = r.charged_sum;
  in_budget = r.in_budget;
  at_end = r.at_end;
  chained = r.chained;
  small = record {
    seq_le = omega (arith, r.small.seq_le);
    stdout_le = omega (arith, r.small.stdout_le);
    stderr_le = omega (arith, r.small.stderr_le);
  };
}

abbrev pub Ran : ℕ → List Record → LiveCapture → List Chunk → Type 0
Ran n stream c chunks =
    (c' : LiveCapture) × (run c chunks ≡ some c') × Retains n stream c' × (c'.budget ≡ c.budget)

run-Retains :
    (chunks : List Chunk) (m n : ℕ) (stream : List Record) (c : LiveCapture)
    → Retains m stream c
    → m + total chunks ≤ n
    → n < 2 ^ 63
    → c.budget < 2 ^ 63
    → Ran n (stream ++ annotate c.next chunks) c chunks
unfolding run
run-Retains [] m n stream c h le fit small =
    (c, refl, Retains-mono m n (stream ++ []) c (omega arith) (rw (append-nil stream) h), refl)
run-Retains ((channel, []) ∷ rest) m n stream c h le fit small =
    rw (record_chunk-empty c channel) (run-Retains rest m n stream c h (omega arith) fit small)
run-Retains ((channel, b ∷ bs) ∷ rest) m n stream c h le fit small =
    let one : Recorded m stream c channel (b ∷ bs) =
      record_chunk-Retains m stream c channel b bs h (omega arith) small in
    let step : Ran n ((stream ++ entry c channel (b ∷ bs) ∷ []) ++ annotate (one.0).next rest)
        (one.0) rest =
      run-Retains rest (m + suc (length bs)) n (stream ++ entry c channel (b ∷ bs) ∷ []) one.0 one.2
        (omega arith) fit (rw one.3 small) in
    (
      step.0,
      rw one.1 step.1,
      subst (λ s. Retains n s step.0) (joined (one.0) one.2) step.2,
      step.3 ∙ one.3,
    )
  where
    joined :
        (c' : LiveCapture)
        → Retains (m + suc (length bs)) (stream ++ entry c channel (b ∷ bs) ∷ []) c'
        → (stream ++ entry c channel (b ∷ bs) ∷ []) ++ annotate c'.next rest
          ≡ stream ++ annotate c.next ((channel, b ∷ bs) ∷ rest)
    joined c' r =
        append_assoc stream (entry c channel (b ∷ bs) ∷ []) (annotate c'.next rest)
        ∙ ap (λ (p : Position). stream ++ entry c channel (b ∷ bs) ∷ annotate p rest)
            (r.at_end
              ∙ finish-append origin stream _
              ∙ ap (λ p. ahead p channel (suc (length bs))) (sym h.at_end))

new-Retains : (budget : ℕ) → Retains 0 [] (new budget)
unfolding new
new-Retains budget = record {
  dropped = [];
  suffix = refl;
  charged_sum = refl;
  in_budget = omega arith;
  at_end = refl;
  chained = tt;
  small = omega arith;
}

pub run-new-Retains :
    (budget n : ℕ) (chunks : List Chunk)
    → budget < 2 ^ 63
    → total chunks ≤ n
    → n < 2 ^ 63
    → Ran n (annotate origin chunks) (new budget) chunks
unfolding new
run-new-Retains budget n chunks small le fit =
    run-Retains chunks 0 n [] (new budget) (new-Retains budget) (omega arith) fit small

-- Whatever chunks are recorded under a budget and a total below 2 ^ 63, no call faults, and the
-- capture holds an unbroken suffix of the numbered stream whose charges sum to `charged`, within the
-- budget, with `next` just past the last byte.
pub run-new_window :
    (budget : ℕ) (chunks : List Chunk)
    → budget < 2 ^ 63
    → total chunks < 2 ^ 63
    → (c : LiveCapture) × (dropped : List Record) × (run (new budget) chunks ≡ some c)
      × (annotate origin chunks ≡ dropped ++ c.records)
      × (c.charged ≡ charges c.records)
      × (c.charged ≤ budget)
      × (c.next ≡ finish origin (annotate origin chunks))
unfolding new
run-new_window budget chunks small fit =
    let r : Ran (total chunks) (annotate origin chunks) (new budget) chunks =
      run-new-Retains budget (total chunks) chunks small (omega arith) fit in
    (
      r.0,
      (r.2).dropped,
      r.1,
      (r.2).suffix,
      (r.2).charged_sum,
      omega (arith, (r.2).in_budget, r.3),
      (r.2).at_end,
    )
