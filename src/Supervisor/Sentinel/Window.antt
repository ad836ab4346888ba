-- ===== src/Supervisor/Sentinel/Window.antt =====
-- The matcher with the later start answers as a search of its whole window would.
use native.Mathlib.Nat.{zero-add, suc-add}
use agent_bash_tool.Common.{
  ℕ, zero, suc, ◌+◌, ◌-◌, ◌≤◌, ◌≡◌, refl, sym, ◌∙◌, ap, inl, inr, Bool, true, false, List, [], ◌∷◌,
  ◌++◌, Option, some, arith, ltb, length, drop, length-append, length-drop, drop-append_le,
  Bool-cases, append-nil, append_assoc,
}
use agent_bash_tool.Supervisor.Sentinel.{
  SentinelMatcher, push_stdout, new, all_word_bytes, start_for,
}
use agent_bash_tool.Supervisor.Sentinel.Search.{contains, drop-not_contains, contains-append_tail}

-- The last `limit` bytes.
abbrev pub last_bytes : ℕ → List ℕ → List ℕ
last_bytes limit ys = drop (length ys - limit) ys

abbrev window : List ℕ → SentinelMatcher → List ℕ
window bytes m = last_bytes m.limit (m.buffer ++ bytes)

abbrev tail_start : List ℕ → SentinelMatcher → ℕ
tail_start bytes m =
    start_for m.literal_len m.previous_match
      (length m.buffer - (length (m.buffer ++ bytes) - m.limit))

push_stdout_lem :
    (bytes : List ℕ) (m : SentinelMatcher)
    → push_stdout bytes m ≡ record m {
      buffer = window bytes m;
      previous_match = m.is_match (drop (tail_start bytes m) (window bytes m));
    }
unfolding push_stdout
push_stdout_lem bytes m = elim (Bool-cases (ltb m.limit (length (m.buffer ++ bytes)))) [
  | inl over ↦ rw over
  | inr room ↦
      let nothing : length (m.buffer ++ bytes) - m.limit ≡ 0 = ground arith in rw (room, nothing)
]

-- For a word, a negative flag means that the window does not hold it.
abbrev pub Tracks : List ℕ → SentinelMatcher → Type 0
Tracks word m =
    (m.literal_len ≡ some (length word))
    × (m.previous_match ≡ false → contains word m.buffer ≡ false)

-- The tail of the trimmed window that is engineed holds the word if the window does.
tail_search :
    (word old bytes : List ℕ) (removed : ℕ)
    → 1 ≤ length word
    → contains word old ≡ false
    → contains word (drop (length old - removed - (length word - 1)) (drop removed (old ++ bytes)))
      ≡ contains word (drop removed (old ++ bytes))
tail_search word old bytes removed pos h = elim (Bool-cases (ltb removed (length old))) [
  | inl some_left ↦ rw (drop-append_le removed old bytes (ground arith)) (
      rw (sym (length-drop removed old)) (
        contains-append_tail word (drop removed old) bytes pos
          (drop-not_contains word removed old h)))
  | inr none_left ↦
      let nothing : length old - removed - (length word - 1) ≡ 0 = ground arith in rw nothing
]

module _ (word : List ℕ) (m : SentinelMatcher)
    (engine : (ys : List ℕ) → m.is_match ys ≡ contains word ys) (pos : 1 ≤ length word)
    (bytes : List ℕ) where
  tail-window :
      (previous : Bool)
      → (previous ≡ false → contains word m.buffer ≡ false)
      → contains word (
          drop
            (start_for
              (some (length word))
              previous
              (length m.buffer - (length (m.buffer ++ bytes) - m.limit)))
            (window bytes m))
        ≡ contains word (window bytes m)
  tail-window true h = refl
  tail-window false h =
      tail_search word m.buffer bytes (length (m.buffer ++ bytes) - m.limit) pos (h refl)

  found : Tracks word m → (push_stdout bytes m).previous_match ≡ contains word (window bytes m)
  found t =
      ap (λ (n : SentinelMatcher). n.previous_match) (push_stdout_lem bytes m)
      ∙ engine (drop (tail_start bytes m) (window bytes m))
      ∙ ap
          (λ (o : Option ℕ). contains word (
            drop
              (start_for o m.previous_match
                (length m.buffer - (length (m.buffer ++ bytes) - m.limit)))
              (window bytes m)))
          t.0
      ∙ tail-window m.previous_match t.1

  kept : Tracks word m → Tracks word (push_stdout bytes m)
  kept t = (
    ap (λ (n : SentinelMatcher). n.literal_len) (push_stdout_lem bytes m) ∙ t.0,
    λ e.
        ap (λ (n : SentinelMatcher). contains word n.buffer) (push_stdout_lem bytes m)
        ∙ sym (found t)
        ∙ e,
  )

-- The pushes of successive chunks.
pub pushes : List (List ℕ) → SentinelMatcher → SentinelMatcher
pushes [] m = m
pushes (bytes ∷ rest) m = pushes rest (push_stdout bytes m)

abbrev pub all_bytes : List (List ℕ) → List ℕ
all_bytes [] = []
all_bytes (bytes ∷ rest) = bytes ++ all_bytes rest

drop-nil {ℓ} : {A : Type ℓ} (n : ℕ) → drop {A = A} n [] ≡ []
drop-nil zero = refl
drop-nil (suc n) = refl

drop-drop {ℓ} : {A : Type ℓ} (m n : ℕ) (xs : List A) → drop m (drop n xs) ≡ drop (n + m) xs
drop-drop m zero xs = rw zero-add
drop-drop m (suc n) [] = drop-nil m ∙ sym (drop-nil (suc n + m))
drop-drop m (suc n) (x ∷ xs) = rw suc-add (drop-drop m n xs)

last_bytes-append :
    (limit : ℕ) (xs ys : List ℕ)
    → last_bytes limit (last_bytes limit xs ++ ys) ≡ last_bytes limit (xs ++ ys)
last_bytes-append limit xs ys =
    let cut : ℕ = length xs - limit in
    let whole : drop cut xs ++ ys ≡ drop cut (xs ++ ys) =
      sym (drop-append_le cut xs ys (omega arith)) in
    ap (last_bytes limit) whole
    ∙ drop-drop (length (drop cut (xs ++ ys)) - limit) cut (xs ++ ys)
    ∙ ap (λ n. drop n (xs ++ ys)) (omega (arith, length-drop cut (xs ++ ys), length-append xs ys))

-- What successive pushes have kept of the output `out`.
abbrev Follows : List ℕ → (List ℕ → Bool) → ℕ → List ℕ → SentinelMatcher → Type 0
Follows word engine limit out m =
    (m.is_match ≡ engine) × (m.limit ≡ limit) × (m.buffer ≡ last_bytes limit out) × Tracks word m

Follows-push :
    (word : List ℕ) (engine : List ℕ → Bool) (limit : ℕ) (out bytes : List ℕ) (m : SentinelMatcher)
    → ((ys : List ℕ) → engine ys ≡ contains word ys)
    → 1 ≤ length word
    → Follows word engine limit out m
    → Follows word engine limit (out ++ bytes) (push_stdout bytes m)
      × ((push_stdout bytes m).previous_match ≡ contains word (last_bytes limit (out ++ bytes)))
Follows-push word engine limit out bytes m spec pos f =
    let same : (ys : List ℕ) → m.is_match ys ≡ contains word ys =
      λ ys. ap (λ (g : List ℕ → Bool). g ys) f.0 ∙ spec ys in
    let kept_window : window bytes m ≡ last_bytes limit (out ++ bytes) =
      ap (λ l. last_bytes l (m.buffer ++ bytes)) f.1
      ∙ ap (λ (b : List ℕ). last_bytes limit (b ++ bytes)) f.2
      ∙ last_bytes-append limit out bytes in
    (
      (
        ap (λ (n : SentinelMatcher). n.is_match) (push_stdout_lem bytes m) ∙ f.0,
        ap (λ (n : SentinelMatcher). n.limit) (push_stdout_lem bytes m) ∙ f.1,
        ap (λ (n : SentinelMatcher). n.buffer) (push_stdout_lem bytes m) ∙ kept_window,
        kept word m same pos bytes f.3,
      ),
      found word m same pos bytes f.3 ∙ ap (contains word) kept_window,
    )

Follows-pushes :
    (chunks : List (List ℕ)) (word : List ℕ) (engine : List ℕ → Bool) (limit : ℕ) (out : List ℕ)
    (m : SentinelMatcher)
    → ((ys : List ℕ) → engine ys ≡ contains word ys)
    → 1 ≤ length word
    → Follows word engine limit out m
    → Follows word engine limit (out ++ all_bytes chunks) (pushes chunks m)
unfolding pushes
Follows-pushes [] word engine limit out m spec pos f = rw append-nil f
Follows-pushes (bytes ∷ rest) word engine limit out m spec pos f = rw (← append_assoc) (
    Follows-pushes rest word engine limit (out ++ bytes) (push_stdout bytes m) spec pos
      (Follows-push word engine limit out bytes m spec pos f).0)

new-Follows :
    (word : List ℕ) (engine : List ℕ → Bool) (n : ℕ)
    → 1 ≤ length word
    → all_word_bytes word ≡ true
    → Follows word engine (new word engine n).limit [] (new word engine n)
unfolding new
new-Follows [] engine n pos h = absurd (omega arith)
new-Follows (w ∷ ws) engine n pos h =
    (refl, refl, sym (drop-nil (0 - (new (w ∷ ws) engine n).limit)), ((rw h), λ e. refl))

-- For a pattern of word bytes alone, and an engine that finds such a pattern where it occurs: after
-- any chunks, pushing the next one answers whether the pattern occurs in the last `limit` bytes of
-- all output so far, however the chunks are cut, and leaves just those bytes in the window.
pub push_stdout-eq-search :
    (word : List ℕ) (engine : List ℕ → Bool) (n : ℕ) (chunks : List (List ℕ)) (bytes : List ℕ)
    → 1 ≤ length word
    → all_word_bytes word ≡ true
    → ((ys : List ℕ) → engine ys ≡ contains word ys)
    → let m = push_stdout bytes (pushes chunks (new word engine n)) in
      let seen = last_bytes (new word engine n).limit (all_bytes chunks ++ bytes) in
      (m.previous_match ≡ contains word seen) × (m.buffer ≡ seen)
push_stdout-eq-search word engine n chunks bytes pos plain spec =
    let f =
      Follows-push word engine (new word engine n).limit (all_bytes chunks) bytes
        (pushes chunks (new word engine n)) spec pos
        (Follows-pushes chunks word engine (new word engine n).limit [] (new word engine n) spec pos
          (new-Follows word engine n pos plain)) in
    (f.1, (f.0).2)
