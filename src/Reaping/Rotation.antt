-- ===== src/Reaping/Rotation.antt =====
-- The shards that the passes of `reap_state_dirs` of src/state.rs look at.
use agent_bash_tool.Common.{
  ℕ, zero, suc, ◌+◌, ◌-◌, ◌%◌, ◌<◌, ◌≡◌, refl, sym, ap, ◌∙◌, inl, inr, true, false, Option, some,
  leb, arith, Bool-cases,
}
use native.Mathlib.Nat.{mod-lt, mod-eq_of_lt, mod-add-mod, add-mod-mod, add-mod_right}
use agent_bash_tool.Reaping.Eligible.{or_zero}
use agent_bash_tool.Reaping.Pass.{CursorWrite, stored, next_reap_shard}

-- The shard of the pass after `k` others, of which the writes of the cursor file went so.
unfoldable pub shard_of_pass : (ℕ → CursorWrite) → ℕ → Option ℕ → ℕ → ℕ
shard_of_pass writes zero cursor shards = (next_reap_shard (writes 0) cursor shards).0
shard_of_pass writes (suc k) cursor shards =
    shard_of_pass (λ i. writes (suc i)) k ((next_reap_shard (writes 0) cursor shards).1) shards

one_later : (r k : ℕ) → r + 1 + k ≡ r + suc k
one_later r k = omega arith

no_later : (r : ℕ) → r ≡ r + 0
no_later r = omega arith

next_of_several :
    (cursor : Option ℕ) (n : ℕ)
    → leb n 1 ≡ false
    → next_reap_shard stored cursor n ≡ (or_zero cursor % n, some ((or_zero cursor % n + 1) % n))
unfolding next_reap_shard
next_of_several cursor n h = rw h refl

first_of_several :
    (write : CursorWrite) (cursor : Option ℕ) (n : ℕ)
    → leb n 1 ≡ false
    → (next_reap_shard write cursor n).0 ≡ or_zero cursor % n
unfolding next_reap_shard
first_of_several write cursor n h = rw h refl

next_of_one :
    (write : CursorWrite) (cursor : Option ℕ) (n : ℕ)
    → leb n 1 ≡ true
    → next_reap_shard write cursor n ≡ (0, cursor)
unfolding next_reap_shard
next_of_one write cursor n h = rw h refl

pass_lem :
    (k : ℕ) (writes : ℕ → CursorWrite) (cursor : Option ℕ) (n : ℕ)
    → leb n 1 ≡ false
    → ((i : ℕ) → i < k → writes i ≡ stored)
    → shard_of_pass writes k cursor n ≡ (or_zero cursor + k) % n
unfolding shard_of_pass
pass_lem zero writes cursor n h all_stored =
    first_of_several (writes 0) cursor n h ∙ ap (λ c. c % n) (no_later (or_zero cursor))
pass_lem (suc k) writes cursor n h all_stored =
    ap (λ w. shard_of_pass (λ i. writes (suc i)) k (next_reap_shard w cursor n).1 n)
      (all_stored 0 (omega arith))
    ∙ ap (λ r. shard_of_pass (λ i. writes (suc i)) k r.1 n) (next_of_several cursor n h)
    ∙ pass_lem k (λ i. writes (suc i)) (some ((or_zero cursor % n + 1) % n)) n h
        (λ i i_in. all_stored (suc i) (omega arith))
    ∙ mod-add-mod (or_zero cursor % n + 1) n k
    ∙ ap (λ c. c % n) (one_later (or_zero cursor % n) k)
    ∙ mod-add-mod (or_zero cursor) n (suc k)

around : (r s n : ℕ) → r < n → r + (s + (n - r)) ≡ s + n
around r s n h = omega arith

zero_only : (n s : ℕ) → s < n → leb n 1 ≡ true → 0 ≡ s
zero_only n s h single = ground arith

only_shard :
    (writes : ℕ → CursorWrite) (cursor : Option ℕ) (n s : ℕ)
    → s < n
    → leb n 1 ≡ true
    → shard_of_pass writes 0 cursor n ≡ s
unfolding shard_of_pass
only_shard writes cursor n s h single =
    ap (λ r. r.0) (next_of_one (writes 0) cursor n single) ∙ zero_only n s h single

-- Whatever the cursor file held, if the writes of it succeed in the next passes but the last of them, of
-- which there are as many as shards, each shard is looked at by one of these passes.
pub each_shard_comes :
    (writes : ℕ → CursorWrite) (cursor : Option ℕ) (shards s : ℕ)
    → s < shards
    → ((i : ℕ) → suc i < shards → writes i ≡ stored)
    → (k : ℕ) × (k < shards) × (shard_of_pass writes k cursor shards ≡ s)
each_shard_comes writes cursor shards s h all_stored = elim (Bool-cases (leb shards 1)) [
  | inl single ↦ (0, omega arith, only_shard writes cursor shards s h single)
  | inr several ↦
      let r = or_zero cursor % shards in
      let below_n : r < shards = mod-lt (or_zero cursor) (omega arith) in
      let k = (s + (shards - r)) % shards in
      let k_below : k < shards = mod-lt (s + (shards - r)) (omega arith) in
      (
        k,
        k_below,
        pass_lem k writes cursor shards several (λ i i_in. all_stored i (omega arith))
            ∙ add-mod-mod (or_zero cursor) (s + (shards - r)) shards
            ∙ sym (mod-add-mod (or_zero cursor) shards (s + (shards - r)))
            ∙ ap (λ c. c % shards) (around r s shards below_n)
            ∙ add-mod_right s shards
            ∙ mod-eq_of_lt h,
      )
]
