-- ===== src/Reaping/Ended.antt =====
-- What the processes and the times on record ask of a handle's directory, src/state.rs:
-- `process_is_gone_or_reused` and `state_dir_reap_age_ms`.
use agent_bash_tool.Common.{
  ℕ, ◌-◌, ◌≤◌, ◌<◌, max, ◌≡◌, refl, ◌⊎◌, inl, inr, true, false, Option, none, some, String, str_eq,
  eq_iff, ◌==◌, ltb, leb, arith, Bool-cases,
}
use agent_bash_tool.Common.Int.{ℤ}
use agent_bash_tool.Meta.{Meta}
use agent_bash_tool.Identity.{
  ProcStat, StatResult, stat, no_entry, unreadable, compare_stat, inspect_recorded,
  inspect_process_identity,
}
use agent_bash_tool.Reaping.Eligible.{
  Handle, ReapConfig, ttl_ms, is_gone_or_reused, process_is_gone_or_reused, or_zero, age_of,
  state_dir_reap_age_ms, old_enough,
}

module _ (proc : ℤ → StatResult) (boot : String) where
  -- A number has no entry in /proc, or that of a process that was started at another time.
  abbrev pub IsReused : ℤ → ℕ → Type 0
  IsReused number ticks =
      (proc number ≡ no_entry)
      ⊎ ((s : ProcStat) × (proc number ≡ stat s) × ¬ (s.starttime_ticks ≡ ticks))

  -- A process with a complete record, which another boot wrote, or of which the number is free or reused.
  abbrev pub IsEnded : Option ℤ → Option ℕ → Option String → Type 0
  IsEnded pid starttime recorded_boot =
      (number : ℤ) × (ticks : ℕ) × (boot_of : String) × (pid ≡ some number)
      × (starttime ≡ some ticks)
      × (recorded_boot ≡ some boot_of)
      × ((¬ (boot_of ≡ boot)) ⊎ IsReused number ticks)

  compared-IsReused :
      (number : ℤ) (ticks : ℕ) (r : StatResult)
      → proc number ≡ r
      → is_gone_or_reused (compare_stat ticks r) ≡ true
      → IsReused number ticks
  compared-IsReused number ticks (stat s) e h = elim (Bool-cases (s.starttime_ticks == ticks)) [
    | inl same ↦ absurd (ground arith)
    | inr other ↦ inr (s, e, λ p. ground arith)
  ]
  compared-IsReused number ticks no_entry e h = inl e
  compared-IsReused number ticks unreadable e h = absurd (ground arith)

  recorded-ended :
      (number : ℤ) (ticks : ℕ) (boot_of : String)
      → is_gone_or_reused (inspect_recorded proc number ticks boot_of boot) ≡ true
      → (¬ (boot_of ≡ boot)) ⊎ IsReused number ticks
  recorded-ended number ticks boot_of h = elim (Bool-cases (str_eq boot_of boot)) [
    | inr other ↦ inl (λ p. clash boot_of boot p other)
    | inl same ↦ inr (compared-IsReused number ticks (proc number) refl (ground arith))
  ]
    where
      clash : (a b : String) → a ≡ b → str_eq a b ≡ false → ⊥
      clash a b p other = let same = (eq_iff a b).1 p in ground arith

  pub gone_or_reused-IsEnded :
      (pid : Option ℤ) (starttime : Option ℕ) (recorded_boot : Option String)
      → process_is_gone_or_reused proc pid starttime recorded_boot boot ≡ true
      → IsEnded pid starttime recorded_boot
  unfolding process_is_gone_or_reused inspect_process_identity
  gone_or_reused-IsEnded none t b h = absurd (ground arith)
  gone_or_reused-IsEnded (some p) none b h = absurd (ground arith)
  gone_or_reused-IsEnded (some p) (some t) none h = absurd (ground arith)
  gone_or_reused-IsEnded (some p) (some t) (some b) h =
      (p, t, b, refl, refl, refl, recorded-ended p t b h)

-- Both recorded times.
abbrev pub latest : Meta → ℕ
latest m = max (or_zero m.completed_at) m.updated_at

-- At least `ttl` has passed since the completion and the last update, or, where neither time is recorded,
-- since the directory was changed. Where that is not known either, the age is 0.
pub data HasAged (h : Handle) (config : ReapConfig) (m : Meta) (ttl : ℕ) : Type 0 where
  by_record :
      0 < latest m
      → ttl ≤ config.now - or_zero m.completed_at
      → ttl ≤ config.now - m.updated_at
      → HasAged h config m ttl
  by_directory :
      (modified : ℕ)
      → latest m ≡ 0
      → h.modified_at ≡ some modified
      → ttl ≤ config.now - modified
      → HasAged h config m ttl
  without_times : latest m ≡ 0 → h.modified_at ≡ none → ttl ≡ 0 → HasAged h config m ttl

changed-HasAged :
    (h : Handle) (config : ReapConfig) (m : Meta) (ttl : ℕ) (modified : Option ℕ)
    → latest m ≡ 0
    → h.modified_at ≡ modified
    → leb ttl (age_of modified config.now) ≡ true
    → HasAged h config m ttl
changed-HasAged h config m ttl none never e old = without_times never e (ground arith)
changed-HasAged h config m ttl (some modified) never e old =
    by_directory modified never e (ground arith)

since_both : (ttl now a b : ℕ) → leb ttl (now - max a b) ≡ true → (ttl ≤ now - a) × (ttl ≤ now - b)
since_both ttl now a b h = (ground arith, ground arith)

pub old_enough-HasAged :
    (h : Handle) (config : ReapConfig) (m : Meta)
    → old_enough h config m ≡ true
    → HasAged h config m (ttl_ms config)
unfolding state_dir_reap_age_ms
old_enough-HasAged h config m old = elim (Bool-cases (ltb 0 (latest m))) [
  | inl timed ↦
      let since =
        since_both (ttl_ms config) config.now (or_zero m.completed_at) m.updated_at
          (rw timed at old) in
      by_record (ground arith) since.0 since.1
  | inr untimed ↦
      changed-HasAged h config m (ttl_ms config) h.modified_at (ground arith) refl
        (rw untimed at old)
]
