-- ===== src/Identity/Callers.antt =====
-- The chain of callers: bounded, of parents, and ended by the first process.
use agent_bash_tool.Common.{
  ℕ, zero, suc, ◌≤◌, ◌≡◌, refl, Bool, true, false, List, [], ◌∷◌, String, length, arith,
  if◌then◌else◌,
}
use agent_bash_tool.Common.Int.{ℤ, pos, int_eq, int_leb}
use agent_bash_tool.Identity.{
  StatResult, stat, no_entry, unreadable, ProcStat, CallerChainEntry, chain_from, caller_chain,
  capture_caller_chain,
}

-- Each entry is a positive number's of this boot, as /proc has it, followed by its parent's, and
-- nothing follows the first process.
abbrev pub Chained : (ℤ → StatResult) → String → ℤ → List CallerChainEntry → Type 0
Chained proc boot pid [] = Unit {0}
Chained proc boot pid (e ∷ es) =
    (e.pid ≡ pid)
    × (int_leb pid (pos 0) ≡ false)
    × (e.boot_id ≡ boot)
    × ((s : ProcStat) × (proc pid ≡ stat s)
        × (e.starttime_ticks ≡ s.starttime_ticks)
        × Chained proc boot s.ppid es
        × (int_eq pid (pos 1) ≡ true → es ≡ []))

module _ (proc : ℤ → StatResult) (boot : String) where
  abbrev Bounded : ℕ → ℤ → List CallerChainEntry → Type 0
  Bounded n pid es = Chained proc boot pid es × (length es ≤ n)

  from-Bounded :
      (n : ℕ) (pid : ℤ) (r : StatResult) (rest : ℤ → List CallerChainEntry)
      → proc pid ≡ r
      → int_leb pid (pos 0) ≡ false
      → ((q : ℤ) → Bounded n q (rest q))
      → Bounded (suc n) pid (chain_from pid boot r rest)
  from-Bounded n pid no_entry rest e p k = (tt, omega arith)
  from-Bounded n pid unreadable rest e p k = (tt, omega arith)
  from-Bounded n pid (stat s) rest e p k = last (int_eq pid (pos 1)) refl
    where
      last :
          (b : Bool)
          → int_eq pid (pos 1) ≡ b
          → Bounded (suc n) pid (
              record { pid = pid; starttime_ticks = s.starttime_ticks; boot_id = boot }
              ∷ (if b then [] else rest s.ppid))
      last true f = ((refl, p, refl, (s, e, refl, tt, λ _. refl)), omega arith)
      last false f =
          let h = k s.ppid in
          ((refl, p, refl, (s, e, refl, h.0, λ g. absurd (ground arith))), omega (arith, h.1))

  chain-Bounded : (n : ℕ) (pid : ℤ) → Bounded n pid (caller_chain proc boot n pid)
  unfolding caller_chain
  chain-Bounded zero pid = (tt, omega arith)
  chain-Bounded (suc n) pid = positive (int_leb pid (pos 0)) refl (chain-Bounded n)
    where
      positive :
          (b : Bool)
          → int_leb pid (pos 0) ≡ b
          → ((q : ℤ) → Bounded n q (caller_chain proc boot n q))
          → Bounded (suc n) pid (
              if b
              then []
              else chain_from pid boot (proc pid) (λ parent. caller_chain proc boot n parent))
      positive true f k = (tt, omega arith)
      positive false f k = from-Bounded n pid (proc pid) _ refl f k

-- The chain of callers has at most 128 entries; each is of a positive number of this boot, as /proc
-- describes it, and is followed by its parent's, and nothing follows process 1.
pub callers-Chained :
    (proc : ℤ → StatResult) (boot : String) (start : ℤ)
    → Chained proc boot start (capture_caller_chain proc boot start)
      × (length (capture_caller_chain proc boot start) ≤ 128)
unfolding capture_caller_chain
callers-Chained proc boot start = chain-Bounded proc boot 128 start
