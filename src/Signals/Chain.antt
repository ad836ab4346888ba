-- ===== src/Signals/Chain.antt =====
-- What a signal proves: the kernel's history, against what the boundary read of it.
use agent_bash_tool.Common.{
  ℕ, zero, suc, ◌+◌, ◌≤◌, ◌≡◌, refl, Bool, true, false, ◌&&◌, ◌||◌, Option, none, some, List, [],
  ◌∷◌, leb, ◌==◌, length, arith, subst, Bool-cases, inl, inr,
}
use agent_bash_tool.Effects.{Result, ok, err}
use agent_bash_tool.Signals.{
  Boundary, Link, Walk, arrives, stops, fails, out_of_fuel, walk, step_with, go_on, push,
  edges_hold, all_live, same_parent, signal_first, signal_walked, signal_using_exclusions,
  pid_limit, contains,
}

-- The kernel: which process holds a number, and the number of a process's parent, at each time.
pub record Kernel (Process : Type 0) : Type 0 where
  pub occupant : ℕ → ℕ → Option Process
  pub father : ℕ → Process → Option ℕ

-- A chain of parents up to `root`, each edge of it seen at one time between processes of that time.
pub data Descends {Process : Type 0} (k : Kernel Process) (root : ℕ) : Process → Type 0 where
  child_of_root : (p : Process) (t : ℕ) → k.father t p ≡ some root → Descends k root p
  child_of :
      (p g : Process) (t q : ℕ)
      → k.father t p ≡ some q
      → k.occupant t q ≡ some g
      → Descends k root g
      → Descends k root p

-- What the boundary's documentation promises: a capture pins the process that holds the number; while a
-- pinned process is live it has held its number ever since; and the parent read of a number is that
-- of its holder.
pub record IsFaithful {Process : Type 0} (k : Kernel Process) (b : Boundary Process) : Type 0 where
  pub pins : (t pid : ℕ) (p : Process) → b.capture t pid ≡ ok p → k.occupant t pid ≡ some p
  pub holds :
      (t u v pid : ℕ) (p : Process)
      → k.occupant t pid ≡ some p
      → b.live v p ≡ true
      → t ≤ u
      → u ≤ v
      → k.occupant u pid ≡ some p
  pub reads :
      (t pid q : ℕ) (p : Process)
      → k.occupant t pid ≡ some p
      → b.parent t pid ≡ some q
      → k.father t p ≡ some q

module _ {Process : Type 0} (k : Kernel Process) (b : Boundary Process) (faithful : IsFaithful k b)
    (root : ℕ) where
  -- The links lead from `cursor` to the root, each pinned before `end`.
  abbrev Pinned : List (Link Process) → ℕ → ℕ → Type 0
  Pinned [] cursor end = cursor ≡ root
  Pinned (l ∷ ls) cursor end =
      (l.pid ≡ cursor)
      × ((t : ℕ) × (t ≤ end) × (k.occupant t l.pid ≡ some l.handle))
      × Pinned ls l.parent end

  abbrev Walked : Walk Process → ℕ → ℕ → Type 0
  Walked (arrives links end) cursor now = Pinned links cursor end × (now ≤ end)
  Walked _ cursor now = Unit {0}

  push-Walked :
      (w : Walk Process) (l : Link Process) (now : ℕ)
      → k.occupant now l.pid ≡ some l.handle
      → Walked w l.parent (now + 2)
      → Walked (push b l w) l.pid now
  push-Walked (arrives links end) l now o h =
      ((refl, (now, omega (arith, h.1), o), h.0), omega (arith, h.1))
  push-Walked stops l now o h = tt
  push-Walked (fails e) l now o h = tt
  push-Walked out_of_fuel l now o h = tt

  step-Walked :
      (cursor now : ℕ) (c : Result Process) (p : Option ℕ) (rest : ℕ → Walk Process)
      → b.capture now cursor ≡ c
      → ((parent : ℕ) → Walked (rest parent) parent (now + 2))
      → Walked (step_with b cursor c p rest) cursor now
  step-Walked cursor now (err e) p rest h k' = tt
  step-Walked cursor now (ok q) none rest h k' = tt
  step-Walked cursor now (ok q) (some parent) rest h k' =
      push-Walked (rest parent) (record { pid = cursor; parent = parent; handle = q }) now
        (faithful.pins now cursor q h) (k' parent)

  walk-Walked :
      (fuel cursor : ℕ) (exclusions seen : List ℕ) (now : ℕ)
      → Walked (walk b fuel root cursor exclusions seen now) cursor now
  unfolding walk
  walk-Walked zero cursor exclusions seen now = tt
  walk-Walked (suc fuel) cursor exclusions seen now =
      gone (cursor == root) (leb cursor 1 || contains exclusions cursor || contains seen cursor) _
        (λ e. ground arith)
        (step-Walked cursor now (b.capture now cursor) (b.parent (now + 1) cursor) _ refl
          (λ parent. walk-Walked fuel parent exclusions (cursor ∷ seen) (now + 2)))
    where
      gone :
          (arrived refused : Bool) (rest : Walk Process)
          → (arrived ≡ true → cursor ≡ root)
          → Walked rest cursor now
          → Walked (go_on b arrived refused now rest) cursor now
      gone true refused rest h w = (h refl, omega arith)
      gone false true rest h w = tt
      gone false false rest h w = w

  same_parent-true : (o : Option ℕ) (q : ℕ) → same_parent b o q ≡ true → o ≡ some q
  same_parent-true none q h = ground arith
  same_parent-true (some p) q h = ground arith

  chain-Descends :
      (l : Link Process) (ls : List (Link Process)) (cursor end now later : ℕ)
      → Pinned (l ∷ ls) cursor end
      → end ≤ now
      → now + length (l ∷ ls) ≤ later
      → edges_hold b (l ∷ ls) now ≡ true
      → all_live b (l ∷ ls) later ≡ true
      → Descends k root l.handle
  unfolding edges_hold all_live
  chain-Descends l [] cursor end now later p i j e v = child_of_root l.handle now (
      subst (λ q. k.father now l.handle ≡ some q) (p.2)
        (faithful.reads now l.pid l.parent l.handle
          (faithful.holds ((p.1).0) now later l.pid l.handle ((p.1).2) (ground arith)
            (omega (arith, (p.1).1)) (omega arith))
          (same_parent-true _ _ (ground arith))))
  chain-Descends l (m ∷ ls) cursor end now later p i j e v =
      child_of l.handle m.handle now l.parent
        (faithful.reads now l.pid l.parent l.handle
          (faithful.holds ((p.1).0) now later l.pid l.handle ((p.1).2) (ground arith)
            (omega (arith, (p.1).1)) (omega arith))
          (same_parent-true _ _ (ground arith)))
        (subst (λ q. k.occupant now q ≡ some m.handle) ((p.2).0)
          (faithful.holds (((p.2).1).0) now (later + 1) m.pid m.handle (((p.2).1).2) (ground arith)
            (omega (arith, ((p.2).1).1)) (omega arith)))
        (chain-Descends m ls l.parent end (now + 1) (later + 1) (p.2) (omega arith) (omega arith)
          (ground arith) (ground arith))

  first-Descends :
      (links : List (Link Process)) (end cursor : ℕ) (p : Process)
      → Pinned links cursor end
      → signal_first b links end ≡ ok (some p)
      → Descends k root p
  unfolding signal_first
  first-Descends [] end cursor p c h = absurd (cc)
  first-Descends (l ∷ ls) end cursor p c h =
      elim (Bool-cases (edges_hold b (l ∷ ls) end && all_live b (l ∷ ls) (end + length (l ∷ ls)))) [
        | inl e ↦ subst (Descends k root) (target e) (
            chain-Descends l ls cursor end end (end + length (l ∷ ls)) c (omega arith) (omega arith)
              (ground arith) (ground arith))
        | inr e ↦ absurd (ground arith)
      ]
    where
      target :
          edges_hold b (l ∷ ls) end && all_live b (l ∷ ls) (end + length (l ∷ ls)) ≡ true
          → l.handle ≡ p
      target e = ground arith

  -- Over a kernel of which the boundary's answers are true: where a process is signalled, it descends
  -- from the root through parents, each edge of the chain read while both its processes were pinned.
  pub signalled-Descends :
      (pid : ℕ) (exclusions : List ℕ) (p : Process)
      → signal_using_exclusions b root pid exclusions ≡ ok (some p)
      → Descends k root p
  unfolding signal_using_exclusions
  signalled-Descends pid exclusions p h =
      walked (walk b (suc pid_limit) root pid exclusions [] 0)
        (walk-Walked (suc pid_limit) pid exclusions [] 0) h
    where
      walked :
          (w : Walk Process) → Walked w pid 0 → signal_walked b w ≡ ok (some p) → Descends k root p
      walked (arrives links end) c h = first-Descends links end pid p c.0 h
      walked stops c h = absurd (cc)
      walked (fails e) c h = absurd (cc)
      walked out_of_fuel c h = absurd (cc)
