-- ===== src/Signals.antt =====
-- src/supervisor/descendant_signal.rs: signalling a process that is proved, by pinned handles, to descend
-- from this one. Numbers of processes are native; the kernel is asked at the times 0, 1, 2, ….
pub mod Chain
pub mod Fuel
mod Tests
use agent_bash_tool.Common.{
  ℕ, zero, suc, ◌+◌, Bool, true, false, not, ◌&&◌, ◌||◌, Option, none, some, List, [], ◌∷◌, leb,
  ◌==◌, any_of, length, ◌^◌, if◌then◌else◌,
}
use agent_bash_tool.Effects.{IoError, error_other, Result, ok, err}

-- `Boundary`: what the kernel answers to the access of a given time.
pub record Boundary (Handle : Type 0) : Type 0 where
  pub capture : ℕ → ℕ → Result Handle
  pub parent : ℕ → ℕ → Option ℕ
  pub live : ℕ → Handle → Bool
  pub confirm_role : Bool
  pub send : ℕ → Handle → Result (Unit {0})

pub record Link (Handle : Type 0) : Type 0 where
  pub pid : ℕ
  pub parent : ℕ
  pub handle : Handle

abbrev contains : List ℕ → ℕ → Bool
contains pids pid = any_of (λ p. p == pid) pids

-- The answer of a walk: the links from the target up to below the root, and the time it took; `stops`
-- is `Ok(false)`.
pub data Walk (Handle : Type 0) : Type 0 where
  arrives : List (Link Handle) → ℕ → Walk Handle
  stops : Walk Handle
  fails : IoError → Walk Handle
  out_of_fuel : Walk Handle

-- A `pid_t` has 31 bits.
abbrev pub pid_limit : ℕ
pid_limit = 2 ^ 31

module _ {Handle : Type 0} (b : Boundary Handle) where
  abbrev push : Link Handle → Walk Handle → Walk Handle
  push link (arrives links now) = arrives (link ∷ links) now
  push link stops = stops
  push link (fails e) = fails e
  push link out_of_fuel = out_of_fuel

  -- The capture of `cursor` and the read of its parent, then the rest of the loop.
  abbrev step_with : ℕ → Result Handle → Option ℕ → (ℕ → Walk Handle) → Walk Handle
  step_with cursor (err e) parent rest = fails e
  step_with cursor (ok handle) none rest = stops
  step_with cursor (ok handle) (some parent) rest =
      push (record { pid = cursor; parent = parent; handle = handle }) (rest parent)

  abbrev go_on : Bool → Bool → ℕ → Walk Handle → Walk Handle
  go_on true refused now rest = arrives [] now
  go_on false true now rest = stops
  go_on false false now rest = rest

  -- The `while` loop, from the time `now`.
  pub walk : ℕ → ℕ → ℕ → List ℕ → List ℕ → ℕ → Walk Handle
  walk zero root cursor exclusions seen now = out_of_fuel
  walk (suc fuel) root cursor exclusions seen now =
      go_on (cursor == root) (leb cursor 1 || contains exclusions cursor || contains seen cursor)
        now
        (step_with cursor (b.capture now cursor) (b.parent (now + 1) cursor)
          (λ parent. walk fuel root parent exclusions (cursor ∷ seen) (now + 2)))

  abbrev same_parent : Option ℕ → ℕ → Bool
  same_parent none parent = false
  same_parent (some p) parent = p == parent

  -- The edges, read again one after the other.
  pub edges_hold : List (Link Handle) → ℕ → Bool
  edges_hold [] now = true
  edges_hold (link ∷ rest) now =
      same_parent (b.parent now link.pid) link.parent && edges_hold rest (now + 1)

  pub all_live : List (Link Handle) → ℕ → Bool
  all_live [] now = true
  all_live (link ∷ rest) now = b.live now link.handle && all_live rest (now + 1)

  abbrev sent : Handle → Result (Unit {0}) → Result (Option Handle)
  sent handle (ok _) = ok (some handle)
  sent handle (err e) = err e

  -- The proof over the whole chain, then the signal to its first link.
  pub signal_first : List (Link Handle) → ℕ → Result (Option Handle)
  unfolding edges_hold all_live
  signal_first [] now = ok none
  signal_first (target ∷ rest) now =
      let links = target ∷ rest in
      let reread = now + length links in
      if not (edges_hold links now) || not (all_live links reread)
      then ok none
      else if not b.confirm_role
      then err (error_other "delivery role did not confirm containment")
      else sent target.handle (b.send (reread + length links) target.handle)

  abbrev signal_walked : Walk Handle → Result (Option Handle)
  signal_walked (arrives links now) = signal_first links now
  signal_walked stops = ok none
  signal_walked (fails e) = err e
  signal_walked out_of_fuel = err (error_other "out of fuel")

  -- `signal_using_exclusions`: the handle that was signalled, if one was.
  pub signal_using_exclusions : ℕ → ℕ → List ℕ → Result (Option Handle)
  unfolding walk signal_first
  signal_using_exclusions root pid exclusions =
      signal_walked (walk (suc pid_limit) root pid exclusions [] 0)
