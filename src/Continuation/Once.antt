-- ===== src/Continuation/Once.antt =====
-- The launch authority of src/continuation.rs is spent at most once.
use agent_bash_tool.Common.{ℕ, ◌+◌, ◌≤◌, Option, List, [], ◌∷◌, arith}
use agent_bash_tool.Effects.{Result, World, Outcome, done, failed, killed}
use agent_bash_tool.Effects.Meets.{Post}
use agent_bash_tool.Identity.{CallerChainEntry}
use agent_bash_tool.RootProtocol.Json.{Value}
use agent_bash_tool.Continuation.{abandon, confirm_launch, prepare, record_launch}
use agent_bash_tool.Continuation.Accesses.{AtMost, Told, launches_left, prepare-Meets, reported}
use agent_bash_tool.Continuation.Files.{Paths, Source}
use agent_bash_tool.Continuation.Steps.{abandon-Meets, confirm_launch-Meets, record_launch-Meets}

-- A call of some process on the handle, with what the environment answers it.
pub data Call : Type 0 where
  prepares : Value → CallerChainEntry → Call
  confirms : Value → Call
  abandons : Call
  launches : Result CallerChainEntry → Call

-- Who calls: its own identity as the kernel gives it, and the call.
pub record Caller : Type 0 where
  pub self : Result CallerChainEntry
  pub call : Call

abbrev reported_of : Outcome (Option CallerChainEntry) → ℕ
reported_of (done told) = reported told
reported_of (failed e) = 0
reported_of killed = 0

abbrev silent : {A : Type 0} → Outcome A × World Source → ℕ × World Source
silent (r, w) = (0, w)

abbrev with_reports : Outcome (Option CallerChainEntry) × World Source → ℕ × World Source
with_reports (r, w) = (reported_of r, w)

module _ (paths : Paths) (digest : Value → List ℕ) where
  -- The launches that a call reports, and the files after it.
  unfoldable pub run_as : Result CallerChainEntry → Call → World Source → ℕ × World Source
  run_as self (prepares registration worker) w =
      silent (prepare paths digest self registration worker w)
  run_as self (confirms reply) w = silent (confirm_launch paths digest self reply w)
  run_as self abandons w = silent (abandon paths digest self w)
  run_as self (launches child) w = with_reports (record_launch paths digest self child w)

  unfoldable pub run_calls : List Caller → World Source → ℕ
  run_calls [] w = 0
  run_calls (c ∷ cs) w = let r = run_as c.self c.call w in r.0 + run_calls cs r.1

  silent-Post :
      {A : Type 0} (n : ℕ) (r : Outcome A × World Source)
      → Post (AtMost n) (λ _. AtMost n) r
      → (silent r).0 + launches_left (silent r).1.disk ≤ n
  silent-Post n (done a, w) h = omega arith
  silent-Post n (failed e, w) h = omega arith
  silent-Post n (killed, w) h = omega arith

  with_reports-Post :
      (n : ℕ) (r : Outcome (Option CallerChainEntry) × World Source)
      → Post (AtMost n) (λ told. Told (reported told) n) r
      → (with_reports r).0 + launches_left (with_reports r).1.disk ≤ n
  with_reports-Post n (done a, w) h = h
  with_reports-Post n (failed e, w) h = omega arith
  with_reports-Post n (killed, w) h = omega arith

  run_as-left :
      (self : Result CallerChainEntry) (call : Call) (w : World Source)
      → (run_as self call w).0 + launches_left (run_as self call w).1.disk ≤ launches_left w.disk
  unfolding run_as
  run_as-left self (prepares registration worker) w = silent-Post _ _ (
      (prepare-Meets (launches_left w.disk) paths digest self registration worker).at w
        (omega arith))
  run_as-left self (confirms reply) w =
      silent-Post _ _
        ((confirm_launch-Meets (launches_left w.disk) paths digest self reply).at w (omega arith))
  run_as-left self abandons w =
      silent-Post _ _ ((abandon-Meets (launches_left w.disk) paths digest self).at w (omega arith))
  run_as-left self (launches child) w =
      with_reports-Post _ _
        ((record_launch-Meets (launches_left w.disk) paths digest self child).at w (omega arith))

  -- Whatever processes prepare, confirm, abandon and launch on a handle, in whatever order, with any
  -- replies and any file faults, no more launches are reported than the fence allowed at first: one
  -- without a fence or before it is spent, none of a launched or a revoked one.
  pub run_calls-launches_left :
      (cs : List Caller) (w : World Source) → run_calls cs w ≤ launches_left w.disk
  unfolding run_calls
  run_calls-launches_left [] w = omega arith
  run_calls-launches_left (c ∷ cs) w =
      let now = run_as-left c.self c.call w in
      let later = run_calls-launches_left cs (run_as c.self c.call w).1 in omega arith
