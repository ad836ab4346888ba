-- ===== src/Signals/Tests.antt =====
-- Process 7, a child of process 5.
use agent_bash_tool.Common.{
  ℕ, ◌≡◌, ◌≢◌, ◌<◌, suc, refl, true, Option, none, some, [], ◌==◌, arith, if◌then◌else◌,
}
use agent_bash_tool.Effects.{ok}
use agent_bash_tool.Signals.{
  Boundary, out_of_fuel, walk, signal_first, edges_hold, all_live, signal_using_exclusions,
  pid_limit,
}
use agent_bash_tool.Signals.Chain.{Kernel, Descends, IsFaithful, signalled-Descends}
use agent_bash_tool.Signals.Fuel.{walk_settles}

abbrev father_of : ℕ → Option ℕ
father_of p = if p == 7 then some 5 else none

abbrev kernel : Kernel ℕ
kernel = record { occupant = λ t pid. some pid; father = λ t p. father_of p }

abbrev boundary : Boundary ℕ
boundary = record {
  capture = λ t pid. ok pid;
  parent = λ t pid. father_of pid;
  live = λ t p. true;
  confirm_role = true;
  send = λ t p. ok tt;
}

boundary-IsFaithful : IsFaithful kernel boundary
boundary-IsFaithful = record {
  pins = λ t pid p h. cc;
  holds = λ t u v pid p h l a b. h;
  reads = λ t pid q p h r. cc;
}

is_signalled : signal_using_exclusions boundary 5 7 [] ≡ ok (some 7)
unfolding signal_using_exclusions walk signal_first edges_hold all_live
is_signalled = refl

signalled-Descends_example : Descends kernel 5 7
signalled-Descends_example =
    signalled-Descends kernel boundary boundary-IsFaithful 5 7 [] 7 is_signalled

fathers_below : (t p q : ℕ) → boundary.parent t p ≡ some q → q < pid_limit
fathers_below t p q h = ground arith

walk_settles_example : walk boundary (suc pid_limit) 5 7 [] [] 0 ≢ out_of_fuel
walk_settles_example = walk_settles boundary 5 7 [] fathers_below (omega arith)
