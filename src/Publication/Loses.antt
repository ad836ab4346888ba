-- ===== src/Publication/Loses.antt =====
-- What stands in for a lost output, src/continuation.rs, goes on with the story.
use agent_bash_tool.Common.{◌≡◌, true, false, Option, none, some}
use agent_bash_tool.Common.Bytes.{codes}
use agent_bash_tool.Effects.{Result, ok, err}
use agent_bash_tool.Effects.Actors.{Program, returns, fails, attempt, writes, touches}
use agent_bash_tool.Effects.Actors.Keeps.{
  Ends, Keeps-fails, Keeps-if, Keeps-writes, Keeps-attempt, Keeps-then, Keeps-look, Keeps-lift,
}
use agent_bash_tool.RootProtocol.Json.{Value, at, value_eq}
use agent_bash_tool.Publication.Evidence.{Event, Evidence, Loss, Outside}
use agent_bash_tool.Publication.Finish.{
  finish_observation_with_output, finish_snapshot, freeze, proof_file, put_proof,
}
use agent_bash_tool.Publication.Finishes.{finish_observation_with_output-Ends, finish_snapshot-Ends}
use agent_bash_tool.Publication.Publishes.{freeze-Ends}
use agent_bash_tool.Publication.Immutable.{is_there}
use agent_bash_tool.Publication.Links.{immutable-Ends}
use agent_bash_tool.Publication.Losing.{
  after_freeze, after_observe, attest, is_blocked, may_attest, observe, observe_gone, observe_new,
  proof_of, recover_locked, recover_output,
}
use agent_bash_tool.Publication.Order.{Grows-refl, IsHonest-later}
use agent_bash_tool.Publication.Story.{IsHonest}
use agent_bash_tool.Publication.Recovery.{put_local}
use agent_bash_tool.Publication.Select.{observation_file, selection_file}
use agent_bash_tool.Publication.Selects.{Sound, returns-Ends, touches-Ends}
use agent_bash_tool.Continuation.Files.{or_missing}

module _ (o : Outside) where
  -- A write of neither the chain nor the local record.
  pub aside-Ends :
      (change : Evidence → Evidence)
      → ((d : Evidence) → (change d).chain ≡ d.chain)
      → ((d : Evidence) → (change d).source.local ≡ d.source.local)
      → (d : Evidence) → Sound o (writes change) d
  aside-Ends change same same_local d =
      Keeps-writes change d
        (λ d' g i.
          rw (same d') (rw (same_local d') (Grows-refl o.digest o.printed_len d'.chain, i)))
        (λ d' g i. tt)

  -- A new local record that is honest too.
  pub put_local-Ends :
      (l : Value) (d : Evidence)
      → IsHonest o.digest d.chain (some l)
      → Sound o (writes (put_local l)) d
  put_local-Ends l d h =
      Keeps-writes (put_local l) d
        (λ d' g i. (
          Grows-refl o.digest o.printed_len d'.chain,
          (i.0, IsHonest-later o.digest o.printed_len d.chain d'.chain (some l) g h),
        ))
        (λ d' g i. tt)

  attest-Ends :
      (staged : Event) (lost : Option Loss) (d : Evidence) → Sound o (attest o staged lost) d
  unfolding attest
  attest-Ends staged none d = returns-Ends o none d
  attest-Ends staged (some loss) d = Keeps-then touches _ d (touches-Ends o d) (λ _ d1 g1.
      Keeps-lift o.self _ d1 (λ own d2 e2 g2.
        Keeps-then _ _ d2
          (immutable-Ends _ value_eq proof_file put_proof (proof_of o staged own loss)
            (λ d i. (Grows-refl o.digest o.printed_len d.chain, i)) d2)
          (λ _ d3 g3. returns-Ends o _ d3)))

  observe_gone-Ends : (staged : Event) (d : Evidence) → Sound o (observe_gone o staged) d
  unfolding observe_gone
  observe_gone-Ends staged d = Keeps-look selection_file _ d (λ chosen d1 g1.
      Keeps-lift (or_missing chosen) _ d1 (λ selection d2 e2 g2.
        Keeps-if (may_attest o selection) _ (returns none) d2 (λ _. attest-Ends staged o.lost d2)
          (λ _. returns-Ends o none d2)))

  observe-Ends : (d : Evidence) → Sound o (observe o) d
  unfolding observe observe_new
  observe-Ends d = Keeps-look proof_file _ d (λ proof d1 g1.
      Keeps-if (is_there proof) (returns proof) _ d1 (λ _. returns-Ends o proof d1)
        (λ _. Keeps-look observation_file _ d1 (λ file d2 g2.
          Keeps-lift (or_missing file) _ d2 (λ staged d3 e3 g3.
            Keeps-if (o.observer_gone (at staged.outcome (codes "observer"))) _ (returns none) d3
              (λ _. observe_gone-Ends staged d3) (λ _. returns-Ends o none d3)))))

  after_observe-Ends : (proof : Option Value) (d : Evidence) → Sound o (after_observe o proof) d
  unfolding after_observe
  after_observe-Ends none d = returns-Ends o false d
  after_observe-Ends (some proof) d =
      Keeps-then (finish_observation_with_output o proof) _ d
        (finish_observation_with_output-Ends o proof d) (λ _ d1 g1. returns-Ends o true d1)

  after_freeze-Ends :
      (frozen : Result (Unit {0})) (d : Evidence) → Sound o (after_freeze o frozen) d
  unfolding after_freeze
  after_freeze-Ends (ok frozen) d = returns-Ends o true d
  after_freeze-Ends (err e) d = Keeps-then touches _ d (touches-Ends o d) (λ _ d1 g1.
      Keeps-then touches _ d1 (touches-Ends o d1) (λ _ d2 g2.
        Keeps-then (observe o) _ d2 (observe-Ends d2) (λ proof d3 g3. after_observe-Ends proof d3)))

  pub attempt-Ends :
      {A : Type 0} (m : Program Evidence A) (d : Evidence) → Sound o m d → Sound o (attempt m) d
  attempt-Ends m d h = Keeps-attempt Ends m d h (λ a d' g r. tt) (λ e d' g. tt)

  recover_locked-Ends :
      (lock : Result (Unit {0})) (d : Evidence) → Sound o (recover_locked o lock) d
  unfolding recover_locked
  recover_locked-Ends (ok lock) d =
      Keeps-then (attempt (freeze o)) _ d (attempt-Ends (freeze o) d (freeze-Ends o d))
        (λ frozen d1 g1. after_freeze-Ends frozen d1)
  recover_locked-Ends (err e) d =
      Keeps-if (is_blocked e.kind) (returns false) (fails e) d (λ _. returns-Ends o false d)
        (λ _. Keeps-fails e d)

  pub recover_output-Ends : (d : Evidence) → Sound o (recover_output o) d
  unfolding recover_output
  recover_output-Ends d =
      Keeps-look (λ d. is_there d.chain.bundle) _ d
        (λ already d1 g1.
          Keeps-if already _ _ d1
            (λ _.
              Keeps-then (finish_snapshot o) _ d1 (finish_snapshot-Ends o d1)
                (λ _ d2 g2. returns-Ends o true d2))
            (λ _.
              Keeps-then (attempt touches) _ d1 (attempt-Ends touches d1 (touches-Ends o d1))
                (λ lock d2 g2. recover_locked-Ends lock d2)))
