-- ===== src/Publication/Recovers.antt =====
-- The recovery of a source, src/continuation.rs, goes on with the story, whoever else is at work.
use agent_bash_tool.Common.{subst, refl, Bool, true, false, Option, none, some, ltb}
use agent_bash_tool.Effects.{Result, ok, err}
use agent_bash_tool.Effects.Actors.{reads, returns, touches}
use agent_bash_tool.Effects.Actors.Keeps.{
  Keeps-bind, Keeps-reads, Keeps-fails, Keeps-if, Keeps-then, Keeps-look, Keeps-lift,
}
use agent_bash_tool.RootProtocol.Json.{Value, value_eq}
use agent_bash_tool.Publication.Basis.{binding, own_fence}
use agent_bash_tool.Publication.Evidence.{Evidence, Outside}
use agent_bash_tool.Publication.Finish.{finish_snapshot}
use agent_bash_tool.Publication.Finishes.{finish_observation-Ends, finish_snapshot-Ends}
use agent_bash_tool.Publication.Publishes.{publish-Ends}
use agent_bash_tool.Publication.Immutable.{is_there}
use agent_bash_tool.Publication.Links.{immutable-Ends}
use agent_bash_tool.Publication.Loses.{
  aside-Ends, put_local-Ends, attempt-Ends, recover_output-Ends,
}
use agent_bash_tool.Publication.Order.{Grows-refl, IsHonest-later}
use agent_bash_tool.Publication.Story.{IsHonest}
use agent_bash_tool.Publication.Honest.{with_key-IsHonest}
use agent_bash_tool.Common.Bytes.{codes}
use agent_bash_tool.Publication.Recovery.{
  after_restore, answer_of, answer_told, close_launch, close_unlaunched, confirm_local,
  confirmation_file, finish_bundled, finish_event, is_pinned_recovery, is_unreleased, may_confirm,
  never_launched, never_launched_meta, pending_error, publish_never_launched, publish_unless_told,
  put_confirmation, reconcile, recover_closed, recover_event, restore_if, restore_missing,
  tell_event, transition,
}
use agent_bash_tool.Publication.Selects.{
  Sound, binding-Ends, or_missing-some, own_fence-Ends, require-Ends, restore_selected_event-Ends,
  returns-Ends, touches-Ends,
}
use agent_bash_tool.Continuation.Files.{
  Fence, Phase, exact, or_missing, phase_eq, revoked_never_launched,
}

module _ (o : Outside) where
  transition-Ends : (f : Fence) (phase : Phase) (d : Evidence) → Sound o (transition o f phase) d
  unfolding transition
  transition-Ends f phase d =
      Keeps-if (ltb f.revision 18446744073709551615) _ _ d
        (λ _. aside-Ends o _ (λ d. refl) (λ d. refl) d) (λ _. Keeps-fails _ d)

  close_launch-Ends :
      (confirmation : Value) (fence : Fence) (d : Evidence)
      → Sound o (close_launch o confirmation fence) d
  unfolding close_launch
  close_launch-Ends confirmation fence d =
      Keeps-if _ (returns false) _ d (λ _. returns-Ends o false d)
        (λ _.
          Keeps-then _ _ d
            (Keeps-if (is_unreleased o fence) _ (returns tt) d
              (λ _. transition-Ends fence revoked_never_launched d) (λ _. returns-Ends o tt d))
            (λ _ d1 g1.
              Keeps-then _ _ d1
                (immutable-Ends _ value_eq confirmation_file put_confirmation confirmation
                  (λ d i. (Grows-refl o.digest o.printed_len d.chain, i)) d1)
                (λ _ d2 g2. returns-Ends o true d2)))

  finish_event-Ends : (ready : Bool) (d : Evidence) → Sound o (finish_event o ready) d
  unfolding finish_event
  finish_event-Ends false d = returns-Ends o false d
  finish_event-Ends true d =
      Keeps-look (λ d. is_there d.chain.bundle) _ d
        (λ already d1 g1.
          Keeps-then _ _ d1
            (Keeps-if already (returns tt) _ d1 (λ _. returns-Ends o tt d1)
              (λ _. finish_observation-Ends o d1))
            (λ _ d2 g2. returns-Ends o true d2))

  tell_event-Ends : (d : Evidence) → Sound o (tell_event o) d
  unfolding tell_event recover_event
  tell_event-Ends d =
      Keeps-look (λ d. is_there d.chain.observation) _ d
        (λ observed d1 g1.
          Keeps-if observed _ (returns true) d1
            (λ _.
              Keeps-then _ _ d1
                (Keeps-look (λ d. is_there d.output) _ d1
                  (λ frozen d2 g2.
                    Keeps-if frozen (returns true) _ d2 (λ _. returns-Ends o true d2)
                      (λ _. recover_output-Ends o d2)))
                (λ ready d3 g3. finish_event-Ends ready d3))
            (λ _. returns-Ends o true d1))

  restore_if-Ends : (b : Bool) (d : Evidence) → Sound o (restore_if o b) d
  restore_if-Ends true d = restore_selected_event-Ends o d
  restore_if-Ends false d = returns-Ends o tt d

  restore_missing-Ends : (d : Evidence) → Sound o (restore_missing o) d
  unfolding restore_missing
  restore_missing-Ends d =
      Keeps-look (λ d. is_there d.chain.observation) _ d
        (λ observed d1 g1.
          Keeps-if observed _ _ d1 (λ _. returns-Ends o (ok tt) d1)
            (λ _.
              Keeps-look (λ d. is_there d.chain.selection) _ d1
                (λ selected d2 g2. attempt-Ends o _ d2 (restore_if-Ends selected d2))))

  publish_never_launched-Ends : (d : Evidence) → Sound o (publish_never_launched o) d
  unfolding publish_never_launched
  publish_never_launched-Ends d =
      Keeps-look (λ d. d.meta) _ d
        (λ file d1 g1. Keeps-lift (or_missing file) _ d1 (λ meta d2 e2 g2.
          Keeps-then _ _ d2 (publish-Ends o (never_launched_meta o meta) (never_launched o) d2)
            (λ _ d3 g3.
              Keeps-then _ _ d3 (aside-Ends o _ (λ d. refl) (λ d. refl) d3)
                (λ _ d4 g4. aside-Ends o _ (λ d. refl) (λ d. refl) d4))))

  close_unlaunched-Ends : (fence : Fence) (d : Evidence) → Sound o (close_unlaunched o fence) d
  unfolding close_unlaunched publish_unless_told
  close_unlaunched-Ends fence d =
      Keeps-if (phase_eq fence.phase revoked_never_launched) _ (returns tt) d
        (λ _.
          Keeps-look (λ d. is_there d.chain.outcome) _ d
            (λ told d1 g1.
              Keeps-if told (returns tt) _ d1 (λ _. returns-Ends o tt d1)
                (λ _. publish_never_launched-Ends d1)))
        (λ _. returns-Ends o tt d)

  answer_of-Ends :
      (common : Value) (snapshot : Option Value) (d : Evidence)
      → Sound o (answer_of o common snapshot) d
  unfolding answer_of
  answer_of-Ends common none d = returns-Ends o _ d
  answer_of-Ends common (some snapshot) d =
      Keeps-look (λ d. d.chain.outcome) _ d
        (λ file d1 g1. Keeps-lift (or_missing file) _ d1 (λ outcome d2 e2 g2. returns-Ends o _ d2))

  answer_told-Ends :
      (common : Value) (fence : Fence) (ready : Bool) (d : Evidence)
      → Sound o (answer_told o common fence ready) d
  unfolding answer_told finish_bundled
  answer_told-Ends common fence false d = returns-Ends o _ d
  answer_told-Ends common fence true d =
      Keeps-then (close_unlaunched o fence) _ d (close_unlaunched-Ends fence d) (λ _ d1 g1.
        Keeps-then _ _ d1
          (Keeps-look (λ d. is_there d.chain.bundle) _ d1
            (λ already d2 g2.
              Keeps-if already (finish_snapshot o) (returns tt) d2 (λ _. finish_snapshot-Ends o d2)
                (λ _. returns-Ends o tt d2)))
          (λ _ d3 g3.
            Keeps-look (λ d. d.chain.snapshot) _ d3
              (λ snapshot d4 g4. answer_of-Ends common snapshot d4)))

  after_restore-Ends :
      (common : Value) (fence : Fence) (restored : Result (Unit {0})) (d : Evidence)
      → Sound o (after_restore o common fence restored) d
  unfolding after_restore
  after_restore-Ends common fence (err e) d = returns-Ends o (pending_error o common e) d
  after_restore-Ends common fence (ok restored) d =
      Keeps-then (tell_event o) _ d (tell_event-Ends d)
        (λ ready d1 g1. answer_told-Ends common fence ready d1)

  confirm_local-Ends : (d : Evidence) → Sound o (confirm_local o) d
  unfolding confirm_local
  confirm_local-Ends d = Keeps-then touches _ d (touches-Ends o d) (λ _ d1 g1.
      Keeps-bind (λ file d'. IsHonest o.digest d'.chain file) (reads (λ d. d.source.local)) _ d1
        (Keeps-reads (λ d. d.source.local) d1 (λ d' g i. i.1))
        (λ file d2 g2 honest. Keeps-lift (or_missing file) _ d2 (λ l d3 e3 g3.
          put_local-Ends o _ d3 (
            with_key-IsHonest o.digest d3.chain l (codes "registration") _ refl refl (
              IsHonest-later o.digest o.printed_len d2.chain d3.chain (some l) g3 (
                subst (λ recorded. IsHonest o.digest d2.chain recorded) (or_missing-some file l e3)
                  honest))))))

  recover_closed-Ends :
      (common : Value) (closed : Bool) (d : Evidence) → Sound o (recover_closed o common closed) d
  unfolding recover_closed
  recover_closed-Ends common false d = returns-Ends o _ d
  recover_closed-Ends common true d = Keeps-then touches _ d (touches-Ends o d) (λ _ d1 g1.
      Keeps-then (confirm_local o) _ d1 (confirm_local-Ends d1) (λ _ d2 g2.
        Keeps-look (λ d. d.source.fence) _ d2
          (λ file d3 g3. Keeps-lift (or_missing file) _ d3 (λ fence d4 e4 g4.
            Keeps-then (restore_missing o) _ d4 (restore_missing-Ends d4)
              (λ restored d5 g5. after_restore-Ends common fence restored d5)))))

  pub reconcile-Ends : (confirmation : Value) (d : Evidence) → Sound o (reconcile o confirmation) d
  unfolding reconcile
  reconcile-Ends confirmation d = Keeps-then (binding o) _ d (binding-Ends o d) (λ b d1 g1.
      Keeps-lift (exact b.common confirmation) _ d1 (λ _ d2 e2 g2.
        Keeps-then _ _ d2 (require-Ends o (may_confirm o confirmation) _ d2) (λ _ d3 g3.
          Keeps-then touches _ d3 (touches-Ends o d3) (λ _ d4 g4.
            Keeps-then _ _ d4 (require-Ends o (is_pinned_recovery o b) _ d4) (λ _ d5 g5.
              Keeps-then touches _ d5 (touches-Ends o d5) (λ _ d6 g6.
                Keeps-then (own_fence o b) _ d6 (own_fence-Ends o b d6) (λ fence d7 g7.
                  Keeps-then (close_launch o confirmation fence) _ d7
                    (close_launch-Ends confirmation fence d7)
                    (λ closed d8 g8. recover_closed-Ends b.common closed d8))))))))
