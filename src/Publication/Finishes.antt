-- ===== src/Publication/Finishes.antt =====
-- The telling of an event, src/continuation.rs, goes on with the story, whoever else is at work.
use agent_bash_tool.Common.{◌≡◌, refl, sym, ◌∙◌, some, leb, some-injective, ap}
use agent_bash_tool.Effects.Actors.{reads, touches}
use agent_bash_tool.Effects.Actors.Keeps.{
  Keeps, Keeps-reads, Keeps-bind, Keeps-then, Keeps-look, Keeps-lift,
}
use agent_bash_tool.RootProtocol.Json.{Value, value_eq}
use agent_bash_tool.Publication.Basis.{binding}
use agent_bash_tool.Publication.Evidence.{
  Event, Evidence, Outside, put_bundle, put_outcome, put_snapshot,
}
use agent_bash_tool.Publication.Finish.{
  agree, bundle_file, bundled, descriptor_of, finish_observation, finish_observation_with_output,
  finish_snapshot, max_snapshot, outcome_file, output_descriptor, output_file, snapshot_file,
}
use agent_bash_tool.Publication.Immutable.{immutable}
use agent_bash_tool.Publication.Links.{immutable-There}
use agent_bash_tool.Publication.Order.{and_IsHonest}
use agent_bash_tool.Publication.Growth.{put_bundle-Grows, put_outcome-Grows, put_snapshot-Grows}
use agent_bash_tool.Publication.Select.{event_eq, observation_file}
use agent_bash_tool.Publication.Selects.{
  Sound, binding-Ends, evidence_order, or_missing-some, require-Ends, returns-Ends, touches-Ends,
}
use agent_bash_tool.Continuation.Files.{exact, or_missing}

module _ (o : Outside) where
  abbrev Holds : Event → Evidence → Type 0
  Holds b d = d.chain.bundle ≡ some b

  abbrev Told : Event → Evidence → Type 0
  Told b d = Holds b d × (d.chain.outcome ≡ some b.outcome)

  -- The outcome is that of the bundle.
  outcome-There :
      (b : Event) (d : Evidence)
      → Holds b d
      → Keeps
          (evidence_order o)
          (λ _ d'. (v : Value) × (d'.chain.outcome ≡ some v))
          (immutable value_eq outcome_file put_outcome b.outcome)
          d
  outcome-There b d holds =
      immutable-There _ value_eq outcome_file put_outcome b.outcome
        (λ d'. (v : Value) × (d'.chain.outcome ≡ some v)) d
        (record {
          links_well = λ d' g i e.
              and_IsHonest o.digest o.printed_len d'.chain _ d'.source.local i.1
                (put_outcome-Grows o.digest o.printed_len d' i.0 b (g.bundle_kept b holds) e);
          found = λ d' a e. (a, e);
          stable = λ d' d'' g t. (t.0, g.outcome_kept t.0 t.1);
          linked = λ d'. (b.outcome, refl);
        })

  snapshot-Ends :
      (b : Event) (d : Evidence)
      → Holds b d
      → (v : Value) → d.chain.outcome ≡ some v
      → Sound o (immutable value_eq snapshot_file put_snapshot b.snapshot) d
  snapshot-Ends b d holds v out =
      immutable-There _ value_eq snapshot_file put_snapshot b.snapshot (λ d'. Unit {0}) d
        (record {
          links_well = λ d' g i e.
              let still = g.outcome_kept v out in
              let there = g.bundle_kept b holds in
              let (x, of_bundle, same) = i.0.outcome_told v still in
              let is_b : x ≡ b = some-injective (sym of_bundle ∙ there) in
              and_IsHonest o.digest o.printed_len d'.chain _ d'.source.local i.1 (
                put_snapshot-Grows o.digest o.printed_len d' i.0 b there
                  (still ∙ ap some (sym same ∙ ap (λ (y : Event). y.outcome) is_b)) e);
          found = λ d' a e. tt;
          stable = λ d' d'' g t. tt;
          linked = λ d'. tt;
        })

  pub finish_snapshot-Ends : (d : Evidence) → Sound o (finish_snapshot o) d
  unfolding finish_snapshot
  finish_snapshot-Ends d =
      Keeps-bind (λ file d'. d'.chain.bundle ≡ file) (reads bundle_file) _ d
        (Keeps-reads bundle_file d (λ d' g i. refl))
        (λ file d1 g1 seen. Keeps-lift (or_missing file) _ d1 (λ b d2 is_some g2.
          Keeps-then (binding o) _ d2 (binding-Ends o d2) (λ bound d3 g3.
            Keeps-lift (exact bound.common b.snapshot) _ d3 (λ _ d4 e4 g4.
              Keeps-lift (exact bound.common b.outcome) _ d4 (λ _ d5 e5 g5.
                Keeps-then _ _ d5 (require-Ends o (agree o b) _ d5) (λ _ d6 g6.
                  let holds = g6.bundle_kept b (
                    g5.bundle_kept b (
                      g4.bundle_kept b (
                        g3.bundle_kept b
                          (g2.bundle_kept b (seen ∙ or_missing-some file b is_some))))) in
                  Keeps-bind _ _ _ d6 (outcome-There b d6 holds)
                    (λ _ d7 g7 out. snapshot-Ends b d7 (g7.bundle_kept b holds) out.0 out.1)))))))

  bundle-Ends :
      (e : Event) (descriptor : Value) (d : Evidence)
      → d.chain.observation ≡ some e
      → Sound o (immutable event_eq bundle_file put_bundle (bundled o e descriptor)) d
  bundle-Ends e descriptor d seen =
      immutable-There _ event_eq bundle_file put_bundle (bundled o e descriptor) (λ d'. Unit {0}) d
        (record {
          links_well = λ d' g i free.
              and_IsHonest o.digest o.printed_len d'.chain _ d'.source.local i.1 (
                put_bundle-Grows o.digest o.printed_len d' i.0 e (bundled o e descriptor)
                  (g.observation_kept e seen)
                  (record { same_outcome = refl; descriptor = descriptor; same_snapshot = refl })
                  free);
          found = λ d' a e. tt;
          stable = λ d' d'' g t. tt;
          linked = λ d'. tt;
        })

  pub finish_observation_with_output-Ends :
      (descriptor : Value) (d : Evidence) → Sound o (finish_observation_with_output o descriptor) d
  unfolding finish_observation_with_output
  finish_observation_with_output-Ends descriptor d =
      Keeps-bind (λ file d'. d'.chain.observation ≡ file) (reads observation_file) _ d
        (Keeps-reads observation_file d (λ d' g i. refl))
        (λ file d1 g1 seen. Keeps-lift (or_missing file) _ d1 (λ e d2 is_some g2.
          Keeps-then (binding o) _ d2 (binding-Ends o d2) (λ b d3 g3.
            Keeps-lift (exact b.common e.outcome) _ d3 (λ _ d4 e4 g4.
              Keeps-lift (exact b.common e.snapshot) _ d4 (λ _ d5 e5 g5.
                Keeps-then _ _ d5
                  (require-Ends o
                    (leb (o.printed_len (bundled o e descriptor).snapshot) max_snapshot) _ d5)
                  (λ _ d6 g6.
                    Keeps-then _ _ d6
                      (bundle-Ends e descriptor d6 (
                        g6.observation_kept e (
                          g5.observation_kept e (
                            g4.observation_kept e (
                              g3.observation_kept e
                                (g2.observation_kept e (seen ∙ or_missing-some file e is_some)))))))
                      (λ _ d7 g7. finish_snapshot-Ends d7)))))))

  pub output_descriptor-Ends : (d : Evidence) → Sound o (output_descriptor o) d
  unfolding output_descriptor
  output_descriptor-Ends d = Keeps-look output_file _ d (λ file d1 g1.
      Keeps-lift (or_missing file) _ d1 (λ body d2 e g2.
        Keeps-then touches _ d2 (touches-Ends o d2)
          (λ _ d3 g3. returns-Ends o (descriptor_of o body) d3)))

  pub finish_observation-Ends : (d : Evidence) → Sound o (finish_observation o) d
  unfolding finish_observation
  finish_observation-Ends d =
      Keeps-then (output_descriptor o) _ d (output_descriptor-Ends d)
        (λ descriptor d1 g1. finish_observation_with_output-Ends descriptor d1)
