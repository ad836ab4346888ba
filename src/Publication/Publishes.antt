-- ===== src/Publication/Publishes.antt =====
-- The freezing of the output and the publication of an event, src/continuation.rs and capture.rs, go on
-- with the story.
use agent_bash_tool.Common.{◌==◌, if◌then◌else◌, Bool, true, false, not, Option, none, some}
use agent_bash_tool.Effects.Actors.{Program, ◌>>=◌, returns, reads, touches}
use agent_bash_tool.Effects.Actors.Keeps.{Keeps-if, Keeps-links, Keeps-then, Keeps-look, Keeps-lift}
use agent_bash_tool.Meta.{Meta}
use agent_bash_tool.RootProtocol.Json.{Value}
use agent_bash_tool.Publication.Evidence.{Evidence, Observation, Outside}
use agent_bash_tool.Publication.Finish.{
  capture_enabled, capture_unbundled, Progress, advance_enabled, advance_publication,
  advance_unbundled, advance_with, capture_observation, finish_observation_with_output,
  finish_snapshot, freeze, freeze_missing, freeze_output, freeze_selected, hash_quantum,
  output_descriptor, output_file, publish, publish_enabled, publish_unbundled, put_output,
  same_directory,
}
use agent_bash_tool.Publication.Immutable.{enabled, is_there}
use agent_bash_tool.Publication.Order.{Grows-refl}
use agent_bash_tool.Publication.Select.{retain_event, selection_file}
use agent_bash_tool.Publication.Selects.{
  Sound, require-Ends, retain_event-Ends, returns-Ends, touches-Ends,
}
use agent_bash_tool.Continuation.Files.{or_missing}
use agent_bash_tool.Publication.Finishes.{
  finish_snapshot-Ends, finish_observation_with_output-Ends, output_descriptor-Ends,
  finish_observation-Ends,
}

module _ (o : Outside) where
  freeze_selected-Ends : (d : Evidence) → Sound o (freeze_selected o) d
  unfolding freeze_selected
  freeze_selected-Ends d =
      Keeps-look (λ d. is_there d.proof) _ d
        (λ adjudicated d1 g1. Keeps-then _ _ d1 (require-Ends o (not adjudicated) _ d1) (λ _ d2 g2.
          Keeps-look selection_file _ d2 (λ file d3 g3.
            Keeps-lift (or_missing file) _ d3 (λ s d4 e4 g4.
              Keeps-then _ _ d4 (require-Ends o (same_directory o s) _ d4) (λ _ d5 g5.
                Keeps-lift o.copied _ d5 (λ body d6 e6 g6.
                  Keeps-then _ _ d6
                    (Keeps-links output_file put_output body d6
                      (λ d' g i e. (Grows-refl o.digest o.printed_len d'.chain, i))
                      (λ d' g i e. tt))
                    (λ _ d7 g7. touches-Ends o d7)))))))

  pub freeze-Ends : (d : Evidence) → Sound o (freeze o) d
  unfolding freeze
  freeze-Ends d =
      Keeps-look (λ d. is_there d.output) _ d
        (λ frozen d1 g1.
          Keeps-if frozen (returns tt) _ d1 (λ _. returns-Ends o tt d1)
            (λ _. freeze_selected-Ends d1))

  freeze_missing-Ends : (frozen : Bool) (d : Evidence) → Sound o (freeze_missing o frozen) d
  unfolding freeze_missing freeze_output
  freeze_missing-Ends frozen d =
      Keeps-if frozen (returns tt) _ d (λ _. returns-Ends o tt d)
        (λ _. Keeps-then touches _ d (touches-Ends o d) (λ _ d1 g1. freeze-Ends d1))

  -- Both publishers do nothing for a source that has not enabled the protocol, and only complete a
  -- bundle that stands.
  published-Ends :
      (unbundled : Program Evidence (Unit {0})) (d : Evidence)
      → ((d' : Evidence) → Sound o unbundled d')
      → Sound o
          (reads enabled >>= (λ on.
            if on
            then reads (λ d. is_there d.chain.bundle)
              >>= (λ already. if already then finish_snapshot o else unbundled)
            else returns tt))
          d
  published-Ends unbundled d h = Keeps-look enabled _ d (λ on d1 g1.
      Keeps-if on _ (returns tt) d1
        (λ _.
          Keeps-look (λ d. is_there d.chain.bundle) _ d1
            (λ already d2 g2.
              Keeps-if already (finish_snapshot o) unbundled d2 (λ _. finish_snapshot-Ends o d2)
                (λ _. h d2)))
        (λ _. returns-Ends o tt d1))

  capture_observation-Ends :
      (meta : Meta) (ob : Observation) (d : Evidence) → Sound o (capture_observation o meta ob) d
  unfolding capture_observation capture_enabled capture_unbundled
  capture_observation-Ends meta ob d = published-Ends (capture_unbundled o meta ob) d (λ d1.
      Keeps-then (retain_event o meta ob) _ d1 (retain_event-Ends o meta ob d1) (λ _ d2 g2.
        Keeps-look (λ d. is_there d.output) _ d2 (λ frozen d3 g3. freeze_missing-Ends frozen d3)))

  pub publish-Ends : (meta : Meta) (ob : Observation) (d : Evidence) → Sound o (publish o meta ob) d
  unfolding publish publish_enabled publish_unbundled
  publish-Ends meta ob d = published-Ends (publish_unbundled o meta ob) d (λ d1.
      Keeps-then (capture_observation o meta ob) _ d1 (capture_observation-Ends meta ob d1)
        (λ _ d2 g2. finish_observation-Ends o d2))

  hash_quantum-Ends :
      (p : Progress) (v : Option Value) (d : Evidence) → Sound o (hash_quantum o p v) d
  unfolding hash_quantum
  hash_quantum-Ends p (some v) d = returns-Ends o (some v, p) d
  hash_quantum-Ends p none d =
      Keeps-if (p.quanta_left == 0) _ _ d
        (λ _.
          Keeps-then (output_descriptor o) _ d (output_descriptor-Ends o d)
            (λ v d1 g1. returns-Ends o _ d1))
        (λ _. returns-Ends o _ d)

  advance_with-Ends :
      (hashed : Option Value × Progress) (d : Evidence) → Sound o (advance_with o hashed) d
  unfolding advance_with
  advance_with-Ends (none, p) d = returns-Ends o (false, p) d
  advance_with-Ends (some v, p) d =
      Keeps-then (finish_observation_with_output o v) _ d
        (finish_observation_with_output-Ends o v d) (λ _ d1 g1. returns-Ends o (true, p) d1)

  pub advance_publication-Ends :
      (meta : Meta) (ob : Observation) (p : Progress) (d : Evidence)
      → Sound o (advance_publication o meta ob p) d
  unfolding advance_publication advance_enabled advance_unbundled
  advance_publication-Ends meta ob p d = Keeps-look enabled _ d (λ on d1 g1.
      Keeps-if on _ (returns (true, p)) d1
        (λ _.
          Keeps-look (λ d. is_there d.chain.bundle) _ d1
            (λ already d2 g2.
              Keeps-if already _ _ d2
                (λ _.
                  Keeps-then (finish_snapshot o) _ d2 (finish_snapshot-Ends o d2)
                    (λ _ d3 g3. returns-Ends o (true, p) d3))
                (λ _.
                  Keeps-then (capture_observation o meta ob) _ d2
                    (capture_observation-Ends meta ob d2)
                    (λ _ d3 g3.
                      Keeps-then (hash_quantum o p p.descriptor) _ d3
                        (hash_quantum-Ends p p.descriptor d3)
                        (λ hashed d4 g4. advance_with-Ends hashed d4)))))
        (λ _. returns-Ends o (true, p) d1))
