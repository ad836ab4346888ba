-- ===== src/Publication/Selects.antt =====
-- The selection of an event, src/continuation.rs, goes on with the story, whoever else is at work.
use agent_bash_tool.Common.{
  String, ◌≡◌, refl, ◌∙◌, Bool, true, false, not, ◌&&◌, ◌||◌, Option, none, some, arith,
}
use agent_bash_tool.Effects.{error_other, Result, ok}
use agent_bash_tool.Effects.Actors.{Program, returns, fails, attempt, lifted, reads, touches}
use agent_bash_tool.Effects.Actors.Keeps.{
  Order, Keeps, Ends, Keeps-returns, Keeps-fails, Keeps-lifted, Keeps-if, Keeps-reads, Keeps-links,
  Keeps-bind, Keeps-attempt, Keeps-then, Keeps-look, Keeps-lift,
}
use agent_bash_tool.Meta.{Meta}
use agent_bash_tool.RootProtocol.Json.{null, str, value_eq}
use agent_bash_tool.Publication.Basis.{
  basis_of, binding, cancellation_file, cancellation_identity, own_fence, put_cancellation,
}
use agent_bash_tool.Publication.Evidence.{
  Event, Evidence, Observation, Outside, Selection, missing, put_observation, put_selection,
}
use agent_bash_tool.Publication.Immutable.{enabled, immutable, is_there, require}
use agent_bash_tool.Publication.Links.{immutable-Ends, immutable-There}
use agent_bash_tool.Publication.Order.{Grows-refl, and_IsHonest, order}
use agent_bash_tool.Publication.Growth.{put_observation-Grows, put_selection-Grows}
use agent_bash_tool.Publication.Select.{
  cancelled, event_eq, identified, observation_file, or_no_pin, pin_if, pin_output,
  put_selected_log, restore_selected_event, retain_event, retained, select_event_output, select_new,
  select_observed_event, select_unless_observed, select_unless_selected, selected_log_file,
  selection_eq, selection_file, stage,
}
use agent_bash_tool.Continuation.Files.{Binding, binding_of, exact, or_missing}

pub or_missing-some :
    {A : Type 0} (file : Option A) (a : A) → or_missing file ≡ ok a → file ≡ some a
or_missing-some none a e = absurd (ground arith)
or_missing-some (some b) a e = ground arith

retained-some : (s : Selection) (e : Event) → retained s ≡ ok e → s.observation ≡ some e
retained-some s e h = of_file s.observation refl
  where
    of_file : (file : Option Event) → s.observation ≡ file → s.observation ≡ some e
    of_file none p = absurd (ground arith)
    of_file (some x) p = ground arith

module _ (o : Outside) where
  abbrev pub evidence_order : Order Evidence
  evidence_order = order o.digest o.printed_len

  -- From these files on, each access goes on with the story.
  abbrev pub Sound : {A : Type 0} → Program Evidence A → Evidence → Type 0
  Sound m d = Keeps evidence_order Ends m d

  pub require-Ends : (b : Bool) (message : String) (d : Evidence) → Sound (require b message) d
  require-Ends b message d =
      Keeps-if b (returns tt) (fails (error_other message)) d (λ _. Keeps-returns tt d tt)
        (λ _. Keeps-fails (error_other message) d)

  pub lifted-Ends : {A : Type 0} (r : Result A) (d : Evidence) → Sound (lifted r) d
  lifted-Ends r d = Keeps-lifted r d (λ a e. tt)

  pub touches-Ends : (d : Evidence) → Sound touches d
  touches-Ends d = Keeps-reads (λ d. tt) d (λ d' g i. tt)

  pub returns-Ends : {A : Type 0} (a : A) (d : Evidence) → Sound (returns a) d
  returns-Ends a d = Keeps-returns a d tt

  pub binding-Ends : (d : Evidence) → Sound (binding o) d
  unfolding binding
  binding-Ends d =
      Keeps-look (λ d. d.source.registration) _ d
        (λ file d1 g1.
          Keeps-lift (or_missing file) _ d1
            (λ registration d2 e g2. lifted-Ends (binding_of o.paths o.digest registration) d2))

  pub own_fence-Ends : (b : Binding) (d : Evidence) → Sound (own_fence o b) d
  unfolding own_fence
  own_fence-Ends b d =
      Keeps-look (λ d. d.source.fence) _ d
        (λ file d1 g1. Keeps-lift (or_missing file) _ d1 (λ fence d2 e g2.
          Keeps-lift (exact b.common fence.common) _ d2 (λ same d3 e' g3. returns-Ends fence d3)))

  cancellation_identity-Ends : (meta : Meta) (d : Evidence) → Sound (cancellation_identity o meta) d
  unfolding cancellation_identity
  cancellation_identity-Ends meta d = Keeps-then (binding o) _ d (binding-Ends d) (λ b d1 g1.
      Keeps-then touches _ d1 (touches-Ends d1) (λ _ d2 g2.
        Keeps-lift (basis_of o b.common meta o.cancelling.accepted_cancel) _ d2 (λ receipt d3 e g3.
          Keeps-then _ _ d3
            (immutable-Ends _ value_eq (cancellation_file o) (put_cancellation o) receipt
              (λ d i. (Grows-refl o.digest o.printed_len d.chain, i)) d3)
            (λ _ d4 g4. returns-Ends (o.digest receipt) d4))))

  identified-Ends : (ob : Observation) (meta : Meta) (d : Evidence) → Sound (identified o ob meta) d
  unfolding identified
  identified-Ends ob meta d =
      Keeps-if (cancelled o ob) _ (returns null) d
        (λ _.
          Keeps-then (cancellation_identity o meta) _ d (cancellation_identity-Ends meta d)
            (λ id d1 g1. returns-Ends (str id) d1))
        (λ _. returns-Ends null d)

  pin_output-Ends : (d : Evidence) → Sound (pin_output o) d
  unfolding pin_output
  pin_output-Ends d =
      Keeps-then _ _ d
        (Keeps-links (selected_log_file o) (put_selected_log o) o.log.inode d
          (λ d' g i e. (Grows-refl o.digest o.printed_len d'.chain, i)) (λ d' g i e. tt))
        (λ _ d1 g1. Keeps-then touches _ d1 (touches-Ends d1) (λ _ d2 g2.
          Keeps-then _ _ d2 (require-Ends o.log.is_file _ d2)
            (λ _ d3 g3. Keeps-then touches _ d3 (touches-Ends d3) (λ _ d4 g4. returns-Ends _ d4))))

  pin_if-Ends : (trusted : Bool) (d : Evidence) → Sound (pin_if o trusted) d
  unfolding pin_if
  pin_if-Ends true d =
      Keeps-then (attempt (pin_output o)) _ d
        (Keeps-attempt Ends (pin_output o) d (pin_output-Ends d) (λ a d' g r. tt) (λ e d' g. tt))
        (λ pin d1 g1. returns-Ends (or_no_pin o pin) d1)
  pin_if-Ends false d = returns-Ends missing d

  -- One event is chosen and no other takes its place.
  select_new-Ends :
      (staged : Event) (trusted : Bool) (d : Evidence) → Sound (select_new o staged trusted) d
  unfolding select_new
  select_new-Ends staged trusted d = Keeps-then touches _ d (touches-Ends d) (λ _ d1 g1.
      Keeps-then (pin_if o trusted) _ d1 (pin_if-Ends trusted d1) (λ pin d2 g2.
        immutable-There _ selection_eq selection_file put_selection
          (record { pin = pin; observation = some staged; directory = o.directory })
          (λ d'. Unit {0}) d2
          (record {
            links_well = λ d' g i e.
                and_IsHonest o.digest o.printed_len d'.chain _ d'.source.local i.1 (
                  put_selection-Grows o.digest o.printed_len d' i.0
                    (record { pin = pin; observation = some staged; directory = o.directory })
                    staged refl e);
            found = λ d' a e. tt;
            stable = λ d' d'' g t. tt;
            linked = λ d'. tt;
          })))

  select_event_output-Ends :
      (staged : Event) (trusted : Bool) (d : Evidence)
      → Sound (select_event_output o staged trusted) d
  unfolding select_event_output
  select_event_output-Ends staged trusted d =
      Keeps-look (λ d. is_there d.chain.selection) _ d
        (λ selected d1 g1.
          Keeps-if selected (returns tt) _ d1 (λ _. returns-Ends tt d1)
            (λ _. select_new-Ends staged trusted d1))

  stage-Ends : (meta : Meta) (ob : Observation) (d : Evidence) → Sound (stage o meta ob) d
  unfolding stage
  stage-Ends meta ob d = Keeps-then (binding o) _ d (binding-Ends d) (λ b d1 g1.
      Keeps-then (own_fence o b) _ d1 (own_fence-Ends b d1) (λ fence d2 g2.
        Keeps-then _ _ d2
          (require-Ends (not (cancelled o ob) || (ob.tree_drained && ob.output_closed)) _ d2)
          (λ _ d3 g3. Keeps-lift o.self _ d3 (λ own d4 e g4.
            Keeps-then (identified o ob meta) _ d4 (identified-Ends ob meta d4)
              (λ id d5 g5. select_event_output-Ends _ ob.output_trusted d5)))))

  pub select_observed_event-Ends :
      (meta : Meta) (ob : Observation) (d : Evidence) → Sound (select_observed_event o meta ob) d
  unfolding select_observed_event select_unless_observed select_unless_selected
  select_observed_event-Ends meta ob d = Keeps-look enabled _ d (λ on d1 g1.
      Keeps-if on _ (returns tt) d1
        (λ _.
          Keeps-look (λ d. is_there d.chain.observation) _ d1
            (λ observed d2 g2.
              Keeps-if observed (returns tt) _ d2 (λ _. returns-Ends tt d2)
                (λ _.
                  Keeps-look (λ d. is_there d.chain.selection) _ d2
                    (λ selected d3 g3.
                      Keeps-if selected (returns tt) _ d3 (λ _. returns-Ends tt d3)
                        (λ _. stage-Ends meta ob d3)))))
        (λ _. returns-Ends tt d1))

  -- The retained event is that of the selection.
  restore-There :
      (s : Selection) (staged : Event) (d : Evidence)
      → d.chain.selection ≡ some s
      → s.observation ≡ some staged
      → Sound (immutable event_eq observation_file put_observation staged) d
  restore-There s staged d chosen holds =
      immutable-There _ event_eq observation_file put_observation staged (λ d'. Unit {0}) d
        (record {
          links_well = λ d' g i e.
              and_IsHonest o.digest o.printed_len d'.chain _ d'.source.local i.1 (
                put_observation-Grows o.digest o.printed_len d' i.0 s staged
                  (g.selection_kept s chosen) holds e);
          found = λ d' a e. tt;
          stable = λ d' d'' g t. tt;
          linked = λ d'. tt;
        })

  pub restore_selected_event-Ends : (d : Evidence) → Sound (restore_selected_event o) d
  unfolding restore_selected_event
  restore_selected_event-Ends d =
      Keeps-bind (λ file d'. d'.chain.selection ≡ file) (reads selection_file) _ d
        (Keeps-reads selection_file d (λ d' g i. refl))
        (λ file d1 g1 seen. Keeps-lift (or_missing file) _ d1 (λ s d2 is_some g2.
          Keeps-lift (retained s) _ d2 (λ staged d3 holds g3.
            Keeps-then (binding o) _ d3 (binding-Ends d3) (λ b d4 g4.
              Keeps-lift (exact b.common staged.outcome) _ d4 (λ _ d5 e5 g5.
                Keeps-lift (exact b.common staged.snapshot) _ d5 (λ _ d6 e6 g6.
                  restore-There s staged d6
                    (g6.selection_kept s (
                      g5.selection_kept s (
                        g4.selection_kept s (
                          g3.selection_kept s
                            (g2.selection_kept s (seen ∙ or_missing-some file s is_some))))))
                    (retained-some s staged holds)))))))

  pub retain_event-Ends :
      (meta : Meta) (ob : Observation) (d : Evidence) → Sound (retain_event o meta ob) d
  unfolding retain_event
  retain_event-Ends meta ob d =
      Keeps-then (select_observed_event o meta ob) _ d (select_observed_event-Ends meta ob d)
        (λ _ d1 g1.
          Keeps-look (λ d. is_there d.chain.observation) _ d1
            (λ observed d2 g2.
              Keeps-if observed (returns tt) _ d2 (λ _. returns-Ends tt d2)
                (λ _. restore_selected_event-Ends d2)))
