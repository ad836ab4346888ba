-- ===== src/Publication/Growth.antt =====
-- Each file that src/continuation.rs links into the chain, as a step of the chain's order.
use agent_bash_tool.Common.{ℕ, ◌≡◌, refl, ap, ◌∙◌, subst, Option, none, some, List, some-injective}
use agent_bash_tool.RootProtocol.Json.{Value}
use agent_bash_tool.Publication.Evidence.{
  Chain, Event, Evidence, Selection, put_bundle, put_observation, put_outcome, put_selection,
  put_snapshot,
}
use agent_bash_tool.Publication.Story.{Continues, Tells, chooses, stays, story_of_chain, tells}
use agent_bash_tool.Publication.Order.{IsLinked, Grows}

absent : {A : Type 0} {file : Option A} {a : A} → file ≡ none → file ≡ some a → ⊥
absent e h = cc

module _ (digest : Value → List ℕ) (printed_len : Value → ℕ) where
  -- Nothing is bundled before it is selected.
  no_bundle :
      (c : Chain)
      → IsLinked digest printed_len c
      → c.selection ≡ none
      → (bundle : Option Event) → c.bundle ≡ bundle
      → bundle ≡ none
  no_bundle c l free none e = refl
  no_bundle c l free (some b) e =
      let (event, seen, t) = l.bundled b e in
      let (s, there, holds) = l.observed event seen in absurd (absent free there)

  selects :
      (c : Chain) (s : Selection) (e : Event)
      → s.observation ≡ some e
      → (selection : Option Selection) (bundle : Option Event) → selection ≡ none
      → bundle ≡ none
      → Continues digest printed_len
          (story_of_chain (record c { selection = selection; bundle = bundle }))
          (story_of_chain (record c { selection = some s; bundle = bundle }))
  selects c s e holds none none p q = rw holds (chooses e)
  selects c s e holds (some x) bundle p q = cc
  selects c s e holds none (some b) p q = cc

  -- Each link of the chain.
  module _ (d : Evidence) (l : IsLinked digest printed_len d.chain) where
    pub put_selection-Grows :
        (s : Selection) (e : Event)
        → s.observation ≡ some e
        → d.chain.selection ≡ none
        → Grows digest printed_len d.chain (put_selection s d).chain
          × IsLinked digest printed_len (put_selection s d).chain
    put_selection-Grows s e holds free = (
      record {
        selection_kept = λ x h. absurd (absent free h);
        observation_kept = λ x h. h;
        bundle_kept = λ x h. h;
        outcome_kept = λ x h. h;
        snapshot_kept = λ x h. h;
        continues =
            selects d.chain s e holds d.chain.selection d.chain.bundle free
              (no_bundle d.chain l free d.chain.bundle refl);
      },
      record {
        observed = λ x h. let (t, there, at) = l.observed x h in absurd (absent free there);
        bundled = l.bundled;
        outcome_told = l.outcome_told;
        snapshot_told = l.snapshot_told;
      },
    )

    pub put_observation-Grows :
        (s : Selection) (e : Event)
        → d.chain.selection ≡ some s
        → s.observation ≡ some e
        → d.chain.observation ≡ none
        → Grows digest printed_len d.chain (put_observation e d).chain
          × IsLinked digest printed_len (put_observation e d).chain
    put_observation-Grows s e there holds free = (
      record {
        selection_kept = λ x h. h;
        observation_kept = λ x h. absurd (absent free h);
        bundle_kept = λ x h. h;
        outcome_kept = λ x h. h;
        snapshot_kept = λ x h. h;
        continues = stays;
      },
      record {
        observed = λ x h. (s, there, holds ∙ h);
        bundled = λ b h. let (x, seen, t) = l.bundled b h in absurd (absent free seen);
        outcome_told = l.outcome_told;
        snapshot_told = l.snapshot_told;
      },
    )

    tells_bundle :
        (s : Selection) (e b : Event)
        → s.observation ≡ some e
        → Tells digest printed_len e b
        → (selection : Option Selection) (bundle : Option Event) → selection ≡ some s
        → bundle ≡ none
        → Continues digest printed_len
            (story_of_chain (record d.chain { selection = selection; bundle = bundle }))
            (story_of_chain (record d.chain { selection = selection; bundle = some b }))
    tells_bundle s e b holds t (some x) none p q =
        rw (ap (λ (y : Selection). y.observation) (some-injective p) ∙ holds) (tells t)
    tells_bundle s e b holds t none bundle p q = cc
    tells_bundle s e b holds t (some x) (some y) p q = cc

    pub put_bundle-Grows :
        (e b : Event)
        → d.chain.observation ≡ some e
        → Tells digest printed_len e b
        → d.chain.bundle ≡ none
        → Grows digest printed_len d.chain (put_bundle b d).chain
          × IsLinked digest printed_len (put_bundle b d).chain
    put_bundle-Grows e b seen t free =
        let (s, there, holds) = l.observed e seen in
        (
          record {
            selection_kept = λ x h. h;
            observation_kept = λ x h. h;
            bundle_kept = λ x h. absurd (absent free h);
            outcome_kept = λ x h. h;
            snapshot_kept = λ x h. h;
            continues = tells_bundle s e b holds t d.chain.selection d.chain.bundle there free;
          },
          record {
            observed = l.observed;
            bundled =
                λ x h. (e, seen, subst (λ y. Tells digest printed_len e y) (some-injective h) t);
            outcome_told =
                λ v h. let (x, there', same) = l.outcome_told v h in absurd (absent free there');
            snapshot_told = λ v h.
                let (x, there', same, out) = l.snapshot_told v h in absurd (absent free there');
          },
        )

    pub put_outcome-Grows :
        (b : Event)
        → d.chain.bundle ≡ some b
        → d.chain.outcome ≡ none
        → Grows digest printed_len d.chain (put_outcome b.outcome d).chain
          × IsLinked digest printed_len (put_outcome b.outcome d).chain
    put_outcome-Grows b there free = (
      record {
        selection_kept = λ x h. h;
        observation_kept = λ x h. h;
        bundle_kept = λ x h. h;
        outcome_kept = λ x h. absurd (absent free h);
        snapshot_kept = λ x h. h;
        continues = stays;
      },
      record {
        observed = l.observed;
        bundled = l.bundled;
        outcome_told = λ v h. (b, there, some-injective h);
        snapshot_told =
            λ v h. let (x, there', same, out) = l.snapshot_told v h in absurd (absent free out);
      },
    )

    pub put_snapshot-Grows :
        (b : Event)
        → d.chain.bundle ≡ some b
        → d.chain.outcome ≡ some b.outcome
        → d.chain.snapshot ≡ none
        → Grows digest printed_len d.chain (put_snapshot b.snapshot d).chain
          × IsLinked digest printed_len (put_snapshot b.snapshot d).chain
    put_snapshot-Grows b there out free = (
      record {
        selection_kept = λ x h. h;
        observation_kept = λ x h. h;
        bundle_kept = λ x h. h;
        outcome_kept = λ x h. h;
        snapshot_kept = λ x h. absurd (absent free h);
        continues = stays;
      },
      record {
        observed = l.observed;
        bundled = l.bundled;
        outcome_told = l.outcome_told;
        snapshot_told = λ v h. (b, there, some-injective h, out);
      },
    )
