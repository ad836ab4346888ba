-- ===== src/Publication/Order.antt =====
-- No program of src/continuation.rs takes back a file of the chain, and each links a file only where the
-- one it follows from stands.
use agent_bash_tool.Common.{ℕ, ◌≡◌, Option, some, List}
use agent_bash_tool.Effects.Actors.Keeps.{Order}
use agent_bash_tool.RootProtocol.Json.{Value}
use agent_bash_tool.Publication.Evidence.{Chain, Event, Evidence, Selection}
use agent_bash_tool.Publication.Story.{
  IsHonest, Continues, Story, Tells, chooses, chooses_and_tells, stays, story_of_chain, tells,
}

module _ (digest : Value → List ℕ) (printed_len : Value → ℕ) where
  pub record IsLinked (c : Chain) : Type 0 where
    pub observed :
        (e : Event)
        → c.observation ≡ some e
        → (s : Selection) × (c.selection ≡ some s) × (s.observation ≡ some e)
    pub bundled :
        (b : Event)
        → c.bundle ≡ some b
        → (e : Event) × (c.observation ≡ some e) × Tells digest printed_len e b
    pub outcome_told :
        (v : Value) → c.outcome ≡ some v → (b : Event) × (c.bundle ≡ some b) × (b.outcome ≡ v)
    pub snapshot_told :
        (v : Value)
        → c.snapshot ≡ some v
        → (b : Event) × (c.bundle ≡ some b) × (b.snapshot ≡ v) × (c.outcome ≡ some b.outcome)

  pub record Grows (c c' : Chain) : Type 0 where
    pub selection_kept : (s : Selection) → c.selection ≡ some s → c'.selection ≡ some s
    pub observation_kept : (e : Event) → c.observation ≡ some e → c'.observation ≡ some e
    pub bundle_kept : (b : Event) → c.bundle ≡ some b → c'.bundle ≡ some b
    pub outcome_kept : (v : Value) → c.outcome ≡ some v → c'.outcome ≡ some v
    pub snapshot_kept : (v : Value) → c.snapshot ≡ some v → c'.snapshot ≡ some v
    pub continues : Continues digest printed_len (story_of_chain c) (story_of_chain c')

  Continues-trans :
      {s t u : Story}
      → Continues digest printed_len s t
      → Continues digest printed_len t u
      → Continues digest printed_len s u
  Continues-trans stays q = q
  Continues-trans (chooses e) stays = chooses e
  Continues-trans (chooses e) (tells t) = chooses_and_tells t
  Continues-trans (tells t) stays = tells t
  Continues-trans (chooses_and_tells t) stays = chooses_and_tells t

  pub Grows-refl : (c : Chain) → Grows c c
  Grows-refl c = record {
    selection_kept = λ s h. h;
    observation_kept = λ e h. h;
    bundle_kept = λ b h. h;
    outcome_kept = λ v h. h;
    snapshot_kept = λ v h. h;
    continues = stays;
  }

  pub Grows-trans : (c c' c'' : Chain) → Grows c c' → Grows c' c'' → Grows c c''
  Grows-trans c c' c'' g h = record {
    selection_kept = λ s e. h.selection_kept s (g.selection_kept s e);
    observation_kept = λ x e. h.observation_kept x (g.observation_kept x e);
    bundle_kept = λ b e. h.bundle_kept b (g.bundle_kept b e);
    outcome_kept = λ v e. h.outcome_kept v (g.outcome_kept v e);
    snapshot_kept = λ v e. h.snapshot_kept v (g.snapshot_kept v e);
    continues = Continues-trans g.continues h.continues;
  }

  abbrev pub order : Order Evidence
  order = record {
    Grows = λ d d'. Grows d.chain d'.chain;
    grows_refl = λ d. Grows-refl d.chain;
    grows_trans = λ d d' d''. Grows-trans d.chain d'.chain d''.chain;
    Inv = λ d. IsLinked d.chain × IsHonest digest d.chain d.source.local;
  }

  pub IsHonest-later :
      (c c' : Chain) (recorded : Option Value)
      → Grows c c'
      → IsHonest digest c recorded
      → IsHonest digest c' recorded
  IsHonest-later c c' recorded g h = record {
    snapshot_named = λ l e x f.
        let (v, there, named) = h.snapshot_named l e x f in (v, g.snapshot_kept v there, named);
    outcome_named = λ l e x f.
        let (v, there, named) = h.outcome_named l e x f in (v, g.outcome_kept v there, named);
  }

  -- A link leaves the local record as honest as it was.
  pub and_IsHonest :
      (c c' : Chain) (recorded : Option Value)
      → IsHonest digest c recorded
      → Grows c c' × IsLinked c'
      → Grows c c' × (IsLinked c' × IsHonest digest c' recorded)
  and_IsHonest c c' recorded h kept = (kept.0, (kept.1, IsHonest-later c c' recorded kept.0 h))
