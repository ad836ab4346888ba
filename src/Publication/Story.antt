-- ===== src/Publication/Story.antt =====
-- What the evidence of src/continuation.rs promises: one event is chosen, then told once, and what is
-- published is what was told.
use agent_bash_tool.Common.{true, ℕ, ◌≡◌, Option, none, some, List}
use agent_bash_tool.Common.Bytes.{codes}
use agent_bash_tool.RootProtocol.Json.{Value, get, is_text}
use agent_bash_tool.Publication.Evidence.{Chain, Event, Selection, presented}

-- The abstract state of a source.
pub data Story : Type 0 where
  open_ended : Story
  chosen : Event → Story
  told : Event → Story

abbrev chosen_of : Option Event → Story
chosen_of none = open_ended
chosen_of (some e) = chosen e

abbrev of_selection : Option Selection → Story
of_selection none = open_ended
of_selection (some s) = chosen_of s.observation

abbrev pub of_bundle : Option Event → Option Selection → Story
of_bundle none selection = of_selection selection
of_bundle (some b) selection = told b

-- The story that the files tell.
abbrev pub story_of_chain : Chain → Story
story_of_chain c = of_bundle c.bundle c.selection

module _ (digest : Value → List ℕ) (printed_len : Value → ℕ) where
  -- `told` is the event `e` with some output described in its snapshot.
  pub record Tells (e told : Event) : Type 0 where
    pub same_outcome : told.outcome ≡ e.outcome
    pub descriptor : Value
    pub same_snapshot : told.snapshot ≡ presented digest printed_len e descriptor

  -- How a story may go on.
  pub data Continues : Story → Story → Type 0 where
    stays : {s : Story} → Continues s s
    chooses : (e : Event) → Continues open_ended (chosen e)
    tells : {e b : Event} → Tells e b → Continues (chosen e) (told b)
    chooses_and_tells : {e b : Event} → Tells e b → Continues open_ended (told b)

  -- What is published is what is told, the outcome first.
  pub record Shows (c : Chain) : Type 0 where
    pub outcome_told :
        (v : Value)
        → c.outcome ≡ some v
        → (b : Event) × (story_of_chain c ≡ told b) × (b.outcome ≡ v)
    pub snapshot_told :
        (v : Value)
        → c.snapshot ≡ some v
        → (b : Event) × (story_of_chain c ≡ told b)
          × (b.snapshot ≡ v)
          × (c.outcome ≡ some b.outcome)

module _ (digest : Value → List ℕ) where
  -- A digest that the local record holds of a file is of the one that is published.
  abbrev pub Names : Option Value → Option Value → Type 0
  Names recorded file =
      (x : Value)
      → recorded ≡ some x
      → (v : Value) × (file ≡ some v) × (is_text x (digest v) ≡ true)

  pub record IsHonest (c : Chain) (recorded : Option Value) : Type 0 where
    pub snapshot_named :
        (l : Value) → recorded ≡ some l → Names (get l (codes "snapshot_sha256")) c.snapshot
    pub outcome_named :
        (l : Value) → recorded ≡ some l → Names (get l (codes "outcome_sha256")) c.outcome
