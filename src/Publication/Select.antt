-- ===== src/Publication/Select.antt =====
-- The selection of the original event and of the log bytes that belong to it, src/continuation.rs, access
-- by access: `select_observed_event`, `restore_selected_event`, `retain_event`.
use agent_bash_tool.Common.{
  ℕ, Bool, true, false, not, ◌&&◌, ◌||◌, Option, none, some, ◌==◌, if◌then◌else◌,
}
use agent_bash_tool.Effects.{error_other, Result, ok, err}
use agent_bash_tool.Effects.Actors.{
  Program, returns, ◌>>=◌, ◌>>◌, attempt, lifted, reads, touches, links,
}
use agent_bash_tool.Meta.{Meta}
use agent_bash_tool.RootProtocol.Json.{Value, null, str, value_eq}
use agent_bash_tool.Publication.Basis.{binding, cancellation_identity, own_fence}
use agent_bash_tool.Publication.Evidence.{
  Event, Evidence, Observation, Outside, Pin, Selection, event_of, kind_is, missing, pinned,
  put_observation, put_selection,
}
use agent_bash_tool.Publication.Immutable.{enabled, immutable, is_there, require}
use agent_bash_tool.Continuation.Files.{exact, or_missing}

abbrev pub event_eq : Event → Event → Bool
event_eq a b = value_eq a.outcome b.outcome && value_eq a.snapshot b.snapshot

abbrev pin_eq : Pin → Pin → Bool
pin_eq missing missing = true
pin_eq missing (pinned l d i n) = false
pin_eq (pinned l d i n) missing = false
pin_eq (pinned l d i n) (pinned l' d' i' n') = l == l' && d == d' && i == i' && n == n'

abbrev observation_eq : Option Event → Option Event → Bool
observation_eq none none = true
observation_eq none (some b) = false
observation_eq (some a) none = false
observation_eq (some a) (some b) = event_eq a b

abbrev pub selection_eq : Selection → Selection → Bool
selection_eq a b =
    pin_eq a.pin b.pin
    && observation_eq a.observation b.observation
    && a.directory.device == b.directory.device
    && a.directory.inode == b.directory.inode

abbrev pub selection_file : Evidence → Option Selection
selection_file d = d.chain.selection

abbrev pub observation_file : Evidence → Option Event
observation_file d = d.chain.observation

abbrev pub retained : Selection → Result Event
retained s = elim s.observation [
  | none ↦ err (error_other "original selection has no retained event; cannot relabel")
  | some e ↦ ok e
]

module _ (o : Outside) where
  abbrev pub cancelled : Observation → Bool
  cancelled ob = kind_is ob "cancelled"

  unfoldable pub identified : Observation → Meta → Program Evidence Value
  unfolding cancellation_identity
  identified ob meta =
      if cancelled ob
      then cancellation_identity o meta >>= (λ id. returns (str id))
      else returns null

  abbrev pub selected_log_file : Evidence → Option ℕ
  selected_log_file d = d.selected_log

  abbrev pub put_selected_log : ℕ → Evidence → Evidence
  put_selected_log inode d = record d { selected_log = some inode }

  -- `pin_output`
  unfoldable pub pin_output : Program Evidence Pin
  pin_output = do
    links selected_log_file put_selected_log o.log.inode
    touches
    require o.log.is_file "selected log is not a regular file"
    touches
    returns (pinned o.log.byte_len o.log.device o.log.inode o.log.link_count)

  abbrev pub or_no_pin : Result Pin → Pin
  or_no_pin (ok pin) = pin
  or_no_pin (err e) = missing

  unfoldable pub pin_if : Bool → Program Evidence Pin
  unfolding pin_output
  pin_if true = attempt pin_output >>= (λ pin. returns (or_no_pin pin))
  pin_if false = returns missing

  -- The new part of `select_event_output`: a failed pin is evidence too.
  unfoldable pub select_new : Event → Bool → Program Evidence (Unit {0})
  unfolding pin_if immutable
  select_new staged trusted = do
    touches
    pin ← pin_if trusted
    immutable selection_eq selection_file put_selection
        (record { pin = pin; observation = some staged; directory = o.directory })

  unfoldable pub select_event_output : Event → Bool → Program Evidence (Unit {0})
  unfolding select_new
  select_event_output staged trusted = do
    selected ← reads (λ d. is_there d.chain.selection)
    if selected then returns tt else select_new staged trusted

  unfoldable pub stage : Meta → Observation → Program Evidence (Unit {0})
  unfolding binding own_fence identified select_event_output
  stage meta ob = do
    b ← binding o
    fence ← own_fence o b
    require (not (cancelled ob) || (ob.tree_drained && ob.output_closed))
        "cancellation observation requires original drain and output close"
    own ← lifted o.self
    id ← identified ob meta
    select_event_output (event_of b.common fence ob own id meta) ob.output_trusted

  unfoldable pub select_unless_selected : Meta → Observation → Program Evidence (Unit {0})
  unfolding stage
  select_unless_selected meta ob = do
    selected ← reads (λ d. is_there d.chain.selection)
    if selected then returns tt else stage meta ob

  unfoldable pub select_unless_observed : Meta → Observation → Program Evidence (Unit {0})
  unfolding select_unless_selected
  select_unless_observed meta ob = do
    observed ← reads (λ d. is_there d.chain.observation)
    if observed then returns tt else select_unless_selected meta ob

  unfoldable pub select_observed_event : Meta → Observation → Program Evidence (Unit {0})
  unfolding select_unless_observed
  select_observed_event meta ob = do
    on ← reads enabled
    if on then select_unless_observed meta ob else returns tt

  unfoldable pub restore_selected_event : Program Evidence (Unit {0})
  unfolding binding immutable
  restore_selected_event = do
    file ← reads selection_file
    selection ← lifted (or_missing file)
    staged ← lifted (retained selection)
    b ← binding o
    lifted (exact b.common staged.outcome)
    lifted (exact b.common staged.snapshot)
    immutable event_eq observation_file put_observation staged

  unfoldable pub retain_event : Meta → Observation → Program Evidence (Unit {0})
  unfolding select_observed_event restore_selected_event
  retain_event meta ob = do
    select_observed_event meta ob
    observed ← reads (λ d. is_there d.chain.observation)
    if observed then returns tt else restore_selected_event
