-- ===== src/Publication/Evidence.antt =====
-- The durable evidence of a registered source in its handle directory, src/continuation.rs, and what the
-- code builds of it. A JSON file stands for its bytes, since each is written from one value; their
-- digests and lengths are parameters.
use agent_bash_tool.Common.{ℕ, Bool, Option, none, some, List, [], ◌∷◌, String, if◌then◌else◌}
use agent_bash_tool.Common.Int.{ℤ, pos}
use agent_bash_tool.Common.Bytes.{codes, text_eq}
use agent_bash_tool.Effects.{Result}
use agent_bash_tool.Identity.{CallerChainEntry}
use agent_bash_tool.Meta.{Meta}
use agent_bash_tool.RootProtocol.Json.{
  Value, null, bool, int, str, object, empty, field, at, is_text,
}
use agent_bash_tool.Continuation.Files.{Fence, Paths, Source, with_key}

-- The staged outcome and the snapshot that goes with it.
pub record Event : Type 0 where
  pub outcome : Value
  pub snapshot : Value

pub record Directory : Type 0 where
  pub device : ℕ
  pub inode : ℕ

-- The log under the name that keeps its inode, or why there is none.
pub data Pin : Type 0 where
  missing : Pin
  pinned : (byte_len device inode link_count : ℕ) → Pin

-- `output-selection-v2.json`. Records of older programs hold no observation.
pub record Selection : Type 0 where
  pub pin : Pin
  pub observation : Option Event
  pub directory : Directory

-- The files that tell the event: the selection, `source-observation-v2.json`,
-- `completion-source-bundle-v2.json`, `source-outcome-v2.json` and `completion-snapshot-v2.json`.
pub record Chain : Type 0 where
  pub selection : Option Selection
  pub observation : Option Event
  pub bundle : Option Event
  pub outcome : Option Value
  pub snapshot : Option Value

-- `selected_log` and `output` are the pinned log and the frozen copy of its selected bytes; `proof` is
-- `missing-output-observation-v2.json`.
pub record Evidence : Type 0 where
  pub chain : Chain
  pub source : Source
  pub confirmation : Option Value
  pub cancellation : Option Value
  pub selected_log : Option ℕ
  pub output : Option (List ℕ)
  pub proof : Option Value
  pub rc : Option ℤ
  pub meta : Option Meta

abbrev pub put_selection : Selection → Evidence → Evidence
put_selection s d = record d { chain = record d.chain { selection = some s } }

abbrev pub put_observation : Event → Evidence → Evidence
put_observation e d = record d { chain = record d.chain { observation = some e } }

abbrev pub put_bundle : Event → Evidence → Evidence
put_bundle e d = record d { chain = record d.chain { bundle = some e } }

abbrev pub put_outcome : Value → Evidence → Evidence
put_outcome v d = record d { chain = record d.chain { outcome = some v } }

abbrev pub put_snapshot : Value → Evidence → Evidence
put_snapshot v d = record d { chain = record d.chain { snapshot = some v } }

-- What the observer saw of the end.
pub record Observation : Type 0 where
  pub kind : List ℕ
  pub root_wait_status : Option ℤ
  pub tree_drained : Bool
  pub output_closed : Bool
  pub ready_sentinel : Option (List ℕ)
  pub output_trusted : Bool

-- What `fs::metadata` says of the log.
pub record LogFile : Type 0 where
  pub is_file : Bool
  pub byte_len : ℕ
  pub device : ℕ
  pub inode : ℕ
  pub link_count : ℕ

-- The loss that the inventory of the directory establishes.
pub record Loss : Type 0 where
  pub reason : List ℕ
  pub selected : Value
  pub observed : Value

-- The files that an accepted cancellation rests on, as one call finds them.
pub record Cancelling : Type 0 where
  pub accepted_cancel : Option (List ℕ)
  pub cancel_owner : Option Value
  pub intent : Option Value
  pub accepted : Option Value
  pub causal : Option Value

-- What a call gets from outside the evidence: the digests and the length that serde_json and sha2 give,
-- the directory, the log, the answer of `capture::freeze` to the copy of the selected bytes, the
-- inventory, the kernel's word on processes, and the clock.
pub record Outside : Type 0 where
  pub paths : Paths
  pub digest : Value → List ℕ
  pub body_digest : List ℕ → List ℕ
  pub printed_len : Value → ℕ
  pub self : Result CallerChainEntry
  pub directory : Directory
  pub log : LogFile
  pub copied : Result (List ℕ)
  pub lost : Option Loss
  pub cancelling : Cancelling
  pub observer_gone : Value → Bool
  pub worker_gone : CallerChainEntry → Bool
  pub executable_digest : List ℕ
  pub environment_digest : List ℕ
  pub now : ℕ

abbrev pub number : ℕ → Value
number n = int (pos n)

abbrev pub text : String → Value
text s = str (codes s)

abbrev pub or_null_int : Option ℤ → Value
or_null_int none = null
or_null_int (some z) = int z

abbrev pub or_null_text : Option (List ℕ) → Value
or_null_text none = null
or_null_text (some s) = str s

abbrev pub or_null_value : Option Value → Value
or_null_value none = null
or_null_value (some v) = v

abbrev pub entry_json : CallerChainEntry → Value
entry_json e = object (
    field (codes "boot_id") (str (codes e.boot_id)) (
      field (codes "pid") (int e.pid)
        (field (codes "starttime_ticks") (number e.starttime_ticks) empty)))

abbrev pub with_text : Value → String → String → Value
with_text v key s = with_key v (codes key) (text s)

abbrev copy_keys : List (List ℕ) → Value → Value → Value
copy_keys [] from to = to
copy_keys (key ∷ keys) from to = copy_keys keys from (with_key to key (at from key))

unfoldable pub outcome_identity : Value → Value
outcome_identity outcome =
    copy_keys
      (codes "protocol"
        ∷ codes "domain_id"
        ∷ codes "source_id"
        ∷ codes "handle"
        ∷ codes "registration_id"
        ∷ codes "registration_digest"
        ∷ codes "completion_revision"
        ∷ [])
      outcome (object empty)

abbrev pub kind_is : Observation → String → Bool
kind_is o name = text_eq o.kind (codes name)

abbrev snapshot_status : Observation → Value
snapshot_status o =
    if kind_is o "ready"
    then text "ready"
    else if kind_is o "never_launched"
    then text "error"
    else if kind_is o "ceased_status_unknown"
    then text "error"
    else if kind_is o "cancelled"
    then text "error"
    else text "completed"

abbrev outcome_of : Value → Fence → Observation → CallerChainEntry → Value → Value
outcome_of common fence o own cancellation_id =
    let revised = with_key common (codes "completion_revision") (number 1) in
    let fenced = with_key revised (codes "launch_fence_revision") (number fence.revision) in
    let kinded = with_key fenced (codes "kind") (str o.kind) in
    let waited = with_key kinded (codes "root_wait_status") (or_null_int o.root_wait_status) in
    let drained = with_key waited (codes "original_tree_drained") (bool o.tree_drained) in
    let closed = with_key drained (codes "output_closed") (bool o.output_closed) in
    let observed = with_key closed (codes "observer") (entry_json own) in
    let ready = with_key observed (codes "ready_sentinel") (or_null_text o.ready_sentinel) in
    with_key ready (codes "cancellation_id") cancellation_id

-- The event that `select_observed_event` stages.
unfoldable pub event_of : Value → Fence → Observation → CallerChainEntry → Value → Meta → Event
unfolding outcome_identity
event_of common fence o own cancellation_id meta =
    let outcome = outcome_of common fence o own cancellation_id in
    let coded = with_key (outcome_identity outcome) (codes "rc") (or_null_int meta.rc) in
    record { outcome = outcome; snapshot = with_key coded (codes "status") (snapshot_status o) }

-- The snapshot with its output and the digest of its outcome, of `finish_observation_with_output`.
unfoldable pub presented : (Value → List ℕ) → (Value → ℕ) → Event → Value → Value
presented digest printed_len staged descriptor =
    let marked =
      if is_text (at descriptor (codes "representation")) (codes "missing-original-output-v1")
      then with_text staged.snapshot "status" "original_output_unavailable"
      else staged.snapshot in
    let described = with_key marked (codes "output") descriptor in
    let digested = with_key described (codes "outcome_sha256") (str (digest staged.outcome)) in
    with_key digested (codes "outcome_byte_len") (number (printed_len staged.outcome))
