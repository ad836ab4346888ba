-- ===== src/Publication/Finish.antt =====
-- From the retained event to the published outcome and snapshot, src/continuation.rs and its child
-- capture.rs: freezing the selected bytes, describing them, bundling, and the two public files.
use agent_bash_tool.Common.{
  ℕ, ◌-◌, Bool, true, false, not, ◌&&◌, Option, none, some, List, length, leb, if◌then◌else◌, ◌==◌,
}
use agent_bash_tool.Common.Bytes.{codes}
use agent_bash_tool.Effects.Actors.{Program, returns, ◌>>=◌, ◌>>◌, lifted, reads, touches, links}
use agent_bash_tool.Meta.{Meta}
use agent_bash_tool.RootProtocol.Json.{
  Value, str, object, empty, field, at, is_text, is_number, value_eq,
}
use agent_bash_tool.Publication.Basis.{binding}
use agent_bash_tool.Publication.Evidence.{
  Event, Evidence, Observation, Outside, Selection, number, presented, put_bundle, put_outcome,
  put_snapshot, text,
}
use agent_bash_tool.Publication.Immutable.{enabled, immutable, is_there, require}
use agent_bash_tool.Publication.Select.{event_eq, observation_file, retain_event, selection_file}
use agent_bash_tool.Continuation.Files.{exact, or_missing}

abbrev pub bundle_file : Evidence → Option Event
bundle_file d = d.chain.bundle

abbrev pub outcome_file : Evidence → Option Value
outcome_file d = d.chain.outcome

abbrev pub snapshot_file : Evidence → Option Value
snapshot_file d = d.chain.snapshot

abbrev pub output_file : Evidence → Option (List ℕ)
output_file d = d.output

abbrev pub put_output : List ℕ → Evidence → Evidence
put_output bytes d = record d { output = some bytes }

abbrev pub proof_file : Evidence → Option Value
proof_file d = d.proof

abbrev pub put_proof : Value → Evidence → Evidence
put_proof v d = record d { proof = some v }

-- 16 MiB.
abbrev pub max_snapshot : ℕ
max_snapshot = 16777216

-- `Publication`: the hasher stands for the number of quanta that the body still takes.
pub record Progress : Type 0 where
  pub quanta_left : ℕ
  pub descriptor : Option Value

module _ (o : Outside) where
  abbrev pub agree : Event → Bool
  agree b =
      is_text (at b.snapshot (codes "outcome_sha256")) (o.digest b.outcome)
      && is_number (at b.snapshot (codes "outcome_byte_len")) (o.printed_len b.outcome)

  unfoldable pub finish_snapshot : Program Evidence (Unit {0})
  unfolding binding immutable
  finish_snapshot = do
    file ← reads bundle_file
    bundle ← lifted (or_missing file)
    b ← binding o
    lifted (exact b.common bundle.snapshot)
    lifted (exact b.common bundle.outcome)
    require (agree bundle) "snapshot/outcome conflict"
    immutable value_eq outcome_file put_outcome bundle.outcome
    immutable value_eq snapshot_file put_snapshot bundle.snapshot

  abbrev pub bundled : Event → Value → Event
  bundled staged descriptor = record {
    outcome = staged.outcome;
    snapshot = presented o.digest o.printed_len staged descriptor;
  }

  unfoldable pub finish_observation_with_output : Value → Program Evidence (Unit {0})
  unfolding binding immutable finish_snapshot
  finish_observation_with_output descriptor = do
    file ← reads observation_file
    staged ← lifted (or_missing file)
    b ← binding o
    lifted (exact b.common staged.outcome)
    lifted (exact b.common staged.snapshot)
    require (leb (o.printed_len (bundled staged descriptor).snapshot) max_snapshot)
        "full event snapshot exceeds paired bound; retained source needs disposition"
    immutable event_eq bundle_file put_bundle (bundled staged descriptor)
    finish_snapshot

  -- `OutputHasher::finish`, of the whole frozen body.
  unfoldable pub descriptor_of : List ℕ → Value
  descriptor_of body = object (
      field (codes "byte_len") (number (length body)) (
        field (codes "encoding") (text "raw") (
          field (codes "relative") (text "completion-output-v2.bin") (
            field (codes "representation") (text "retained-output-v1")
              (field (codes "sha256") (str (o.body_digest body)) empty)))))

  unfoldable pub output_descriptor : Program Evidence Value
  unfolding descriptor_of
  output_descriptor = do
    file ← reads output_file
    body ← lifted (or_missing file)
    touches
    returns (descriptor_of body)

  unfoldable pub finish_observation : Program Evidence (Unit {0})
  unfolding output_descriptor finish_observation_with_output
  finish_observation = output_descriptor >>= finish_observation_with_output

  abbrev pub same_directory : Selection → Bool
  same_directory s =
      s.directory.device == o.directory.device && s.directory.inode == o.directory.inode

  -- `capture::freeze` without its way to the copy: `copied` says what came of copying or recovering the
  -- selected bytes.
  unfoldable pub freeze_selected : Program Evidence (Unit {0})
  freeze_selected = do
    adjudicated ← reads (λ d. is_there d.proof)
    require (not adjudicated) "original output already adjudicated missing"
    file ← reads selection_file
    selection ← lifted (or_missing file)
    require (same_directory selection) "original source directory changed"
    body ← lifted o.copied
    links output_file put_output body
    touches

  unfoldable pub freeze : Program Evidence (Unit {0})
  unfolding freeze_selected
  freeze = do
    frozen ← reads (λ d. is_there d.output)
    if frozen then returns tt else freeze_selected

  unfoldable pub freeze_output : Program Evidence (Unit {0})
  unfolding freeze
  freeze_output = do touches; freeze

  unfoldable pub freeze_missing : Bool → Program Evidence (Unit {0})
  unfolding freeze_output
  freeze_missing frozen = if frozen then returns tt else freeze_output

  unfoldable pub capture_unbundled : Meta → Observation → Program Evidence (Unit {0})
  unfolding retain_event freeze_missing
  capture_unbundled meta ob = do
    retain_event o meta ob
    frozen ← reads (λ d. is_there d.output)
    freeze_missing frozen

  unfoldable pub capture_enabled : Meta → Observation → Program Evidence (Unit {0})
  unfolding finish_snapshot capture_unbundled
  capture_enabled meta ob = do
    bundled_already ← reads (λ d. is_there d.chain.bundle)
    if bundled_already then finish_snapshot else capture_unbundled meta ob

  -- Its callers have made both tests before, but others may have run since.
  unfoldable pub capture_observation : Meta → Observation → Program Evidence (Unit {0})
  unfolding capture_enabled
  capture_observation meta ob = do
    on ← reads enabled
    if on then capture_enabled meta ob else returns tt

  unfoldable pub publish_unbundled : Meta → Observation → Program Evidence (Unit {0})
  unfolding capture_observation finish_observation
  publish_unbundled meta ob = do capture_observation meta ob; finish_observation

  unfoldable pub publish_enabled : Meta → Observation → Program Evidence (Unit {0})
  unfolding finish_snapshot publish_unbundled
  publish_enabled meta ob = do
    bundled_already ← reads (λ d. is_there d.chain.bundle)
    if bundled_already then finish_snapshot else publish_unbundled meta ob

  unfoldable pub publish : Meta → Observation → Program Evidence (Unit {0})
  unfolding publish_enabled
  publish meta ob = do on ← reads enabled; if on then publish_enabled meta ob else returns tt

  unfoldable pub hash_quantum : Progress → Option Value → Program Evidence (Option Value × Progress)
  unfolding output_descriptor
  hash_quantum p (some v) = returns (some v, p)
  hash_quantum p none =
      if p.quanta_left == 0
      then output_descriptor >>= (λ v. returns (some v, record p { descriptor = some v }))
      else returns (none, record p { quanta_left = p.quanta_left - 1 })

  unfoldable pub advance_with : Option Value × Progress → Program Evidence (Bool × Progress)
  unfolding finish_observation_with_output
  advance_with (none, p) = returns (false, p)
  advance_with (some v, p) = do finish_observation_with_output v; returns (true, p)

  unfoldable pub advance_unbundled :
      Meta → Observation → Progress → Program Evidence (Bool × Progress)
  unfolding capture_observation hash_quantum advance_with
  advance_unbundled meta ob p = do
    capture_observation meta ob
    hashed ← hash_quantum p p.descriptor
    advance_with hashed

  unfoldable pub advance_enabled :
      Meta → Observation → Progress → Program Evidence (Bool × Progress)
  unfolding finish_snapshot advance_unbundled
  advance_enabled meta ob p = do
    bundled_already ← reads (λ d. is_there d.chain.bundle)
    if bundled_already
        then finish_snapshot >>= (λ _. returns (true, p))
        else advance_unbundled meta ob p

  -- One quantum of the live observer's work; whether the publication is finished.
  unfoldable pub advance_publication :
      Meta → Observation → Progress → Program Evidence (Bool × Progress)
  unfolding advance_enabled
  advance_publication meta ob p = do
    on ← reads enabled
    if on then advance_enabled meta ob p else returns (true, p)
