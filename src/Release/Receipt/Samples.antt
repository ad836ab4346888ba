-- ===== src/Release/Receipt/Samples.antt =====
-- A source that Broker releases. Texts are tags that the parser knows, and a text is its own digest.
use agent_bash_tool.Common.{
  ℕ, ◌≡◌, refl, true, false, Option, none, some, String, List, [], ◌∷◌, ◌==◌, if◌then◌else◌,
}
use agent_bash_tool.Common.Bytes.{codes}
use agent_bash_tool.Common.Int.{pos}
use agent_bash_tool.Effects.{
  Result, ok, err, error_other, lift, look, commit, pure, ◌>>=◌, ◌>>?◌, World, done,
}
use agent_bash_tool.RootProtocol.Json.{Value, int, str, object, Fields, empty, field, value_eq}
use agent_bash_tool.Continuation.Files.{Paths, common_of, fields_agree}
use agent_bash_tool.Release.{
  DirStat, FileStat, Opened, Stamped, Readings, key, provided, is_sealed, is_writable, is_stamped,
  is_unchanged,
}
use agent_bash_tool.Release.Evidence.{
  files_released, stamps_match, has_digests, is_told, names_output, stands_still, local_release,
}
use agent_bash_tool.Release.Receipt.{
  retention_released, vouched, bound_of, directory_released, opened_released, content_released,
  names_source, receipt_released, decision_released, chains, agree_on,
}

abbrev pairs : List (String × Value) → Fields
pairs [] = empty
pairs ((name, value) ∷ rest) = field (codes name) value (pairs rest)

abbrev json : List (String × Value) → Value
json entries = object (pairs entries)

abbrev text : String → Value
text s = str (codes s)

abbrev number : ℕ → Value
number n = int (pos n)

abbrev pub paths : Paths
paths = record { handle = codes "h"; state_dir = codes "/s/h"; root = codes "/s" }

abbrev protocol : String
protocol = "completion-continuation-v2"

abbrev registration : Value
registration = json (
    ("domain_id", text "d")
    ∷ ("handle", text "h")
    ∷ ("handle_dir", text "/s/h")
    ∷ ("listener_revision", number 1)
    ∷ ("log_relative", text "log")
    ∷ ("meta_relative", text "meta.json")
    ∷ ("outcome_relative", text "source-outcome-v2.json")
    ∷ ("protocol", text protocol)
    ∷ ("rc_relative", text "rc")
    ∷ ("registration_id", text "id")
    ∷ ("registration_relative", text "source-registration-v2.json")
    ∷ ("snapshot_relative", text "completion-snapshot-v2.json")
    ∷ ("source_evidence_protocol", text protocol)
    ∷ ("source_id", text "s")
    ∷ ("spool_root", text "/s")
    ∷ [])

-- The keys that name the registration.
abbrev named : List (String × Value) → Value
named more = json (
    ("domain_id", text "d")
    ∷ ("handle", text "h")
    ∷ ("protocol", text protocol)
    ∷ ("registration_digest", text "R")
    ∷ ("registration_id", text "id")
    ∷ ("source_id", text "s")
    ∷ more)

abbrev stamp : ℕ → String → Value
stamp inode digest = json (
    ("byte_len", number 1)
    ∷ ("device", number 7)
    ∷ ("inode", number inode)
    ∷ ("sha256", text digest)
    ∷ [])

abbrev selected : Value
selected = json (
    ("byte_len", number 1)
    ∷ ("relative", text "completion-output-v2.bin")
    ∷ ("representation", text "retained-output-v1")
    ∷ ("sha256", text "B")
    ∷ [])

abbrev stable : Value
stable = json (("byte_len", number 1) ∷ ("sha256", text "B") ∷ [])

abbrev snapshot : Value
snapshot = named (
    ("outcome_byte_len", number 1)
    ∷ ("outcome_sha256", text "O")
    ∷ ("output", selected)
    ∷ ("status", text "completed")
    ∷ [])

abbrev outcome : Value
outcome = named []

abbrev shared : List (String × Value) → Value
shared more = json (
    ("grant_id", text "g")
    ∷ ("owner_generation", text "o")
    ∷ ("registration_id", text "id")
    ∷ ("root_id", text "r")
    ∷ ("source_generation", text "n")
    ∷ more)

abbrev receipt : Value
receipt = shared (
    ("acceptance_json", text "A")
    ∷ ("acceptance_sha256", text "A")
    ∷ ("artifact_original", stamp 4 "B")
    ∷ ("event_id", text "h")
    ∷ ("handle", text "h")
    ∷ ("listener_revision", number 1)
    ∷ ("manifest_sha256", text "m")
    ∷ ("notification_count", number 1)
    ∷ ("outcome_file", stamp 3 "O")
    ∷ ("payload_byte_len", number 1)
    ∷ ("payload_json", text "P")
    ∷ ("payload_sha256", text "P")
    ∷ ("protocol", text "broker-bash-source-release-v1")
    ∷ ("registration_digest", text "R")
    ∷ ("registration_file", stamp 1 "R")
    ∷ ("release_json", text "D")
    ∷ ("release_sha256", text "D")
    ∷ ("selected_output", selected)
    ∷ ("snapshot_file", stamp 2 "S")
    ∷ (
      "source_directory",
      json (("device", number 7) ∷ ("inode", number 9) ∷ ("owner_uid", number 1000) ∷ []),
    )
    ∷ ("stable_output", stable)
    ∷ [])

abbrev acceptance : Value
acceptance = shared (
    (
      "evidence_seal",
      json (
          ("manifest_sha256", text "m")
          ∷ ("outcome_sha256", text "O")
          ∷ ("snapshot_sha256", text "S")
          ∷ []),
    )
    ∷ ("protocol", text "broker-completion-source-acceptance-v1")
    ∷ ("registration_digest", text "R")
    ∷ ("selected_output", selected)
    ∷ ("state_admission_id", text "a")
    ∷ [])

abbrev decision : Value
decision =
    shared (
      ("acceptance_sha256", text "A")
      ∷ ("protocol", text "broker-source-retention-release-v1")
      ∷ [])

abbrev payload : Value
payload = json (
    ("event_id", text "h")
    ∷ ("kind", text "agent_bash_complete")
    ∷ ("outcome", outcome)
    ∷ ("output_artifact", stable)
    ∷ ("registration_digest", text "R")
    ∷ ("registration_id", text "id")
    ∷ ("schema_version", number 2)
    ∷ ("snapshot", snapshot)
    ∷ [])

abbrev parse_tag : ℕ → Result Value
parse_tag tag =
    if tag == b'R'
    then ok registration
    else if tag == b'C'
    then ok receipt
    else if tag == b'A'
    then ok acceptance
    else if tag == b'D'
    then ok decision
    else if tag == b'P'
    then ok payload
    else err (error_other "not JSON")

abbrev pub parse : List ℕ → Result Value
parse [] = err (error_other "not JSON")
parse (tag ∷ more) = parse_tag tag

abbrev pub digest : List ℕ → List ℕ
digest bytes = bytes

abbrev stat : ℕ → ℕ → ℕ → FileStat
stat inode owner mode = record {
  is_file = true;
  is_link = false;
  place = record { device = 7; inode = inode };
  owner = owner;
  links = 1;
  mode = mode;
  len = 1;
}

abbrev opened : ℕ → ℕ → ℕ → String → Opened
opened inode owner mode content = record {
  stat = ok (stat inode owner mode);
  content = ok (codes content);
}

abbrev evidence : ℕ → String → Stamped
evidence inode content = record {
  opened = ok (opened inode 1000 384 content);
  after = ok (stat inode 1000 384);
}

abbrev directory : DirStat
directory = record {
  is_dir = true;
  is_link = false;
  place = record { device = 7; inode = 9 };
  owner = 1000;
}

abbrev pub readings : Readings
readings = record {
  registration = ok (codes "R");
  directory = ok directory;
  is_canonical = ok true;
  receipt = ok (opened 5 0 292 "C");
  registration_file = evidence 1 "R";
  snapshot_file = evidence 2 "S";
  outcome_file = evidence 3 "O";
  snapshot = ok snapshot;
  outcome = ok outcome;
  output_file = evidence 4 "B";
  receipt_now = ok (stat 5 0 292);
  directory_now = ok directory;
}

abbrev pub world : World (Option Value)
world = record { disk = none; faults = [] }

abbrev local : Value
local = named (
    ("release_protocol", text "source-retention-release-v1")
    ∷ ("broker_receipt_sha256", text "C")
    ∷ ("acceptance_sha256", text "A")
    ∷ ("release_sha256", text "D")
    ∷ [])

pub released :
    retention_released parse digest paths readings world
    ≡ (done true, record { disk = some local; faults = [] })
unfolding retention_released look commit lift pure ◌>>=◌ ◌>>?◌ provided key common_of fields_agree
    value_eq files_released stamps_match is_stamped is_unchanged has_digests is_told names_output
    stands_still local_release vouched bound_of directory_released opened_released is_sealed
    is_writable content_released names_source receipt_released decision_released chains agree_on
released = refl
