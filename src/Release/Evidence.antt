-- ===== src/Release/Evidence.antt =====
-- Whether the evidence that a receipt names is the one that was published, the second half of
-- retention_released of src/continuation.rs.
pub mod Stamps
pub mod Original
use agent_bash_tool.Common.{
  ℕ, ◌+◌, ◌/◌, ◌%◌, ◌*◌, Bool, true, false, not, ◌&&◌, ◌||◌, Option, none, some, String, List, [],
  ◌∷◌, ◌==◌, ltb, leb, length, if◌then◌else◌,
}
use agent_bash_tool.Common.Bytes.{codes, text_eq}
use agent_bash_tool.Effects.{
  ErrorKind, not_found, would_block, already_exists, interrupted, invalid_data, other, IoError,
  error_other, Result, ok, err, ◌>>?◌, Exec, pure, lift, look, ◌>>=◌, ◌>>◌,
}
use agent_bash_tool.RootProtocol.Json.{Value, str, at, as_str, as_u64, is_text, is_number, value_eq}
use agent_bash_tool.Continuation.Files.{
  Binding, Paths, binding_of, exact, immutable, or_missing, with_key,
}
use agent_bash_tool.Release.{
  Place, DirStat, FileStat, Opened, Stamped, Readings, Decided, Held, same_place, is_writable,
  is_absent_text, is_none_or_zero, required, key, is_sealed, provided, same_file,
  source_stamp_matches,
}

unfoldable pub stands_still : Held → FileStat → DirStat → Bool
stands_still h receipt_now directory_now =
    same_file receipt_now h.stat
    && receipt_now.owner == 0
    && not (is_writable receipt_now.mode)
    && same_place directory_now.place h.directory.place
    && directory_now.owner == h.directory.owner

unfoldable pub names_output : Value → List ℕ → Bool
names_output receipt relative =
    text_eq relative (codes "completion-output-v2.bin")
    && value_eq (key (key receipt "artifact_original") "sha256")
        (key (key receipt "selected_output") "sha256")
    && value_eq (key (key receipt "artifact_original") "byte_len")
        (key (key receipt "selected_output") "byte_len")

unfoldable pub has_digests : Held → Decided → Bool
has_digests h d =
    value_eq (key (key d.receipt "registration_file") "sha256")
      (key h.bound.common "registration_digest")
    && value_eq (key (key d.receipt "snapshot_file") "sha256")
        (key (key d.acceptance "evidence_seal") "snapshot_sha256")
    && value_eq (key (key d.receipt "outcome_file") "sha256")
        (key (key d.acceptance "evidence_seal") "outcome_sha256")

unfoldable pub local_release : (List ℕ → List ℕ) → Held → Value → Value
local_release sha256 h receipt =
    with_key
      (with_key
        (with_key
          (with_key h.bound.common (codes "release_protocol")
            (str (codes "source-retention-release-v1")))
          (codes "broker_receipt_sha256") (str (sha256 h.content)))
        (codes "acceptance_sha256") (key receipt "acceptance_sha256"))
      (codes "release_sha256") (key receipt "release_sha256")

module _ (parse : List ℕ → Result Value) (sha256 : List ℕ → List ℕ) (paths : Paths)
    (r : Readings) where
  still_there : Held → Decided → Result (Option Value)
  still_there h d = r.receipt_now >>? λ receipt_now. r.directory_now >>? λ directory_now.
      provided (stands_still h receipt_now directory_now)
        (ok (some (local_release sha256 h d.receipt)))

  output_released : Held → Decided → Result (Option Value)
  unfolding still_there source_stamp_matches
  output_released h d =
      required (as_str (key (key d.receipt "selected_output") "relative"))
        "selected output name absent"
      >>? λ relative. provided (names_output d.receipt relative) (
          source_stamp_matches parse sha256 r.output_file (key d.receipt "artifact_original")
            h.directory.owner
          >>? λ matches. provided matches (still_there h d))

  -- The snapshot and the outcome as published, and as the payload repeats them.
  unfoldable pub is_told : Held → Decided → List ℕ → Value → Value → Value → Bool
  is_told h d payload_json payload snapshot outcome =
      is_text (key snapshot "status") (codes "completed")
      && value_eq (key snapshot "outcome_sha256") (key (key d.receipt "outcome_file") "sha256")
      && value_eq (key snapshot "outcome_byte_len") (key (key d.receipt "outcome_file") "byte_len")
      && value_eq (key snapshot "output") (key d.receipt "selected_output")
      && is_text (key (key d.receipt "selected_output") "representation")
          (codes "retained-output-v1")
      && value_eq (key (key d.receipt "stable_output") "sha256")
          (key (key d.receipt "selected_output") "sha256")
      && value_eq (key (key d.receipt "stable_output") "byte_len")
          (key (key d.receipt "selected_output") "byte_len")
      && is_text (key d.receipt "payload_sha256") (sha256 payload_json)
      && is_number (key d.receipt "payload_byte_len") (length payload_json)
      && value_eq (key payload "registration_id") (key h.bound.registration "registration_id")
      && value_eq (key payload "registration_digest") (key h.bound.common "registration_digest")
      && is_text (key payload "event_id") paths.handle
      && is_text (key payload "kind") (codes "agent_bash_complete")
      && is_number (key payload "schema_version") 2
      && value_eq (key payload "snapshot") snapshot
      && value_eq (key payload "outcome") outcome
      && value_eq (key payload "output_artifact") (key d.receipt "stable_output")

  told_released : Held → Decided → List ℕ → Value → Value → Value → Result (Option Value)
  unfolding output_released exact
  told_released h d payload_json payload snapshot outcome = exact h.bound.common snapshot >>? λ u.
      exact h.bound.common outcome >>? λ u'.
      provided (is_told h d payload_json payload snapshot outcome) (output_released h d)

  evidence_released : Held → Decided → Result (Option Value)
  unfolding told_released
  evidence_released h d = r.snapshot >>? λ snapshot. r.outcome >>? λ outcome.
      required (as_str (key d.receipt "payload_json")) "Broker payload absent from release receipt"
      >>? λ payload_json.
          parse payload_json >>? λ payload. told_released h d payload_json payload snapshot outcome

  -- The loop over the three evidence files.
  unfoldable pub stamps_match : Held → Decided → List (Stamped × String) → Result Bool
  stamps_match h d [] = ok true
  stamps_match h d ((f, name) ∷ rest) =
      source_stamp_matches parse sha256 f (key d.receipt name) h.directory.owner >>? λ matches.
      if matches then stamps_match h d rest else ok false

  unfoldable pub files_released : Held → Decided → Result (Option Value)
  unfolding evidence_released
  files_released h d =
      stamps_match h d (
        (r.registration_file, "registration_file")
        ∷ (r.snapshot_file, "snapshot_file")
        ∷ (r.outcome_file, "outcome_file")
        ∷ [])
      >>? λ matches. provided matches (provided (has_digests h d) (evidence_released h d))
