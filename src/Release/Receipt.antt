-- ===== src/Release/Receipt.antt =====
-- Whether a receipt is Broker's and of this source, the first half of retention_released of
-- src/continuation.rs, and the record of the local release.
pub mod Decision
pub mod Vouched
pub mod Recorded
pub mod Samples
mod Tests
use agent_bash_tool.Common.{
  ℕ, ◌+◌, ◌/◌, ◌%◌, ◌*◌, Bool, true, false, not, ◌&&◌, ◌||◌, Option, none, some, String, List, [],
  ◌∷◌, ◌==◌, ltb, leb, length, if◌then◌else◌,
}
use agent_bash_tool.Common.Bytes.{codes, text_eq}
use agent_bash_tool.Effects.{
  ErrorKind, not_found, would_block, already_exists, interrupted, invalid_data, other, IoError,
  error_other, if_missing, Result, ok, err, ◌>>?◌, Exec, pure, lift, look, ◌>>=◌, ◌>>◌,
}
use agent_bash_tool.RootProtocol.Json.{Value, str, at, as_str, as_u64, is_text, is_number, value_eq}
use agent_bash_tool.Continuation.Files.{
  Binding, Paths, binding_of, exact, immutable, or_missing, with_key,
}
use agent_bash_tool.Release.{
  Place, DirStat, FileStat, Opened, Stamped, Readings, Decided, Held, same_place, is_writable,
  is_absent_text, is_none_or_zero, required, key, is_sealed, provided, same_file,
  source_stamp_matches,
}
use agent_bash_tool.Release.Evidence.{files_released, local_release}

unfoldable pub agree_on : Decided → List String → Bool
agree_on d [] = true
agree_on d (name ∷ names) =
    value_eq (key d.acceptance name) (key d.receipt name)
    && value_eq (key d.decision name) (key d.receipt name)
    && agree_on d names

abbrev pub shared_keys : List String
shared_keys =
    "registration_id" ∷ "source_generation" ∷ "root_id" ∷ "owner_generation" ∷ "grant_id" ∷ []

-- No receipt is no release.
unless_missing : IoError → Result (Option Value)
unfolding if_missing
unless_missing e = if_missing e.kind (ok none) (err e)

module _ (parse : List ℕ → Result Value) (sha256 : List ℕ → List ℕ) (paths : Paths)
    (r : Readings) where
  -- Broker accepted this source and decided its release.
  unfoldable pub chains : Held → Decided → List ℕ → List ℕ → Bool
  chains h d acceptance_json release_json =
      is_text (key d.receipt "acceptance_sha256") (sha256 acceptance_json)
      && is_text (key d.receipt "release_sha256") (sha256 release_json)
      && is_text (key d.acceptance "protocol") (codes "broker-completion-source-acceptance-v1")
      && is_text (key d.decision "protocol") (codes "broker-source-retention-release-v1")
      && value_eq (key d.decision "acceptance_sha256") (key d.receipt "acceptance_sha256")
      && not (is_absent_text (as_str (key d.acceptance "state_admission_id")))
      && value_eq (key d.acceptance "registration_digest")
          (key h.bound.common "registration_digest")
      && value_eq (key (key d.acceptance "evidence_seal") "manifest_sha256")
          (key d.receipt "manifest_sha256")
      && value_eq (key d.acceptance "selected_output") (key d.receipt "selected_output")

  decision_released : Held → Value → List ℕ → List ℕ → Value → Value → Result (Option Value)
  decision_released h receipt acceptance_json release_json acceptance decision =
      let d : Decided = record {
        receipt = receipt;
        acceptance = acceptance;
        decision = decision;
      } in
      provided (chains h d acceptance_json release_json && agree_on d shared_keys)
        (files_released parse sha256 paths r h d)

  unfoldable pub names_source : Held → Value → Bool
  names_source h receipt =
      is_text (key receipt "protocol") (codes "broker-bash-source-release-v1")
      && value_eq (key receipt "registration_id") (key h.bound.registration "registration_id")
      && value_eq (key receipt "registration_digest") (key h.bound.common "registration_digest")
      && is_text (key receipt "handle") paths.handle
      && is_text (key receipt "event_id") paths.handle
      && value_eq (key receipt "listener_revision") (key h.bound.registration "listener_revision")
      && not (is_none_or_zero (as_u64 (key receipt "notification_count")))
      && is_number (key (key receipt "source_directory") "device") h.directory.place.device
      && is_number (key (key receipt "source_directory") "inode") h.directory.place.inode
      && is_number (key (key receipt "source_directory") "owner_uid") h.directory.owner
      && not (is_absent_text (as_str (key receipt "grant_id")))
      && not (is_absent_text (as_str (key receipt "source_generation")))
      && not (is_absent_text (as_str (key receipt "root_id")))
      && not (is_absent_text (as_str (key receipt "owner_generation")))

  receipt_released : Held → Value → Result (Option Value)
  unfolding decision_released
  receipt_released h receipt =
      required (as_str (key receipt "acceptance_json")) "Broker acceptance JSON absent"
      >>? λ acceptance_json.
          required (as_str (key receipt "release_json")) "Broker release JSON absent"
          >>? λ release_json. parse acceptance_json >>? λ acceptance.
              parse release_json >>? λ decision.
              decision_released h receipt acceptance_json release_json acceptance decision

  pub content_released : Held → Result (Option Value)
  unfolding receipt_released
  content_released h = provided (length h.content == h.stat.len) (
      parse h.content >>? λ receipt. provided (names_source h receipt) (receipt_released h receipt))

  opened_released : Binding → DirStat → Opened → Result (Option Value)
  unfolding content_released
  opened_released bound directory opened = opened.stat >>? λ stat. provided (is_sealed stat) (
      opened.content >>? λ content.
      content_released
        (record { bound = bound; directory = directory; stat = stat; content = content }))

  directory_released : Binding → DirStat → Result Opened → Result (Option Value)
  unfolding opened_released unless_missing
  directory_released bound directory (ok opened) = opened_released bound directory opened
  directory_released bound directory (err e) = unless_missing e

  -- `binding`, of the bytes of the registration.
  bound_of : List ℕ → Value → Result Binding
  unfolding binding_of
  bound_of bytes registration = binding_of paths (λ v. sha256 bytes) registration

  -- The local release to be recorded, if the receipt vouches for one.
  pub vouched : Result (Option Value)
  unfolding directory_released bound_of
  vouched = r.registration >>? λ bytes. parse bytes >>? λ registration.
      bound_of bytes registration >>? λ bound. r.directory >>? λ directory.
      provided (directory.is_dir && not directory.is_link) (
        r.is_canonical >>? λ canonical.
        provided canonical (directory_released bound directory r.receipt))

  record_release : Option Value → Exec (Option Value) Bool
  unfolding immutable
  record_release none = pure false
  record_release (some local) = do
    immutable value_eq (λ d. d) (λ v d. some v) local
    file ← look (λ d. d)
    recorded ← lift (or_missing file)
    pure (value_eq recorded local)

  pub retention_released : Exec (Option Value) Bool
  unfolding vouched record_release
  retention_released = do released ← lift vouched; record_release released
