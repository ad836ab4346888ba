-- ===== src/RetainedOutput/Receipt.antt =====
-- The receipt of a retained output, src/retained_output.rs: record_receipt, publish_receipt. The caller
-- holds the output lock, so that a call runs whole; a failing or interrupted file operation is a fault.
-- The encoder of the identity is serde_json's, a parameter. A write torn in the staging slot is not told
-- from one that did not happen: nothing reads the slot.
pub mod Phases
pub mod Published
use Prim.Native.String.{◌++◌}
use agent_bash_tool.Common.{
  suc, Bool, true, false, Option, none, some, String, List, [], length, take, if◌then◌else◌,
}
use agent_bash_tool.Effects.{
  ErrorKind, not_found, would_block, already_exists, interrupted, invalid_data, other, IoError,
  error_other, Result, ok, err, Exec, pure, raise, lift, look, commit, attempt, if_missing, ◌>>=◌,
  ◌>>◌,
}
use agent_bash_tool.Custody.{
  Text, Entry, absent, file, unreadable, not_a_file, same_text, durable_marker_exists, read_text,
}
use agent_bash_tool.RetainedOutput.{SourceIdentity, invalid}

-- The handle's directory. A file's bytes outlive the machine once the file is synced, and its name
-- once the directory is.
pub record Shelf : Type 0 where
  pub consumed : Entry
  pub receipt : Entry
  pub is_synced : Bool
  pub is_linked : Bool
  pub staging : Entry
  pub staging_synced : Bool

abbrev publication_error : String → IoError → IoError
publication_error phase e =
    error_other ("local-receipt " ++ (phase ++ (": " ++ (e.message ++ "; acceptance unconfirmed"))))

relabelled : {A : Type 0} → String → Result A → Exec Shelf A
relabelled phase (ok a) = pure a
relabelled phase (err e) = raise (publication_error phase e)

-- `.map_err(|e| publication_error(phase, e))`
pub in_phase : {A : Type 0} → String → Exec Shelf A → Exec Shelf A
unfolding relabelled
in_phase phase m = attempt m >>= relabelled phase

-- `symlink_metadata(&paths.consumed)`
abbrev is_consumed : Entry → Result (Unit {0})
is_consumed absent = err (record { kind = not_found; message = "not found" })
is_consumed (file text) = ok tt
is_consumed unreadable = ok tt
is_consumed not_a_file = ok tt

legacy_of : Result (Unit {0}) → Exec Shelf (Unit {0})
unfolding if_missing
legacy_of (ok there) =
    raise (
      invalid
        "legacy-state: consumed entry exists; previous suppression cannot be reversed locally")
legacy_of (err e) = if_missing e.kind (pure tt) (raise e)

reject_legacy : Exec Shelf (Unit {0})
unfolding legacy_of
reject_legacy = attempt (do d ← look (λ d. d); lift (is_consumed d.consumed)) >>= legacy_of

sync_receipt_directory : Exec Shelf (Unit {0})
unfolding in_phase
sync_receipt_directory = do
  in_phase "directory-open" (look (λ d. tt))
  in_phase "published-directory-sync" (commit (λ d. record d { is_linked = true }))

-- Opened for writing, created where it is not there and emptied where it is.
abbrev opened : Entry → Result (Unit {0})
opened absent = ok tt
opened (file text) = ok tt
opened unreadable = err (error_other "not writable")
opened not_a_file = err (error_other "not a regular file")

create_staging : Exec Shelf (Unit {0})
create_staging = do
  d ← look (λ d. d)
  lift (opened d.staging)
  commit (λ d. record d { staging = file []; staging_synced = false })

abbrev pub renamed : Shelf → Shelf
renamed d = record d {
  receipt = d.staging;
  is_synced = d.staging_synced;
  is_linked = false;
  staging = absent;
  staging_synced = false;
}

publish_new : Text → Exec Shelf Bool
unfolding in_phase create_staging sync_receipt_directory
publish_new encoded = do
  in_phase "prepare" create_staging
  in_phase "write" (commit (λ d. record d { staging = file encoded; staging_synced = false }))
  in_phase "prepare-file-sync" (commit (λ d. record d { staging_synced = true }))
  in_phase "publish" (commit renamed)
  sync_receipt_directory
  pure true

confirm_duplicate : Exec Shelf Bool
unfolding in_phase sync_receipt_directory
confirm_duplicate = do
  in_phase "duplicate-file-sync" (commit (λ d. record d { is_synced = true }))
  sync_receipt_directory
  pure false

-- At most one byte more than the receipt has is read.
compare_existing : Text → Option Text → Exec Shelf Bool
unfolding publish_new confirm_duplicate
compare_existing encoded none = publish_new encoded
compare_existing encoded (some content) = do
  bytes ← look (λ d. take (suc (length encoded)) content)
  if same_text bytes encoded then confirm_duplicate else publish_new encoded

-- `open_read_no_follow`
existing_of : Result Text → Exec Shelf (Option Text)
unfolding if_missing
existing_of (ok content) = pure (some content)
existing_of (err e) = if_missing e.kind (pure none) (raise (publication_error "read" e))

open_existing : Exec Shelf (Option Text)
unfolding existing_of
open_existing = attempt (do d ← look (λ d. d); lift (read_text d.receipt)) >>= existing_of

publish_receipt : Text → Exec Shelf Bool
unfolding in_phase open_existing compare_existing
publish_receipt encoded = do
  in_phase "read" (do d ← look (λ d. d); lift (durable_marker_exists d.receipt))
  existing ← open_existing
  compare_existing encoded existing

-- Whether the receipt is new; `encode` is `serde_json::to_vec`.
pub record_receipt : (SourceIdentity → Result Text) → SourceIdentity → Exec Shelf Bool
unfolding reject_legacy publish_receipt
record_receipt encode identity = do
  reject_legacy
  encoded ← lift (encode identity)
  publish_receipt encoded
