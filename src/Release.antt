-- ===== src/Release.antt =====
-- The release of a source's retained evidence, src/continuation.rs: retention_released and
-- source_stamp_matches. All that they read of the directory, which others may change meanwhile, is a
-- `Readings`; the one file that they write is the local release. serde_json, the `sha2` crate and the
-- kernel are parameters.
pub mod Evidence
pub mod Receipt
use agent_bash_tool.Common.{
  ℕ, ◌+◌, ◌/◌, ◌%◌, ◌*◌, Bool, true, false, not, ◌&&◌, ◌||◌, Option, none, some, String, List, [],
  ◌∷◌, ◌==◌, ltb, leb, length, if◌then◌else◌,
}
use agent_bash_tool.Common.Bytes.{codes, text_eq}
use agent_bash_tool.Effects.{
  ErrorKind, not_found, would_block, already_exists, interrupted, invalid_data, other, IoError,
  error_other, Result, ok, err, ◌>>?◌, Exec, pure, lift, look, ◌>>=◌, ◌>>◌,
}
use agent_bash_tool.RootProtocol.Json.{Value, str, at, as_str, as_u64, is_text, is_number, value_eq}
use agent_bash_tool.Continuation.Files.{
  Binding, Paths, binding_of, exact, immutable, or_missing, with_key,
}

pub record Place : Type 0 where
  pub device : ℕ
  pub inode : ℕ

pub record DirStat : Type 0 where
  pub is_dir : Bool
  pub is_link : Bool
  pub place : Place
  pub owner : ℕ

pub record FileStat : Type 0 where
  pub is_file : Bool
  pub is_link : Bool
  pub place : Place
  pub owner : ℕ
  pub links : ℕ
  pub mode : ℕ
  pub len : ℕ

-- A file as opened without following a link: what it is, and all its bytes.
pub record Opened : Type 0 where
  pub stat : Result FileStat
  pub content : Result (List ℕ)

-- An evidence file, and what its path names once its bytes are read.
pub record Stamped : Type 0 where
  pub opened : Result Opened
  pub after : Result FileStat

-- What one pass reads, in the order of the code.
pub record Readings : Type 0 where
  pub registration : Result (List ℕ)
  pub directory : Result DirStat
  pub is_canonical : Result Bool
  pub receipt : Result Opened
  pub registration_file : Stamped
  pub snapshot_file : Stamped
  pub outcome_file : Stamped
  pub snapshot : Result Value
  pub outcome : Result Value
  pub output_file : Stamped
  pub receipt_now : Result FileStat
  pub directory_now : Result DirStat

abbrev pub same_place : Place → Place → Bool
same_place a b = a.device == b.device && a.inode == b.inode

-- `mode & 0o222 != 0`
unfoldable pub is_writable : ℕ → Bool
is_writable mode = not (mode / 2 % 2 == 0 && mode / 16 % 2 == 0 && mode / 128 % 2 == 0)

abbrev is_absent_text : Option (List ℕ) → Bool
is_absent_text none = true
is_absent_text (some text) = false

abbrev is_none_or_zero : Option ℕ → Bool
is_none_or_zero none = true
is_none_or_zero (some count) = count == 0

abbrev required : {A : Type 0} → Option A → String → Result A
required none message = err (error_other message)
required (some a) message = ok a

unfoldable pub key : Value → String → Value
key value name = at value (codes name)

-- The length of a receipt is bounded by 64 times the largest source.
abbrev max_receipt : ℕ
max_receipt = 64 * (1024 * 1024)

unfoldable pub is_sealed : FileStat → Bool
is_sealed stat =
    stat.is_file
    && stat.owner == 0
    && stat.links == 1
    && not (is_writable stat.mode)
    && leb stat.len max_receipt

-- What the receipt and the two texts inside it say.
pub record Decided : Type 0 where
  pub receipt : Value
  pub acceptance : Value
  pub decision : Value

-- What the pass knows once the receipt is read whole.
pub record Held : Type 0 where
  pub bound : Binding
  pub directory : DirStat
  pub stat : FileStat
  pub content : List ℕ

-- `Ok(false)` unless the test holds.
unfoldable pub provided : {A : Type 0} → Bool → Result (Option A) → Result (Option A)
provided true next = next
provided false next = ok none

abbrev pub same_file : FileStat → FileStat → Bool
same_file a b = same_place a.place b.place && a.len == b.len

unfoldable pub is_stamped : Value → FileStat → ℕ → Bool
is_stamped stamp before owner =
    before.is_file
    && before.owner == owner
    && before.links == 1
    && is_number (key stamp "device") before.place.device
    && is_number (key stamp "inode") before.place.inode
    && is_number (key stamp "byte_len") before.len

module _ (parse : List ℕ → Result Value) (sha256 : List ℕ → List ℕ) where
  unfoldable pub is_unchanged : Value → FileStat → List ℕ → FileStat → Bool
  is_unchanged stamp before content after =
      after.is_file
      && not after.is_link
      && same_file after before
      && is_text (key stamp "sha256") (sha256 content)

  stamp_of : Value → ℕ → Stamped → Opened → FileStat → Result Bool
  stamp_of stamp owner f opened before =
      if not (is_stamped stamp before owner)
      then ok false
      else opened.content >>? λ content.
          f.after >>? λ after. ok (is_unchanged stamp before content after)

  pub source_stamp_matches : Stamped → Value → ℕ → Result Bool
  unfolding stamp_of
  source_stamp_matches f stamp owner =
      f.opened >>? λ opened. opened.stat >>? stamp_of stamp owner f opened
