-- ===== src/RetainedOutput.antt =====
-- src/retained_output.rs: a snapshot of a prefix of the output log, and its validation against the log
-- later on. The digest is the `sha2` crate's, an argument; bytes are numbers. A log may grow between the
-- moment its length is read and the moment its bytes are.
pub mod Receipt
pub mod Snapshots
pub mod Validated
mod Tests
use agent_bash_tool.Common.{
  ℕ, ◌+◌, ◌/◌, ◌%◌, Bool, true, false, not, ◌&&◌, ◌||◌, Option, none, some, String, str_eq, List,
  [], ◌∷◌, ltb, ◌==◌, ◌-◌, length, take, if◌then◌else◌,
}
use agent_bash_tool.Effects.{IoError, invalid_data, Result, ok, err, ◌>>?◌}

pub record SourceIdentity : Type 0 where
  pub version : ℕ
  pub handle : String
  pub created_at : ℕ
  pub bytes : ℕ
  pub sha256 : String
  pub encoding : String

pub record Snapshot : Type 0 where
  pub identity : SourceIdentity
  -- hexadecimal digits
  pub output : List ℕ

-- What is read of the metadata.
pub record Source : Type 0 where
  pub handle : String
  pub created_at : ℕ

-- The log as opened, with its length then, and the bytes that it has when it is read.
pub record Log : Type 0 where
  pub is_file : Bool
  pub opened_length : ℕ
  pub content : List ℕ

abbrev pub invalid : String → IoError
invalid message = record { kind = invalid_data; message = message }

abbrev pub read_bounded : List ℕ → ℕ → Result (List ℕ)
read_bounded content bytes =
    let output = take bytes content in
    if not (length output == bytes)
    then err (invalid "incomplete retained source read")
    else ok output

abbrev pub or_length : Option ℕ → ℕ → ℕ
or_length none length = length
or_length (some bytes) length = bytes

pub read_prefix : Log → Option ℕ → Result (List ℕ)
read_prefix log bytes =
    if not log.is_file
    then err (invalid "retained source is not a regular file")
    else if ltb log.opened_length (or_length bytes log.opened_length)
    then err (invalid "retained source shorter than requested prefix")
    else read_bounded log.content (or_length bytes log.opened_length)

-- `{byte:02x}`
abbrev pub hex_digit : ℕ → ℕ
hex_digit n = if ltb n 10 then b'0' + n else b'a' + (n - 10)

abbrev pub hex : List ℕ → List ℕ
hex [] = []
hex (b ∷ bs) = hex_digit (b / 16) ∷ hex_digit (b % 16) ∷ hex bs

module _ (digest : List ℕ → String) where
  abbrev pub identity_of : Source → List ℕ → SourceIdentity
  identity_of source output = record {
    version = 1;
    handle = source.handle;
    created_at = source.created_at;
    bytes = length output;
    sha256 = digest output;
    encoding = "hex";
  }

  abbrev snapshot_of : Source → List ℕ → Result Snapshot
  snapshot_of source output =
      ok (record { identity = identity_of source output; output = hex output })

  pub acquire : Log → Source → Option ℕ → Result Snapshot
  unfolding read_prefix
  acquire log source bytes = read_prefix log bytes >>? snapshot_of source

  abbrev pub same_identity : SourceIdentity → SourceIdentity → Bool
  same_identity a b =
      a.version == b.version
      && str_eq a.handle b.handle
      && a.created_at == b.created_at
      && a.bytes == b.bytes
      && str_eq a.sha256 b.sha256
      && str_eq a.encoding b.encoding

  abbrev matches : Source → SourceIdentity → List ℕ → Result (Unit {0})
  matches source expected output =
      if not (same_identity (identity_of source output) expected)
      then err (invalid "snapshot bytes do not match retained source")
      else ok tt

  pub validate : Log → Source → SourceIdentity → Result (Unit {0})
  unfolding read_prefix
  validate log source expected =
      if not (expected.version == 1)
        || not (str_eq expected.handle source.handle)
        || not (expected.created_at == source.created_at)
        || not (str_eq expected.encoding "hex")
      then err (invalid "snapshot source identity mismatch")
      else read_prefix log (some expected.bytes) >>? matches source expected
