-- ===== src/Publication/Immutable.antt =====
-- `immutable` of src/continuation.rs, access by access, and small tests on files.
use agent_bash_tool.Common.{Bool, true, false, Option, none, some, String, if◌then◌else◌}
use agent_bash_tool.Effects.{
  ErrorKind, not_found, would_block, already_exists, interrupted, invalid_data, other, IoError,
  error_other, Result, ok, err,
}
use agent_bash_tool.Effects.Actors.{
  Program, returns, fails, ◌>>=◌, ◌>>◌, attempt, reads, touches, links,
}
use agent_bash_tool.Publication.Evidence.{Evidence}

abbrev pub is_taken : ErrorKind → Bool
is_taken already_exists = true
is_taken not_found = false
is_taken would_block = false
is_taken interrupted = false
is_taken invalid_data = false
is_taken other = false

-- `immutable`: the content is linked into place whole; a file that is there must have these bytes. The
-- touches are the accesses to the temporary file and to the directory.
module _ {A : Type 0} (same : A → A → Bool) (get_file : Evidence → Option A)
    (put_file : A → Evidence → Evidence) (content : A) where
  unfoldable pub compared : IoError → Option A → Program Evidence (Unit {0})
  compared e none = fails (error_other "no such file")
  compared e (some present) = if same present content then touches else fails e

  unfoldable pub settle : Result (Unit {0}) → Program Evidence (Unit {0})
  unfolding compared
  settle (ok linked) = touches
  settle (err e) = if is_taken e.kind then reads get_file >>= compared e else fails e

  unfoldable pub publish_new : Option A → Program Evidence (Unit {0})
  unfolding settle
  publish_new (some present) =
      if same present content then returns tt else fails (error_other "immutable source conflict")
  publish_new none = do
    touches
    linked ← attempt (links get_file put_file content)
    touches
    settle linked

  unfoldable pub immutable : Program Evidence (Unit {0})
  unfolding publish_new
  immutable = reads get_file >>= publish_new

abbrev pub is_there : {A : Type 0} → Option A → Bool
is_there none = false
is_there (some a) = true

abbrev pub enabled : Evidence → Bool
enabled d = is_there d.source.registration

abbrev pub require : Bool → String → Program Evidence (Unit {0})
require holds message = if holds then returns tt else fails (error_other message)

abbrev pub checks : Bool → String → Result (Unit {0})
checks holds message = if holds then ok tt else err (error_other message)
