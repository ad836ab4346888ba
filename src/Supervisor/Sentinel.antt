-- ===== src/Supervisor/Sentinel.antt =====
-- The ready-sentinel matcher of src/supervisor.rs: a rolling window over standard output, searched
-- from a later start when the pattern is a plain word. The regex engine is the `regex` crate, so its
-- search is a field; bytes are numbers.
pub mod Search
pub mod Window
mod Tests
use agent_bash_tool.Common.{
  ℕ, ◌+◌, ◌-◌, ◌*◌, ◌^◌, Bool, true, false, not, ◌&&◌, ◌||◌, Option, none, some, List, [], ◌∷◌,
  ◌++◌, max, ltb, leb, ◌==◌, length, drop, is_empty, if◌then◌else◌,
}

pub record SentinelMatcher : Type 0 where
  -- `self.regex.is_match`
  pub is_match : List ℕ → Bool
  pub buffer : List ℕ
  pub limit : ℕ
  pub literal_len : Option ℕ
  pub previous_match : Bool

abbrev pub one_mib : ℕ
one_mib = 1024 * 1024

abbrev pub within : ℕ → ℕ → ℕ → Bool
within lo hi b = leb lo b && leb b hi

-- `b.is_ascii_alphanumeric() || *b == b'_'`
pub is_word_byte : ℕ → Bool
is_word_byte b = within b'0' b'9' b || within b'A' b'Z' b || within b'a' b'z' b || b == b'_'

pub all_word_bytes : List ℕ → Bool
unfolding is_word_byte
all_word_bytes [] = true
all_word_bytes (b ∷ bs) = is_word_byte b && all_word_bytes bs

-- `new`, over the compiled pattern's bytes and its search; `pattern_len.saturating_mul(4)`.
pub new : List ℕ → (List ℕ → Bool) → ℕ → SentinelMatcher
unfolding all_word_bytes
new pattern search pattern_len = record {
  is_match = search;
  buffer = [];
  limit = max one_mib (if ltb (pattern_len * 4) (2 ^ 64) then pattern_len * 4 else 2 ^ 64 - 1);
  literal_len =
      if not (is_empty pattern) && all_word_bytes pattern then some (length pattern) else none;
  previous_match = false;
}

pub append_stdout : List ℕ → SentinelMatcher → SentinelMatcher
append_stdout bytes m = record m { buffer = m.buffer ++ bytes }

pub trim_buffer : SentinelMatcher → SentinelMatcher
trim_buffer m =
    if ltb m.limit (length m.buffer)
    then record m { buffer = drop (length m.buffer - m.limit) m.buffer }
    else m

abbrev start_for : Option ℕ → Bool → ℕ → ℕ
start_for (some len) false retained_old_len = retained_old_len - (len - 1)
start_for (some len) true retained_old_len = 0
start_for none previous retained_old_len = 0

pub search_start : SentinelMatcher → ℕ → ℕ
search_start m retained_old_len = start_for m.literal_len m.previous_match retained_old_len

-- The matcher after the call, whose `previous_match` is also what the call returns.
pub push_stdout : List ℕ → SentinelMatcher → SentinelMatcher
unfolding append_stdout trim_buffer search_start
push_stdout bytes m =
    let old_len = length m.buffer in
    let appended = append_stdout bytes m in
    let removed = length appended.buffer - appended.limit in
    let trimmed = trim_buffer appended in
    let start = search_start trimmed (old_len - removed) in
    record trimmed { previous_match = trimmed.is_match (drop start trimmed.buffer) }
