-- ===== src/Identity/Stat.antt =====
-- The line of /proc/<pid>/stat as parse_proc_stat and read_proc_stat_result of src/state.rs read it. Texts
-- are code points, since the name of a command is any text and white space is Unicode's.
pub mod Printed
use agent_bash_tool.Common.{
  ℕ, zero, suc, Bool, true, false, ◌||◌, ◌&&◌, Option, none, some, List, [], ◌∷◌, ◌==◌, leb,
  if◌then◌else◌,
}
use agent_bash_tool.Common.Bytes.{strip_prefix}
use agent_bash_tool.Common.Decimal.{parse_signed, parse_unsigned}
use agent_bash_tool.Common.Int.{ℤ, int_eq}
use agent_bash_tool.Effects.{ErrorKind, not_found, if_missing, Result, ok, err}
use agent_bash_tool.Identity.{ProcStat, StatResult, stat, no_entry, unreadable}

pub record StatLine : Type 0 where
  pub pid : ℤ
  pub ppid : ℤ
  pub state : ℕ
  pub starttime_ticks : ℕ

-- `char::is_whitespace`
unfoldable pub is_whitespace : ℕ → Bool
is_whitespace c =
    (leb 9 c && leb c 13)
    || c == 32
    || c == 133
    || c == 160
    || c == 5760
    || (leb 8192 c && leb c 8202)
    || c == 8232
    || c == 8233
    || c == 8239
    || c == 8287
    || c == 12288

abbrev before_words : List ℕ → List (List ℕ) → List (List ℕ)
before_words [] rest = rest
before_words (c ∷ word) rest = (c ∷ word) ∷ rest

-- What precedes the first white space, and the words after it.
unfoldable pub first_word : List ℕ → List ℕ × List (List ℕ)
first_word [] = ([], [])
first_word (c ∷ cs) =
    let (word, rest) = first_word cs in
    if is_whitespace c then ([], before_words word rest) else (c ∷ word, rest)

-- `split_whitespace`
unfoldable pub words : List ℕ → List (List ℕ)
words text = let (word, rest) = first_word text in before_words word rest

-- `)` and a space
abbrev pub end_of_name : List ℕ
end_of_name = 41 ∷ 32 ∷ []

abbrev or_else : Option (List ℕ) → Option (List ℕ) → Option (List ℕ)
or_else none here = here
or_else (some later) here = some later

-- What follows the last `) `, of `rfind`.
unfoldable pub after_name : List ℕ → Option (List ℕ)
after_name [] = none
after_name (c ∷ cs) = or_else (after_name cs) (strip_prefix end_of_name (c ∷ cs))

module _ {A B : Type 0} where
  infixl 5 ◌>>=◌
  abbrev ◌>>=◌ : Option A → (A → Option B) → Option B
  none >>= f = none
  some a >>= f = f a

module _ {A : Type 0} where
  -- `get`
  abbrev pub get_elem? : List A → ℕ → Option A
  get_elem? [] n = none
  get_elem? (x ∷ xs) zero = some x
  get_elem? (x ∷ xs) (suc n) = get_elem? xs n

abbrev pub pid_max : ℕ
pid_max = 2147483647

abbrev pub ticks_max : ℕ
ticks_max = 18446744073709551615

unfoldable pub parse_proc_stat : List ℕ → Option StatLine
parse_proc_stat contents = do
  rest ← after_name contents
  first ← get_elem? (words contents) 0
  pid ← parse_signed pid_max first
  state_word ← get_elem? (words rest) 0
  state ← get_elem? state_word 0
  parent ← get_elem? (words rest) 1
  ppid ← parse_signed pid_max parent
  start ← get_elem? (words rest) 19
  ticks ← parse_unsigned ticks_max start
  some (record { pid = pid; ppid = ppid; state = state; starttime_ticks = ticks })

-- The line must be of the process that was asked for.
abbrev of_process : ℤ → Option StatLine → StatResult
of_process pid none = unreadable
of_process pid (some line) =
    if int_eq line.pid pid
    then stat (record { ppid = line.ppid; starttime_ticks = line.starttime_ticks })
    else unreadable

-- `read_proc_stat_result`, of what `read_to_string` answers.
unfoldable pub read_proc_stat_result : ℤ → Result (List ℕ) → StatResult
unfolding parse_proc_stat
read_proc_stat_result pid (ok contents) = of_process pid (parse_proc_stat contents)
read_proc_stat_result pid (err e) = if_missing e.kind no_entry unreadable
