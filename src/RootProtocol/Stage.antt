-- ===== src/RootProtocol/Stage.antt =====
-- The stage lines of a root's answer, and what src/root_v1.rs says about them: the faults, the outcomes
-- and `started_exec_error`.
use agent_bash_tool.Common.{
  ℕ, Bool, false, not, ◌&&◌, Option, none, some, List, [], ◌∷◌, ◌++◌, if◌then◌else◌, is_empty,
}
use agent_bash_tool.Common.Int.{ℤ, pos, int_leb}
use agent_bash_tool.Common.Bytes.{codes, text_eq}
use agent_bash_tool.Common.Decimal.{print_signed}
use agent_bash_tool.RootProtocol.Json.{
  Value, null, bool, int, float, str, array, object, get, at, as_str, as_i64, is_true,
}
use agent_bash_tool.RootProtocol.Reference.{parse_reference}

-- A line of the stream: it could not be read, it holds no JSON value, or it holds this one.
pub data Line : Type 0 where
  read_error : List ℕ → Line
  unparseable : Line
  event : Value → Line

-- The stage names that the code knows, and any other.
pub data StageName : Type 0 where
  refused accepted started detached output output_closed output_failed ended end_unknown : StageName
  launch_failed launch_unknown left_to_successor : StageName
  other : List ℕ → StageName

abbrev stage_name : List ℕ → StageName
stage_name text =
    if text_eq text (codes "refused")
    then refused
    else if text_eq text (codes "accepted")
    then accepted
    else if text_eq text (codes "started")
    then started
    else if text_eq text (codes "detached")
    then detached
    else if text_eq text (codes "output")
    then output
    else if text_eq text (codes "output-closed")
    then output_closed
    else if text_eq text (codes "output-failed")
    then output_failed
    else if text_eq text (codes "end")
    then ended
    else if text_eq text (codes "end-unknown")
    then end_unknown
    else if text_eq text (codes "launch-failed")
    then launch_failed
    else if text_eq text (codes "launch-unknown")
    then launch_unknown
    else if text_eq text (codes "left-to-successor")
    then left_to_successor
    else other text

abbrev or_empty : Option (List ℕ) → List ℕ
or_empty none = []
or_empty (some text) = text

-- `event["event"].as_str().unwrap_or_default()`
unfoldable pub name_of : Value → StageName
name_of value = stage_name (or_empty (as_str (at value (codes "event"))))

pub data Fault : Type 0 where
  read_failed : List ℕ → Fault
  unparseable_stage_line : Fault
  output_before_started output_invalid_or_missing_base64 output_after_closure : Fault
  output_byte_count_mismatch owner_output_failed output_not_closed : Fault
  end_output_state_not_closed_with_count end_without_usable_wait_status : Fault
  exec_error_without_usable_acceptance started_exec_error_invalid : Fault
  retained_identity_or_stream_mismatch : Fault
  unexpected_stage : StageName → Fault
  no_final_stage no_detached_stage : Fault

-- What a reply is said to mean.
pub data Meaning : Type 0 where
  work_ended requested_program_exec_failed : Meaning
  accepted_end_unknown possible_effect_unknown ended_status_unknown : Meaning
  work_left_to_successor : Meaning
  accepted_and_started launch_refused_before_start : Meaning
  accepted_completion_delivery_unknown : Meaning

pub data ExecError : Type 0 where
  known : Option (List ℕ) → ExecError
  faulty : Fault → ExecError

abbrev is_nonempty_text : Option (List ℕ) → Bool
is_nonempty_text none = false
is_nonempty_text (some text) = not (is_empty text)

abbrev is_positive : Option ℤ → Bool
is_positive none = false
is_positive (some z) = not (int_leb z (pos 0))

abbrev usable_acceptance : Value → Bool
usable_acceptance acceptance =
    is_true (at acceptance (codes "durable"))
    && is_nonempty_text (as_str (at acceptance (codes "root_id")))
    && is_positive (as_i64 (at acceptance (codes "work")))

abbrev exec_error_of : Value → Option Value → ExecError
exec_error_of acceptance none = known none
exec_error_of acceptance (some null) = known none
exec_error_of acceptance (some (str error)) =
    if is_empty error
    then faulty started_exec_error_invalid
    else if usable_acceptance acceptance
    then known (some error)
    else faulty exec_error_without_usable_acceptance
exec_error_of acceptance (some (bool b)) = faulty started_exec_error_invalid
exec_error_of acceptance (some (int z)) = faulty started_exec_error_invalid
exec_error_of acceptance (some (float x)) = faulty started_exec_error_invalid
exec_error_of acceptance (some (array items)) = faulty started_exec_error_invalid
exec_error_of acceptance (some (object fields)) = faulty started_exec_error_invalid

unfoldable pub started_exec_error : Value → Value → ExecError
started_exec_error start acceptance = exec_error_of acceptance (get start (codes "exec_error"))

-- `stages[index]`, null beyond the end: the code reads the first stage after it has pushed one.
abbrev pub first_stage : List Value → Value
first_stage [] = null
first_stage (stage ∷ stages) = stage

abbrev if_parsed : List ℕ → Option (List ℕ × ℤ) → Option (List ℕ)
if_parsed reference none = none
if_parsed reference (some parsed) = some reference

abbrev reference_to : Option (List ℕ) → Option ℤ → Option (List ℕ)
reference_to (some root) (some work) =
    let reference = codes "rv1w:" ++ root ++ (codes ":" ++ print_signed work) in
    if_parsed reference (parse_reference reference)
reference_to (some root) none = none
reference_to none work = none

-- The reference of the work that the first stage names.
unfoldable pub reference_of : List Value → Option (List ℕ)
reference_of [] = none
reference_of (stage ∷ stages) =
    reference_to (as_str (at stage (codes "root_id"))) (as_i64 (at stage (codes "work")))
