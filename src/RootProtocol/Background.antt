-- ===== src/RootProtocol/Background.antt =====
-- `decode_async` of src/root_v1.rs: a background run's stage lines.
pub mod Running
use agent_bash_tool.Common.{
  ℕ, suc, Bool, true, false, not, ◌&&◌, ◌||◌, Option, none, some, List, [], ◌∷◌, ◌++◌, ◌==◌,
  if◌then◌else◌, length, is_empty,
}
use agent_bash_tool.Common.Bytes.{codes}
use agent_bash_tool.RootProtocol.Json.{Value, at, is_true, is_text, value_eq}
use agent_bash_tool.RootProtocol.Stage.{
  Line, read_error, unparseable, event, StageName, refused, accepted, started, detached, output,
  output_closed, output_failed, ended, end_unknown, launch_failed, launch_unknown,
  left_to_successor, other, name_of, Fault, read_failed, unparseable_stage_line, unexpected_stage,
  no_final_stage, no_detached_stage, Meaning, requested_program_exec_failed, accepted_and_started,
  launch_refused_before_start, possible_effect_unknown, accepted_completion_delivery_unknown,
  ExecError, known, faulty, started_exec_error, first_stage, reference_of,
}

-- The locals of `decode_async`.
pub record Background : Type 0 where
  pub stages : List Value
  pub faults : List Fault
  pub is_detached : Bool
  pub exec_error : Option (List ℕ)
  pub terminal : Option Value

abbrev pub nothing_read : Background
nothing_read = record {
  stages = [];
  faults = [];
  is_detached = false;
  exec_error = none;
  terminal = none;
}

pub data Next : Type 0 where
  next : Background → Next
  break_with : Background → Next
  return_refusal : List Value → Value → Next

abbrev pub faulted : Fault → Background → Next
faulted fault b = break_with (record b { faults = b.faults ++ (fault ∷ []) })

abbrev pub with_exec_error : ExecError → Background → Next
with_exec_error (known error) b = next (record b { exec_error = error })
with_exec_error (faulty fault) b = faulted fault b

abbrev is_none : Option (List ℕ) → Bool
is_none none = true
is_none (some text) = false

abbrev pub may_detach : Background → Value → Bool
may_detach b value =
    value_eq (at value (codes "work")) (at (first_stage b.stages) (codes "work"))
    && (is_none b.exec_error
        || is_text (at value (codes "completion")) (codes "owed-to-requesting-harness"))

-- A stage by its name, when it is already the last of `stages`.
unfoldable pub on_stage : StageName → Background → Value → Next
on_stage refused b value =
    if length b.stages == 1
    then return_refusal b.stages value
    else faulted (unexpected_stage refused) b
on_stage accepted b value =
    if length b.stages == 1 && is_text (at value (codes "delivery")) (codes "async")
    then next b
    else faulted (unexpected_stage accepted) b
on_stage started b value =
    if length b.stages == 2
    then with_exec_error (started_exec_error value (first_stage b.stages)) b
    else faulted (unexpected_stage started) b
on_stage detached b value =
    if length b.stages == 3 && may_detach b value
    then break_with (record b { is_detached = true })
    else faulted (unexpected_stage detached) b
on_stage launch_failed b value =
    if length b.stages == 2
    then break_with (record b { terminal = some value })
    else faulted (unexpected_stage launch_failed) b
on_stage launch_unknown b value =
    if length b.stages == 2
    then break_with (record b { terminal = some value })
    else faulted (unexpected_stage launch_unknown) b
on_stage output b value = faulted (unexpected_stage output) b
on_stage output_closed b value = faulted (unexpected_stage output_closed) b
on_stage output_failed b value = faulted (unexpected_stage output_failed) b
on_stage ended b value = faulted (unexpected_stage ended) b
on_stage end_unknown b value = faulted (unexpected_stage end_unknown) b
on_stage left_to_successor b value = faulted (unexpected_stage left_to_successor) b
on_stage (other name) b value = faulted (unexpected_stage (other name)) b

abbrev pub pushed : Value → Background → Background
pushed value b = record b { stages = b.stages ++ (value ∷ []) }

unfoldable pub step : Background → Line → Next
step b (read_error error) = faulted (read_failed error) b
step b unparseable = faulted unparseable_stage_line b
step b (event value) = on_stage (name_of value) (pushed value b) value

pub data Read : Type 0 where
  all_read : Background → Read
  refusal_read : List Value → Value → Read

abbrev pub go_on : (Background → Read) → Next → Read
go_on rest (next b) = rest b
go_on rest (break_with b) = all_read b
go_on rest (return_refusal stages value) = refusal_read stages value

unfoldable pub read_lines : Background → List Line → Read
read_lines b [] = all_read b
read_lines b (line ∷ lines) = go_on (λ b'. read_lines b' lines) (step b line)

pub data Outcome : Type 0 where
  was_refused not_started running unknown : Outcome

-- The work whose end is owed to the requesting harness.
pub record Completion : Type 0 where
  pub work : Value
  pub root_id : Value

pub record Reply : Type 0 where
  pub outcome : Outcome
  pub meaning : Option Meaning
  pub effects_possible : Bool
  pub retry_safe : Bool
  pub refusal : Option Value
  pub reference : Option (List ℕ)
  pub completion : Option Completion
  pub faults : List Fault
  pub stages : List Value
  pub exec_error : Option (List ℕ)

abbrev base_reply : Background → Outcome → Meaning → Bool → List Fault → Reply
base_reply b outcome meaning effects faults = record {
  outcome = outcome;
  meaning = some meaning;
  effects_possible = effects;
  retry_safe = not effects;
  refusal = none;
  reference = reference_of b.stages;
  completion = none;
  faults = faults;
  stages = b.stages;
  exec_error = b.exec_error;
}

abbrev pub detached_reply : Background → Option (List ℕ) → Reply
detached_reply b none = record (base_reply b running accepted_and_started true b.faults) {
  completion = some (record {
    work = at (first_stage b.stages) (codes "work");
    root_id = at (first_stage b.stages) (codes "root_id");
  });
}
detached_reply b (some error) =
    record (base_reply b unknown requested_program_exec_failed true b.faults) {
      completion = some (record {
        work = at (first_stage b.stages) (codes "work");
        root_id = at (first_stage b.stages) (codes "root_id");
      });
    }

abbrev pub is_accepted_first : List Value → Bool
is_accepted_first [] = false
is_accepted_first (stage ∷ stages) = is_text (at stage (codes "event")) (codes "accepted")

abbrev or_no_final_stage : List Fault → List Fault
or_no_final_stage [] = no_final_stage ∷ []
or_no_final_stage (fault ∷ faults) = fault ∷ faults

abbrev is_launch_failure : StageName → Bool
is_launch_failure launch_failed = true
is_launch_failure _ = false

abbrev pub safe_end : Value → Bool
safe_end value = is_launch_failure (name_of value) && is_true (at value (codes "not_started"))

abbrev pub other_reply : Background → Option Value → Reply
other_reply b (some value) =
    if safe_end value
    then base_reply b not_started launch_refused_before_start false b.faults
    else base_reply b unknown possible_effect_unknown true b.faults
other_reply b none =
    if is_accepted_first b.stages
    then base_reply b unknown accepted_completion_delivery_unknown true
        (if b.is_detached then b.faults else b.faults ++ (no_detached_stage ∷ []))
    else base_reply b unknown possible_effect_unknown true (or_no_final_stage b.faults)

unfoldable pub answer : Background → Reply
answer b =
    if b.is_detached && is_empty b.faults
    then detached_reply b b.exec_error
    else other_reply b b.terminal

abbrev pub reply_to : Read → Reply
reply_to (all_read b) = answer b
reply_to (refusal_read stages value) = record {
  outcome = was_refused;
  meaning = none;
  effects_possible = false;
  retry_safe = true;
  refusal = some (at value (codes "reason"));
  reference = none;
  completion = none;
  faults = [];
  stages = stages;
  exec_error = none;
}

unfoldable pub decode_async : List Line → Reply
decode_async lines = reply_to (read_lines nothing_read lines)
