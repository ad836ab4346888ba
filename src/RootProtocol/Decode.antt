-- ===== src/RootProtocol/Decode.antt =====
-- The loop of `decode` of src/root_v1.rs: a foreground run's stage lines, read one at a time.
pub mod Reply
pub mod DoomedStages
pub mod Doomed
pub mod Openings
pub mod RetrySafe
pub mod StreamStages
pub mod Stream
pub mod EndedReply
pub mod Whole
use agent_bash_tool.Common.{
  ℕ, zero, suc, ◌+◌, ◌-◌, ◌%◌, ◌^◌, min, Bool, true, false, not, ◌&&◌, ◌||◌, Option, none, some,
  List, [], ◌∷◌, ◌++◌, ◌==◌, if◌then◌else◌, length, take,
}
use agent_bash_tool.Common.Int.{pos}
use agent_bash_tool.Common.Bytes.{codes}
use agent_bash_tool.RootProtocol.Json.{
  Value, int, str, object, Fields, empty, field, at, as_str, as_u64,
}
use agent_bash_tool.RootProtocol.Base64.{unbase64}
use agent_bash_tool.RootProtocol.Stage.{
  Line, read_error, unparseable, event, StageName, refused, accepted, started, detached, output,
  output_closed, output_failed, ended, end_unknown, launch_failed, launch_unknown,
  left_to_successor, other, name_of, Fault, read_failed, unparseable_stage_line,
  output_before_started, output_invalid_or_missing_base64, output_after_closure,
  output_byte_count_mismatch, owner_output_failed, unexpected_stage, ExecError, known, faulty,
  started_exec_error, first_stage,
}

abbrev pub output_prefix_bytes : ℕ
output_prefix_bytes = 65536

-- The locals of `decode`. `streamed` is what the running hash has taken in.
pub record Decoder : Type 0 where
  pub stages : List Value
  pub faults : List Fault
  pub prefix : List ℕ
  pub bytes : ℕ
  pub output_stage : Option ℕ
  pub chunks : ℕ
  pub streamed : List ℕ
  pub is_accepted : Bool
  pub is_started : Bool
  pub exec_error : Option (List ℕ)
  pub closed : Bool
  pub output_fault : Bool
  pub order_fault : Bool
  pub terminal : Option Value

abbrev pub start : Decoder
start = record {
  stages = [];
  faults = [];
  prefix = [];
  bytes = 0;
  output_stage = none;
  chunks = 0;
  streamed = [];
  is_accepted = false;
  is_started = false;
  exec_error = none;
  closed = false;
  output_fault = false;
  order_fault = false;
  terminal = none;
}

-- After a line the loop goes on, breaks, or returns the refusal.
pub data Next : Type 0 where
  next : Decoder → Next
  break_with : Decoder → Next
  return_refusal : List Value → Value → Next

abbrev pub set_at : ℕ → Value → List Value → List Value
set_at n value [] = []
set_at zero value (stage ∷ stages) = value ∷ stages
set_at (suc n) value (stage ∷ stages) = stage ∷ set_at n value stages

abbrev pub output_stage_of : ℕ → ℕ → Value
output_stage_of chunks bytes = object (
    field (codes "bytes") (int (pos bytes)) (
      field (codes "chunks") (int (pos chunks))
        (field (codes "event") (str (codes "output")) empty)))

abbrev pub output_mark : Value
output_mark = object (field (codes "event") (str (codes "output")) empty)

-- `output_stage.get_or_insert_with`: one stage stands for all the output.
abbrev pub with_output_stage : Option ℕ → Decoder → Decoder
with_output_stage none d = record d {
  output_stage = some (length d.stages);
  stages = d.stages ++ (output_mark ∷ []);
}
with_output_stage (some index) d = d

abbrev pub show_count : Option ℕ → Decoder → Decoder
show_count none d = d
show_count (some index) d = record d {
  stages = set_at index (output_stage_of d.chunks d.bytes) d.stages;
}

abbrev pub add_fault : Fault → Decoder → Decoder
add_fault fault d = record d { faults = d.faults ++ (fault ∷ []) }

abbrev pub keep_chunk : List ℕ → Decoder → Decoder
keep_chunk chunk d =
    let keep = min (length chunk) (output_prefix_bytes - length d.prefix) in
    record d {
      streamed = d.streamed ++ chunk;
      bytes = (d.bytes + length chunk) % 2 ^ 64;
      prefix = d.prefix ++ take keep chunk;
    }

unfoldable pub take_chunk : Option (List ℕ) → Decoder → Decoder
take_chunk none d =
    if d.is_started
    then add_fault output_invalid_or_missing_base64 (record d { output_fault = true })
    else add_fault output_before_started (record d { order_fault = true })
take_chunk (some chunk) d =
    if d.is_started
    then if d.closed
      then add_fault output_after_closure (record d { output_fault = true })
      else keep_chunk chunk d
    else add_fault output_before_started (record d { order_fault = true })

abbrev pub decoded : Option (List ℕ) → Option (List ℕ)
decoded none = none
decoded (some text) = unbase64 text

abbrev pub counted : Decoder → Decoder
counted d = with_output_stage d.output_stage (record d { chunks = (d.chunks + 1) % 2 ^ 64 })

abbrev pub recount : Decoder → Decoder
recount d = show_count d.output_stage d

unfoldable pub on_output : Decoder → Value → Decoder
on_output d value = recount (take_chunk (decoded (as_str (at value (codes "b64")))) (counted d))

unfoldable pub unexpected : StageName → Decoder → Decoder
unexpected name d = add_fault (unexpected_stage name) (record d { order_fault = true })

abbrev pub on_started : ExecError → Decoder → Decoder
on_started (known error) d = record d { is_started = true; exec_error = error }
on_started (faulty fault) d = add_fault fault (record d { is_started = true; order_fault = true })

abbrev pub has_count : Option ℕ → ℕ → Bool
has_count none bytes = false
has_count (some count) bytes = count == bytes

abbrev pub on_closed : Bool → Decoder → Decoder
on_closed true d = record d { closed = true }
on_closed false d =
    add_fault output_byte_count_mismatch (record d { closed = true; output_fault = true })

abbrev pub finish_with : Value → Decoder → Next
finish_with value d = break_with (record d { terminal = some value })

-- A stage by its name, when it is already the last of `stages`.
unfoldable pub on_stage : StageName → Decoder → Value → Next
on_stage refused d value =
    if length d.stages == 1
    then return_refusal d.stages value
    else break_with (unexpected refused d)
on_stage accepted d value =
    next (if length d.stages == 1 then record d { is_accepted = true } else unexpected accepted d)
on_stage started d value = next (
    if d.is_accepted && not d.is_started
    then on_started (started_exec_error value (first_stage d.stages)) d
    else unexpected started d)
on_stage output_closed d value = next (
    if d.is_started && not d.closed
    then on_closed (has_count (as_u64 (at value (codes "bytes"))) d.bytes) d
    else unexpected output_closed d)
on_stage output_failed d value = next (
    if d.is_started
    then add_fault owner_output_failed (record d { output_fault = true })
    else unexpected output_failed d)
on_stage ended d value =
    if d.is_started then finish_with value d else break_with (unexpected ended d)
on_stage launch_failed d value =
    if d.is_accepted && not d.is_started
    then finish_with value d
    else break_with (unexpected launch_failed d)
on_stage launch_unknown d value =
    if d.is_accepted && not d.is_started
    then finish_with value d
    else break_with (unexpected launch_unknown d)
on_stage end_unknown d value =
    if d.is_accepted then finish_with value d else break_with (unexpected end_unknown d)
on_stage left_to_successor d value =
    if d.is_accepted then finish_with value d else break_with (unexpected left_to_successor d)
on_stage detached d value = next (unexpected detached d)
on_stage output d value = next (unexpected output d)
on_stage (other name) d value = next (unexpected (other name) d)

abbrev pub pushed : Value → Decoder → Decoder
pushed value d = record d { stages = d.stages ++ (value ∷ []) }

-- Output is drained without a stage of its own.
unfoldable pub on_event : StageName → Decoder → Value → Next
on_event output d value = next (on_output d value)
on_event name d value = on_stage name (pushed value d) value

unfoldable pub step : Decoder → Line → Next
step d (read_error error) = break_with (add_fault (read_failed error) d)
step d unparseable = break_with (add_fault unparseable_stage_line (record d { order_fault = true }))
step d (event value) = on_event (name_of value) d value

pub data Read : Type 0 where
  all_read : Decoder → Read
  refusal_read : List Value → Value → Read

-- The lines after a step.
abbrev pub go_on : (Decoder → Read) → Next → Read
go_on rest (next d) = rest d
go_on rest (break_with d) = all_read d
go_on rest (return_refusal stages value) = refusal_read stages value

unfoldable pub read_lines : Decoder → List Line → Read
read_lines d [] = all_read d
read_lines d (line ∷ lines) = go_on (λ d'. read_lines d' lines) (step d line)
