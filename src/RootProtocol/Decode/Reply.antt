-- ===== src/RootProtocol/Decode/Reply.antt =====
-- What `decode` of src/root_v1.rs answers once its loop has ended. UTF-8 validation and SHA-256 are
-- the libraries' and parameters here.
use agent_bash_tool.Common.{
  ℕ, ◌-◌, Bool, true, false, not, ◌&&◌, ◌||◌, Option, none, some, List, [], ◌∷◌, ◌++◌, ltb,
  if◌then◌else◌, length, take, is_empty,
}
use agent_bash_tool.Common.Bytes.{codes, text_eq}
use agent_bash_tool.RootProtocol.Json.{
  Value, null, str, object, empty, field, at, as_str, as_u64, is_null, is_true, is_text, value_eq,
}
use agent_bash_tool.RootProtocol.Base64.{base64}
use agent_bash_tool.RootProtocol.Reference.{Wait, wait_status, valid_record}
use agent_bash_tool.RootProtocol.Stage.{
  Line, StageName, refused, accepted, started, detached, output, output_closed, output_failed,
  ended, end_unknown, launch_failed, launch_unknown, left_to_successor, other, name_of, Fault,
  output_not_closed, end_output_state_not_closed_with_count, end_without_usable_wait_status,
  retained_identity_or_stream_mismatch, no_final_stage, Meaning, work_ended,
  requested_program_exec_failed, accepted_end_unknown, possible_effect_unknown,
  ended_status_unknown, work_left_to_successor, reference_of,
}
use agent_bash_tool.RootProtocol.Decode.{
  Decoder, start, Read, all_read, refusal_read, read_lines, has_count,
}

pub data Outcome : Type 0 where
  was_refused not_started has_ended ended_output_unproven unknown : Outcome

pub data Delivery : Type 0 where
  undelivered unproven partial complete : Delivery

pub data Remainder : Type 0 where
  no_remainder retained_by_owner partial_owner_retention discarded : Remainder

-- The fields `output` of the answer. `presented` is what `base64` encodes.
pub record Output : Type 0 where
  pub delivery : Delivery
  pub bytes : ℕ
  pub presented_bytes : ℕ
  pub omitted_bytes : ℕ
  pub remainder : Remainder
  pub retained : Value
  pub reference : Option (List ℕ)
  pub encoded : List ℕ

pub record Reply : Type 0 where
  pub outcome : Outcome
  pub meaning : Option Meaning
  pub exec_error : Option (List ℕ)
  pub effects_possible : Bool
  pub retry_safe : Bool
  pub refusal : Option Value
  pub wait : Option Wait
  pub output_of : Output
  pub faults : List Fault
  pub stages : List Value

abbrev pub no_output : Output
no_output = record {
  delivery = undelivered;
  bytes = 0;
  presented_bytes = 0;
  omitted_bytes = 0;
  remainder = no_remainder;
  retained = null;
  reference = none;
  encoded = [];
}

-- A reply that reports no effect.
abbrev pub without_effect : Outcome → Option Value → List Fault → List Value → Reply
without_effect outcome refusal faults stages = record {
  outcome = outcome;
  meaning = none;
  exec_error = none;
  effects_possible = false;
  retry_safe = true;
  refusal = refusal;
  wait = none;
  output_of = no_output;
  faults = faults;
  stages = stages;
}

abbrev retained_value : Option Value → Value
retained_value none = null
retained_value (some value) = at value (codes "retained")

abbrev same_work : List Value → Value → Bool
same_work [] retained = false
same_work (stage ∷ stages) retained =
    value_eq (at stage (codes "work")) (at retained (codes "work"))
    && value_eq (at stage (codes "root_id")) (at retained (codes "root_id"))

abbrev mismatch : Value
mismatch = object (
    field (codes "reason") (str (codes "retained-identity-or-stream-mismatch"))
      (field (codes "state") (str (codes "unknown")) empty))

abbrev remainder_of : ℕ → Value → Remainder
remainder_of omitted retained =
    if ltb 0 omitted
    then if is_text (at retained (codes "state")) (codes "complete")
      then retained_by_owner
      else if is_text (at retained (codes "state")) (codes "partial")
      then partial_owner_retention
      else discarded
    else no_remainder

-- What is presented of the counted stream, and of the owner's record of it.
pub record Presented : Type 0 where
  pub shown : List ℕ
  pub kept : Value
  pub found : List Fault

abbrev pub present : Decoder → Presented → Delivery → Output
present d p delivery =
    let omitted = d.bytes - length p.shown in
    record {
      delivery = delivery;
      bytes = d.bytes;
      presented_bytes = length p.shown;
      omitted_bytes = omitted;
      remainder = remainder_of omitted p.kept;
      retained = p.kept;
      reference = reference_of d.stages;
      encoded = base64 p.shown;
    }

abbrev unknown_reply : Decoder → Presented → Meaning → List Fault → Reply
unknown_reply d p meaning faults = record {
  outcome = unknown;
  meaning = some meaning;
  exec_error = d.exec_error;
  effects_possible = true;
  retry_safe = false;
  refusal = none;
  wait = none;
  output_of = present d p unproven;
  faults = faults;
  stages = d.stages;
}

abbrev exec_meaning : Option (List ℕ) → Meaning
exec_meaning none = work_ended
exec_meaning (some error) = requested_program_exec_failed

abbrev push_if : Bool → Fault → List Fault → List Fault
push_if true fault faults = faults ++ (fault ∷ [])
push_if false fault faults = faults

abbrev is_closed_with : Value → ℕ → Bool
is_closed_with end_output bytes =
    is_text (at end_output (codes "state")) (codes "closed")
    && has_count (as_u64 (at end_output (codes "bytes"))) bytes

abbrev end_faults : Decoder → Presented → Value → List Fault
end_faults d p end_stage =
    push_if (not (is_closed_with (at end_stage (codes "output")) d.bytes))
      end_output_state_not_closed_with_count (push_if (not d.closed) output_not_closed p.found)

abbrev pub end_delivery : Bool → ℕ → Delivery
end_delivery false omitted = unproven
end_delivery true omitted = if ltb 0 omitted then partial else complete

abbrev pub end_outcome : Bool → Outcome
end_outcome true = has_ended
end_outcome false = ended_output_unproven

abbrev pub ended_reply : Decoder → Presented → List Fault → Wait → Reply
ended_reply d p faults exit_wait =
    let is_complete = not d.output_fault && is_empty faults in
    record {
      outcome = end_outcome is_complete;
      meaning = some (exec_meaning d.exec_error);
      exec_error = d.exec_error;
      effects_possible = true;
      retry_safe = false;
      refusal = none;
      wait = some exit_wait;
      output_of = present d p (end_delivery is_complete (d.bytes - length p.shown));
      faults = faults;
      stages = d.stages;
    }

abbrev or_default : Option (List ℕ) → List ℕ
or_default none = []
or_default (some text) = text

abbrev pub with_wait : Decoder → Presented → Value → Bool → Option Wait → Reply
with_wait d p end_stage observed none =
    unknown_reply d p ended_status_unknown (p.found ++ (end_without_usable_wait_status ∷ []))
with_wait d p end_stage false (some exit_wait) =
    unknown_reply d p ended_status_unknown (p.found ++ (end_without_usable_wait_status ∷ []))
with_wait d p end_stage true (some exit_wait) = ended_reply d p (end_faults d p end_stage) exit_wait

-- The final stage by its name.
unfoldable pub conclude : StageName → Decoder → Presented → Value → Reply
conclude ended d p end_stage =
    with_wait d p end_stage
      (text_eq (or_default (as_str (at end_stage (codes "observer")))) (codes "work-pid1-wait"))
      (wait_status (or_default (as_str (at end_stage (codes "status")))))
conclude launch_failed d p end_stage =
    if is_true (at end_stage (codes "not_started"))
    then without_effect not_started none p.found d.stages
    else unknown_reply d p possible_effect_unknown p.found
conclude launch_unknown d p end_stage = unknown_reply d p possible_effect_unknown p.found
conclude left_to_successor d p end_stage = unknown_reply d p work_left_to_successor p.found
conclude refused d p end_stage = unknown_reply d p accepted_end_unknown p.found
conclude accepted d p end_stage = unknown_reply d p accepted_end_unknown p.found
conclude started d p end_stage = unknown_reply d p accepted_end_unknown p.found
conclude detached d p end_stage = unknown_reply d p accepted_end_unknown p.found
conclude output d p end_stage = unknown_reply d p accepted_end_unknown p.found
conclude output_closed d p end_stage = unknown_reply d p accepted_end_unknown p.found
conclude output_failed d p end_stage = unknown_reply d p accepted_end_unknown p.found
conclude end_unknown d p end_stage = unknown_reply d p accepted_end_unknown p.found
conclude (other name) d p end_stage = unknown_reply d p accepted_end_unknown p.found

abbrev unfinished : Decoder → Presented → List Fault → Reply
unfinished d p faults =
    unknown_reply d p (if d.is_accepted then accepted_end_unknown else possible_effect_unknown)
      faults

abbrev pub answer_end : Bool → Option Value → Decoder → Presented → Reply
answer_end true terminal d p = unfinished d p p.found
answer_end false none d p = unfinished d p (p.found ++ (no_final_stage ∷ []))
answer_end false (some end_stage) d p = conclude (name_of end_stage) d p end_stage

unfoldable pub answer : Decoder → Presented → Reply
answer d p = answer_end d.order_fault d.terminal d p

abbrev pub cut : Option ℕ → List ℕ → List ℕ
cut none bytes = bytes
cut (some size) bytes = take size bytes

-- `utf8_cut` is the number of whole characters' bytes when the text ends inside a character, and
-- none otherwise; `sha256` is the digest in hexadecimal.
module _ (utf8_cut : List ℕ → Option ℕ) (sha256 : List ℕ → List ℕ) where
  unfoldable pub shown_of : Decoder → List ℕ
  shown_of d = if ltb (length d.prefix) d.bytes then cut (utf8_cut d.prefix) d.prefix else d.prefix

  abbrev complete_matches : Decoder → Value → Bool
  complete_matches d retained =
      not (is_text (at retained (codes "state")) (codes "complete"))
      || (has_count (as_u64 (at retained (codes "received"))) d.bytes
          && has_count (as_u64 (at retained (codes "bytes"))) d.bytes
          && is_text (at retained (codes "sha256")) (sha256 d.streamed))

  abbrev is_doubtful : Decoder → Value → Bool
  is_doubtful d retained =
      not (is_null retained)
      && not (is_text (at retained (codes "state")) (codes "unsealed"))
      && not (valid_record retained && same_work d.stages retained && complete_matches d retained)

  unfoldable pub presented : Decoder → Presented
  presented d =
      let retained = retained_value d.terminal in
      if is_doubtful d retained
      then record {
        shown = shown_of d;
        kept = mismatch;
        found = d.faults ++ (retained_identity_or_stream_mismatch ∷ []);
      }
      else record { shown = shown_of d; kept = retained; found = d.faults }

  abbrev pub reply_to : Read → Reply
  reply_to (refusal_read stages value) =
      without_effect was_refused (some (at value (codes "reason"))) [] stages
  reply_to (all_read d) = answer d (presented d)

  unfoldable pub decode : List Line → Reply
  decode lines = reply_to (read_lines start lines)
