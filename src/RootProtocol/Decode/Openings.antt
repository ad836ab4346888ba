-- ===== src/RootProtocol/Decode/Openings.antt =====
-- What the first and the second line leave of a retry in `decode` of src/root_v1.rs.
use agent_bash_tool.Common.{◌≡◌, refl, true, false, [], ◌∷◌, arith, ◌≢◌}
use agent_bash_tool.RootProtocol.Json.{Value}
use agent_bash_tool.RootProtocol.Stage.{
  StageName, refused, accepted, started, detached, output, output_closed, output_failed, ended,
  end_unknown, launch_failed, launch_unknown, left_to_successor, other, name_of, started_exec_error,
}
use agent_bash_tool.RootProtocol.Decode.{Decoder, start, unexpected, on_stage, pushed, on_event}
use agent_bash_tool.RootProtocol.Decode.DoomedStages.{
  on_started-IsDoomed, unexpected-IsDoomed, is_launch_failure, can_retry, StaysDoomed,
}
use agent_bash_tool.RootProtocol.Decode.Doomed.{on_output-unstarted}

-- After the acceptance, the second line decides.
unfoldable pub accepted_start : Value → Decoder
accepted_start value = record start { stages = value ∷ []; is_accepted = true }

pub second-StaysDoomed :
    (name : StageName) (acceptance value : Value)
    → name_of value ≡ name
    → is_launch_failure name ≡ false
    → StaysDoomed (on_event name (accepted_start acceptance) value)
unfolding on_event on_stage accepted_start can_retry unexpected
second-StaysDoomed launch_failed a value e h = absurd (ground arith)
second-StaysDoomed refused a value e h = refl
second-StaysDoomed accepted a value e h =
    unexpected-IsDoomed accepted (pushed value (accepted_start a)) (omega arith) refl
second-StaysDoomed started a value e h =
    on_started-IsDoomed (started_exec_error value a) (pushed value (accepted_start a)) (omega arith)
      refl
second-StaysDoomed detached a value e h =
    unexpected-IsDoomed detached (pushed value (accepted_start a)) (omega arith) refl
second-StaysDoomed output a value e h = on_output-unstarted _ value refl refl refl
second-StaysDoomed output_closed a value e h =
    unexpected-IsDoomed output_closed (pushed value (accepted_start a)) (omega arith) refl
second-StaysDoomed output_failed a value e h =
    unexpected-IsDoomed output_failed (pushed value (accepted_start a)) (omega arith) refl
second-StaysDoomed ended a value e h = refl
second-StaysDoomed end_unknown a value e h = rw e refl
second-StaysDoomed launch_unknown a value e h = rw e refl
second-StaysDoomed left_to_successor a value e h = rw e refl
second-StaysDoomed (other name) a value e h =
    unexpected-IsDoomed (other name) (pushed value (accepted_start a)) (omega arith) refl

pub first-StaysDoomed :
    (name : StageName) (value : Value)
    → (name ≢ refused)
    → (name ≢ accepted)
    → StaysDoomed (on_event name start value)
unfolding on_event on_stage can_retry unexpected
first-StaysDoomed launch_failed value r a = refl
first-StaysDoomed refused value r a = absurd (r refl)
first-StaysDoomed accepted value r a = absurd (a refl)
first-StaysDoomed started value r a =
    unexpected-IsDoomed started (pushed value start) (omega arith) refl
first-StaysDoomed detached value r a =
    unexpected-IsDoomed detached (pushed value start) (omega arith) refl
first-StaysDoomed output value r a = on_output-unstarted _ value refl refl refl
first-StaysDoomed output_closed value r a =
    unexpected-IsDoomed output_closed (pushed value start) (omega arith) refl
first-StaysDoomed output_failed value r a =
    unexpected-IsDoomed output_failed (pushed value start) (omega arith) refl
first-StaysDoomed ended value r a = refl
first-StaysDoomed end_unknown value r a = refl
first-StaysDoomed launch_unknown value r a = refl
first-StaysDoomed left_to_successor value r a = refl
first-StaysDoomed (other name) value r a =
    unexpected-IsDoomed (other name) (pushed value start) (omega arith) refl
