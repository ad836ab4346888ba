-- ===== src/RootProtocol/Decode/DoomedStages.antt =====
-- The stages of an answer to `decode` of src/root_v1.rs after something may have started.
use agent_bash_tool.Common.{
  ◌≤◌, ◌≡◌, refl, Bool, true, false, not, ◌&&◌, ◌||◌, Option, none, some, arith, ◌==◌,
  if◌then◌else◌, length,
}
use agent_bash_tool.Common.Bytes.{codes}
use agent_bash_tool.RootProtocol.Json.{Value, at, is_true}
use agent_bash_tool.RootProtocol.Reference.{Wait}
use agent_bash_tool.RootProtocol.Stage.{
  ExecError, known, faulty, StageName, refused, accepted, started, detached, output, output_closed,
  output_failed, ended, end_unknown, launch_failed, launch_unknown, left_to_successor, other,
  name_of, owner_output_failed,
}
use agent_bash_tool.RootProtocol.Decode.{
  Decoder, Next, next, break_with, return_refusal, unexpected, on_started, on_closed, on_stage,
  add_fault,
}
use agent_bash_tool.RootProtocol.Decode.Reply.{Presented, with_wait, conclude, answer_end, answer}

-- Something may have started, and no final stage is there yet.
pub record IsDoomed (d : Decoder) : Type 0 where
  pub staged : 1 ≤ length d.stages
  pub open_ended : d.terminal ≡ none
  pub doomed : d.order_fault || d.is_started ≡ true

abbrev pub is_launch_failure : StageName → Bool
is_launch_failure launch_failed = true
is_launch_failure _ = false

abbrev pub is_safe_end : Option Value → Bool
is_safe_end none = false
is_safe_end (some value) =
    is_launch_failure (name_of value) && is_true (at value (codes "not_started"))

unfoldable pub can_retry : Decoder → Bool
can_retry d = not d.order_fault && is_safe_end d.terminal

with_wait_lem :
    (d : Decoder) (p : Presented) (value : Value) (observed : Bool) (exit_wait : Option Wait)
    → (with_wait d p value observed exit_wait).retry_safe ≡ false
with_wait_lem d p value observed none = refl
with_wait_lem d p value false (some w) = refl
with_wait_lem d p value true (some w) = refl

conclude-retry :
    (name : StageName) (d : Decoder) (p : Presented) (value : Value)
    → (conclude name d p value).retry_safe
      ≡ is_launch_failure name && is_true (at value (codes "not_started"))
unfolding conclude
conclude-retry launch_failed d p value = ground arith
conclude-retry ended d p value = with_wait_lem d p value _ _
conclude-retry refused d p value = refl
conclude-retry accepted d p value = refl
conclude-retry started d p value = refl
conclude-retry detached d p value = refl
conclude-retry output d p value = refl
conclude-retry output_closed d p value = refl
conclude-retry output_failed d p value = refl
conclude-retry end_unknown d p value = refl
conclude-retry launch_unknown d p value = refl
conclude-retry left_to_successor d p value = refl
conclude-retry (other name) d p value = refl

pub answer-retry : (d : Decoder) (p : Presented) → (answer d p).retry_safe ≡ can_retry d
unfolding answer can_retry
answer-retry d p = go d.order_fault d.terminal
  where
    go :
        (fault : Bool) (terminal : Option Value)
        → (answer_end fault terminal d p).retry_safe ≡ not fault && is_safe_end terminal
    go true terminal = refl
    go false none = refl
    go false (some value) = conclude-retry (name_of value) d p value

-- After a step from a doomed state.
abbrev pub StaysDoomed : Next → Type 0
StaysDoomed (next d) = IsDoomed d
StaysDoomed (break_with d) = can_retry d ≡ false
StaysDoomed (return_refusal stages value) = ⊥

pub if-IsDoomed :
    (b : Bool) (x y : Decoder) → IsDoomed x → IsDoomed y → IsDoomed (if b then x else y)
if-IsDoomed true x y hx hy = hx
if-IsDoomed false x y hx hy = hy

pub unexpected-IsDoomed :
    (name : StageName) (d : Decoder)
    → 1 ≤ length d.stages
    → d.terminal ≡ none
    → IsDoomed (unexpected name d)
unfolding unexpected
unexpected-IsDoomed name d one open_ended = record {
  staged = one;
  open_ended = open_ended;
  doomed = refl;
}

pub on_started-IsDoomed :
    (error : ExecError) (d : Decoder)
    → 1 ≤ length d.stages
    → d.terminal ≡ none
    → IsDoomed (on_started error d)
on_started-IsDoomed (known error) d one open_ended = record {
  staged = one;
  open_ended = open_ended;
  doomed = ground arith;
}
on_started-IsDoomed (faulty fault) d one open_ended = record {
  staged = one;
  open_ended = open_ended;
  doomed = refl;
}

on_closed-IsDoomed : (matches : Bool) (d : Decoder) → IsDoomed d → IsDoomed (on_closed matches d)
on_closed-IsDoomed true d i = record {
  staged = i.staged;
  open_ended = i.open_ended;
  doomed = i.doomed;
}
on_closed-IsDoomed false d i = record {
  staged = i.staged;
  open_ended = i.open_ended;
  doomed = i.doomed;
}

pub on_stage-IsDoomed :
    (name : StageName) (d : Decoder) (value : Value)
    → name_of value ≡ name
    → 2 ≤ length d.stages
    → d.terminal ≡ none
    → d.order_fault || d.is_started ≡ true
    → StaysDoomed (on_stage name d value)
unfolding on_stage can_retry unexpected
on_stage-IsDoomed refused d value e two open_ended h =
    let later : (length d.stages == 1) ≡ false = ground arith in rw later refl
on_stage-IsDoomed accepted d value e two open_ended h =
    let one : 1 ≤ length d.stages = omega arith in
    if-IsDoomed _ (record d { is_accepted = true }) _
      (record { staged = one; open_ended = open_ended; doomed = h })
      (unexpected-IsDoomed accepted d (omega arith) open_ended)
on_stage-IsDoomed started d value e two open_ended h =
    if-IsDoomed _ _ _ (on_started-IsDoomed _ d (omega arith) open_ended)
      (unexpected-IsDoomed started d (omega arith) open_ended)
on_stage-IsDoomed detached d value e two open_ended h =
    unexpected-IsDoomed detached d (omega arith) open_ended
on_stage-IsDoomed output d value e two open_ended h =
    unexpected-IsDoomed output d (omega arith) open_ended
on_stage-IsDoomed output_closed d value e two open_ended h =
    let one : 1 ≤ length d.stages = omega arith in
    if-IsDoomed _ _ _
      (on_closed-IsDoomed _ d (record { staged = one; open_ended = open_ended; doomed = h }))
      (unexpected-IsDoomed output_closed d (omega arith) open_ended)
on_stage-IsDoomed output_failed d value e two open_ended h =
    let one : 1 ≤ length d.stages = omega arith in
    if-IsDoomed _ (add_fault owner_output_failed (record d { output_fault = true })) _
      (record { staged = one; open_ended = open_ended; doomed = h })
      (unexpected-IsDoomed output_failed d (omega arith) open_ended)
on_stage-IsDoomed ended d value e two open_ended h = ground arith
on_stage-IsDoomed end_unknown d value e two open_ended h = ground arith
on_stage-IsDoomed launch_failed d value e two open_ended h = ground arith
on_stage-IsDoomed launch_unknown d value e two open_ended h = ground arith
on_stage-IsDoomed left_to_successor d value e two open_ended h = ground arith
on_stage-IsDoomed (other name) d value e two open_ended h =
    unexpected-IsDoomed (other name) d (omega arith) open_ended
