-- ===== src/RootProtocol/Decode/Doomed.antt =====
-- That a state of `decode` of src/root_v1.rs in which something may have started never gives a reply that is
-- safe to retry.
use agent_bash_tool.Common.{
  ℕ, zero, suc, ◌+◌, ◌%◌, ◌^◌, ◌≤◌, ◌≡◌, refl, ap, true, false, Option, none, some, List, [], ◌∷◌,
  ◌++◌, arith, length, length-append,
}
use agent_bash_tool.Common.Bytes.{codes}
use agent_bash_tool.RootProtocol.Json.{Value, at, as_str}
use agent_bash_tool.RootProtocol.Stage.{
  Line, read_error, unparseable, event, StageName, refused, accepted, started, detached, output,
  output_closed, output_failed, ended, end_unknown, launch_failed, launch_unknown,
  left_to_successor, other, name_of, output_after_closure, output_before_started,
  output_invalid_or_missing_base64,
}
use agent_bash_tool.RootProtocol.Decode.{
  Decoder, Next, next, break_with, return_refusal, on_output, take_chunk, add_fault, counted,
  pushed, decoded, go_on, set_at, output_mark, output_stage_of, show_count, with_output_stage,
  keep_chunk, on_event, step, Read, all_read, refusal_read, read_lines,
}
use agent_bash_tool.RootProtocol.Decode.DoomedStages.{
  IsDoomed, can_retry, StaysDoomed, if-IsDoomed, on_stage-IsDoomed,
}

take_chunk-IsDoomed :
    (chunk : Option (List ℕ)) (d : Decoder) → IsDoomed d → IsDoomed (take_chunk chunk d)
unfolding take_chunk
take_chunk-IsDoomed none d i =
    if-IsDoomed _ (add_fault output_invalid_or_missing_base64 (record d { output_fault = true }))
      (add_fault output_before_started (record d { order_fault = true }))
      (record { staged = i.staged; open_ended = i.open_ended; doomed = i.doomed })
      (record { staged = i.staged; open_ended = i.open_ended; doomed = refl })
take_chunk-IsDoomed (some chunk) d i =
    if-IsDoomed _ _ (add_fault output_before_started (record d { order_fault = true }))
      (if-IsDoomed _ (add_fault output_after_closure (record d { output_fault = true }))
        (keep_chunk chunk d)
        (record { staged = i.staged; open_ended = i.open_ended; doomed = i.doomed })
        (record { staged = i.staged; open_ended = i.open_ended; doomed = i.doomed }))
      (record { staged = i.staged; open_ended = i.open_ended; doomed = refl })

pub grows :
    (stages : List Value) (value : Value) → 1 ≤ length stages → 2 ≤ length (stages ++ (value ∷ []))
grows stages value h = omega (arith, length-append stages (value ∷ []))

with_output_stage-IsDoomed :
    (index : Option ℕ) (d : Decoder) → IsDoomed d → IsDoomed (with_output_stage index d)
with_output_stage-IsDoomed none d i =
    let more = grows d.stages output_mark i.staged in
    record { staged = omega arith; open_ended = i.open_ended; doomed = i.doomed }
with_output_stage-IsDoomed (some index) d i = i

length-set_at :
    (n : ℕ) (value : Value) (stages : List Value) → length (set_at n value stages) ≡ length stages
length-set_at n value [] = refl
length-set_at zero value (s ∷ stages) = refl
length-set_at (suc n) value (s ∷ stages) = ap suc (length-set_at n value stages)

show_count-IsDoomed : (index : Option ℕ) (d : Decoder) → IsDoomed d → IsDoomed (show_count index d)
show_count-IsDoomed none d i = i
show_count-IsDoomed (some index) d i = record {
  staged = rw (length-set_at index (output_stage_of d.chunks d.bytes) d.stages) i.staged;
  open_ended = i.open_ended;
  doomed = i.doomed;
}

on_output-IsDoomed : (d : Decoder) (value : Value) → IsDoomed d → IsDoomed (on_output d value)
unfolding on_output
on_output-IsDoomed d value i =
    let chunk = decoded (as_str (at value (codes "b64"))) in
    let taken = take_chunk-IsDoomed chunk (counted d) (
      with_output_stage-IsDoomed d.output_stage (record d { chunks = (d.chunks + 1) % 2 ^ 64 })
        (record { staged = i.staged; open_ended = i.open_ended; doomed = i.doomed })) in
    let after = take_chunk chunk (counted d) in show_count-IsDoomed after.output_stage after taken

take_chunk-unstarted :
    (chunk : Option (List ℕ)) (d : Decoder)
    → d.is_started ≡ false
    → 1 ≤ length d.stages
    → d.terminal ≡ none
    → IsDoomed (take_chunk chunk d)
unfolding take_chunk
take_chunk-unstarted none d h one open_ended =
    rw h record { staged = one; open_ended = open_ended; doomed = refl }
take_chunk-unstarted (some bytes) d h one open_ended =
    rw h record { staged = one; open_ended = open_ended; doomed = refl }

-- Output before the start is out of order.
pub on_output-unstarted :
    (d : Decoder) (value : Value)
    → d.is_started ≡ false
    → d.output_stage ≡ none
    → d.terminal ≡ none
    → IsDoomed (on_output d value)
unfolding on_output
on_output-unstarted d value h fresh open_ended =
    let chunk = decoded (as_str (at value (codes "b64"))) in
    let marked =
      with_output_stage none (record d { output_stage = none; chunks = (d.chunks + 1) % 2 ^ 64 }) in
    let one : 1 ≤ length marked.stages = omega (arith, length-append d.stages (output_mark ∷ [])) in
    rw fresh (
      show_count-IsDoomed (take_chunk chunk marked).output_stage (take_chunk chunk marked)
        (take_chunk-unstarted chunk marked h one open_ended))

on_event-IsDoomed :
    (name : StageName) (d : Decoder) (value : Value)
    → name_of value ≡ name
    → IsDoomed d
    → StaysDoomed (on_event name d value)
unfolding on_event
on_event-IsDoomed output d value e i = on_output-IsDoomed d value i
on_event-IsDoomed refused d value e i =
    on_stage-IsDoomed refused (pushed value d) value e (grows d.stages value i.staged) i.open_ended
      i.doomed
on_event-IsDoomed accepted d value e i =
    on_stage-IsDoomed accepted (pushed value d) value e (grows d.stages value i.staged) i.open_ended
      i.doomed
on_event-IsDoomed started d value e i =
    on_stage-IsDoomed started (pushed value d) value e (grows d.stages value i.staged) i.open_ended
      i.doomed
on_event-IsDoomed detached d value e i =
    on_stage-IsDoomed detached (pushed value d) value e (grows d.stages value i.staged) i.open_ended
      i.doomed
on_event-IsDoomed output_closed d value e i =
    on_stage-IsDoomed output_closed (pushed value d) value e (grows d.stages value i.staged)
      i.open_ended i.doomed
on_event-IsDoomed output_failed d value e i =
    on_stage-IsDoomed output_failed (pushed value d) value e (grows d.stages value i.staged)
      i.open_ended i.doomed
on_event-IsDoomed ended d value e i =
    on_stage-IsDoomed ended (pushed value d) value e (grows d.stages value i.staged) i.open_ended
      i.doomed
on_event-IsDoomed end_unknown d value e i =
    on_stage-IsDoomed end_unknown (pushed value d) value e (grows d.stages value i.staged)
      i.open_ended i.doomed
on_event-IsDoomed launch_failed d value e i =
    on_stage-IsDoomed launch_failed (pushed value d) value e (grows d.stages value i.staged)
      i.open_ended i.doomed
on_event-IsDoomed launch_unknown d value e i =
    on_stage-IsDoomed launch_unknown (pushed value d) value e (grows d.stages value i.staged)
      i.open_ended i.doomed
on_event-IsDoomed left_to_successor d value e i =
    on_stage-IsDoomed left_to_successor (pushed value d) value e (grows d.stages value i.staged)
      i.open_ended i.doomed
on_event-IsDoomed (other name) d value e i =
    on_stage-IsDoomed (other name) (pushed value d) value e (grows d.stages value i.staged)
      i.open_ended i.doomed

pub step-IsDoomed : (d : Decoder) (line : Line) → IsDoomed d → StaysDoomed (step d line)
unfolding step can_retry
step-IsDoomed d (read_error error) i = let open_ended = i.open_ended in rw open_ended (ground arith)
step-IsDoomed d unparseable i = refl
step-IsDoomed d (event value) i = on_event-IsDoomed (name_of value) d value refl i

abbrev pub CannotRetry : Read → Type 0
CannotRetry (all_read d) = can_retry d ≡ false
CannotRetry (refusal_read stages value) = ⊥

pub go_on-CannotRetry :
    (rest : Decoder → Read)
    → ((d : Decoder) → IsDoomed d → CannotRetry (rest d))
    → (n : Next) → StaysDoomed n
    → CannotRetry (go_on rest n)
unfolding can_retry
go_on-CannotRetry rest doom (next d) h = doom d h
go_on-CannotRetry rest doom (break_with d) h = h
go_on-CannotRetry rest doom (return_refusal stages value) h = h

pub read_lines-IsDoomed :
    (d : Decoder) (lines : List Line) → IsDoomed d → CannotRetry (read_lines d lines)
unfolding read_lines can_retry
read_lines-IsDoomed d [] i = let open_ended = i.open_ended in rw open_ended (ground arith)
read_lines-IsDoomed d (line ∷ lines) i =
    go_on-CannotRetry (λ d'. read_lines d' lines) (λ d' h. read_lines-IsDoomed d' lines h)
      (step d line) (step-IsDoomed d line i)
