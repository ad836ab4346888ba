-- ===== src/RootProtocol/Decode/Stream.antt =====
-- What `decode` of src/root_v1.rs presents of the command's output.
use agent_bash_tool.Common.{
  ℕ, ◌+◌, ◌-◌, ◌%◌, ◌^◌, ◌≡◌, refl, min, true, Option, none, some, List, [], ◌++◌, append-nil,
  arith, if◌then◌else◌, length, take, length-append, take-append, take-min, length-take,
}
use agent_bash_tool.Common.Bytes.{codes}
use agent_bash_tool.RootProtocol.Json.{Value, at, as_str}
use agent_bash_tool.RootProtocol.Stage.{
  StageName, refused, accepted, started, detached, output, output_closed, output_failed, ended,
  end_unknown, launch_failed, launch_unknown, left_to_successor, other,
  output_invalid_or_missing_base64, output_before_started, output_after_closure,
}
use agent_bash_tool.RootProtocol.Decode.{
  Decoder, Next, next, break_with, return_refusal, output_prefix_bytes, on_output, take_chunk,
  keep_chunk, on_event, decoded, counted, pushed, with_output_stage, show_count, add_fault,
}
use agent_bash_tool.RootProtocol.Decode.StreamStages.{
  or_nothing, IsClean, Takes, StepsBy, stays, if-Takes, output_rest, on_stage-Takes,
}

prefix-grown :
    (n : ℕ) (prefix stream chunk : List ℕ)
    → prefix ≡ take n stream
    → prefix ++ take (min (length chunk) (n - length prefix)) chunk ≡ take n (stream ++ chunk)
prefix-grown n prefix stream chunk h =
    let room : n - length (take n stream) ≡ n - length stream =
      omega (arith, length-take n stream) in
    rw (take-append n stream chunk, take-min (n - length prefix) chunk, h, room) refl

keep_chunk-Takes : (chunk : List ℕ) (d : Decoder) → Takes d chunk (keep_chunk chunk d)
keep_chunk-Takes chunk d = record {
  kept_clean = λ h. h;
  streamed = λ _. refl;
  counted_on = λ c. record {
    prefix = prefix-grown output_prefix_bytes d.prefix d.streamed chunk c.prefix;
    bytes = let bytes = c.bytes in omega (arith, length-append d.streamed chunk);
  };
}

-- A fault spoils the stream: nothing is said of it from here on.
spoils :
    (d : Decoder) (chunk : List ℕ) (d' : Decoder)
    → (IsClean d' → ⊥)
    → d'.streamed ≡ d.streamed
    → d'.prefix ≡ d.prefix
    → d'.bytes ≡ d.bytes
    → Takes d chunk d'
spoils d chunk d' spoilt same same_prefix same_bytes =
    let unchanged = stays d d' (λ h. absurd (spoilt h)) same same_prefix same_bytes in
    record {
      kept_clean = λ h. absurd (spoilt h);
      streamed = λ h. absurd (spoilt h);
      counted_on = unchanged.counted_on;
    }

take_chunk-Takes :
    (chunk : Option (List ℕ)) (d : Decoder) → Takes d (or_nothing chunk) (take_chunk chunk d)
unfolding take_chunk
take_chunk-Takes none d =
    let invalid = add_fault output_invalid_or_missing_base64 (record d { output_fault = true }) in
    let early = add_fault output_before_started (record d { order_fault = true }) in
    if-Takes d [] d.is_started invalid early
      (spoils d [] invalid (λ h. ground arith) refl refl refl)
      (spoils d [] early (λ h. ground arith) refl refl refl)
take_chunk-Takes (some chunk) d =
    let late = add_fault output_after_closure (record d { output_fault = true }) in
    let early = add_fault output_before_started (record d { order_fault = true }) in
    if-Takes d chunk d.is_started (if d.closed then late else keep_chunk chunk d) early
      (if-Takes d chunk d.closed late (keep_chunk chunk d)
        (spoils d chunk late (λ h. ground arith) refl refl refl) (keep_chunk-Takes chunk d))
      (spoils d chunk early (λ h. ground arith) refl refl refl)

show_count-Takes :
    (index : Option ℕ) (d : Decoder) (chunk : List ℕ) (d' : Decoder)
    → Takes d chunk d'
    → Takes d chunk (show_count index d')
show_count-Takes none d chunk d' t = t
show_count-Takes (some index) d chunk d' t = record {
  kept_clean = t.kept_clean;
  streamed = t.streamed;
  counted_on = λ c. let on = t.counted_on c in record { prefix = on.prefix; bytes = on.bytes };
}

with_output_stage-Takes :
    (index : Option ℕ) (d : Decoder) (chunk : List ℕ) (d' : Decoder)
    → Takes (with_output_stage index (record d { chunks = (d.chunks + 1) % 2 ^ 64 })) chunk d'
    → Takes d chunk d'
with_output_stage-Takes none d chunk d' t = record {
  kept_clean = t.kept_clean;
  streamed = t.streamed;
  counted_on = λ c. t.counted_on (record { prefix = c.prefix; bytes = c.bytes });
}
with_output_stage-Takes (some index) d chunk d' t = record {
  kept_clean = t.kept_clean;
  streamed = t.streamed;
  counted_on = λ c. t.counted_on (record { prefix = c.prefix; bytes = c.bytes });
}

on_output-Takes :
    (d : Decoder) (value : Value)
    → Takes d (or_nothing (decoded (as_str (at value (codes "b64"))))) (on_output d value)
unfolding on_output
on_output-Takes d value =
    let chunk = decoded (as_str (at value (codes "b64"))) in
    let after = take_chunk chunk (counted d) in
    show_count-Takes after.output_stage d (or_nothing chunk) after (
      with_output_stage-Takes d.output_stage d (or_nothing chunk) after
        (take_chunk-Takes chunk (counted d)))

-- From `pushed value d`, which differs from `d` in the stages only.
pushed-StepsBy :
    (d : Decoder) (name : StageName) (value : Value) (n : Next)
    → StepsBy (pushed value d) name value n
    → StepsBy d name value n
pushed-StepsBy d name value (next d') (rest, t) = (
  rest,
  record {
    kept_clean = t.kept_clean;
    streamed = t.streamed;
    counted_on = λ c. t.counted_on (record { prefix = c.prefix; bytes = c.bytes });
  },
)
pushed-StepsBy d name value (break_with d') (rest, t) = (
  rest,
  record {
    kept_clean = t.kept_clean;
    streamed = t.streamed;
    counted_on = λ c. t.counted_on (record { prefix = c.prefix; bytes = c.bytes });
  },
)
pushed-StepsBy d name value (return_refusal stages v) t = t

pub on_event-StepsBy :
    (name : StageName) (d : Decoder) (value : Value) → StepsBy d name value (on_event name d value)
unfolding on_event
on_event-StepsBy output d value = (
  λ rest. output_rest value rest,
  rw (append-nil (or_nothing (decoded (as_str (at value (codes "b64"))))))
      (on_output-Takes d value),
)
on_event-StepsBy refused d value =
    pushed-StepsBy d refused value _ (on_stage-Takes refused (pushed value d) value refl)
on_event-StepsBy accepted d value =
    pushed-StepsBy d accepted value _ (on_stage-Takes accepted (pushed value d) value refl)
on_event-StepsBy started d value =
    pushed-StepsBy d started value _ (on_stage-Takes started (pushed value d) value refl)
on_event-StepsBy detached d value =
    pushed-StepsBy d detached value _ (on_stage-Takes detached (pushed value d) value refl)
on_event-StepsBy output_closed d value =
    pushed-StepsBy d output_closed value _
      (on_stage-Takes output_closed (pushed value d) value refl)
on_event-StepsBy output_failed d value =
    pushed-StepsBy d output_failed value _
      (on_stage-Takes output_failed (pushed value d) value refl)
on_event-StepsBy ended d value =
    pushed-StepsBy d ended value _ (on_stage-Takes ended (pushed value d) value refl)
on_event-StepsBy end_unknown d value =
    pushed-StepsBy d end_unknown value _ (on_stage-Takes end_unknown (pushed value d) value refl)
on_event-StepsBy launch_failed d value =
    pushed-StepsBy d launch_failed value _
      (on_stage-Takes launch_failed (pushed value d) value refl)
on_event-StepsBy launch_unknown d value =
    pushed-StepsBy d launch_unknown value _
      (on_stage-Takes launch_unknown (pushed value d) value refl)
on_event-StepsBy left_to_successor d value =
    pushed-StepsBy d left_to_successor value _
      (on_stage-Takes left_to_successor (pushed value d) value refl)
on_event-StepsBy (other n) d value =
    pushed-StepsBy d (other n) value _ (on_stage-Takes (other n) (pushed value d) value refl)
