-- ===== src/RootProtocol/Decode/StreamStages.antt =====
-- What the stages other than output add to the stream that `decode` of src/root_v1.rs takes in: nothing.
use agent_bash_tool.Common.{
  ℕ, ◌%◌, ◌^◌, ◌≡◌, refl, sym, ap, ◌∙◌, Bool, true, false, ◌||◌, Option, none, some, List, [], ◌∷◌,
  ◌++◌, append-nil, arith, if◌then◌else◌, length, take,
}
use agent_bash_tool.Common.Bytes.{codes}
use agent_bash_tool.RootProtocol.Json.{Value, at, as_str, as_u64}
use agent_bash_tool.RootProtocol.Stage.{
  Line, read_error, unparseable, event, StageName, refused, accepted, started, detached, output,
  output_closed, output_failed, ended, end_unknown, launch_failed, launch_unknown,
  left_to_successor, other, name_of, ExecError, known, faulty, started_exec_error, first_stage,
  owner_output_failed,
}
use agent_bash_tool.RootProtocol.Decode.{
  Decoder, Next, next, break_with, return_refusal, output_prefix_bytes, unexpected, on_started,
  on_closed, on_stage, decoded, has_count, add_fault, finish_with,
}

abbrev pub or_nothing : Option (List ℕ) → List ℕ
or_nothing none = []
or_nothing (some chunk) = chunk

-- The bytes of the output lines up to the first final stage, which `value` is or `rest` has.
abbrev pub stage_bytes : StageName → Value → List ℕ → List ℕ
stage_bytes output value rest = or_nothing (decoded (as_str (at value (codes "b64")))) ++ rest
stage_bytes refused value rest = []
stage_bytes ended value rest = []
stage_bytes end_unknown value rest = []
stage_bytes launch_failed value rest = []
stage_bytes launch_unknown value rest = []
stage_bytes left_to_successor value rest = []
stage_bytes accepted value rest = rest
stage_bytes started value rest = rest
stage_bytes detached value rest = rest
stage_bytes output_closed value rest = rest
stage_bytes output_failed value rest = rest
stage_bytes (other name) value rest = rest

unfoldable pub output_bytes : List Line → List ℕ
output_bytes [] = []
output_bytes (read_error error ∷ lines) = []
output_bytes (unparseable ∷ lines) = []
output_bytes (event value ∷ lines) = stage_bytes (name_of value) value (output_bytes lines)

-- No fault of order or of output so far.
abbrev pub IsClean : Decoder → Type 0
IsClean d = d.order_fault || d.output_fault ≡ false

-- The prefix and the counter are those of the stream.
pub record IsCounted (d : Decoder) : Type 0 where
  pub prefix : d.prefix ≡ take output_prefix_bytes d.streamed
  pub bytes : d.bytes ≡ length d.streamed % 2 ^ 64

-- A step that took in these bytes, if no fault came of it.
pub record Takes (d : Decoder) (chunk : List ℕ) (d' : Decoder) : Type 0 where
  pub kept_clean : IsClean d' → IsClean d
  pub streamed : IsClean d' → d'.streamed ≡ d.streamed ++ chunk
  pub counted_on : IsCounted d → IsCounted d'

abbrev pub StepsBy : Decoder → StageName → Value → Next → Type 0
StepsBy d name value (next d') =
    ((rest : List ℕ) → stage_bytes name value rest ≡ stage_bytes name value [] ++ rest)
    × Takes d (stage_bytes name value []) d'
StepsBy d name value (break_with d') =
    ((rest : List ℕ) → stage_bytes name value rest ≡ []) × Takes d [] d'
StepsBy d name value (return_refusal stages v) = Unit {0}

pub stays :
    (d d' : Decoder)
    → (IsClean d' → IsClean d)
    → d'.streamed ≡ d.streamed
    → d'.prefix ≡ d.prefix
    → d'.bytes ≡ d.bytes
    → Takes d [] d'
stays d d' clean same same_prefix same_bytes = record {
  kept_clean = clean;
  streamed = λ _. same ∙ sym (append-nil d.streamed);
  counted_on = λ c. record {
    prefix = same_prefix ∙ c.prefix ∙ ap (take output_prefix_bytes) (sym same);
    bytes = same_bytes ∙ c.bytes ∙ ap (λ s. length s % 2 ^ 64) (sym same);
  };
}

pub if-Takes :
    (d : Decoder) (chunk : List ℕ) (b : Bool) (x y : Decoder)
    → Takes d chunk x
    → Takes d chunk y
    → Takes d chunk (if b then x else y)
if-Takes d chunk true x y hx hy = hx
if-Takes d chunk false x y hx hy = hy

unexpected-Takes : (name : StageName) (d : Decoder) → Takes d [] (unexpected name d)
unfolding unexpected
unexpected-Takes name d = stays d (unexpected name d) (λ h. absurd (ground arith)) refl refl refl

on_started-Takes : (error : ExecError) (d : Decoder) → Takes d [] (on_started error d)
on_started-Takes (known error) d = stays d (on_started (known error) d) (λ h. h) refl refl refl
on_started-Takes (faulty fault) d =
    stays d (on_started (faulty fault) d) (λ h. absurd (ground arith)) refl refl refl

on_closed-Takes : (matches : Bool) (d : Decoder) → Takes d [] (on_closed matches d)
on_closed-Takes true d = stays d (on_closed true d) (λ h. h) refl refl refl
on_closed-Takes false d = stays d (on_closed false d) (λ h. absurd (ground arith)) refl refl refl

refused-StepsBy :
    (b : Bool) (d : Decoder) (value : Value)
    → StepsBy d refused value
        (if b then return_refusal d.stages value else break_with (unexpected refused d))
refused-StepsBy true d value = record {}
refused-StepsBy false d value = (λ rest. refl, unexpected-Takes refused d)

final-StepsBy :
    (b : Bool) (name : StageName) (d : Decoder) (value : Value)
    → ((rest : List ℕ) → stage_bytes name value rest ≡ [])
    → StepsBy d name value (if b then finish_with value d else break_with (unexpected name d))
final-StepsBy true name d value h =
    (h, stays d (record d { terminal = some value }) (λ c. c) refl refl refl)
final-StepsBy false name d value h = (h, unexpected-Takes name d)

pub output_rest :
    (value : Value) (rest : List ℕ)
    → stage_bytes output value rest ≡ stage_bytes output value [] ++ rest
output_rest value rest =
    ap (λ bytes. bytes ++ rest)
      (sym (append-nil (or_nothing (decoded (as_str (at value (codes "b64")))))))

pub on_stage-Takes :
    (name : StageName) (d : Decoder) (value : Value)
    → stage_bytes name value [] ≡ []
    → StepsBy d name value (on_stage name d value)
unfolding on_stage
on_stage-Takes accepted d value h = (
  λ rest. refl,
  if-Takes d [] _ (record d { is_accepted = true }) (unexpected accepted d)
      (stays d (record d { is_accepted = true }) (λ h. h) refl refl refl)
      (unexpected-Takes accepted d),
)
on_stage-Takes started d value h = (
  λ rest. refl,
  if-Takes d [] _ (on_started (started_exec_error value (first_stage d.stages)) d)
      (unexpected started d) (on_started-Takes _ d) (unexpected-Takes started d),
)
on_stage-Takes output_closed d value h = (
  λ rest. refl,
  if-Takes d [] _ (on_closed (has_count (as_u64 (at value (codes "bytes"))) d.bytes) d)
      (unexpected output_closed d) (on_closed-Takes _ d) (unexpected-Takes output_closed d),
)
on_stage-Takes output_failed d value h =
    let failed = add_fault owner_output_failed (record d { output_fault = true }) in
    (
      λ rest. refl,
      if-Takes d [] _ failed (unexpected output_failed d)
          (stays d failed (λ h. absurd (ground arith)) refl refl refl)
          (unexpected-Takes output_failed d),
    )
on_stage-Takes detached d value h = (λ rest. refl, unexpected-Takes detached d)
on_stage-Takes (other name) d value h = (λ rest. refl, unexpected-Takes (other name) d)
on_stage-Takes output d value h = (λ rest. output_rest value rest, rw h (unexpected-Takes output d))
on_stage-Takes refused d value h = refused-StepsBy _ d value
on_stage-Takes ended d value h = final-StepsBy _ ended d value (λ rest. refl)
on_stage-Takes end_unknown d value h = final-StepsBy _ end_unknown d value (λ rest. refl)
on_stage-Takes launch_failed d value h = final-StepsBy _ launch_failed d value (λ rest. refl)
on_stage-Takes launch_unknown d value h = final-StepsBy _ launch_unknown d value (λ rest. refl)
on_stage-Takes left_to_successor d value h =
    final-StepsBy _ left_to_successor d value (λ rest. refl)
