-- ===== src/RootProtocol/Tests.antt =====
-- Runs of the code of RootProtocol at concrete answers.
use agent_bash_tool.Common.{
  ℕ, String, ◌≡◌, refl, ◌↔◌, true, Option, none, some, List, [], ◌∷◌, ◌++◌, ◌≤◌, ◌<◌, arith,
}
use agent_bash_tool.Common.Int.{pos}
use agent_bash_tool.Common.Bytes.{codes, split}
use agent_bash_tool.Common.Decimal.{
  parse_signed, parse_unsigned, read_digits, print_signed, print_unsigned, digits,
}
use agent_bash_tool.RootProtocol.Json.{
  Value, bool, int, str, array, nothing, object, empty, field, Fields, value_eq,
}
use agent_bash_tool.RootProtocol.Base64.{
  base64, unbase64, decode_quads, if_canonical, symbol, position,
}
use agent_bash_tool.RootProtocol.Base64.RoundTrip.{unbase64-base64}
use agent_bash_tool.RootProtocol.Reference.{
  Identity, parse_identity, print_identity, valid_record, wait_status,
}
use agent_bash_tool.RootProtocol.Reference.Printed.{IsUsable, parse_identity-IsUsable}
use agent_bash_tool.RootProtocol.Stage.{Line, event, name_of, started_exec_error}
use agent_bash_tool.RootProtocol.Decode.{
  read_lines, step, on_event, on_stage, on_output, take_chunk,
}
use agent_bash_tool.RootProtocol.Decode.Reply.{
  decode, answer, presented, conclude, shown_of, complete,
}
use agent_bash_tool.RootProtocol.Decode.RetrySafe.{NothingStarted, decode-NothingStarted}
use agent_bash_tool.RootProtocol.Decode.StreamStages.{output_bytes}
use agent_bash_tool.RootProtocol.Decode.Whole.{Presents, decode-Presents}
use agent_bash_tool.RootProtocol.Background.{decode_async, running}
use agent_bash_tool.RootProtocol.Background.Running.{IsRunning, decode_async-IsRunning}
use agent_bash_tool.RootProtocol.Retained.{Owner, retained, target, check_reply}
use agent_bash_tool.RootProtocol.Retained.Range.{IsRange, retained-IsRange}

-- `base64(b"Man")` and `base64(b"Ma")`
encode_three : base64 (codes "Man") ≡ codes "TWFu"
unfolding base64 symbol
encode_three = refl

encode_two : base64 (codes "Ma") ≡ codes "TWE="
unfolding base64 symbol
encode_two = refl

-- Another spelling of the same bytes is refused.
not_canonical : unbase64 (codes "TWF=") ≡ none
unfolding unbase64 decode_quads if_canonical base64 symbol position
not_canonical = refl

unbase64-base64_example :
    (unbase64 (codes "TWFu") ≡ some (codes "Man")) ↔ (base64 (codes "Man") ≡ codes "TWFu")
unbase64-base64_example =
    unbase64-base64 (codes "TWFu") (codes "Man")
      (omega arith, (omega arith, (omega arith, record {})))

abbrev hash : List ℕ
hash = codes "0123456789abcdef0123456789abcdef0123456789abcdef0123456789abcdef"

abbrev sample_identity : Identity
sample_identity = record { root = codes "root-1"; work = pos 7; bytes = 3; hash = hash }

reads_identity : parse_identity (codes "rv1o:root-1:7:3:" ++ hash) ≡ some sample_identity
unfolding parse_identity split parse_signed parse_unsigned read_digits print_identity print_signed
    print_unsigned digits
reads_identity = refl

leading_zero : parse_identity (codes "rv1o:root-1:07:3:" ++ hash) ≡ none
unfolding parse_identity split parse_signed parse_unsigned read_digits print_identity print_signed
    print_unsigned digits
leading_zero = refl

parse_identity-IsUsable_example :
    (parse_identity (codes "rv1o:root-1:7:3:" ++ hash) ≡ some sample_identity) ↔ (
      IsUsable sample_identity
      × (print_identity sample_identity ≡ codes "rv1o:root-1:7:3:" ++ hash))
parse_identity-IsUsable_example =
    parse_identity-IsUsable (codes "rv1o:root-1:7:3:" ++ hash) sample_identity

abbrev stage : String → Fields → Value
stage name fields = object (field (codes "event") (str (codes name)) fields)

abbrev acceptance : Value
acceptance = stage "accepted" (
    field (codes "delivery") (str (codes "async"))
      (field (codes "root_id") (str (codes "root-1")) (field (codes "work") (int (pos 7)) empty)))

abbrev failure : Value
failure = stage "launch-failed" (field (codes "not_started") (bool true) empty)

abbrev failed_lines : List Line
failed_lines = event acceptance ∷ event failure ∷ []

abbrev no_cut : List ℕ → Option ℕ
no_cut bytes = none

abbrev no_digest : List ℕ → List ℕ
no_digest bytes = []

decode-NothingStarted_example :
    ((decode no_cut no_digest failed_lines).retry_safe ≡ true) ↔ NothingStarted failed_lines
decode-NothingStarted_example = decode-NothingStarted no_cut no_digest failed_lines

abbrev ended_lines : List Line
ended_lines =
    event acceptance
    ∷ event (stage "started" empty)
    ∷ event (stage "output" (field (codes "b64") (str (codes "TWFu")) empty))
    ∷ event (stage "output-closed" (field (codes "bytes") (int (pos 3)) empty))
    ∷ event (
        stage "end" (
          field (codes "status") (str (codes "code:0")) (
            field (codes "observer") (str (codes "work-pid1-wait")) (
              field (codes "output")
                (object (
                  field (codes "state") (str (codes "closed"))
                    (field (codes "bytes") (int (pos 3)) empty)))
                empty))))
    ∷ []

ended_whole : (decode no_cut no_digest ended_lines).output_of.delivery ≡ complete
unfolding decode read_lines step on_event on_stage on_output take_chunk name_of started_exec_error
    answer presented conclude shown_of wait_status parse_signed read_digits unbase64 decode_quads
    if_canonical base64 symbol position
ended_whole = refl

decode-Presents_example :
    Presents (decode no_cut no_digest ended_lines).output_of (output_bytes ended_lines)
unfolding decode read_lines step on_event on_stage on_output take_chunk name_of started_exec_error
    answer presented conclude shown_of wait_status parse_signed read_digits unbase64 decode_quads
    if_canonical base64 symbol position output_bytes
decode-Presents_example = decode-Presents no_cut no_digest ended_lines (omega arith) refl

abbrev running_lines : List Line
running_lines =
    event acceptance
    ∷ event (stage "started" empty)
    ∷ event (stage "detached" (field (codes "work") (int (pos 7)) empty))
    ∷ []

decode_async-IsRunning_example :
    ((decode_async running_lines).outcome ≡ running) ↔ IsRunning running_lines
decode_async-IsRunning_example = decode_async-IsRunning running_lines

abbrev kept_record : Value
kept_record = object (
    field (codes "identity") (str (codes "rv1o:root-1:7:3:" ++ hash)) (
      field (codes "root_id") (str (codes "root-1")) (
        field (codes "work") (int (pos 7)) (
          field (codes "bytes") (int (pos 3)) (
            field (codes "sha256") (str hash) (
              field (codes "state") (str (codes "complete"))
                (field (codes "losses") (array nothing) empty)))))))

-- The owner's answer to a read of 10 bytes from the second one on.
abbrev range_reply : Value
range_reply = stage "output-range" (
    field (codes "retained") kept_record (
      field (codes "b64") (str (codes "YW4=")) (
        field (codes "offset") (int (pos 1)) (
          field (codes "length") (int (pos 2))
            (field (codes "next_offset") (int (pos 3)) (field (codes "eof") (bool true) empty))))))

abbrev sample_owner : Owner
sample_owner = some (λ request. some range_reply)

retained-IsRange_example : (0 < 10) × (10 ≤ 262144) × IsRange 1 10 range_reply
unfolding retained target check_reply parse_identity split parse_signed parse_unsigned read_digits
    print_identity print_signed print_unsigned digits valid_record unbase64 decode_quads
    if_canonical base64 symbol position value_eq
retained-IsRange_example =
    retained-IsRange sample_owner (codes "rv1o:root-1:7:3:" ++ hash) 1 10 range_reply refl
