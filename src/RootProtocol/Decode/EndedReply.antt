-- ===== src/RootProtocol/Decode/EndedReply.antt =====
-- The replies of `decode` of src/root_v1.rs about a run that ended.
use agent_bash_tool.Common.{
  ℕ, ◌-◌, ◌≡◌, refl, ap, ◌∙◌, Bool, true, false, not, ◌&&◌, Option, none, some, List, [], ◌∷◌, ◌++◌,
  append_assoc, arith, length,
}
use agent_bash_tool.RootProtocol.Json.{Value}
use agent_bash_tool.RootProtocol.Reference.{Wait}
use agent_bash_tool.RootProtocol.Stage.{
  Line, read_error, unparseable, event, StageName, refused, accepted, started, detached, output,
  output_closed, output_failed, ended, end_unknown, launch_failed, launch_unknown,
  left_to_successor, other, name_of,
}
use agent_bash_tool.RootProtocol.Decode.{
  Decoder, Next, next, break_with, return_refusal, Read, all_read, refusal_read, read_lines, go_on,
  on_event, step,
}
use agent_bash_tool.RootProtocol.Decode.StreamStages.{
  Takes, StepsBy, stage_bytes, output_bytes, stays,
}
use agent_bash_tool.RootProtocol.Decode.Stream.{on_event-StepsBy}
use agent_bash_tool.RootProtocol.Decode.Reply.{
  Reply, Delivery, complete, Presented, answer, answer_end, conclude, present, with_wait,
  end_outcome, end_delivery, has_ended,
}

unfoldable pub ReadTakes : Decoder → List ℕ → Read → Type 0
ReadTakes d bytes (all_read d') = Takes d bytes d'
ReadTakes d bytes (refusal_read stages value) = Unit {0}

joins :
    (d d' d'' : Decoder) (xs ys : List ℕ) → Takes d xs d' → Takes d' ys d'' → Takes d (xs ++ ys) d''
joins d d' d'' xs ys first second = record {
  kept_clean = λ h. first.kept_clean (second.kept_clean h);
  streamed = λ h.
      second.streamed h
      ∙ ap (λ s. s ++ ys) (first.streamed (second.kept_clean h))
      ∙ append_assoc d.streamed xs ys;
  counted_on = λ c. second.counted_on (first.counted_on c);
}

go_on-ReadTakes :
    (d : Decoder) (name : StageName) (value : Value) (bytes : List ℕ) (rest : Decoder → Read)
    (n : Next)
    → ((d' : Decoder) → ReadTakes d' bytes (rest d'))
    → StepsBy d name value n
    → ReadTakes d (stage_bytes name value bytes) (go_on rest n)
unfolding ReadTakes
go_on-ReadTakes d name value bytes rest (next d') h (split, taken) =
    rw (split bytes) (by_rest (rest d') (h d'))
  where
    by_rest : (r : Read) → ReadTakes d' bytes r → ReadTakes d (stage_bytes name value [] ++ bytes) r
    by_rest (all_read d'') t = joins d d' d'' _ bytes taken t
    by_rest (refusal_read stages v) t = t
go_on-ReadTakes d name value bytes rest (break_with d') h (split, taken) = rw (split bytes) taken
go_on-ReadTakes d name value bytes rest (return_refusal stages v) h t = t

pub read_lines-ReadTakes :
    (d : Decoder) (lines : List Line) → ReadTakes d (output_bytes lines) (read_lines d lines)
unfolding read_lines output_bytes ReadTakes step
read_lines-ReadTakes d [] = stays d d (λ h. h) refl refl refl
read_lines-ReadTakes d (read_error error ∷ lines) = stays d _ (λ h. h) refl refl refl
read_lines-ReadTakes d (unparseable ∷ lines) = stays d _ (λ h. absurd (ground arith)) refl refl refl
read_lines-ReadTakes d (event value ∷ lines) =
    go_on-ReadTakes d (name_of value) value (output_bytes lines) (λ d'. read_lines d' lines)
      (on_event (name_of value) d value) (λ d'. read_lines-ReadTakes d' lines)
      (on_event-StepsBy (name_of value) d value)

-- A reply about a run that ended, from a loop that ended in `d`.
pub record EndedIn (d : Decoder) (p : Presented) (r : Reply) : Type 0 where
  pub ordered : d.order_fault ≡ false
  pub flawless : d.output_fault ≡ false
  pub delivery : Delivery
  pub output : r.output_of ≡ present d p delivery
  pub whole : delivery ≡ complete → d.bytes - length p.shown ≡ 0

end_delivery_lem : (done : Bool) (omitted : ℕ) → end_delivery done omitted ≡ complete → omitted ≡ 0
end_delivery_lem true omitted h = ground arith
end_delivery_lem false omitted h = absurd (ground arith)

end_outcome_lem :
    (fault none_found : Bool) → end_outcome (not fault && none_found) ≡ has_ended → fault ≡ false
end_outcome_lem true none_found h = absurd (ground arith)
end_outcome_lem false none_found h = refl

with_wait-EndedIn :
    (d : Decoder) (p : Presented) (value : Value) (observed : Bool) (exit_wait : Option Wait)
    → d.order_fault ≡ false
    → (with_wait d p value observed exit_wait).outcome ≡ has_ended
    → EndedIn d p (with_wait d p value observed exit_wait)
with_wait-EndedIn d p value observed none o h = absurd (ground arith)
with_wait-EndedIn d p value false (some w) o h = absurd (ground arith)
with_wait-EndedIn d p value true (some w) o h = record {
  ordered = o;
  flawless = end_outcome_lem d.output_fault _ h;
  delivery = _;
  output = refl;
  whole = end_delivery_lem _ (d.bytes - length p.shown);
}

conclude-EndedIn :
    (name : StageName) (d : Decoder) (p : Presented) (value : Value)
    → d.order_fault ≡ false
    → (conclude name d p value).outcome ≡ has_ended
    → EndedIn d p (conclude name d p value)
unfolding conclude
conclude-EndedIn ended d p value o h = with_wait-EndedIn d p value _ _ o h
conclude-EndedIn launch_failed d p value o h = absurd (ground arith)
conclude-EndedIn refused d p value o h = absurd (ground arith)
conclude-EndedIn accepted d p value o h = absurd (ground arith)
conclude-EndedIn started d p value o h = absurd (ground arith)
conclude-EndedIn detached d p value o h = absurd (ground arith)
conclude-EndedIn output d p value o h = absurd (ground arith)
conclude-EndedIn output_closed d p value o h = absurd (ground arith)
conclude-EndedIn output_failed d p value o h = absurd (ground arith)
conclude-EndedIn end_unknown d p value o h = absurd (ground arith)
conclude-EndedIn launch_unknown d p value o h = absurd (ground arith)
conclude-EndedIn left_to_successor d p value o h = absurd (ground arith)
conclude-EndedIn (other n) d p value o h = absurd (ground arith)

pub answer-EndedIn :
    (d : Decoder) (p : Presented) → (answer d p).outcome ≡ has_ended → EndedIn d p (answer d p)
unfolding answer
answer-EndedIn d p h = by_end d.order_fault refl d.terminal h
  where
    by_end :
        (fault : Bool)
        → d.order_fault ≡ fault
        → (terminal : Option Value) → (answer_end fault terminal d p).outcome ≡ has_ended
        → EndedIn d p (answer_end fault terminal d p)
    by_end true e terminal h = absurd (ground arith)
    by_end false e none h = absurd (ground arith)
    by_end false e (some value) h = conclude-EndedIn (name_of value) d p value e h
