-- ===== src/RootProtocol/Decode/RetrySafe.antt =====
-- When `decode` of src/root_v1.rs says that the run may be retried.
use agent_bash_tool.Common.{
  ℕ, ◌≡◌, refl, sym, ◌∙◌, ◌↔◌, inl, inr, Bool, true, false, Option, List, [], ◌∷◌, arith,
  Bool-cases, both, ◌≢◌,
}
use agent_bash_tool.Common.Bytes.{codes}
use agent_bash_tool.RootProtocol.Json.{Value, at, is_true}
use agent_bash_tool.RootProtocol.Stage.{
  Line, read_error, unparseable, event, StageName, refused, accepted, started, detached, output,
  output_closed, output_failed, ended, end_unknown, launch_failed, launch_unknown,
  left_to_successor, other, name_of,
}
use agent_bash_tool.RootProtocol.Decode.{
  start, Next, on_stage, go_on, on_event, step, Read, all_read, refusal_read, read_lines,
}
use agent_bash_tool.RootProtocol.Decode.DoomedStages.{
  is_launch_failure, can_retry, answer-retry, StaysDoomed,
}
use agent_bash_tool.RootProtocol.Decode.Doomed.{CannotRetry, go_on-CannotRetry, read_lines-IsDoomed}
use agent_bash_tool.RootProtocol.Decode.Openings.{
  accepted_start, second-StaysDoomed, first-StaysDoomed,
}
use agent_bash_tool.RootProtocol.Decode.Reply.{reply_to, decode}

-- A refusal before anything else, or a launch that failed, with the owner's word that nothing
-- started, directly after the acceptance.
pub data NothingStarted : List Line → Type 0 where
  refused_first :
      {value : Value} {rest : List Line}
      → name_of value ≡ refused
      → NothingStarted (event value ∷ rest)
  failed_to_launch :
      {acceptance failure : Value} {rest : List Line}
      → name_of acceptance ≡ accepted
      → name_of failure ≡ launch_failed
      → is_true (at failure (codes "not_started")) ≡ true
      → NothingStarted (event acceptance ∷ event failure ∷ rest)

retryable : Read → Bool
unfolding can_retry
retryable (all_read d) = can_retry d
retryable (refusal_read stages value) = true

CannotRetry-retryable : (r : Read) → CannotRetry r → retryable r ≡ false
unfolding retryable can_retry
CannotRetry-retryable (all_read d) h = h
CannotRetry-retryable (refusal_read stages value) h = absurd h

module _ (utf8_cut : List ℕ → Option ℕ) (sha256 : List ℕ → List ℕ) where
  decode-retryable :
      (lines : List Line)
      → (decode utf8_cut sha256 lines).retry_safe ≡ retryable (read_lines start lines)
  unfolding decode retryable
  decode-retryable lines = by_read (read_lines start lines)
    where
      by_read : (r : Read) → (reply_to utf8_cut sha256 r).retry_safe ≡ retryable r
      by_read (all_read d) = answer-retry d _
      by_read (refusal_read stages value) = refl

contradiction : {A : Type 0} {b : Bool} → b ≡ true → b ≡ false → A
contradiction h h' = absurd (ground arith)

doomed-go_on :
    (n : Next) (rest : List Line)
    → StaysDoomed n
    → retryable (go_on (λ d. read_lines d rest) n) ≡ false
doomed-go_on n rest h =
    CannotRetry-retryable _
      (go_on-CannotRetry (λ d. read_lines d rest) (λ d i. read_lines-IsDoomed d rest i) n h)

launch_failure_lem : (name : StageName) → is_launch_failure name ≡ true → name ≡ launch_failed
launch_failure_lem launch_failed h = refl
launch_failure_lem refused h = absurd (ground arith)
launch_failure_lem accepted h = absurd (ground arith)
launch_failure_lem started h = absurd (ground arith)
launch_failure_lem detached h = absurd (ground arith)
launch_failure_lem output h = absurd (ground arith)
launch_failure_lem output_closed h = absurd (ground arith)
launch_failure_lem output_failed h = absurd (ground arith)
launch_failure_lem ended h = absurd (ground arith)
launch_failure_lem end_unknown h = absurd (ground arith)
launch_failure_lem launch_unknown h = absurd (ground arith)
launch_failure_lem left_to_successor h = absurd (ground arith)
launch_failure_lem (other n) h = absurd (ground arith)

failure-NothingStarted :
    (acceptance value : Value) (rest : List Line)
    → name_of acceptance ≡ accepted
    → name_of value ≡ launch_failed
    → retryable
        (go_on (λ d. read_lines d rest) (on_event launch_failed (accepted_start acceptance) value))
      ≡ true
    → NothingStarted (event acceptance ∷ event value ∷ rest)
unfolding retryable on_event on_stage accepted_start can_retry
failure-NothingStarted acceptance value rest ea ev h =
    failed_to_launch ea ev
      ((both (is_launch_failure (name_of value)) (is_true (at value (codes "not_started"))) h).1)

second-NothingStarted :
    (name : StageName) (acceptance value : Value) (rest : List Line)
    → name_of acceptance ≡ accepted
    → name_of value ≡ name
    → retryable (go_on (λ d. read_lines d rest) (on_event name (accepted_start acceptance) value))
      ≡ true
    → NothingStarted (event acceptance ∷ event value ∷ rest)
second-NothingStarted name acceptance value rest ea ev h =
    elim (Bool-cases (is_launch_failure name)) [
      | inl failure ↦
          let named = launch_failure_lem name failure in
          failure-NothingStarted acceptance value rest ea (ev ∙ named) (rw named at h)
      | inr other_name ↦
          contradiction h
            (doomed-go_on _ rest (second-StaysDoomed name acceptance value ev other_name))
    ]

after_acceptance :
    (value : Value) (rest : List Line)
    → name_of value ≡ accepted
    → retryable (read_lines (accepted_start value) rest) ≡ true
    → NothingStarted (event value ∷ rest)
unfolding read_lines step retryable can_retry accepted_start
after_acceptance value [] e h = absurd (ground arith)
after_acceptance value (read_error error ∷ rest) e h = absurd (ground arith)
after_acceptance value (unparseable ∷ rest) e h = absurd (ground arith)
after_acceptance value (event second ∷ rest) e h =
    second-NothingStarted (name_of second) value second rest e refl h

wrong_opening :
    (name : StageName) (value : Value) (rest : List Line)
    → (name ≢ refused)
    → (name ≢ accepted)
    → retryable (go_on (λ d. read_lines d rest) (on_event name start value)) ≡ true
    → NothingStarted (event value ∷ rest)
wrong_opening name value rest r a h =
    contradiction h
      (doomed-go_on (on_event name start value) rest (first-StaysDoomed name value r a))

first-NothingStarted :
    (name : StageName) (value : Value) (rest : List Line)
    → name_of value ≡ name
    → retryable (go_on (λ d. read_lines d rest) (on_event name start value)) ≡ true
    → NothingStarted (event value ∷ rest)
unfolding on_event on_stage accepted_start
first-NothingStarted refused value rest e h = refused_first e
first-NothingStarted accepted value rest e h = after_acceptance value rest e h
first-NothingStarted started value rest e h =
    wrong_opening started value rest (ground arith) (ground arith) h
first-NothingStarted detached value rest e h =
    wrong_opening detached value rest (ground arith) (ground arith) h
first-NothingStarted output value rest e h =
    wrong_opening output value rest (ground arith) (ground arith) h
first-NothingStarted output_closed value rest e h =
    wrong_opening output_closed value rest (ground arith) (ground arith) h
first-NothingStarted output_failed value rest e h =
    wrong_opening output_failed value rest (ground arith) (ground arith) h
first-NothingStarted ended value rest e h =
    wrong_opening ended value rest (ground arith) (ground arith) h
first-NothingStarted end_unknown value rest e h =
    wrong_opening end_unknown value rest (ground arith) (ground arith) h
first-NothingStarted launch_failed value rest e h =
    wrong_opening launch_failed value rest (ground arith) (ground arith) h
first-NothingStarted launch_unknown value rest e h =
    wrong_opening launch_unknown value rest (ground arith) (ground arith) h
first-NothingStarted left_to_successor value rest e h =
    wrong_opening left_to_successor value rest (ground arith) (ground arith) h
first-NothingStarted (other n) value rest e h =
    wrong_opening (other n) value rest (ground arith) (ground arith) h

retryable-NothingStarted :
    (lines : List Line) → retryable (read_lines start lines) ≡ true → NothingStarted lines
unfolding read_lines step retryable can_retry
retryable-NothingStarted [] h = absurd (ground arith)
retryable-NothingStarted (read_error error ∷ rest) h = absurd (ground arith)
retryable-NothingStarted (unparseable ∷ rest) h = absurd (ground arith)
retryable-NothingStarted (event value ∷ rest) h =
    first-NothingStarted (name_of value) value rest refl h

NothingStarted-retryable :
    {lines : List Line} → NothingStarted lines → retryable (read_lines start lines) ≡ true
unfolding read_lines step on_event on_stage retryable can_retry
NothingStarted-retryable (refused_first e) = rw e refl
NothingStarted-retryable (failed_to_launch ea ev h) = rw (ea, ev, h, ev) refl

-- The reply is safe to retry exactly when the owner refused in the first line, or accepted in it and
-- said in the second that the launch failed and nothing started.
pub decode-NothingStarted :
    (utf8_cut : List ℕ → Option ℕ) (sha256 : List ℕ → List ℕ) (lines : List Line)
    → ((decode utf8_cut sha256 lines).retry_safe ≡ true) ↔ NothingStarted lines
decode-NothingStarted utf8_cut sha256 lines = (
  λ h. retryable-NothingStarted lines (sym (decode-retryable utf8_cut sha256 lines) ∙ h),
  λ h. decode-retryable utf8_cut sha256 lines ∙ NothingStarted-retryable h,
)
