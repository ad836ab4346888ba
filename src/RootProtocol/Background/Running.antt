-- ===== src/RootProtocol/Background/Running.antt =====
-- When `decode_async` of src/root_v1.rs says that the work is running.
use agent_bash_tool.Common.{
  ℕ, ◌≡◌, refl, ap, ◌∙◌, ◌↔◌, inl, inr, Bool, true, false, ◌&&◌, Option, none, some, List, [], ◌∷◌,
  arith, if◌then◌else◌, is_empty, Bool-cases, both,
}
use agent_bash_tool.Common.Bytes.{codes}
use agent_bash_tool.RootProtocol.Json.{Value, at, is_text, value_eq}
use agent_bash_tool.RootProtocol.Stage.{
  Line, read_error, unparseable, event, StageName, refused, accepted, started, detached, output,
  output_closed, output_failed, ended, end_unknown, launch_failed, launch_unknown,
  left_to_successor, other, name_of, ExecError, known, faulty, started_exec_error, unexpected_stage,
}
use agent_bash_tool.RootProtocol.Background.{
  Background, nothing_read, break_with, on_stage, pushed, step, Read, all_read, refusal_read, go_on,
  read_lines, running, answer, reply_to, decode_async, with_exec_error, detached_reply, other_reply,
  safe_end, may_detach, faulted, is_accepted_first,
}

-- The work was accepted for background delivery, started without an execution error, and detached.
pub data IsRunning : List Line → Type 0 where
  in_background :
      {acceptance start detachment : Value} {rest : List Line}
      → name_of acceptance ≡ accepted
      → is_text (at acceptance (codes "delivery")) (codes "async") ≡ true
      → name_of start ≡ started
      → started_exec_error start acceptance ≡ known none
      → name_of detachment ≡ detached
      → value_eq (at detachment (codes "work")) (at acceptance (codes "work")) ≡ true
      → IsRunning (event acceptance ∷ event start ∷ event detachment ∷ rest)

abbrev is_none : Option (List ℕ) → Bool
is_none none = true
is_none (some error) = false

-- The states in which the reply says `running`.
abbrev runs : Background → Bool
runs b = b.is_detached && is_empty b.faults && is_none b.exec_error

abbrev runs_in : Read → Bool
runs_in (all_read b) = runs b
runs_in (refusal_read stages value) = false

after_acceptance : Value → Background
after_acceptance a = record nothing_read { stages = a ∷ [] }

after_start : Value → Value → Option (List ℕ) → Background
after_start a v error = record nothing_read { stages = a ∷ v ∷ []; exec_error = error }

is_none_lem : (error : Option (List ℕ)) → is_none error ≡ true → error ≡ none
is_none_lem none h = refl
is_none_lem (some error) h = absurd (ground arith)

detach_lem :
    (may : Bool) (b : Background) (rest : Background → Read)
    → b.is_detached ≡ false
    → b.faults ≡ []
    → runs_in (
        go_on rest (
          if may
          then break_with (record b { is_detached = true })
          else faulted (unexpected_stage detached) b))
      ≡ true
    → (may ≡ true) × (b.exec_error ≡ none)
detach_lem true b rest d f h = (refl, is_none_lem b.exec_error ((both _ _ h).1))
detach_lem false b rest d f h = absurd (ground arith)

third-IsRunning :
    (name : StageName) (a v w : Value) (error : Option (List ℕ)) (rest : List Line)
    → name_of a ≡ accepted
    → is_text (at a (codes "delivery")) (codes "async") ≡ true
    → name_of v ≡ started
    → started_exec_error v a ≡ known error
    → name_of w ≡ name
    → runs_in (go_on (λ b. read_lines b rest) (on_stage name (pushed w (after_start a v error)) w))
      ≡ true
    → IsRunning (event a ∷ event v ∷ event w ∷ rest)
unfolding on_stage after_start
third-IsRunning detached a v w error rest ea async ev known_error ew h =
    let done =
      detach_lem (may_detach (pushed w (after_start a v error)) w)
        (pushed w (after_start a v error)) (λ b. read_lines b rest) refl refl h in
    let same_work = (both _ _ done.0).0 in
    in_background ea async ev (known_error ∙ ap known done.1) ew same_work
third-IsRunning refused a v w error rest ea async ev known_error ew h = absurd (ground arith)
third-IsRunning accepted a v w error rest ea async ev known_error ew h = absurd (ground arith)
third-IsRunning started a v w error rest ea async ev known_error ew h = absurd (ground arith)
third-IsRunning output a v w error rest ea async ev known_error ew h = absurd (ground arith)
third-IsRunning output_closed a v w error rest ea async ev known_error ew h = absurd (ground arith)
third-IsRunning output_failed a v w error rest ea async ev known_error ew h = absurd (ground arith)
third-IsRunning ended a v w error rest ea async ev known_error ew h = absurd (ground arith)
third-IsRunning end_unknown a v w error rest ea async ev known_error ew h = absurd (ground arith)
third-IsRunning launch_failed a v w error rest ea async ev known_error ew h = absurd (ground arith)
third-IsRunning launch_unknown a v w error rest ea async ev known_error ew h = absurd (ground arith)
third-IsRunning left_to_successor a v w error rest ea async ev known_error ew h =
    absurd (ground arith)
third-IsRunning (other n) a v w error rest ea async ev known_error ew h = absurd (ground arith)

started-IsRunning :
    (a v : Value) (error : Option (List ℕ)) (rest : List Line)
    → name_of a ≡ accepted
    → is_text (at a (codes "delivery")) (codes "async") ≡ true
    → name_of v ≡ started
    → started_exec_error v a ≡ known error
    → runs_in (read_lines (after_start a v error) rest) ≡ true
    → IsRunning (event a ∷ event v ∷ rest)
unfolding read_lines step after_start
started-IsRunning a v error [] ea async ev e h = absurd (ground arith)
started-IsRunning a v error (read_error text ∷ rest) ea async ev e h = absurd (ground arith)
started-IsRunning a v error (unparseable ∷ rest) ea async ev e h = absurd (ground arith)
started-IsRunning a v error (event w ∷ rest) ea async ev e h =
    third-IsRunning (name_of w) a v w error rest ea async ev e refl h

with_exec_error-IsRunning :
    (r : ExecError) (a v : Value) (rest : List Line)
    → name_of a ≡ accepted
    → is_text (at a (codes "delivery")) (codes "async") ≡ true
    → name_of v ≡ started
    → started_exec_error v a ≡ r
    → runs_in (go_on (λ b. read_lines b rest) (with_exec_error r (pushed v (after_acceptance a))))
      ≡ true
    → IsRunning (event a ∷ event v ∷ rest)
unfolding after_acceptance after_start
with_exec_error-IsRunning (known error) a v rest ea async ev e h =
    started-IsRunning a v error rest ea async ev e h
with_exec_error-IsRunning (faulty fault) a v rest ea async ev e h = absurd (ground arith)

second-IsRunning :
    (name : StageName) (a v : Value) (rest : List Line)
    → name_of a ≡ accepted
    → is_text (at a (codes "delivery")) (codes "async") ≡ true
    → name_of v ≡ name
    → runs_in (go_on (λ b. read_lines b rest) (on_stage name (pushed v (after_acceptance a)) v))
      ≡ true
    → IsRunning (event a ∷ event v ∷ rest)
unfolding on_stage after_acceptance after_start
second-IsRunning started a v rest ea async ev h =
    with_exec_error-IsRunning (started_exec_error v a) a v rest ea async ev refl h
second-IsRunning refused a v rest ea async ev h = absurd (ground arith)
second-IsRunning accepted a v rest ea async ev h = absurd (ground arith)
second-IsRunning detached a v rest ea async ev h = absurd (ground arith)
second-IsRunning output a v rest ea async ev h = absurd (ground arith)
second-IsRunning output_closed a v rest ea async ev h = absurd (ground arith)
second-IsRunning output_failed a v rest ea async ev h = absurd (ground arith)
second-IsRunning ended a v rest ea async ev h = absurd (ground arith)
second-IsRunning end_unknown a v rest ea async ev h = absurd (ground arith)
second-IsRunning launch_failed a v rest ea async ev h = absurd (ground arith)
second-IsRunning launch_unknown a v rest ea async ev h = absurd (ground arith)
second-IsRunning left_to_successor a v rest ea async ev h = absurd (ground arith)
second-IsRunning (other n) a v rest ea async ev h = absurd (ground arith)

accepted-IsRunning :
    (a : Value) (rest : List Line)
    → name_of a ≡ accepted
    → is_text (at a (codes "delivery")) (codes "async") ≡ true
    → runs_in (read_lines (after_acceptance a) rest) ≡ true
    → IsRunning (event a ∷ rest)
unfolding read_lines step after_acceptance
accepted-IsRunning a [] ea async h = absurd (ground arith)
accepted-IsRunning a (read_error text ∷ rest) ea async h = absurd (ground arith)
accepted-IsRunning a (unparseable ∷ rest) ea async h = absurd (ground arith)
accepted-IsRunning a (event v ∷ rest) ea async h =
    second-IsRunning (name_of v) a v rest ea async refl h

first-IsRunning :
    (name : StageName) (a : Value) (rest : List Line)
    → name_of a ≡ name
    → runs_in (go_on (λ b. read_lines b rest) (on_stage name (pushed a nothing_read) a)) ≡ true
    → IsRunning (event a ∷ rest)
unfolding on_stage after_acceptance
first-IsRunning accepted a rest ea h =
    elim (Bool-cases (is_text (at a (codes "delivery")) (codes "async"))) [
      | inl async ↦ accepted-IsRunning a rest ea async (rw async at h)
      | inr other_delivery ↦ absurd (ground arith)
    ]
first-IsRunning refused a rest ea h = absurd (ground arith)
first-IsRunning started a rest ea h = absurd (ground arith)
first-IsRunning detached a rest ea h = absurd (ground arith)
first-IsRunning output a rest ea h = absurd (ground arith)
first-IsRunning output_closed a rest ea h = absurd (ground arith)
first-IsRunning output_failed a rest ea h = absurd (ground arith)
first-IsRunning ended a rest ea h = absurd (ground arith)
first-IsRunning end_unknown a rest ea h = absurd (ground arith)
first-IsRunning launch_failed a rest ea h = absurd (ground arith)
first-IsRunning launch_unknown a rest ea h = absurd (ground arith)
first-IsRunning left_to_successor a rest ea h = absurd (ground arith)
first-IsRunning (other n) a rest ea h = absurd (ground arith)

runs_in-IsRunning :
    (lines : List Line) → runs_in (read_lines nothing_read lines) ≡ true → IsRunning lines
unfolding read_lines step
runs_in-IsRunning [] h = absurd (ground arith)
runs_in-IsRunning (read_error text ∷ rest) h = absurd (ground arith)
runs_in-IsRunning (unparseable ∷ rest) h = absurd (ground arith)
runs_in-IsRunning (event value ∷ rest) h = first-IsRunning (name_of value) value rest refl h

other_reply-runs :
    (b : Background) (terminal : Option Value) → (other_reply b terminal).outcome ≡ running → ⊥
other_reply-runs b none h = elim (Bool-cases (is_accepted_first b.stages)) [
  | inl e ↦ ground arith
  | inr e ↦ ground arith
]
other_reply-runs b (some value) h = elim (Bool-cases (safe_end value)) [
  | inl e ↦ ground arith
  | inr e ↦ ground arith
]

answer-runs : (b : Background) → (answer b).outcome ≡ running → runs b ≡ true
unfolding answer
answer-runs b h = by_detached (b.is_detached && is_empty b.faults) b.exec_error h
  where
    by_error :
        (error : Option (List ℕ))
        → (detached_reply b error).outcome ≡ running
        → is_none error ≡ true
    by_error none h = refl
    by_error (some error) h = absurd (ground arith)

    by_detached :
        (done : Bool) (error : Option (List ℕ))
        → (if done then detached_reply b error else other_reply b b.terminal).outcome ≡ running
        → done && is_none error ≡ true
    by_detached true error h = by_error error h
    by_detached false error h = absurd (other_reply-runs b b.terminal h)

IsRunning-outcome : {lines : List Line} → IsRunning lines → (decode_async lines).outcome ≡ running
unfolding decode_async read_lines step on_stage answer
IsRunning-outcome (in_background ea async ev e ew same) = rw (ea, async, ev, e, ew, same) refl

reply-runs : (r : Read) → (reply_to r).outcome ≡ running → runs_in r ≡ true
reply-runs (all_read b) h = answer-runs b h
reply-runs (refusal_read stages value) h = absurd (ground arith)

-- The reply says `running` exactly when the first three lines accept the work for background
-- delivery, start it with no execution error, and detach the same work.
pub decode_async-IsRunning :
    (lines : List Line) → ((decode_async lines).outcome ≡ running) ↔ IsRunning lines
unfolding decode_async
decode_async-IsRunning lines = (
  λ h. runs_in-IsRunning lines (reply-runs (read_lines nothing_read lines) h),
  λ h. IsRunning-outcome h,
)
