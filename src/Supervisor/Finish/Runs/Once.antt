-- ===== src/Supervisor/Finish/Runs/Once.antt =====
-- How often the event loop of src/supervisor.rs publishes an end, and which.
use agent_bash_tool.Common.{
  ◌≡◌, refl, sym, subst, ap, ◌∙◌, ◌⊎◌, inl, inr, Bool, true, false, not, ◌||◌, if◌then◌else◌,
  Option, none, some, List, [], ◌∷◌, arith,
}
use agent_bash_tool.Supervisor.Cancellation.{
  CancellationCause, explicit_request, with_precedence_over, with_observed_explicit_cancel,
}
use agent_bash_tool.Supervisor.Metadata.{RootStatus, ExitCompletionReason, cancellation}
use agent_bash_tool.Supervisor.Terminal.{published, deferred_for_accepted_cancel}
use agent_bash_tool.Supervisor.Finish.{
  EventLoop, root, records_exit, maybe_finish, finish_decision, exit_completion_reason,
}
use agent_bash_tool.Supervisor.Finish.Settled.{IsSettled, records-IsSettled}
use agent_bash_tool.Supervisor.Finish.Runs.{
  merged_cause, request_cancellation, ControlWrite, written, would_block, lost, told_root,
  retry_root_terminal, integrate_terminal_publication, Move, elsewhere, asks, readies, is_end, End,
  Run, begins, moves, publishes, defers,
}

-- An exit was settled when it was published, and after a deferral it is the explicit cancellation, of an
-- empty tree.
pub record IsRightEnd (deferred : Bool) (e : End) : Type 0 where
  pub settled :
      (status : RootStatus) (reason : ExitCompletionReason)
      → e.finish ≡ records_exit status reason
      → IsSettled e.loop status reason
  pub cancelled :
      (status : RootStatus) (reason : ExitCompletionReason)
      → deferred ≡ true
      → e.finish ≡ records_exit status reason
      → (reason ≡ cancellation explicit_request) × ((e.loop).tree_empty ≡ true)

-- No end was published, or one, which stands.
pub data IsOnce (deferred : Bool) : List End → EventLoop → Type 0 where
  none_yet : {l : EventLoop} → IsOnce deferred [] l
  one_end :
      {l : EventLoop} {e : End}
      → l.completion_recorded ≡ true
      → IsRightEnd deferred e
      → IsOnce deferred (e ∷ []) l

abbrev AsksExplicit : Bool → EventLoop → Type 0
AsksExplicit deferred l = deferred ≡ true → l.cancelled ≡ some explicit_request

explicit_wins :
    (observed : Bool) (cause : CancellationCause)
    → with_precedence_over explicit_request (with_observed_explicit_cancel cause observed)
      ≡ explicit_request
unfolding with_precedence_over with_observed_explicit_cancel
explicit_wins observed cause = ground arith

wins_explicit :
    (observed : Bool) (before : Option CancellationCause)
    → merged_cause before (with_observed_explicit_cancel explicit_request observed)
      ≡ explicit_request
unfolding with_precedence_over with_observed_explicit_cancel
wins_explicit true none = refl
wins_explicit false none = refl
wins_explicit observed (some cause) = ground arith

asked_still :
    (observed : Bool) (cause : CancellationCause) (l : EventLoop)
    → l.cancelled ≡ some explicit_request
    → (request_cancellation observed cause l).cancelled ≡ some explicit_request
unfolding request_cancellation
asked_still observed cause l h =
    ap (λ c. some (merged_cause c (with_observed_explicit_cancel cause observed))) h
    ∙ ap some (explicit_wins observed cause)

told_root-recorded :
    (w : ControlWrite) (l : EventLoop) → (told_root w l).completion_recorded ≡ l.completion_recorded
told_root-recorded written l = refl
told_root-recorded would_block l = refl
told_root-recorded lost l = refl

told_root-cancelled : (w : ControlWrite) (l : EventLoop) → (told_root w l).cancelled ≡ l.cancelled
told_root-cancelled written l = refl
told_root-cancelled would_block l = refl
told_root-cancelled lost l = refl

if_same :
    {A : Type 0} (f : EventLoop → A) (test : Bool) (x y : EventLoop) (a : A)
    → f x ≡ a
    → f y ≡ a
    → f (if test then x else y) ≡ a
if_same f true x y a hx hy = hx
if_same f false x y a hx hy = hy

retried_keeps :
    {A : Type 0} (f : EventLoop → A) (w : ControlWrite) (l : EventLoop)
    → f (told_root w l) ≡ f l
    → f (retry_root_terminal w l) ≡ f l
unfolding retry_root_terminal
retried_keeps f w l told =
    if_same f (not l.completion_recorded || l.root_terminal_sent) l _ (f l) refl
      (if_same f l.root_control (told_root w l) l (f l) told refl)

unrecorded : (l : EventLoop) → is_end (maybe_finish l) ≡ true → l.completion_recorded ≡ false
unfolding maybe_finish finish_decision
unrecorded l h = ground arith

-- Where no end could have been published yet.
before_end :
    (deferred : Bool) (ends : List End) (l : EventLoop)
    → IsOnce deferred ends l
    → l.completion_recorded ≡ false
    → ends ≡ []
before_end deferred _ l none_yet u = refl
before_end deferred _ l (one_end r e) u = absurd (ground arith)

published_end :
    (deferred : Bool) (l : EventLoop)
    → AsksExplicit deferred l
    → IsRightEnd deferred (record { loop = l; finish = maybe_finish l })
unfolding exit_completion_reason
published_end deferred l asked = record {
  settled = λ status reason h. records-IsSettled l status reason h;
  cancelled = λ status reason d h.
      let s = records-IsSettled l status reason h in
      let c = asked d in (s.2 ∙ by_cause l c, empty_tree l c s.6);
}
  where
    by_cause :
        (l : EventLoop)
        → l.cancelled ≡ some explicit_request
        → exit_completion_reason l ≡ cancellation explicit_request
    by_cause l c = rw c refl

    empty_tree :
        (l : EventLoop)
        → l.cancelled ≡ some explicit_request
        → (l.tree_empty ≡ true) ⊎ ((l.completion_scope ≡ root) × (l.cancelled ≡ none))
        → l.tree_empty ≡ true
    empty_tree l c (inl e) = e
    empty_tree l c (inr (r, n)) = absurd (ground arith)

moved-IsOnce :
    {deferred : Bool} {ends : List End} {l l' : EventLoop}
    → IsOnce deferred ends l
    → Move l l'
    → IsOnce deferred ends l'
unfolding request_cancellation
moved-IsOnce none_yet m = none_yet
moved-IsOnce (one_end r e) (elsewhere other) = one_end r e
moved-IsOnce (one_end r e) (asks observed cause) = one_end r e
moved-IsOnce (one_end r e) readies = one_end refl e

moved-AsksExplicit :
    {deferred : Bool} {l l' : EventLoop}
    → AsksExplicit deferred l
    → Move l l'
    → AsksExplicit deferred l'
moved-AsksExplicit asked (elsewhere other) d = asked d
moved-AsksExplicit {l} asked (asks observed cause) d = asked_still observed cause l (asked d)
moved-AsksExplicit asked readies d = asked d

record IsOrderly (deferred : Bool) (ends : List End) (l : EventLoop) : Type 0 where
  once : IsOnce deferred ends l
  asked : AsksExplicit deferred l

published-IsOrderly :
    (deferred : Bool) (ends : List End) (l : EventLoop) (write : ControlWrite) (observed : Bool)
    → IsOrderly deferred ends l
    → ends ≡ []
    → IsOrderly deferred
        (record { loop = l; finish = maybe_finish l } ∷ ends)
        (integrate_terminal_publication published write observed l)
unfolding integrate_terminal_publication
published-IsOrderly deferred ends l write observed o e =
    let after : EventLoop = record l { completion_recorded = true } in
    record {
      once =
          subst
            (λ (es : List End).
              IsOnce deferred (record { loop = l; finish = maybe_finish l } ∷ es)
                (retry_root_terminal write after))
            (sym e)
            (one_end
              (retried_keeps (λ x. x.completion_recorded) write after
                (told_root-recorded write after))
              (published_end deferred l o.asked));
      asked = λ d.
          retried_keeps (λ x. x.cancelled) write after (told_root-cancelled write after)
          ∙ o.asked d;
    }

deferred-IsOrderly :
    (deferred : Bool) (ends : List End) (l : EventLoop) (write : ControlWrite) (observed : Bool)
    → ends ≡ []
    → IsOrderly true ends
        (integrate_terminal_publication deferred_for_accepted_cancel write observed l)
unfolding integrate_terminal_publication request_cancellation
deferred-IsOrderly deferred ends l write observed e = record {
  once =
      subst
        (λ (es : List End).
          IsOnce true es
            (integrate_terminal_publication deferred_for_accepted_cancel write observed l))
        (sym e) none_yet;
  asked = λ d. ap some (wins_explicit observed l.cancelled);
}

Run-IsOrderly :
    {start l : EventLoop} {deferred : Bool} {ends : List End}
    → Run start deferred ends l
    → IsOrderly deferred ends l
Run-IsOrderly begins = record { once = none_yet; asked = λ d. absurd (ground arith) }
Run-IsOrderly (moves run m) =
    let o = Run-IsOrderly run in
    record { once = moved-IsOnce o.once m; asked = moved-AsksExplicit o.asked m }
Run-IsOrderly (publishes {deferred} {ends} {l} write observed run h) =
    let o = Run-IsOrderly run in
    published-IsOrderly deferred ends l write observed o
      (before_end deferred ends l o.once (unrecorded l h))
Run-IsOrderly (defers {deferred} {ends} {l} write observed run h) =
    let o = Run-IsOrderly run in
    deferred-IsOrderly deferred ends l write observed
      (before_end deferred ends l o.once (unrecorded l h))

-- However the turns in which the loop publishes an end or is deferred to an accepted cancellation mix with its
-- other moves, none of which takes back the record of a completion or the cause of a cancellation: it publishes
-- at most one end, which stays recorded; an exit is published with the root's status, all output closed, the
-- settlement granted and no capture error, and after a deferral as the explicit cancellation of an empty tree.
pub Run-IsOnce :
    (start l : EventLoop) (deferred : Bool) (ends : List End)
    → Run start deferred ends l
    → IsOnce deferred ends l
Run-IsOnce start l deferred ends run = (Run-IsOrderly run).once
