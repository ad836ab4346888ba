-- ===== src/Supervisor/Finish/Runs.antt =====
-- The event loop of src/supervisor.rs over time: the turns in which `maybe_finish` publishes, what the loop
-- does with the answer, `integrate_terminal_publication`, and what else moves meanwhile.
pub mod Once
use agent_bash_tool.Common.{
  ℕ, ◌≤◌, ◌≡◌, refl, sym, ap, ◌∙◌, ◌⊎◌, inl, inr, Bool, true, false, not, ◌||◌, if◌then◌else◌,
  Option, none, some, String, List, [], ◌∷◌, length, arith, Bool-cases,
}
use agent_bash_tool.Supervisor.Cancellation.{
  CancellationCause, explicit_request, with_precedence_over, with_observed_explicit_cancel, rank,
}
use agent_bash_tool.Supervisor.Metadata.{RootStatus, ExitCompletionReason, cancellation}
use agent_bash_tool.Supervisor.Terminal.{PublishResult, published, deferred_for_accepted_cancel}
use agent_bash_tool.Supervisor.Finish.{
  EventLoop, root, Finish, waits, announces, records_error, records_exit, maybe_finish,
  finish_decision, settle, exit_completion_reason,
}

abbrev merged_cause : Option CancellationCause → CancellationCause → CancellationCause
merged_cause none proposed = proposed
merged_cause (some cause) proposed = with_precedence_over cause proposed

-- `request_cancellation`, with whether an accepted cancellation is observed, up to the signals it sends.
unfoldable pub request_cancellation : Bool → CancellationCause → EventLoop → EventLoop
request_cancellation observed proposed l = record l {
  cancelled = some (merged_cause l.cancelled (with_observed_explicit_cancel proposed observed));
}

-- How the write of a phase to the root's control pipe went.
pub data ControlWrite : Type 0 where
  written would_block lost : ControlWrite

abbrev told_root : ControlWrite → EventLoop → EventLoop
told_root written l = record l { root_terminal_sent = true }
told_root would_block l = l
told_root lost l = record l { root_control = false; root_settlement_granted = true }

unfoldable pub retry_root_terminal : ControlWrite → EventLoop → EventLoop
retry_root_terminal write l =
    if not l.completion_recorded || l.root_terminal_sent
    then l
    else if l.root_control
    then told_root write l
    else l

unfoldable pub integrate_terminal_publication :
    PublishResult → ControlWrite → Bool → EventLoop → EventLoop
unfolding retry_root_terminal request_cancellation
integrate_terminal_publication published write observed l =
    retry_root_terminal write (record l { completion_recorded = true })
integrate_terminal_publication deferred_for_accepted_cancel write observed l =
    request_cancellation observed explicit_request l

-- What happens in the loop besides: anything that leaves the record and the cause of a cancellation alone, a
-- request to cancel, and the publication of a ready sentinel.
pub data Move : EventLoop → EventLoop → Type 0 where
  elsewhere :
      {l : EventLoop} (other : EventLoop)
      → Move l
          (record other { completion_recorded = l.completion_recorded; cancelled = l.cancelled })
  asks :
      {l : EventLoop} (observed : Bool) (cause : CancellationCause)
      → Move l (request_cancellation observed cause l)
  readies : {l : EventLoop} → Move l (record l { completion_recorded = true })

abbrev pub is_end : Finish → Bool
is_end (records_error message) = true
is_end (records_exit status reason) = true
is_end waits = false
is_end announces = false

-- An end that was published, in the state of the loop that published it.
pub record End : Type 0 where
  pub loop : EventLoop
  pub finish : Finish

-- A run from `start`: whether a publication was deferred to an accepted cancellation, the ends that were
-- published, the latest first, and the loop as it stands.
pub data Run (start : EventLoop) : Bool → List End → EventLoop → Type 0 where
  begins : Run start false [] start
  moves :
      {deferred : Bool} {ends : List End} {l l' : EventLoop}
      → Run start deferred ends l
      → Move l l'
      → Run start deferred ends l'
  publishes :
      {deferred : Bool} {ends : List End} {l : EventLoop} (write : ControlWrite) (observed : Bool)
      → Run start deferred ends l
      → is_end (maybe_finish l) ≡ true
      → Run start deferred
          (record { loop = l; finish = maybe_finish l } ∷ ends)
          (integrate_terminal_publication published write observed l)
  defers :
      {deferred : Bool} {ends : List End} {l : EventLoop} (write : ControlWrite) (observed : Bool)
      → Run start deferred ends l
      → is_end (maybe_finish l) ≡ true
      → Run start true ends
          (integrate_terminal_publication deferred_for_accepted_cancel write observed l)
