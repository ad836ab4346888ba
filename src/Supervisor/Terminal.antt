-- ===== src/Supervisor/Terminal.antt =====
-- How src/supervisor.rs publishes a terminal state: what is proposed, what an accepted cancellation makes
-- of it, and the durable steps under the completion lock.
pub mod Accepted
pub mod Keeps
pub mod Recorded
mod Tests
use agent_bash_tool.Supervisor.Metadata.{
  ExitCompletionReason, RootStatus, TerminalStatus, WaitStatus, apply_cancellation_metadata,
  apply_lost_supervisor_metadata, apply_ready_sentinel_metadata, apply_supervisor_error_metadata,
  apply_terminal_metadata, cancellation, cancellation_terminal_status, ex_software, exit,
  exit_before_ready, exit_reason_text, signal_to_shell_rc, sigterm, status_to_root_status,
  terminal_status,
}
use agent_bash_tool.Common.{
  ℕ, ◌+◌, Bool, true, false, not, ◌&&◌, ◌||◌, Option, none, some, String, if◌then◌else◌,
}
use agent_bash_tool.Common.Int.{ℤ, pos}
use agent_bash_tool.Effects.{Result, Exec, pure, lift, look, commit, zoom, ◌>>=◌, ◌>>◌}
use agent_bash_tool.Meta.{Meta, touch, terminal}
use agent_bash_tool.Custody.{
  Files, durable_marker_exists, record_durable_create_once_marker, at_drained,
}
use agent_bash_tool.Transfer.{Disk, stored, Round, reconcile_completion_delivery}
use agent_bash_tool.Supervisor.Cancellation.{CancellationCause, explicit_request, completion_reason}

pub data TerminalProposal : Type 0 where
  ready_sentinel : ℕ → TerminalProposal
  exits : RootStatus → ExitCompletionReason → TerminalProposal
  cancels : CancellationCause → TerminalProposal
  supervisor_error : String → TerminalProposal
  supervisor_lost : TerminalProposal

-- `none` defers for the accepted cancellation.
abbrev pub finalize_terminal_proposal : TerminalProposal → Bool → Option TerminalProposal
finalize_terminal_proposal proposal false = some proposal
finalize_terminal_proposal (ready_sentinel now) true = none
finalize_terminal_proposal proposal true = some (cancels explicit_request)

-- The `match proposal` of the publication.
pub apply_proposal : ℕ → TerminalProposal → Meta → Meta
unfolding apply_ready_sentinel_metadata apply_terminal_metadata terminal_status
    apply_cancellation_metadata apply_supervisor_error_metadata apply_lost_supervisor_metadata
apply_proposal clock (ready_sentinel now) m = apply_ready_sentinel_metadata clock now m
apply_proposal clock (exits root_status reason) m =
    apply_terminal_metadata clock (terminal_status reason root_status) (exit_reason_text reason) m
apply_proposal clock (cancels cause) m = apply_cancellation_metadata clock cause m
apply_proposal clock (supervisor_error message) m = apply_supervisor_error_metadata clock message m
apply_proposal clock supervisor_lost m = apply_lost_supervisor_metadata clock m

-- `CompletionDeliveryDisposition`, of a live loop with whether the tree is empty.
pub data Disposition : Type 0 where
  claim_pending leave_pending : Disposition
  live_loop : Bool → Disposition

pub data PublishResult : Type 0 where
  published deferred_for_accepted_cancel : PublishResult

pub record HandleDisk : Type 0 where
  pub transfer : Disk
  pub files : Files
  -- the `rc` file
  pub rc : Option ℤ

-- What the environment answers: `lock_completion`, `continuation::enabled`, whether the source bundle is
-- there, and the sync of the output log.
pub record Surroundings : Type 0 where
  pub clock : ℕ
  pub lock : Result (Unit {0})
  pub continuation : Bool
  pub bundle : Result Bool
  pub log_synced : Result (Unit {0})

abbrev pub meta_of : HandleDisk → Meta
meta_of d = (d.transfer).meta

abbrev is_cancellation : TerminalProposal → Bool
is_cancellation (exits root_status (cancellation cause)) = true
is_cancellation (cancels cause) = true
is_cancellation _ = false

abbrev pub on_files : {A : Type 0} → Exec Files A → Exec HandleDisk A
on_files m = zoom (λ (d : HandleDisk). d.files) (λ f d. record d { files = f }) m

abbrev pub on_transfer : {A : Type 0} → Exec Disk A → Exec HandleDisk A
on_transfer m = zoom (λ (d : HandleDisk). d.transfer) (λ t d. record d { transfer = t }) m

-- The drain is recorded before a cancellation of an empty tree is published.
pub drain_first : Disposition → Bool → TerminalProposal → Exec HandleDisk (Unit {0})
drain_first (live_loop true) accepted proposal =
    if accepted || is_cancellation proposal
    then (do on_files (record_durable_create_once_marker at_drained); pure tt)
    else pure tt
drain_first _ accepted proposal = pure tt

abbrev pub or_software : Option ℤ → ℤ
or_software none = ex_software
or_software (some rc) = rc

-- `write_rc_atomic` and `write_meta_atomic`
pub write_terminal : Meta → Exec HandleDisk (Unit {0})
write_terminal m = do
  commit (λ d. record d { rc = some (or_software m.rc) })
  commit (λ d. record d { transfer = stored m d.transfer })

pub publish_final :
    Surroundings
    → Meta
    → Disposition
    → Bool
    → Option TerminalProposal
    → Exec HandleDisk PublishResult
unfolding drain_first write_terminal apply_proposal
publish_final s m disposition accepted none = pure deferred_for_accepted_cancel
publish_final s m disposition accepted (some proposal) = do
  drain_first disposition accepted proposal
  lift s.log_synced
  write_terminal (apply_proposal s.clock proposal m)
  pure published

abbrev pub still_running : Disposition → Bool
still_running (live_loop false) = true
still_running _ = false

-- A terminal record stands, unless continuation evidence is still to be published.
pub publish_unless_terminal :
    Surroundings
    → Meta
    → TerminalProposal
    → Disposition
    → Meta
    → Bool
    → Exec HandleDisk PublishResult
unfolding publish_final terminal
publish_unless_terminal s m proposal disposition current standing =
    if standing then pure published else (do
      d ← look (λ d. d)
      accepted ← lift (durable_marker_exists (d.files).accepted_cancel)
      if accepted && still_running disposition
          then pure deferred_for_accepted_cancel
          else publish_final s (record m { delivery = current.delivery }) disposition accepted
              (finalize_terminal_proposal proposal accepted))

-- `publish_terminal_with_delivery_disposition` while it holds the completion lock, for the caller's `m`.
pub publish_locked :
    Surroundings → Meta → TerminalProposal → Disposition → Exec HandleDisk PublishResult
unfolding publish_unless_terminal terminal
publish_locked s m proposal disposition = do
  lift s.lock
  current ← look meta_of
  bundle ← (if terminal current && s.continuation then lift s.bundle else pure true)
  publish_unless_terminal s m proposal disposition current (terminal current && bundle)

abbrev deliver : Round → Disposition → PublishResult → Exec HandleDisk PublishResult
deliver r claim_pending published = do on_transfer (reconcile_completion_delivery r); pure published
deliver r _ result = pure result

-- The whole of it: once the lock is released, a claimed completion is delivered.
pub publish_terminal :
    Round → Surroundings → Meta → TerminalProposal → Disposition → Exec HandleDisk PublishResult
unfolding publish_locked
publish_terminal r s m proposal disposition = do
  result ← publish_locked s m proposal disposition
  deliver r disposition result

-- `reconcile_lost_supervisor_locked`; `gone` is what the kernel says of the recorded processes.
pub reconcile_lost_supervisor :
    Round → Surroundings → (Meta → Bool) → Disposition → Bool → Exec HandleDisk (Unit {0})
unfolding publish_terminal
reconcile_lost_supervisor r s gone disposition accepted_cancel_tree_empty = do
  d ← look (λ d. d)
  if terminal (meta_of d) then (do deliver r disposition published; pure tt) else (do
    settled ←
        (if accepted_cancel_tree_empty
          then lift (durable_marker_exists (d.files).accepted_cancel)
          else pure false)
    if not settled && not (gone (meta_of d))
        then pure tt
        else (do publish_terminal r s (meta_of d) supervisor_lost disposition; pure tt))
