-- ===== src/Supervisor/Terminal/Keeps.antt =====
-- No publication takes an accepted cancellation back.
use agent_bash_tool.Common.{
  ◌≡◌, refl, ap, ◌∙◌, Bool, true, false, not, ◌&&◌, ◌||◌, Option, none, some, if◌then◌else◌,
}
use agent_bash_tool.Effects.{Exec, Result, pure, lift, look, ◌>>=◌}
use agent_bash_tool.Effects.Meets.{
  Meets, Meets-pure, Meets-lift, Meets-if, Meets-look, Meets-commit, Meets-bind, Meets-zoom,
  Meets-frame,
}
use agent_bash_tool.Meta.{Meta, terminal}
use agent_bash_tool.Custody.{
  Files, is_absent, durable_marker_exists, record_durable_create_once_marker, at_drained,
}
use agent_bash_tool.Custody.Marker.{create-Meets}
use agent_bash_tool.Transfer.{Disk, Round, reconcile_completion_delivery}
use agent_bash_tool.Supervisor.Terminal.{
  TerminalProposal, supervisor_lost, Disposition, claim_pending, leave_pending, live_loop,
  HandleDisk, Surroundings, meta_of, PublishResult, published, deferred_for_accepted_cancel,
  drain_first, is_cancellation, on_files, on_transfer, write_terminal, publish_final,
  publish_unless_terminal, publish_locked, publish_terminal, still_running, apply_proposal,
  finalize_terminal_proposal, deliver, reconcile_lost_supervisor,
}

-- The request is on record.
abbrev pub IsRequested : HandleDisk → Type 0
IsRequested d = is_absent (d.files).accepted_cancel ≡ false

-- It stays so, whatever comes of `m`.
abbrev pub Keeps : {A : Type 0} → Exec HandleDisk A → Type 0
Keeps m = Meets IsRequested IsRequested m (λ _ d. IsRequested d)

module _ {A B : Type 0} where
  bind-Keeps :
      (m : Exec HandleDisk A) (f : A → Exec HandleDisk B)
      → Keeps m
      → ((a : A) → Keeps (f a))
      → Keeps (m >>= f)
  bind-Keeps m f h k = Meets-bind (λ _ d. IsRequested d) m f h k

module _ {A : Type 0} where
  pure-Keeps : (a : A) → Keeps (pure {S = HandleDisk} a)
  pure-Keeps a = Meets-pure a (λ d h. h)

  lift-Keeps : (r : Result A) → Keeps (lift {S = HandleDisk} r)
  lift-Keeps r = Meets-lift r (λ d h. h) (λ _ _ d h. h)

  look-Keeps : (f : HandleDisk → A) → Keeps (look f)
  look-Keeps f = Meets-look f (λ d h. h) (λ d h. h)

  if-Keeps : (b : Bool) (m n : Exec HandleDisk A) → Keeps m → Keeps n → Keeps (if b then m else n)
  if-Keeps b m n h k = Meets-if b m n (λ _. h) (λ _. k)

  transfer-Keeps : (m : Exec Disk A) → Keeps (on_transfer m)
  transfer-Keeps m = Meets-frame IsRequested _ _ m (λ t s. refl)

drained-Keeps : Keeps (on_files (record_durable_create_once_marker at_drained))
drained-Keeps = Meets-zoom _ _ (record_durable_create_once_marker at_drained) λ s h.
    create-Meets noted at_drained noted (λ e f. refl) (λ f k. k) (λ e f k. k) (λ f. f ≡ s.files)
      (λ _ f. noted f) (λ f e. same s f h e) (λ f e _. same s f h e) (λ f e _. same s f h e)
      (λ f k. k.0)
  where
    noted : Files → Type 0
    noted f = is_absent f.accepted_cancel ≡ false

    same : (s : HandleDisk) (f : Files) → IsRequested s → f ≡ s.files → noted f
    same s f h e = ap (λ (x : Files). is_absent x.accepted_cancel) e ∙ h

drain_first-Keeps :
    (v : Disposition) (accepted : Bool) (p : TerminalProposal) → Keeps (drain_first v accepted p)
unfolding drain_first
drain_first-Keeps claim_pending accepted p = pure-Keeps tt
drain_first-Keeps leave_pending accepted p = pure-Keeps tt
drain_first-Keeps (live_loop false) accepted p = pure-Keeps tt
drain_first-Keeps (live_loop true) accepted p =
    if-Keeps (accepted || is_cancellation p) _ _ (bind-Keeps _ _ drained-Keeps (λ _. pure-Keeps tt))
      (pure-Keeps tt)

write-Keeps : (m : Meta) → Keeps (write_terminal m)
unfolding write_terminal
write-Keeps m =
    bind-Keeps _ _ (Meets-commit _ (λ d h. h) (λ d h. (h, h)))
      (λ _. Meets-commit _ (λ d h. h) (λ d h. (h, h)))

final-Keeps :
    (s : Surroundings) (m : Meta) (v : Disposition) (accepted : Bool) (p : Option TerminalProposal)
    → Keeps (publish_final s m v accepted p)
unfolding publish_final
final-Keeps s m v accepted none = pure-Keeps deferred_for_accepted_cancel
final-Keeps s m v accepted (some p) = bind-Keeps _ _ (drain_first-Keeps v accepted p) λ _.
    bind-Keeps _ _ (lift-Keeps s.log_synced)
      λ _. bind-Keeps _ _ (write-Keeps (apply_proposal s.clock p m)) (λ _. pure-Keeps published)

unless-Keeps :
    (s : Surroundings) (m : Meta) (p : TerminalProposal) (v : Disposition) (current : Meta)
    (standing : Bool)
    → Keeps (publish_unless_terminal s m p v current standing)
unfolding publish_unless_terminal
unless-Keeps s m p v current true = pure-Keeps published
unless-Keeps s m p v current false = bind-Keeps _ _ (look-Keeps (λ d. d)) λ d.
    bind-Keeps _ _ (lift-Keeps (durable_marker_exists (d.files).accepted_cancel)) λ accepted.
      if-Keeps (accepted && still_running v) _ _ (pure-Keeps deferred_for_accepted_cancel) (
        final-Keeps s (record m { delivery = current.delivery }) v accepted
          (finalize_terminal_proposal p accepted))

locked-Keeps :
    (s : Surroundings) (m : Meta) (p : TerminalProposal) (v : Disposition)
    → Keeps (publish_locked s m p v)
unfolding publish_locked
locked-Keeps s m p v = bind-Keeps _ _ (lift-Keeps s.lock) λ _.
    bind-Keeps _ _ (look-Keeps meta_of) λ current.
      bind-Keeps _ _
        (if-Keeps (terminal current && s.continuation) _ _ (lift-Keeps s.bundle) (pure-Keeps true))
        λ bundle. unless-Keeps s m p v current (terminal current && bundle)

deliver-Keeps : (r : Round) (v : Disposition) (result : PublishResult) → Keeps (deliver r v result)
deliver-Keeps r claim_pending published =
    bind-Keeps _ _ (transfer-Keeps (reconcile_completion_delivery r)) (λ _. pure-Keeps published)
deliver-Keeps r claim_pending deferred_for_accepted_cancel = pure-Keeps deferred_for_accepted_cancel
deliver-Keeps r leave_pending result = pure-Keeps result
deliver-Keeps r (live_loop b) result = pure-Keeps result

pub publish_terminal-Keeps :
    (r : Round) (s : Surroundings) (m : Meta) (p : TerminalProposal) (v : Disposition)
    → Keeps (publish_terminal r s m p v)
unfolding publish_terminal
publish_terminal-Keeps r s m p v = bind-Keeps _ _ (locked-Keeps s m p v) (deliver-Keeps r v)

pub reconcile_lost_supervisor-Keeps :
    (r : Round) (s : Surroundings) (gone : Meta → Bool) (v : Disposition) (empty : Bool)
    → Keeps (reconcile_lost_supervisor r s gone v empty)
unfolding reconcile_lost_supervisor
reconcile_lost_supervisor-Keeps r s gone v empty = bind-Keeps _ _ (look-Keeps (λ d. d)) λ d.
    if-Keeps (terminal (meta_of d)) _ _
      (bind-Keeps _ _ (deliver-Keeps r v published) (λ _. pure-Keeps tt))
      (bind-Keeps _ _
        (if-Keeps empty _ _ (lift-Keeps (durable_marker_exists (d.files).accepted_cancel))
          (pure-Keeps false))
        λ settled. if-Keeps (not settled && not (gone (meta_of d))) _ _ (pure-Keeps tt) (
          bind-Keeps _ _ (publish_terminal-Keeps r s (meta_of d) supervisor_lost v)
            (λ _. pure-Keeps tt)))
