-- ===== src/Supervisor/Terminal/Accepted.antt =====
-- An accepted cancellation is never overruled by what the supervisor meant to publish.
use agent_bash_tool.Common.{
  ◌≡◌, ◌⊎◌, refl, sym, ◌∙◌, ap, inl, inr, Bool, true, false, ◌&&◌, Option, some, arith,
  if◌then◌else◌, ℕ, List,
}
use agent_bash_tool.Common.Int.{ℤ, pos}
use agent_bash_tool.Effects.{ok, World, Fault, Outcome, done, failed, killed, pure}
use agent_bash_tool.Effects.Meets.{
  Post, Meets, Meets-pure, Meets-lift, Meets-if, Meets-look, Meets-commit, Meets-bind, Meets-weaken,
  Meets-zoom,
}
use agent_bash_tool.Meta.{Meta, terminal}
use agent_bash_tool.Custody.{
  Files, is_absent, durable_marker_exists, record_durable_create_once_marker, at_drained,
}
use agent_bash_tool.Custody.Marker.{create-Meets}
use agent_bash_tool.Transfer.{stored}
use agent_bash_tool.Supervisor.Cancellation.{explicit_request, completion_reason}
use agent_bash_tool.Supervisor.Terminal.{
  TerminalProposal, ready_sentinel, exits, cancels, supervisor_error, supervisor_lost, Disposition,
  claim_pending, leave_pending, live_loop, HandleDisk, Surroundings, meta_of, PublishResult,
  published, deferred_for_accepted_cancel, drain_first, on_files, write_terminal, publish_final,
  publish_unless_terminal, publish_locked, still_running, apply_proposal,
  finalize_terminal_proposal,
}
use agent_bash_tool.Supervisor.Metadata.{
  apply_cancellation_metadata, apply_terminal_metadata, cancellation_terminal_status,
}

-- The record before the publication, and the request that was accepted.
abbrev Kept : Meta → HandleDisk → Type 0
Kept m d = (meta_of d ≡ m) × (durable_marker_exists (d.files).accepted_cancel ≡ ok true)

abbrev pub DrainedIf : Disposition → HandleDisk → Type 0
DrainedIf (live_loop true) d = is_absent (d.files).cancellation_drained ≡ false
DrainedIf _ d = Unit {0}

-- The record of a cancellation on request.
abbrev pub IsCancelled : Disposition → HandleDisk → Type 0
IsCancelled disposition d =
    ((meta_of d).state ≡ "DONE")
    × ((meta_of d).completion_reason ≡ some "cancel-request")
    × ((meta_of d).rc ≡ some (pos 143))
    × DrainedIf disposition d
    × (still_running disposition ≡ false)

abbrev Inv : Meta → Disposition → HandleDisk → Type 0
Inv m disposition d = Kept m d ⊎ IsCancelled disposition d

drained-Meets :
    (m : Meta) (v : Disposition)
    → Meets
        (Inv m v)
        (Kept m)
        (on_files (record_durable_create_once_marker at_drained))
        (λ _ d. Kept m d × (is_absent (d.files).cancellation_drained ≡ false))
drained-Meets m v = Meets-zoom _ _ (record_durable_create_once_marker at_drained) λ s h.
    create-Meets (λ f. Inv m v (record s { files = f })) at_drained
      (λ f. Kept m (record s { files = f })) (λ e f. refl) (λ f k. inl k) (λ e f k. k)
      (λ f. f ≡ s.files)
      (λ _ f. Kept m (record s { files = f }) × (is_absent f.cancellation_drained ≡ false))
      (λ f e. inl (same s f h e)) (λ f e _. same s f h e) (λ f e p. (same s f h e, p)) (λ f k. k)
  where
    same : (s : HandleDisk) (f : Files) → Kept m s → f ≡ s.files → Kept m (record s { files = f })
    same s f h e = (h.0, ap (λ (x : Files). durable_marker_exists x.accepted_cancel) e ∙ h.1)

drain_first-Meets :
    (m : Meta) (v : Disposition)
    → Meets
        (Inv m v)
        (Kept m)
        (drain_first v true (cancels explicit_request))
        (λ _ d. Kept m d × DrainedIf v d)
unfolding drain_first
drain_first-Meets m claim_pending = Meets-pure tt (λ d h. (h, tt))
drain_first-Meets m leave_pending = Meets-pure tt (λ d h. (h, tt))
drain_first-Meets m (live_loop false) = Meets-pure tt (λ d h. (h, tt))
drain_first-Meets m (live_loop true) =
    Meets-bind _ _ _ (drained-Meets m (live_loop true)) (λ _. Meets-pure tt (λ d h. h))

write-Meets :
    (m n : Meta) (v : Disposition) (clock : ℕ)
    → still_running v ≡ false
    → Meets
        (Inv m v)
        (λ d. Kept m d × DrainedIf v d)
        (write_terminal (apply_proposal clock (cancels explicit_request) n))
        (λ _ d. Inv m v d)
unfolding write_terminal apply_proposal apply_cancellation_metadata apply_terminal_metadata
    cancellation_terminal_status completion_reason
write-Meets m n v clock e =
    Meets-bind (λ _ d. Kept m d × DrainedIf v d) _ _
      (Meets-commit _ (λ d h. inl h.0) (λ d h. (inl h.0, (h.0, drained v d _ h.1))))
      (λ _.
        Meets-commit _ (λ d h. inl h.0)
          (λ d h.
            let cancelled = apply_proposal clock (cancels explicit_request) n in
            let c : IsCancelled v (record d { transfer = stored cancelled d.transfer }) =
              (refl, refl, refl, moved v d cancelled h.1, e) in
            (inr c, inr c)))
  where
    drained :
        (v : Disposition) (d : HandleDisk) (r : Option ℤ)
        → DrainedIf v d
        → DrainedIf v (record d { rc = r })
    drained claim_pending d r h = tt
    drained leave_pending d r h = tt
    drained (live_loop false) d r h = tt
    drained (live_loop true) d r h = h

    moved :
        (v : Disposition) (d : HandleDisk) (n : Meta)
        → DrainedIf v d
        → DrainedIf v (record d { transfer = stored n d.transfer })
    moved claim_pending d n h = tt
    moved leave_pending d n h = tt
    moved (live_loop false) d n h = tt
    moved (live_loop true) d n h = h

cancels-Meets :
    (s : Surroundings) (m n : Meta) (v : Disposition)
    → still_running v ≡ false
    → Meets
        (Inv m v)
        (Kept m)
        (publish_final s n v true (some (cancels explicit_request)))
        (λ _ d. Inv m v d)
unfolding publish_final
cancels-Meets s m n v e =
    Meets-bind (λ _ d. Kept m d × DrainedIf v d) _ _ (drain_first-Meets m v)
      λ _.
        Meets-bind (λ _ d. Kept m d × DrainedIf v d) _ _
          (Meets-lift s.log_synced (λ d h. inl h.0) (λ _ _ d h. h))
          λ _.
            Meets-bind (λ _ d. Inv m v d) _ _ (write-Meets m n v s.clock e)
              (λ _. Meets-pure published (λ d h. h))

final-Meets :
    (s : Surroundings) (m n : Meta) (p : TerminalProposal) (v : Disposition)
    → still_running v ≡ false
    → Meets
        (Inv m v)
        (Kept m)
        (publish_final s n v true (finalize_terminal_proposal p true))
        (λ _ d. Inv m v d)
unfolding publish_final
final-Meets s m n (ready_sentinel now) v e = Meets-pure deferred_for_accepted_cancel (λ d h. inl h)
final-Meets s m n (exits r x) v e = cancels-Meets s m n v e
final-Meets s m n (cancels c) v e = cancels-Meets s m n v e
final-Meets s m n (supervisor_error t) v e = cancels-Meets s m n v e
final-Meets s m n supervisor_lost v e = cancels-Meets s m n v e

after_look-Meets :
    (s : Surroundings) (m n : Meta) (p : TerminalProposal) (v : Disposition) (accepted : Bool)
    → Meets
        (Inv m v)
        (λ d. Kept m d × (accepted ≡ true))
        (if accepted && still_running v
          then pure deferred_for_accepted_cancel
          else publish_final s n v accepted (finalize_terminal_proposal p accepted))
        (λ _ d. Inv m v d)
after_look-Meets s m n p v true =
    Meets-if (still_running v) _ _ (λ _. Meets-pure deferred_for_accepted_cancel (λ d h. inl h.0))
      (λ e. Meets-weaken _ (λ d h. h.0) (final-Meets s m n p v e))
after_look-Meets s m n p v false = record { at = λ w h. absurd (ground (arith, h.1)) }

unless-Meets :
    (s : Surroundings) (m n : Meta) (p : TerminalProposal) (v : Disposition) (current : Meta)
    (standing : Bool)
    → Meets (Inv m v) (Kept m) (publish_unless_terminal s n p v current standing) (λ _ d. Inv m v d)
unfolding publish_unless_terminal
unless-Meets s m n p v current true = Meets-pure published (λ d h. inl h)
unless-Meets s m n p v current false =
    Meets-bind (λ seen d. Kept m d × (d ≡ seen)) _ _
      (Meets-look (λ d. d) (λ d h. inl h) (λ d h. (h, refl)))
      λ seen.
        Meets-bind (λ accepted d. Kept m d × (accepted ≡ true)) _ _
          (Meets-lift (durable_marker_exists (seen.files).accepted_cancel) (λ d h. inl h.0)
            (λ accepted e d h. (
              h.0,
              ok_injective accepted true (
                  sym e
                  ∙ ap (λ (x : HandleDisk). durable_marker_exists (x.files).accepted_cancel)
                      (sym h.1)
                  ∙ (h.0).1),
            )))
          (after_look-Meets s m (record n { delivery = current.delivery }) p v)
  where
    ok_injective : (a b : Bool) → ok a ≡ ok b → a ≡ b
    ok_injective a b e = cc

locked-Meets :
    (s : Surroundings) (m n : Meta) (p : TerminalProposal) (v : Disposition)
    → Meets (Inv m v) (Kept m) (publish_locked s n p v) (λ _ d. Inv m v d)
unfolding publish_locked
locked-Meets s m n p v =
    Meets-bind (λ _ d. Kept m d) _ _ (Meets-lift s.lock (λ d h. inl h) (λ _ _ d h. h))
      λ _.
        Meets-bind (λ _ d. Kept m d) _ _ (Meets-look meta_of (λ d h. inl h) (λ d h. h))
          λ current.
            Meets-bind (λ _ d. Kept m d) _ _
              (Meets-if (terminal current && s.continuation) _ _
                (λ _. Meets-lift s.bundle (λ d h. inl h) (λ _ _ d h. h))
                (λ _. Meets-pure true (λ d h. h)))
              λ bundle. unless-Meets s m n p v current (terminal current && bundle)

Post-left :
    (m : Meta) (v : Disposition) (r : Outcome PublishResult × World HandleDisk)
    → Post (Inv m v) (λ _ d. Inv m v d) r
    → Inv m v (r.1).disk
Post-left m v (done a, w) h = h
Post-left m v (failed e, w) h = h
Post-left m v (killed, w) h = h

-- Where a cancellation request is on record, whatever the supervisor proposes and whatever faults stop
-- it: the publication leaves the metadata as it was, or records the cancellation on request with code
-- 143; it does so in a live loop only if the tree is empty, and then the drain is on record first.
pub accepted_wins :
    (s : Surroundings) (m : Meta) (p : TerminalProposal) (v : Disposition) (faults : List Fault)
    (d : HandleDisk)
    → durable_marker_exists (d.files).accepted_cancel ≡ ok true
    → let e = ((publish_locked s m p v (record { disk = d; faults = faults })).1).disk in
      (meta_of e ≡ meta_of d) ⊎ IsCancelled v e
accepted_wins s m p v faults d h = either _ (
    Post-left (meta_of d) v (publish_locked s m p v (record { disk = d; faults = faults }))
      ((locked-Meets s (meta_of d) m p v).at (record { disk = d; faults = faults }) (refl, h)))
  where
    either : (x : HandleDisk) → Inv (meta_of d) v x → (meta_of x ≡ meta_of d) ⊎ IsCancelled v x
    either x (inl k) = inl k.0
    either x (inr c) = inr c
