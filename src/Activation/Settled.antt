-- ===== src/Activation/Settled.antt =====
-- What is left when an activation is settled.
use agent_bash_tool.Common.{
  ◌≡◌, ◌⊎◌, refl, ◌∙◌, ap, inl, inr, Bool, true, false, String, List, [], ℕ,
}
use agent_bash_tool.Effects.{
  Fault, World, Outcome, done, failed, killed, ok, Exec, pure, lift, look, commit, ◌>>=◌,
}
use agent_bash_tool.Effects.Meets.{
  Post, Meets, Meets-pure, Meets-lift, Meets-if, Meets-look, Meets-commit, Meets-bind, Meets-const,
}
use agent_bash_tool.Meta.{DeliveryMode, sync, async}
use agent_bash_tool.Activation.{
  ActivationDisk, ActivationTransferOutcome, unclaimed, claimed_without_outcome, pending, succeeded,
  pre_admission_failed, failed_with, transfer_outcome_unknown, transfer_outcome, outcome_of, Detach,
  write_outcome, write_mode, same_mode, repair_delivery_mode_mirror, roll_back, settle_outcome,
  settle_orphaned_activation, require_settled, require_settled_activation,
}
use agent_bash_tool.Activation.Attempt.{
  run_worker, activate, retry_uncertain_activation, detach_async, detach_sync, detach,
}

abbrev Anything : ActivationDisk → Type 0
Anything d = Unit {0}

-- Nothing was attempted, or it succeeded.
abbrev pub IsSettled : (String → String) → ActivationDisk → Type 0
IsSettled trim d = (outcome_of trim d ≡ unclaimed) ⊎ (outcome_of trim d ≡ succeeded)

settled_of :
    (o : ActivationTransferOutcome) (u : Unit {0})
    → require_settled o ≡ ok u
    → (o ≡ unclaimed) ⊎ (o ≡ succeeded)
unfolding require_settled
settled_of unclaimed u h = inl refl
settled_of succeeded u h = inr refl
settled_of claimed_without_outcome u h = absurd (cc)
settled_of pending u h = absurd (cc)
settled_of (pre_admission_failed e) u h = absurd (cc)
settled_of (failed_with e) u h = absurd (cc)
settled_of transfer_outcome_unknown u h = absurd (cc)

require-Meets :
    (trim : String → String)
    → Meets Anything Anything (require_settled_activation trim) (λ _ d. IsSettled trim d)
unfolding require_settled_activation
require-Meets trim =
    Meets-bind (λ o d. outcome_of trim d ≡ o) _ _
      (Meets-look (outcome_of trim) (λ d h. tt) (λ d h. refl))
      λ o.
        Meets-lift (require_settled o) (λ d h. tt)
          λ u e d h. elim (settled_of o u e) [ inl a ↦ inl (h ∙ a) | inr a ↦ inr (h ∙ a) ]

mirror-Meets :
    (trim : String → String) (clock : ℕ) (mode : DeliveryMode)
    → Meets Anything
        (IsSettled trim)
        (repair_delivery_mode_mirror clock mode)
        (λ _ d. IsSettled trim d)
unfolding repair_delivery_mode_mirror
mirror-Meets trim clock mode =
    Meets-bind (λ _ d. IsSettled trim d) _ _ (Meets-look _ (λ d h. tt) (λ d h. h))
      λ m.
        Meets-if (same_mode m.delivery_mode mode) _ _ (λ _. Meets-pure m (λ d h. h))
          λ _.
            Meets-bind (λ _ d. IsSettled trim d) _ _ (Meets-commit _ (λ d h. tt) (λ d h. (tt, h)))
              (λ _. Meets-pure _ (λ d h. h))

anyhow : {A : Type 0} (m : Exec ActivationDisk A) → Meets Anything Anything m (λ _. Anything)
anyhow m = Meets-const (Unit {0}) m tt

async-Meets : (q : Detach) → Meets Anything Anything (detach_async q) (λ _ d. IsSettled q.trim d)
unfolding detach_async
async-Meets q =
    Meets-bind (λ _. Anything) _ _ (anyhow (retry_uncertain_activation q))
      λ _.
        Meets-bind (λ _ d. IsSettled q.trim d) _ _ (require-Meets q.trim)
          λ _.
            Meets-bind (λ _ d. IsSettled q.trim d) _ _ (mirror-Meets q.trim q.clock async)
              (λ _. Meets-pure tt (λ d h. h))

sync-Meets : (q : Detach) → Meets Anything Anything (detach_sync q) (λ _ d. IsSettled q.trim d)
unfolding detach_sync
sync-Meets q =
    Meets-bind (λ _. Anything) _ _ (anyhow (lift q.request))
      λ _.
        Meets-bind (λ _. Anything) _ _ (anyhow (run_worker q (activate q)))
          λ status.
            Meets-bind (λ _. Anything) _ _ (anyhow (settle_orphaned_activation q.trim q.clock))
              λ _.
                Meets-bind (λ _ d. IsSettled q.trim d) _ _ (require-Meets q.trim)
                  (λ _. Meets-lift status (λ d h. tt) (λ _ _ d h. h))

detach-Meets : (q : Detach) → Meets Anything Anything (detach q) (λ _ d. IsSettled q.trim d)
unfolding detach
detach-Meets q =
    Meets-bind (λ _. Anything) _ _ (anyhow (settle_orphaned_activation q.trim q.clock))
      λ _.
        Meets-bind (λ _. Anything) _ _ (Meets-look _ (λ d h. tt) (λ d h. tt))
          λ mode. Meets-if (same_mode mode async) _ _ (λ _. async-Meets q) (λ _. sync-Meets q)

Post-IsSettled :
    (trim : String → String) (r : Outcome (Unit {0}) × World ActivationDisk)
    → Post Anything (λ _ d. IsSettled trim d) r
    → r.0 ≡ done tt
    → IsSettled trim (r.1).disk
Post-IsSettled trim (done u, w) h e = h
Post-IsSettled trim (failed x, w) h e = absurd (cc)
Post-IsSettled trim (killed, w) h e = absurd (cc)

-- Whatever the helpers answer and whatever faults hit the caller or its worker: where `detach` reports
-- success, the activation on record has succeeded, or none is claimed.
pub detach_settles :
    (q : Detach) (faults : List Fault) (d : ActivationDisk)
    → (detach q (record { disk = d; faults = faults })).0 ≡ done tt
    → IsSettled q.trim ((detach q (record { disk = d; faults = faults })).1).disk
detach_settles q faults d =
    Post-IsSettled q.trim (detach q (record { disk = d; faults = faults }))
      ((detach-Meets q).at (record { disk = d; faults = faults }) tt)

-- The outcomes of an attempt whose owner is gone before it was admitted, or in the middle of it.
abbrev pub is_orphan : ActivationTransferOutcome → Bool
is_orphan claimed_without_outcome = true
is_orphan (pre_admission_failed error) = true
is_orphan pending = true
is_orphan _ = false

abbrev pub calm : ActivationDisk → World ActivationDisk
calm d = record { disk = d; faults = [] }

roll_back_clears :
    (trim : String → String) (clock : ℕ) (d : ActivationDisk)
    → let r = roll_back clock (calm d) in
      (r.0 ≡ done tt) × (is_orphan (outcome_of trim (r.1).disk) ≡ false)
unfolding roll_back write_mode repair_delivery_mode_mirror transfer_outcome pure look commit ◌>>=◌
roll_back_clears trim clock d = by_mode d.meta.delivery_mode refl
  where
    by_mode :
        (v : DeliveryMode)
        → d.meta.delivery_mode ≡ v
        → let r = roll_back clock (calm d) in
          (r.0 ≡ done tt) × (is_orphan (outcome_of trim (r.1).disk) ≡ false)
    by_mode sync e = rw e (refl, refl)
    by_mode async e = rw e (refl, refl)

settle_clears :
    (trim : String → String) (clock : ℕ) (d : ActivationDisk) (o : ActivationTransferOutcome)
    → outcome_of trim d ≡ o
    → let r = settle_outcome clock o (calm d) in
      (r.0 ≡ done tt) × (is_orphan (outcome_of trim (r.1).disk) ≡ false)
unfolding settle_outcome write_outcome pure commit transfer_outcome
settle_clears trim clock d claimed_without_outcome e = roll_back_clears trim clock d
settle_clears trim clock d (pre_admission_failed x) e = roll_back_clears trim clock d
settle_clears trim clock d pending e = (refl, refl)
settle_clears trim clock d unclaimed e = (refl, ap is_orphan e)
settle_clears trim clock d succeeded e = (refl, ap is_orphan e)
settle_clears trim clock d (failed_with x) e = (refl, ap is_orphan e)
settle_clears trim clock d transfer_outcome_unknown e = (refl, ap is_orphan e)

-- When no file operation fails, settling succeeds and leaves no attempt claimed without an outcome, none
-- pending, and none that failed before its admission.
pub settle_leaves_no_orphan :
    (trim : String → String) (clock : ℕ) (d : ActivationDisk)
    → let r = settle_orphaned_activation trim clock (calm d) in
      (r.0 ≡ done tt) × (is_orphan (outcome_of trim (r.1).disk) ≡ false)
unfolding settle_orphaned_activation look ◌>>=◌
settle_leaves_no_orphan trim clock d = settle_clears trim clock d (outcome_of trim d) refl
