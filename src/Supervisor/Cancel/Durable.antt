-- ===== src/Supervisor/Cancel/Durable.antt =====
-- A cancellation is reported as requested only once it is durable.
use agent_bash_tool.Common.{◌≡◌, refl, ap, ◌∙◌, Bool, true, false, List, arith}
use agent_bash_tool.Effects.{Fault, World, Outcome, done, failed, killed, Exec, pure}
use agent_bash_tool.Effects.Meets.{
  Post, Meets, Meets-pure, Meets-lift, Meets-if, Meets-look, Meets-bind, Meets-attempt, Meets-zoom,
  Meets-weaken, Meets-const,
}
use agent_bash_tool.Meta.{terminal}
use agent_bash_tool.Custody.{
  Files, at_accepted, record_durable_create_once_marker, accept_terminal_custody_cancel,
}
use agent_bash_tool.Custody.Admission.{explicit-Meets, accept-Recorded}
use agent_bash_tool.Supervisor.Terminal.{HandleDisk, meta_of, on_files, claim_pending}
use agent_bash_tool.Supervisor.Terminal.Keeps.{IsRequested, Keeps, reconcile_lost_supervisor-Keeps}
use agent_bash_tool.Supervisor.Cancel.{
  CancelOutcome, was_not_requested, WakeResult, delivered, no_process, undelivered, Request,
  terminal_outcome, request_terminal_cancel, reconcile, woken_outcome, lost_outcome,
  with_supervisor, request_cancel,
}

abbrev Anything : HandleDisk → Type 0
Anything d = Unit {0}

abbrev pub Told : CancelOutcome → HandleDisk → Type 0
Told outcome d = outcome.requested ≡ true → IsRequested d

abbrev Tells : Exec HandleDisk CancelOutcome → Type 0
Tells m = Meets Anything Anything m Told

anyhow : {A : Type 0} (m : Exec HandleDisk A) → Meets Anything Anything m (λ _. Anything)
anyhow m = Meets-const (Unit {0}) m tt

untold-Told : (d : HandleDisk) → Told was_not_requested d
untold-Told d e = ground arith

files-Told :
    {A : Type 0} (m : Exec Files A) (Q : A → Files → Type 0)
    → Meets (λ _. Unit {0}) (λ _. Unit {0}) m Q
    → Meets Anything Anything (on_files m) (λ a d. Q a d.files)
files-Told m Q h = Meets-zoom _ _ m (λ s p. Meets-weaken m (λ d e. tt) h)

outcome-Told :
    (b : Bool) → Meets Anything (λ d. b ≡ true → IsRequested d) (pure (terminal_outcome b)) Told
unfolding terminal_outcome
outcome-Told true = Meets-pure _ (λ d h e. h refl)
outcome-Told false = Meets-pure _ (λ d h. untold-Told d)

terminal-Told : (q : Request) → Tells (request_terminal_cancel q)
unfolding request_terminal_cancel
terminal-Told q =
    Meets-bind (λ b d. b ≡ true → IsRequested d) _ _
      (files-Told (accept_terminal_custody_cancel q.custody_lock q.boot) _
        (accept-Recorded q.custody_lock q.boot))
      outcome-Told

reconcile-Keeps : (q : Request) → Keeps (reconcile q)
unfolding reconcile
reconcile-Keeps q =
    Meets-bind (λ _ d. IsRequested d) _ _
      (Meets-lift q.reconciliation_lock (λ d h. h) (λ _ _ d h. h))
      (λ _. reconcile_lost_supervisor-Keeps q.round q.around q.gone claim_pending false)

woken-Told : (q : Request) (w : WakeResult) → Meets Anything IsRequested (woken_outcome q w) Told
unfolding woken_outcome
woken-Told q delivered = Meets-pure _ (λ d h e. h)
woken-Told q (undelivered text) = Meets-pure _ (λ d h e. h)
woken-Told q (no_process text) =
    Meets-bind (λ _ d. IsRequested d) _ _
      (Meets-attempt _ (λ _ d. IsRequested d) (λ _ d. IsRequested d) (λ _ d h. h) (λ _ d h. h)
        (λ d h. tt) (reconcile-Keeps q))
      (λ r. Meets-pure _ (λ d h e. h))

lost-Told : (q : Request) (o : CancelOutcome) → Meets Anything (Told o) (lost_outcome q o) Told
unfolding lost_outcome
lost-Told q o =
    Meets-if o.requested _ _ (λ _. Meets-pure o (λ d h. h))
      λ _.
        Meets-bind (λ _. Anything) _ _ (Meets-weaken _ (λ d h. tt) (anyhow (reconcile q)))
          (λ _. Meets-pure was_not_requested (λ d h. untold-Told d))

with_supervisor-Told : (q : Request) (captured : Bool) → Tells (with_supervisor q captured)
unfolding with_supervisor
with_supervisor-Told q true =
    Meets-bind (λ _ d. IsRequested d) _ _
      (files-Told (record_durable_create_once_marker at_accepted) _ explicit-Meets)
      (λ _. woken-Told q q.woken)
with_supervisor-Told q false =
    Meets-bind Told _ _
      (Meets-if (q.around).continuation _ _ (λ _. terminal-Told q)
        (λ _. Meets-pure was_not_requested (λ d h. untold-Told d)))
      (lost-Told q)

request-Told : (q : Request) → Tells (request_cancel q)
unfolding request_cancel
request-Told q =
    Meets-bind (λ _. Anything) _ _ (Meets-lift q.awaited (λ d h. h) (λ _ _ d h. h))
      λ first.
        Meets-if (terminal first) _ _ (λ _. terminal-Told q)
          λ _.
            Meets-bind (λ _. Anything) _ _ (Meets-lift q.lock (λ d h. h) (λ _ _ d h. h))
              λ _.
                Meets-bind (λ _. Anything) _ _ (Meets-look meta_of (λ d h. h) (λ d h. h))
                  λ current.
                    Meets-if (terminal current) _ _ (λ _. terminal-Told q)
                      λ _.
                        Meets-bind (λ _. Anything) _ _
                          (Meets-lift q.captured (λ d h. h) (λ _ _ d h. h)) (with_supervisor-Told q)

Post-Told :
    (r : Outcome CancelOutcome × World HandleDisk) (o : CancelOutcome)
    → Post Anything Told r
    → r.0 ≡ done o
    → o.requested ≡ true
    → IsRequested (r.1).disk
Post-Told (done a, w) o h e t =
    h (ap (λ (x : CancelOutcome). x.requested) (done_injective a o e) ∙ t)
  where
    done_injective : (a b : CancelOutcome) → done a ≡ done b → a ≡ b
    done_injective a b e = cc
Post-Told (failed x, w) o h e t = absurd (cc)
Post-Told (killed, w) o h e t = absurd (cc)

-- Whatever the environment answers and whatever faults hit the request: where the requester is told that
-- the cancellation was requested, it is on record, also if the supervisor was found gone and the
-- handle was reconciled, a completion delivered, or that reconciliation failed.
pub told_requested :
    (q : Request) (faults : List Fault) (d : HandleDisk) (outcome : CancelOutcome)
    → (request_cancel q (record { disk = d; faults = faults })).0 ≡ done outcome
    → outcome.requested ≡ true
    → IsRequested ((request_cancel q (record { disk = d; faults = faults })).1).disk
told_requested q faults d outcome =
    Post-Told (request_cancel q (record { disk = d; faults = faults })) outcome
      ((request-Told q).at (record { disk = d; faults = faults }) tt)
