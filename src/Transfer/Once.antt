-- ===== src/Transfer/Once.antt =====
-- The claim of a transfer, the transfer as a whole, and histories of transfers.
use agent_bash_tool.Common.{
  ℕ, ◌≤◌, ◌≡◌, refl, ◌∙◌, ap, Bool, true, false, not, ◌||◌, List, [], ◌∷◌, arith,
}
use agent_bash_tool.Effects.{
  error_other, Result, ok, err, World, Fault, Outcome, done, failed, killed, lift,
}
use agent_bash_tool.Effects.Meets.{
  Meets, Post, Meets-pure, Meets-lift, Meets-if, Meets-look, Meets-bind, Meets-in_child,
  Meets-weaken,
}
use agent_bash_tool.Completion.{
  Lifecycle, unclaimed, provisional_transfer, permits_attempt, completion_lifecycle,
  from_unknown_transfer,
}
use agent_bash_tool.Completion.Records.{from_unknown_transfer-IsClosed}
use agent_bash_tool.Meta.{Meta}
use agent_bash_tool.Transfer.{
  Disk, stored, Round, CompletionStart, busy, settled, running, worker_failed, close_orphan,
  fork_worker, when, claim, start_completion_delivery, finish_transfer,
  reconcile_completion_delivery, with_delivery,
}
use agent_bash_tool.Transfer.Safety.{
  IsSafe, Fresh, Seen, Fresh-IsSafe, closed-IsSafe, write_meta-Meets,
  integrate_completion_transfer-Meets, worker-Meets,
}

-- What a start hands on: a running transfer has no helper before it.
abbrev Started : CompletionStart → Disk → Type 0
Started busy d = IsSafe d
Started settled d = IsSafe d
Started (running m n) d = Fresh d

finish_transfer-Meets :
    (r : Round) (s : CompletionStart)
    → Meets IsSafe (Started s) (finish_transfer r s) (λ _ d. IsSafe d)
unfolding finish_transfer
finish_transfer-Meets r busy = Meets-pure tt (λ d p. p)
finish_transfer-Meets r settled = Meets-pure tt (λ d p. p)
finish_transfer-Meets r (running m n) =
    Meets-bind (λ _ d. IsSafe d) _ _
      (Meets-in_child worker_failed _ IsSafe (λ _ d. IsSafe d) (λ d p. p) (λ d p. p)
        (worker-Meets r m n))
      λ status.
        Meets-if r.owner_lives _ _
          (λ _.
            Meets-bind (λ _ d. IsSafe d) _ _ (integrate_completion_transfer-Meets r.now status n)
              (λ _. Meets-pure tt (λ d p. p)))
          (λ _. Meets-pure tt (λ d p. p))

fork_worker-Meets :
    (r : Round) (m : Meta) (n : ℕ) (f : Result (Unit {0}))
    → Meets IsSafe Fresh (fork_worker r m n f) Started
unfolding fork_worker
fork_worker-Meets r m n (err e) =
    Meets-bind (λ _ d. IsSafe d) _ _
      (Meets-weaken _ Fresh-IsSafe (integrate_completion_transfer-Meets r.now (err e) n))
      (λ _. Meets-pure settled (λ d p. p))
fork_worker-Meets r m n (ok u) =
    Meets-if r.role _ _
      (λ _.
        Meets-bind (λ _ d. Fresh d) _ _ (Meets-lift r.publish Fresh-IsSafe (λ _ _ d p. p))
          (λ _. Meets-pure (running m n) (λ d p. p)))
      (λ _. Meets-pure (running m n) (λ d p. p))

-- A claim of lifecycle `l`: nothing was started if it permits an attempt.
abbrev Claims : Lifecycle → Disk → Type 0
Claims l d = IsSafe d × (permits_attempt l ≡ true → Fresh d)

abbrev orphaned : Round → Meta → Meta
orphaned r m =
    with_delivery r.now
      (from_unknown_transfer (error_other "delivery transfer owner is gone") m.delivery.retry_count)
      m

close_orphan-Meets :
    (r : Round) (m : Meta) (l : Lifecycle)
    → Meets IsSafe (Claims l) (close_orphan r m l) (λ _ d. Claims l d)
unfolding close_orphan permits_attempt
close_orphan-Meets r m provisional_transfer =
    Meets-bind (λ _ d. IsSafe d) _ _
      (write_meta-Meets (orphaned r m) (λ d p. p.0) (λ d p. (closes d p, closes d p)))
      (λ _. Meets-pure _ (λ d p. (p, λ e. absurd (cc))))
  where
    closes : (d : Disk) → Claims provisional_transfer d → IsSafe (stored (orphaned r m) d)
    closes d p =
        closed-IsSafe (stored (orphaned r m) d) (p.0).at_most_one
          (from_unknown_transfer-IsClosed _ _)
close_orphan-Meets r m unclaimed = Meets-pure m (λ d p. p)
close_orphan-Meets r m _ = Meets-pure m (λ d p. p)

when-Meets :
    {A : Type 0} {P : Disk → Type 0} (b : Bool) (r : Result A) (a : A)
    → ((d : Disk) → P d → IsSafe d)
    → Meets IsSafe P (when b (lift r) a) (λ _ d. P d)
when-Meets true r a i = Meets-lift r i (λ _ _ d p. p)
when-Meets false r a i = Meets-pure a (λ d p. p)

claim-Meets : (r : Round) (m : Meta) (l : Lifecycle) → Meets IsSafe (Claims l) (claim r m l) Started
unfolding claim
claim-Meets r m l =
    Meets-bind (λ _ d. Claims l d) _ _ (close_orphan-Meets r m l)
      λ closed.
        Meets-bind (λ _ d. Claims l d) _ _ (when-Meets _ r.handed_off false (λ d p. p.0))
          λ handed.
            Meets-if (handed || not (permits_attempt l)) _ _ (λ _. Meets-pure settled (λ d p. p.0))
              λ e.
                Meets-bind (λ _ d. Fresh d) _ _
                  (Meets-lift r.pair (λ d p. p.0) (λ _ _ d p. p.1 (ground arith)))
                  (λ _. fork_worker-Meets r closed _ r.fork)

start_completion_delivery-Meets :
    (r : Round) → Meets IsSafe IsSafe (start_completion_delivery r) Started
unfolding start_completion_delivery
start_completion_delivery-Meets r =
    Meets-bind Seen _ _ (Meets-look (λ d. d.meta) (λ d p. p) (λ d p. (refl, p))) λ m.
      Meets-bind (λ _ d. Seen m d) _ _ (Meets-look (λ d. d.mode_file) (λ d p. p.1) (λ d p. p))
        λ mode.
          Meets-bind (λ _ d. Seen m d) _ _ (when-Meets r.continuation r.snapshot true (λ d p. p.1))
            λ ready.
              Meets-if ready _ _
                (λ _.
                  Meets-weaken _
                    (λ d p. (
                      p.1,
                      λ e. (p.1).none_before (
                          ap (λ (t : Meta). permits_attempt (completion_lifecycle t.delivery)) p.0
                          ∙ e),
                    ))
                    (claim-Meets r (record m { delivery_mode = mode })
                      (completion_lifecycle m.delivery)))
                (λ _. Meets-pure busy (λ d p. p.1))

reconcile_completion_delivery-Meets :
    (r : Round) → Meets IsSafe IsSafe (reconcile_completion_delivery r) (λ _ d. IsSafe d)
unfolding reconcile_completion_delivery
reconcile_completion_delivery-Meets r =
    Meets-bind Started _ _ (start_completion_delivery-Meets r) (finish_transfer-Meets r)

-- A history of transfers, each with the faults that hit it.
pub rounds : List (Round × List Fault) → Disk → Disk
rounds [] d = d
rounds ((r, faults) ∷ rest) d =
    rounds rest ((reconcile_completion_delivery r (record { disk = d; faults = faults })).1).disk

Post-IsSafe :
    (r : Outcome (Unit {0}) × World Disk) → Post IsSafe (λ _ d. IsSafe d) r → IsSafe (r.1).disk
Post-IsSafe (done a, w) h = h
Post-IsSafe (failed e, w) h = h
Post-IsSafe (killed, w) h = h

rounds-IsSafe : (rs : List (Round × List Fault)) (d : Disk) → IsSafe d → IsSafe (rounds rs d)
unfolding rounds
rounds-IsSafe [] d h = h
rounds-IsSafe ((r, faults) ∷ rest) d h = rounds-IsSafe rest _ (
    Post-IsSafe _
      ((reconcile_completion_delivery-Meets r).at (record { disk = d; faults = faults }) h))

-- From a handle on which no helper was started, after any number of transfers, whatever the
-- environment answers and wherever faults stop the owner, the custodian or the worker: at most one
-- helper was started, and none if the record still permits an attempt.
pub rounds_admit_once :
    (rs : List (Round × List Fault)) (d : Disk)
    → d.admissions ≡ 0
    → let e = rounds rs d in
      (e.admissions ≤ 1)
      × (permits_attempt (completion_lifecycle e.meta.delivery) ≡ true → e.admissions ≡ 0)
rounds_admit_once rs d h =
    let s = rounds-IsSafe rs d (Fresh-IsSafe d h) in (s.at_most_one, s.none_before)
