-- ===== src/Transfer/Safety.antt =====
-- What the worker and the integration of a transfer keep, wherever faults stop them: how many helpers
-- were started, against what the record then permits.
use agent_bash_tool.Common.{
  ℕ, suc, ◌≤◌, ◌≡◌, ◌⊎◌, refl, sym, ◌∙◌, ap, subst, inl, inr, true, Option, none, some, arith,
}
use agent_bash_tool.Common.Int.{pos}
use agent_bash_tool.Effects.{IoError, Result, ok, err, commit}
use agent_bash_tool.Effects.Meets.{
  Meets, Meets-pure, Meets-raise, Meets-lift, Meets-if, Meets-look, Meets-commit, Meets-bind,
  Meets-in_child,
}
use agent_bash_tool.Completion.{
  CompletionDelivery, Lifecycle, unclaimed, provisional_transfer, retryable_pre_admission_failure,
  permits_attempt, completion_lifecycle, from_unknown_transfer, from_status, from_error,
  from_launch_error, from_helper_error, provisional, ExitStatus, code,
}
use agent_bash_tool.Completion.Records.{
  IsClosed, provisional-IsClosed, from_status-IsClosed, from_error-IsClosed,
  from_unknown_transfer-IsClosed,
}
use agent_bash_tool.Meta.{Meta}
use agent_bash_tool.Transfer.{
  Disk, stored, Round, Request, request_ok, request_fails, HelperRun, exited, not_started,
  not_awaited, write_meta, integrate_completion_transfer, integrate_after, integrate_with,
  under_custodian, admit, in_custody, helper_outcome, reply_outcome, run_helper,
  execute_continuation_transfer, execute_with, execute_completion_transfer, worker, worker_failed,
  with_delivery, after_lost_worker,
}

-- At most one helper was started, and none where another attempt is permitted.
pub record IsSafe (d : Disk) : Type 0 where
  pub at_most_one : d.admissions ≤ 1
  pub none_before : permits_attempt (completion_lifecycle d.meta.delivery) ≡ true → d.admissions ≡ 0

abbrev pub Fresh : Disk → Type 0
Fresh d = d.admissions ≡ 0

abbrev pub Claimed : Disk → Type 0
Claimed d = Fresh d × IsClosed d.meta.delivery

pub Fresh-IsSafe : (d : Disk) → Fresh d → IsSafe d
Fresh-IsSafe d h = record { at_most_one = omega arith; none_before = λ _. h }

pub closed-IsSafe : (d : Disk) → d.admissions ≤ 1 → IsClosed d.meta.delivery → IsSafe d
closed-IsSafe d h c = record { at_most_one = h; none_before = λ e. absurd (cc) }

-- What a started helper leaves: one admission, and a record that permits no attempt.
abbrev Ended : {A : Type 0} → HelperRun A → Disk → Type 0
Ended (exited a) d = (d.admissions ≡ 1) × IsClosed d.meta.delivery
Ended (not_awaited e) d = (d.admissions ≡ 1) × IsClosed d.meta.delivery
Ended (not_started e) d = Claimed d

pub write_meta-Meets :
    {P : Disk → Type 0} {Q : Unit {0} → Disk → Type 0} (m : Meta)
    → ((d : Disk) → P d → IsSafe d)
    → ((d : Disk) → P d → IsSafe (stored m d) × Q tt (stored m d))
    → Meets IsSafe P (write_meta m) Q
unfolding write_meta
write_meta-Meets m i q = Meets-commit (λ d. stored m d) i q

count-Meets :
    Meets IsSafe Claimed
      (commit (λ d. record d { admissions = suc d.admissions }))
      (λ _ d. (d.admissions ≡ 1) × IsClosed d.meta.delivery)
count-Meets =
    Meets-commit (λ d. record d { admissions = suc d.admissions }) (λ d p. Fresh-IsSafe d p.0)
      λ d p. (
        closed-IsSafe (record d { admissions = suc d.admissions }) (omega (arith, p.0)) p.1,
        (omega (arith, p.0), p.1),
      )

admit-Meets : {A : Type 0} (h : HelperRun A) → Meets IsSafe Claimed (admit h) Ended
unfolding admit
admit-Meets (exited a) =
    Meets-bind (λ _ d. (d.admissions ≡ 1) × IsClosed d.meta.delivery) _ _ count-Meets
      (λ _. Meets-pure (exited a) (λ d p. p))
admit-Meets (not_awaited e) =
    Meets-bind (λ _ d. (d.admissions ≡ 1) × IsClosed d.meta.delivery) _ _ count-Meets
      (λ _. Meets-pure (not_awaited e) (λ d p. p))
admit-Meets (not_started e) = Meets-pure (not_started e) (λ d p. p)

claim-provisional :
    (m : Meta) → m.delivery ≡ provisional → Meets IsSafe Fresh (write_meta m) (λ _ d. Claimed d)
claim-provisional m e =
    write_meta-Meets m Fresh-IsSafe
      λ d p. (Fresh-IsSafe (stored m d) p, (p, subst IsClosed (sym e) provisional-IsClosed))

end-IsClosed :
    (m : Meta)
    → IsClosed m.delivery
    → Meets IsSafe
        (λ d. (d.admissions ≡ 1) × IsClosed d.meta.delivery)
        (write_meta m)
        (λ _ d. IsSafe d)
end-IsClosed m c =
    write_meta-Meets m (λ d p. closed-IsSafe d (omega (arith, p.0)) p.1)
      λ d p. (
        closed-IsSafe (stored m d) (omega (arith, p.0)) c,
        closed-IsSafe (stored m d) (omega (arith, p.0)) c,
      )

end-Fresh :
    {P : Disk → Type 0} (m : Meta)
    → ((d : Disk) → P d → Fresh d)
    → Meets IsSafe P (write_meta m) (λ _ d. IsSafe d)
end-Fresh m f =
    write_meta-Meets m (λ d p. Fresh-IsSafe d (f d p))
      λ d p. (Fresh-IsSafe (stored m d) (f d p), Fresh-IsSafe (stored m d) (f d p))

run_helper-Meets :
    (r : Round) (m : Meta) (n : ℕ) → Meets IsSafe Fresh (run_helper r m n) (λ _ d. IsSafe d)
unfolding run_helper
run_helper-Meets r m n =
    Meets-bind (λ _ d. Claimed d) _ _ (claim-provisional (with_delivery r.now provisional m) refl)
      λ _.
        Meets-bind Ended _ _ (admit-Meets (in_custody r.external r.custody not_started r.helper))
          last
  where
    last :
        (h : HelperRun ExitStatus)
        → Meets IsSafe
            (Ended h)
            (write_meta (with_delivery r.now (helper_outcome h n) m))
            (λ _ d. IsSafe d)
    last (exited s) = end-IsClosed (with_delivery r.now (from_status s) m) (from_status-IsClosed s)
    last (not_awaited e) =
        end-IsClosed (with_delivery r.now (from_error e) m) (from_error-IsClosed e)
    last (not_started e) = end-Fresh (with_delivery r.now (from_launch_error e n) m) (λ d p. p.0)

execute_continuation_transfer-Meets :
    (r : Round) (m : Meta) (q : Request)
    → Meets IsSafe Fresh (execute_continuation_transfer r m q) (λ _ d. IsSafe d)
unfolding execute_continuation_transfer
execute_continuation_transfer-Meets r m (request_fails e) = Meets-raise _ Fresh-IsSafe
execute_continuation_transfer-Meets r m request_ok =
    Meets-bind (λ _ d. Claimed d) _ _ (claim-provisional (record m { delivery = provisional }) refl)
      λ _.
        Meets-bind Ended _ _ (admit-Meets (in_custody r.external r.custody not_started r.reply))
          last
  where
    last :
        (h : HelperRun (Result (Unit {0})))
        → Meets IsSafe
            (Ended h)
            (write_meta (with_delivery r.now (reply_outcome h) m))
            (λ _ d. IsSafe d)
    last (exited (ok u)) =
        end-IsClosed (with_delivery r.now (from_status (code (pos 0))) m)
          (from_status-IsClosed (code (pos 0)))
    last (exited (err e)) =
        end-IsClosed (with_delivery r.now (from_error e) m) (from_error-IsClosed e)
    last (not_awaited e) =
        end-IsClosed (with_delivery r.now (from_error e) m) (from_error-IsClosed e)
    last (not_started e) = end-Fresh (with_delivery r.now (from_error e) m) (λ d p. p.0)

execute_with-Meets :
    (r : Round) (m : Meta) (n : ℕ) (q : Request)
    → Meets IsSafe Fresh (execute_with r m n q) (λ _ d. IsSafe d)
unfolding execute_with
execute_with-Meets r m n (request_fails e) =
    end-Fresh (with_delivery r.now (from_helper_error e n) m) (λ d p. p)
execute_with-Meets r m n request_ok = run_helper-Meets r m n

execute_completion_transfer-Meets :
    (r : Round) (m : Meta) (n : ℕ)
    → Meets IsSafe Fresh (execute_completion_transfer r m n) (λ _ d. IsSafe d)
unfolding execute_completion_transfer
execute_completion_transfer-Meets r m n =
    Meets-if r.continuation _ _ (λ _. execute_continuation_transfer-Meets r m r.request)
      (λ _. execute_with-Meets r m n r.request)

-- Integration writes only over a record on which no helper was started, or that stays closed.
after_lost_worker-IsClosed :
    (d : Disk) (e : IoError) (n : ℕ) (c : CompletionDelivery) (l : Lifecycle)
    → completion_lifecycle d.meta.delivery ≡ l
    → after_lost_worker l e n ≡ some c
    → IsSafe d
    → Fresh d ⊎ IsClosed c
unfolding permits_attempt
after_lost_worker-IsClosed d e n c unclaimed s h i = inl (i.none_before (rw s))
after_lost_worker-IsClosed d e n c retryable_pre_admission_failure s h i =
    inl (i.none_before (rw s))
after_lost_worker-IsClosed d e n c provisional_transfer s h i =
    let same : from_unknown_transfer e n ≡ c = cc in
    inr (subst IsClosed same (from_unknown_transfer-IsClosed e n))
after_lost_worker-IsClosed d e n c _ s h i = absurd (cc)

-- What holds between reading the metadata and writing it again.
abbrev pub Seen : Meta → Disk → Type 0
Seen m d = (d.meta ≡ m) × IsSafe d

integrate_with-Meets :
    (now : ℕ) (m : Meta) (e : IoError) (n : ℕ) (o : Option CompletionDelivery)
    → after_lost_worker (completion_lifecycle m.delivery) e n ≡ o
    → Meets IsSafe (Seen m) (integrate_with now m o) (λ _ d. IsSafe d)
integrate_with-Meets now m e n none h = Meets-pure m (λ d p. p.1)
integrate_with-Meets now m e n (some c) h =
    Meets-bind (λ _ d. IsSafe d) _ _
      (write_meta-Meets (with_delivery now c m) (λ d p. p.1) (λ d p. (safe d p, safe d p)))
      (λ _. Meets-pure _ (λ d p. p))
  where
    safe : (d : Disk) → Seen m d → IsSafe (stored (with_delivery now c m) d)
    safe d p =
        elim (after_lost_worker-IsClosed d e n c (completion_lifecycle d.meta.delivery) refl
          (ap (λ (t : Meta). after_lost_worker (completion_lifecycle t.delivery) e n) p.0 ∙ h)
          p.1) [
            | inl fresh ↦ Fresh-IsSafe (stored (with_delivery now c m) d) fresh
            | inr closed ↦ closed-IsSafe (stored (with_delivery now c m) d) (p.1).at_most_one closed
          ]

integrate_after-Meets :
    (now : ℕ) (m : Meta) (w : Result (Unit {0})) (n : ℕ)
    → Meets IsSafe (Seen m) (integrate_after now m w n) (λ _ d. IsSafe d)
unfolding integrate_after
integrate_after-Meets now m (ok u) n = Meets-pure m (λ d p. p.1)
integrate_after-Meets now m (err e) n = integrate_with-Meets now m e n _ refl

pub integrate_completion_transfer-Meets :
    (now : ℕ) (w : Result (Unit {0})) (n : ℕ)
    → Meets IsSafe IsSafe (integrate_completion_transfer now w n) (λ _ d. IsSafe d)
unfolding integrate_completion_transfer
integrate_completion_transfer-Meets now w n =
    Meets-bind Seen _ _ (Meets-look (λ d. d.meta) (λ d p. p) (λ d p. (refl, p)))
      (λ m. integrate_after-Meets now m w n)

under_custodian-Meets :
    (r : Round) (m : Meta) (n : ℕ) → Meets IsSafe Fresh (under_custodian r m n) (λ _ d. IsSafe d)
unfolding under_custodian
under_custodian-Meets r m n =
    Meets-bind (λ _ d. Fresh d) _ _ (Meets-lift r.custodian Fresh-IsSafe (λ _ _ d p. p))
      λ _.
        Meets-bind (λ _ d. IsSafe d) _ _
          (Meets-in_child worker_failed _ IsSafe (λ _ d. IsSafe d) (λ d p. p) (λ d p. p)
            (execute_completion_transfer-Meets r m n))
          λ status.
            Meets-bind (λ _ d. IsSafe d) _ _ (integrate_completion_transfer-Meets r.now status n)
              (λ _. Meets-pure tt (λ d p. p))

pub worker-Meets :
    (r : Round) (m : Meta) (n : ℕ) → Meets IsSafe Fresh (worker r m n) (λ _ d. IsSafe d)
unfolding worker
worker-Meets r m n =
    Meets-bind (λ _ d. Fresh d) _ _ (Meets-lift r.prepared Fresh-IsSafe (λ _ _ d p. p))
      λ _.
        Meets-if r.role _ _ (λ _. under_custodian-Meets r m n)
          (λ _. execute_completion_transfer-Meets r m n)
