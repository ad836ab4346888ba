-- ===== src/Custody/Discharge.antt =====
-- Discharge and late cancellation, in either order of the custody lock and under any faults.
use agent_bash_tool.Common.{
  ◌≡◌, ◌⊎◌, refl, ◌∙◌, ap, inl, inr, Bool, true, false, not, ◌||◌, ◌&&◌, Option, none, some, arith,
}
use agent_bash_tool.Effects.{
  ErrorKind, not_found, IoError, error_other, Result, ok, err, pure, raise,
}
use agent_bash_tool.Effects.Meets.{
  Meets, Meets-pure, Meets-raise, Meets-lift, Meets-if, Meets-look, Meets-commit, Meets-bind,
  Meets-loosen,
}
use agent_bash_tool.Custody.{
  Text, Entry, absent, file, unreadable, not_a_file, Files, same_text, valid_boot_id,
  durable_marker_exists, boot_custody_may_remain, at_physical, at_accepted, at_drained, is_absent,
  sync, rollback_created_marker, record_durable_create_once_marker, begin_physical_custody,
  custody_text, accept_recorded, accept_terminal_custody_cancel, mark_drained, end_locked,
  end_physical_custody, begin_external_transfer_custody, end_external_transfer_custody,
}
use agent_bash_tool.Custody.Marker.{create-Meets, rollback-Meets}

-- An accepted cancellation still has someone who owes the reaping, or was seen drained.
abbrev pub IsOwed : Files → Type 0
IsOwed d =
    (is_absent d.accepted_cancel ≡ true)
    ⊎ ((is_absent d.physical_custody ≡ false) ⊎ (is_absent d.cancellation_drained ≡ false))

abbrev Held : Files → Type 0
Held d = is_absent d.physical_custody ≡ false

abbrev HeldIf : Option Text → Files → Type 0
HeldIf none d = IsOwed d
HeldIf (some recorded) d = IsOwed d × Held d

custody_text-Meets :
    (entry : Entry)
    → Meets IsOwed (λ d. IsOwed d × (d.physical_custody ≡ entry)) (custody_text entry) HeldIf
custody_text-Meets absent = Meets-pure none (λ d h. h.0)
custody_text-Meets (file text) = Meets-pure (some text) (λ d h. (h.0, ap is_absent h.1))
custody_text-Meets unreadable = Meets-raise _ (λ d h. h.0)
custody_text-Meets not_a_file = Meets-raise _ (λ d h. h.0)

accepted-Meets :
    Meets IsOwed
      (λ d. IsOwed d × Held d)
      (record_durable_create_once_marker at_accepted)
      (λ _ d. IsOwed d)
accepted-Meets =
    create-Meets IsOwed at_accepted Held (λ e d. refl) (λ d h. inr (inl h)) (λ e d h. h)
      (λ d. IsOwed d × Held d) (λ _ d. IsOwed d) (λ d h. h.0) (λ d h _. h.1) (λ d h _. h.0)
      (λ d h. inr (inl h.0))

recorded-Meets :
    (boot : Text) (r : Option Text)
    → Meets IsOwed (HeldIf r) (accept_recorded boot r) (λ _ d. IsOwed d)
unfolding accept_recorded
recorded-Meets boot none = Meets-pure false (λ d h. h)
recorded-Meets boot (some recorded) =
    Meets-if (not (valid_boot_id recorded) || not (valid_boot_id boot)) _ _
      (λ _. Meets-raise (error_other "physical custody boot identity unavailable") (λ d h. h.0))
      λ _.
        Meets-if (not (same_text recorded boot)) _ _ (λ _. Meets-pure false (λ d h. h.0))
          λ _.
            Meets-bind (λ _ d. IsOwed d × Held d) _ _ (Meets-look (λ d. d) (λ d h. h.0) (λ d h. h))
              λ seen.
                Meets-bind (λ _ d. IsOwed d × Held d) _ _
                  (Meets-lift (durable_marker_exists seen.cancellation_drained) (λ d h. h.0)
                    (λ _ _ d h. h))
                  λ drained.
                    Meets-if drained _ _ (λ _. Meets-pure false (λ d h. h.0)) (λ _. accepted-Meets)

pub accept-Meets :
    (lock : Result (Unit {0})) (boot : Text)
    → Meets IsOwed IsOwed (accept_terminal_custody_cancel lock boot) (λ _ d. IsOwed d)
unfolding accept_terminal_custody_cancel
accept-Meets lock boot =
    Meets-bind (λ _ d. IsOwed d) _ _ (Meets-lift lock (λ d h. h) (λ _ _ d h. h))
      λ _.
        Meets-bind (λ entry d. IsOwed d × (d.physical_custody ≡ entry)) _ _
          (Meets-look (λ d. d.physical_custody) (λ d h. h) (λ d h. (h, refl)))
          λ entry. Meets-bind HeldIf _ _ (custody_text-Meets entry) (recorded-Meets boot)

-- What lets the custody go: nothing accepted, or the drain recorded.
abbrev Discharged : Files → Type 0
Discharged d = (is_absent d.accepted_cancel ≡ true) ⊎ (is_absent d.cancellation_drained ≡ false)

Discharged-IsOwed : (d : Files) → Discharged d → IsOwed d
Discharged-IsOwed d (inl a) = inl a
Discharged-IsOwed d (inr b) = inr (inr b)

-- What may be kept back while the drain is being recorded.
abbrev Draining : Files → Type 0
Draining d = (is_absent d.accepted_cancel ≡ true) ⊎ Held d

Draining-IsOwed : (d : Files) → Draining d → IsOwed d
Draining-IsOwed d (inl a) = inl a
Draining-IsOwed d (inr b) = inr (inl b)

undrained : (d : Files) → IsOwed d → is_absent d.cancellation_drained ≡ true → Draining d
undrained d (inl a) e = inl a
undrained d (inr (inl b)) e = inr b
undrained d (inr (inr c)) e = ground arith

marked-Meets :
    (accepted : Bool)
    → Meets IsOwed
        (λ d. IsOwed d × (accepted ≡ false → is_absent d.accepted_cancel ≡ true))
        (mark_drained accepted)
        (λ _ d. Discharged d)
unfolding mark_drained
marked-Meets true =
    Meets-bind (λ _ d. Discharged d) _ _
      (create-Meets IsOwed at_drained Draining (λ e d. refl) Draining-IsOwed (λ e d h. h) _
        (λ _ d. Discharged d) (λ d h. h.0) (λ d h e. undrained d h.0 e) (λ d h e. inr e)
        (λ d h. inr h.1))
      (λ _. Meets-pure tt (λ d h. h))
marked-Meets false = Meets-pure tt (λ d h. inl (h.1 refl))

exists-false : (e : Entry) → durable_marker_exists e ≡ ok false → is_absent e ≡ true
unfolding durable_marker_exists
exists-false absent h = refl
exists-false (file text) h = ground arith
exists-false unreadable h = ground arith
exists-false not_a_file h = ground arith

release-Meets : Meets IsOwed Discharged (rollback_created_marker at_physical) (λ _ d. IsOwed d)
release-Meets =
    Meets-loosen _ Discharged-IsOwed (λ _. Discharged-IsOwed)
      (rollback-Meets IsOwed at_physical Discharged (λ e d. refl) Discharged-IsOwed (λ e d h. h))

locked-Meets : Meets IsOwed IsOwed end_locked (λ _ d. IsOwed d)
unfolding end_locked
locked-Meets =
    Meets-bind (λ seen d. IsOwed d × (d ≡ seen)) _ _
      (Meets-look (λ d. d) (λ d h. h) (λ d h. (h, refl)))
      λ seen.
        Meets-bind
          (λ accepted d. IsOwed d × (accepted ≡ false → is_absent d.accepted_cancel ≡ true)) _ _
          (Meets-lift (durable_marker_exists seen.accepted_cancel) (λ d h. h.0)
            λ accepted e d h. (
              h.0,
              λ f.
                  ap (λ s. is_absent s.accepted_cancel) h.1
                  ∙ exists-false seen.accepted_cancel (e ∙ ap ok f),
            ))
          λ accepted.
            Meets-bind (λ _ d. Discharged d) _ _ (marked-Meets accepted) (λ _. release-Meets)

absent_or_failed-Meets :
    (k : ErrorKind) (e : IoError)
    → Meets IsOwed IsOwed
        (elim k [ not_found ↦ pure {S = Files} tt | _ ↦ raise e ])
        (λ _ d. IsOwed d)
absent_or_failed-Meets not_found e = Meets-pure tt (λ d h. h)
absent_or_failed-Meets _ e = Meets-raise e (λ d h. h)

pub end-Meets :
    (lock : Result (Unit {0})) → Meets IsOwed IsOwed (end_physical_custody lock) (λ _ d. IsOwed d)
unfolding end_physical_custody
end-Meets (ok u) = locked-Meets
end-Meets (err e) = absent_or_failed-Meets e.kind e

pub begin-Meets :
    (boot : Text) → Meets IsOwed IsOwed (begin_physical_custody boot) (λ _ d. IsOwed d)
unfolding begin_physical_custody
begin-Meets boot = Meets-commit _ (λ d h. h) (λ d h. (inr (inl refl), inr (inl refl)))

pub begin_external-Meets :
    (boot : Text) → Meets IsOwed IsOwed (begin_external_transfer_custody boot) (λ _ d. IsOwed d)
unfolding begin_external_transfer_custody
begin_external-Meets boot =
    Meets-bind (λ _ d. IsOwed d) _ _ (Meets-look (λ d. d) (λ d h. h) (λ d h. h))
      λ seen.
        Meets-bind (λ _ d. IsOwed d) _ _
          (Meets-lift (durable_marker_exists seen.external_transfer_custody) (λ d h. h)
            (λ _ _ d h. h))
          λ exists.
            Meets-if (exists && boot_custody_may_remain seen.external_transfer_custody boot) _ _
              (λ _. Meets-pure false (λ d h. h))
              λ _.
                Meets-bind (λ _ d. IsOwed d) _ _ (Meets-commit _ (λ d h. h) (λ d h. (h, h)))
                  (λ _. Meets-pure true (λ d h. h))

pub end_external-Meets : Meets IsOwed IsOwed end_external_transfer_custody (λ _ d. IsOwed d)
unfolding end_external_transfer_custody sync
end_external-Meets =
    Meets-bind (λ _ d. IsOwed d) _ _ (Meets-look _ (λ d h. h) (λ d h. h))
      λ entry.
        Meets-if (is_absent entry) _ _ (λ _. Meets-pure tt (λ d h. h))
          λ _.
            Meets-bind (λ _ d. IsOwed d) _ _ (Meets-commit _ (λ d h. h) (λ d h. (h, h)))
              (λ _. Meets-look (λ d. tt) (λ d h. h) (λ d h. h))
