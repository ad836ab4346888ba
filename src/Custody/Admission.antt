-- ===== src/Custody/Admission.antt =====
-- What the answer to a cancellation of physical custody promises.
use agent_bash_tool.Common.{◌≡◌, refl, Bool, true, false, not, ◌||◌, Option, none, some, arith}
use agent_bash_tool.Effects.{error_other, Result, pure}
use agent_bash_tool.Effects.Meets.{
  Meets, Meets-pure, Meets-raise, Meets-lift, Meets-if, Meets-look, Meets-bind,
}
use agent_bash_tool.Custody.{
  Text, Entry, absent, file, unreadable, not_a_file, Files, same_text, valid_boot_id,
  durable_marker_exists, at_accepted, is_absent, record_durable_create_once_marker, custody_text,
  accept_recorded, accept_terminal_custody_cancel,
}
use agent_bash_tool.Custody.Marker.{create-Meets}

abbrev Anything : Files → Type 0
Anything d = Unit {0}

-- A request that is answered `true` is on record.
abbrev pub Recorded : Bool → Files → Type 0
Recorded accepted d = accepted ≡ true → is_absent d.accepted_cancel ≡ false

pub explicit-Meets :
    Meets Anything Anything
      (record_durable_create_once_marker at_accepted)
      (λ _ d. is_absent d.accepted_cancel ≡ false)
explicit-Meets =
    create-Meets Anything at_accepted Anything (λ e d. refl) (λ d h. h) (λ e d h. h) Anything
      (λ _ d. is_absent d.accepted_cancel ≡ false) (λ d h. h) (λ d h _. h) (λ d h e. e) (λ d h. h.1)

refused-Meets : Meets Anything Anything (pure false) Recorded
refused-Meets = Meets-pure false (λ d h e. ground arith)

Recorded-Meets :
    (boot : Text) (r : Option Text) → Meets Anything Anything (accept_recorded boot r) Recorded
unfolding accept_recorded
Recorded-Meets boot none = refused-Meets
Recorded-Meets boot (some recorded) =
    Meets-if (not (valid_boot_id recorded) || not (valid_boot_id boot)) _ _
      (λ _. Meets-raise (error_other "physical custody boot identity unavailable") (λ d h. h))
      λ _.
        Meets-if (not (same_text recorded boot)) _ _ (λ _. refused-Meets)
          λ _.
            Meets-bind (λ _. Anything) _ _ (Meets-look (λ d. d) (λ d h. h) (λ d h. h))
              λ seen.
                Meets-bind (λ _. Anything) _ _
                  (Meets-lift (durable_marker_exists seen.cancellation_drained) (λ d h. h)
                    (λ _ _ d h. h))
                  λ drained. Meets-if drained _ _ (λ _. refused-Meets) (λ _. noted-Meets)
  where
    noted-Meets : Meets Anything Anything (record_durable_create_once_marker at_accepted) Recorded
    noted-Meets =
        create-Meets Anything at_accepted Anything (λ e d. refl) (λ d h. h) (λ e d h. h) Anything
          Recorded (λ d h. h) (λ d h _. h) (λ d h e _. e) (λ d h _. h.1)

custody_text-Meets : (entry : Entry) → Meets Anything Anything (custody_text entry) (λ _. Anything)
custody_text-Meets absent = Meets-pure none (λ d h. h)
custody_text-Meets (file text) = Meets-pure (some text) (λ d h. h)
custody_text-Meets unreadable = Meets-raise _ (λ d h. h)
custody_text-Meets not_a_file = Meets-raise _ (λ d h. h)

pub accept-Recorded :
    (lock : Result (Unit {0})) (boot : Text)
    → Meets Anything Anything (accept_terminal_custody_cancel lock boot) Recorded
unfolding accept_terminal_custody_cancel
accept-Recorded lock boot =
    Meets-bind (λ _. Anything) _ _ (Meets-lift lock (λ d h. h) (λ _ _ d h. h))
      λ _.
        Meets-bind (λ _. Anything) _ _ (Meets-look (λ d. d.physical_custody) (λ d h. h) (λ d h. h))
          λ entry. Meets-bind (λ _. Anything) _ _ (custody_text-Meets entry) (Recorded-Meets boot)
