-- ===== src/Release/Receipt/Recorded.antt =====
-- retention_released of src/continuation.rs records and answers only what Broker vouches for.
use agent_bash_tool.Common.{
  ℕ, ◌≡◌, ◌⊎◌, inl, inr, refl, ◌∙◌, ap, Bool, true, false, Option, none, some, List, arith,
}
use agent_bash_tool.Effects.{Result, ok, World}
use agent_bash_tool.Effects.Meets.{
  Post, Meets, Meets-pure, Meets-raise, Meets-lift, Meets-if, Meets-look, Meets-commit, Meets-bind,
}
use agent_bash_tool.RootProtocol.Json.{Value, value_eq}
use agent_bash_tool.RootProtocol.Json.Equal.{value_eq_sound}
use agent_bash_tool.Continuation.Files.{Paths, immutable, publish_new, or_missing}
use agent_bash_tool.Release.{Readings}
use agent_bash_tool.Release.Receipt.{vouched, record_release, retention_released}
use agent_bash_tool.Release.Receipt.Vouched.{IsVouched, vouched-IsVouched}

module _ (parse : List ℕ → Result Value) (sha256 : List ℕ → List ℕ) (paths : Paths)
    (r : Readings) where
  -- The local release on record is one that is vouched for.
  abbrev pub IsReleased : Option Value → Type 0
  IsReleased d = (v : Value) × IsVouched parse sha256 paths r v × (d ≡ some v)

module _ (parse : List ℕ → Result Value) (sha256 : List ℕ → List ℕ) (paths : Paths) (r : Readings)
    (before : Option Value) where
  abbrev Vouched : Option Value → Type 0
  Vouched = IsReleased parse sha256 paths r

  abbrev pub KeepsRelease : Option Value → Type 0
  KeepsRelease d = (d ≡ before) ⊎ Vouched d

  abbrev pub AnswersRelease : Bool → Option Value → Type 0
  AnswersRelease released d = KeepsRelease d × (released ≡ true → Vouched d)

  abbrev Unchanged : Option Value → Type 0
  Unchanged d = d ≡ before

  module _ (local : Value) (is_vouched : IsVouched parse sha256 paths r local) where
    abbrev Stands : Option Value → Type 0
    Stands d = d ≡ some local

    Stands-KeepsRelease : (d : Option Value) → Stands d → KeepsRelease d
    Stands-KeepsRelease d s = inr (local, is_vouched, s)

    publish_new-Meets :
        (present : Option Value)
        → Meets KeepsRelease
            (λ d. Unchanged d × (d ≡ present))
            (publish_new value_eq (λ d. d) (λ v d. some v) local present)
            (λ _. Stands)
    unfolding publish_new
    publish_new-Meets (some present) =
        Meets-if (value_eq present local) _ _
          (λ same. Meets-pure tt (λ d u. u.1 ∙ ap some (value_eq_sound present local same)))
          (λ _. Meets-raise _ (λ d u. inl u.0))
    publish_new-Meets none =
        Meets-bind (λ _. Unchanged) _ _ (Meets-look (λ d. tt) (λ d u. inl u.0) (λ d u. u.0))
          (λ _.
            Meets-bind (λ _. Stands) _ _
              (Meets-commit _ (λ d u. inl u) (λ d u. (Stands-KeepsRelease (some local) refl, refl)))
              (λ _. Meets-look (λ d. tt) Stands-KeepsRelease (λ d s. s)))

    immutable-Meets :
        Meets KeepsRelease Unchanged
          (immutable value_eq (λ d. d) (λ v d. some v) local)
          (λ _. Stands)
    unfolding immutable
    immutable-Meets =
        Meets-bind (λ present d. Unchanged d × (d ≡ present)) _ _
          (Meets-look (λ d. d) (λ d u. inl u) (λ d u. (u, refl))) publish_new-Meets

    recorded-Meets :
        Meets KeepsRelease Unchanged
          (record_release parse sha256 paths r (some local))
          AnswersRelease
    unfolding record_release
    recorded-Meets =
        Meets-bind (λ _. Stands) _ _ immutable-Meets
          (λ _.
            Meets-bind (λ _. Stands) _ _ (Meets-look (λ d. d) Stands-KeepsRelease (λ d s. s))
              (λ file.
                Meets-bind (λ _. Stands) _ _
                  (Meets-lift (or_missing file) Stands-KeepsRelease (λ _ _ d s. s))
                  (λ recorded.
                    Meets-pure _ (λ d s. (Stands-KeepsRelease d s, λ _. (local, is_vouched, s))))))

  record_release-Meets :
      (released : Option Value)
      → vouched parse sha256 paths r ≡ ok released
      → Meets KeepsRelease Unchanged (record_release parse sha256 paths r released) AnswersRelease
  unfolding record_release
  record_release-Meets none e = Meets-pure false (λ d u. (inl u, λ f. absurd (ground arith)))
  record_release-Meets (some v) e = recorded-Meets v (vouched-IsVouched parse sha256 paths r v e)

  retention_released-Meets :
      Meets KeepsRelease Unchanged (retention_released parse sha256 paths r) AnswersRelease
  unfolding retention_released
  retention_released-Meets =
      Meets-bind (λ released d. (vouched parse sha256 paths r ≡ ok released) × Unchanged d) _ _
        (Meets-lift (vouched parse sha256 paths r) (λ d u. inl u) (λ released e d u. (e, u)))
        (λ released. record { at = λ w p. (record_release-Meets released p.0).at w p.1 })

-- Whatever one pass reads and whatever faults hit, the local release is left as it was or is one that is
-- vouched for, and where the pass answers that the source is released, it is vouched for: by a read-only
-- receipt of root with one name, whose digests match the acceptance and the decision of this registration,
-- and by files on disk whose bytes have the digests that were registered, sealed and told.
pub retention_released-IsReleased :
    (parse : List ℕ → Result Value) (sha256 : List ℕ → List ℕ) (paths : Paths) (r : Readings)
    (w : World (Option Value))
    → Post
        (KeepsRelease parse sha256 paths r w.disk)
        (AnswersRelease parse sha256 paths r w.disk)
        (retention_released parse sha256 paths r w)
retention_released-IsReleased parse sha256 paths r w =
    (retention_released-Meets parse sha256 paths r w.disk).at w refl
