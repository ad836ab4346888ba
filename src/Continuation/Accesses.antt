-- ===== src/Continuation/Accesses.antt =====
-- What single accesses to the files of src/continuation.rs, and the code that only reads them, leave of the
-- launch authority.
use agent_bash_tool.Common.{
  ℕ, ◌+◌, ◌≤◌, ◌≡◌, refl, subst, ◌∙◌, Bool, true, Option, none, some, List, arith, ltb,
}
use agent_bash_tool.Effects.{error_other, Result, ok, raise, lift, commit}
use agent_bash_tool.Effects.Meets.{
  Meets, Meets-pure, Meets-raise, Meets-lift, Meets-if, Meets-look, Meets-commit, Meets-bind,
}
use agent_bash_tool.Identity.{CallerChainEntry}
use agent_bash_tool.RootProtocol.Json.{Value, value_eq}
use agent_bash_tool.Continuation.{binding, own_fence, prepare}
use agent_bash_tool.Continuation.Files.{
  Binding, Fence, Paths, Phase, Source, binding_of, exact, fence_eq, fence_file, immutable,
  launched, may_launch, or_missing, phase_eq, publish_new, put_fence, put_local, put_registration,
  registration_file, revoked_never_launched, transition, unreleased,
}

-- How many launches a fence still allows: one until it is spent or revoked.
abbrev pub launches_left_of : Phase → ℕ
launches_left_of unreleased = 1
launches_left_of may_launch = 1
launches_left_of launched = 0
launches_left_of revoked_never_launched = 0

abbrev pub left_in : Option Fence → ℕ
left_in none = 1
left_in (some f) = launches_left_of f.phase

unfoldable pub launches_left : Source → ℕ
launches_left d = left_in d.fence

-- At most `n` launches are left.
abbrev pub AtMost : ℕ → Source → Type 0
AtMost n d = launches_left d ≤ n

-- `k` launches were reported, and no more than `n` in all can be.
abbrev pub Told : ℕ → ℕ → Source → Type 0
Told k n d = k + launches_left d ≤ n

-- The fence that was read is still there.
abbrev pub Holds : ℕ → Fence → Source → Type 0
Holds n f d = (d.fence ≡ some f) × AtMost n d

pub Told-of_none : {n : ℕ} (d : Source) → AtMost n d → Told 0 n d
Told-of_none d h = omega arith

pub phase_eq_lem : (a b : Phase) → phase_eq a b ≡ true → a ≡ b
phase_eq_lem unreleased unreleased h = refl
phase_eq_lem may_launch may_launch h = refl
phase_eq_lem launched launched h = refl
phase_eq_lem revoked_never_launched revoked_never_launched h = refl
phase_eq_lem unreleased may_launch h = absurd (ground arith)
phase_eq_lem unreleased launched h = absurd (ground arith)
phase_eq_lem unreleased revoked_never_launched h = absurd (ground arith)
phase_eq_lem may_launch unreleased h = absurd (ground arith)
phase_eq_lem may_launch launched h = absurd (ground arith)
phase_eq_lem may_launch revoked_never_launched h = absurd (ground arith)
phase_eq_lem launched unreleased h = absurd (ground arith)
phase_eq_lem launched may_launch h = absurd (ground arith)
phase_eq_lem launched revoked_never_launched h = absurd (ground arith)
phase_eq_lem revoked_never_launched unreleased h = absurd (ground arith)
phase_eq_lem revoked_never_launched may_launch h = absurd (ground arith)
phase_eq_lem revoked_never_launched launched h = absurd (ground arith)

-- Whether a call reported a launch, as a number.
abbrev pub reported : Option CallerChainEntry → ℕ
reported none = 0
reported (some workload) = 1

pub Told-none : {n : ℕ} (d : Source) → Told 0 n d → AtMost n d
Told-none d h = omega arith

module _ (n : ℕ) where
  pub transition-Meets :
      (k : ℕ) (f : Fence) (phase : Phase) (P : Source → Type 0)
      → ((d : Source) → P d → AtMost n d)
      → ((d : Source) → P d → k + launches_left_of phase ≤ n)
      → Meets (AtMost n) P (transition f phase) (λ _. Told k n)
  unfolding transition launches_left
  transition-Meets k f phase P weaker fits =
      Meets-if (ltb f.revision 18446744073709551615) _
        (raise (error_other "launch revision overflow"))
        (λ _.
          Meets-commit (put_fence (record f { revision = f.revision + 1; phase = phase })) weaker
            (λ d h. let enough = fits d h in (omega arith, enough)))
        (λ _. Meets-raise (error_other "launch revision overflow") weaker)

  module _ {A : Type 0} (same : A → A → Bool) (get_file : Source → Option A)
      (put_file : A → Source → Source) (content : A) (P : Source → Type 0)
      (weaker : (d : Source) → P d → AtMost n d)
      (kept : (d : Source) → get_file d ≡ none → P d → P (put_file content d)) where
    publish_new-Meets :
        (file : Option A)
        → Meets
            (AtMost n)
            (λ d. (get_file d ≡ file) × P d)
            (publish_new same get_file put_file content file)
            (λ _. P)
    unfolding publish_new
    publish_new-Meets (some present) =
        Meets-if (same present content) _ (raise (error_other "immutable source conflict"))
          (λ _. Meets-pure tt (λ d h. h.1))
          (λ _. Meets-raise (error_other "immutable source conflict") (λ d h. weaker d h.1))
    publish_new-Meets none =
        Meets-bind (λ _ d. (get_file d ≡ none) × P d) _ _
          (Meets-look (λ d. tt) (λ d h. weaker d h.1) (λ d h. h))
          (λ _.
            Meets-bind (λ _. P) _ _
              (Meets-commit (put_file content) (λ d h. weaker d h.1)
                (λ d h. let after = kept d h.0 h.1 in (weaker _ after, after)))
              (λ _. Meets-look (λ d. tt) weaker (λ d h. h)))

    pub immutable-Meets : Meets (AtMost n) P (immutable same get_file put_file content) (λ _. P)
    unfolding immutable
    immutable-Meets =
        Meets-bind (λ file d. (get_file d ≡ file) × P d) _ _
          (Meets-look get_file weaker (λ d h. (refl, h))) publish_new-Meets

  -- Of the code that touches no fence.
  pub lift-Meets :
      {A : Type 0} (P : Source → Type 0) (r : Result A)
      → ((d : Source) → P d → AtMost n d)
      → Meets (AtMost n) P (lift r) (λ _. P)
  lift-Meets P r weaker = Meets-lift r weaker (λ a e d h. h)

  pub put_local-Meets :
      (P : Source → Type 0) (v : Value)
      → ((d : Source) → P d → AtMost n d)
      → Meets (AtMost n) P (commit (put_local v)) (λ _. AtMost n)
  unfolding launches_left
  put_local-Meets P v weaker = Meets-commit (put_local v) weaker (λ d h. (weaker d h, weaker d h))

  module _ (paths : Paths) (digest : Value → List ℕ) (self : Result CallerChainEntry) where
    pub prepare-Meets :
        (registration : Value) (worker : CallerChainEntry)
        → Meets
            (AtMost n)
            (AtMost n)
            (prepare paths digest self registration worker)
            (λ _. AtMost n)
    unfolding prepare launches_left
    prepare-Meets registration worker =
        Meets-bind (λ _. AtMost n) _ _
          (immutable-Meets value_eq registration_file put_registration registration (AtMost n)
            (λ d h. h) (λ d e h. h))
          (λ _.
            Meets-bind (λ _. AtMost n) _ _
              (immutable-Meets fence_eq fence_file put_fence _ (AtMost n) (λ d h. h)
                (λ d e h. subst (λ file. left_in file ≤ n) e h))
              (λ _. put_local-Meets (AtMost n) _ (λ d h. h)))

    pub binding-Meets : Meets (AtMost n) (AtMost n) (binding paths digest self) (λ _. AtMost n)
    unfolding binding
    binding-Meets =
        Meets-bind (λ _. AtMost n) _ _ (Meets-look registration_file (λ d h. h) (λ d h. h))
          (λ file.
            Meets-bind (λ _. AtMost n) _ _ (lift-Meets (AtMost n) (or_missing file) (λ d h. h))
              (λ registration.
                lift-Meets (AtMost n) (binding_of paths digest registration) (λ d h. h)))

    pub own_fence-Meets :
        (b : Binding) → Meets (AtMost n) (AtMost n) (own_fence paths digest self b) (λ f. Holds n f)
    unfolding own_fence
    own_fence-Meets b =
        Meets-bind (λ file d. (d.fence ≡ file) × AtMost n d) _ _
          (Meets-look fence_file (λ d h. h) (λ d h. (refl, h)))
          (λ file.
            Meets-bind (λ f. Holds n f) _ _
              (Meets-lift (or_missing file) (λ d h. h.1) (λ f e d h. (h.0 ∙ present file f e, h.1)))
              (λ f.
                Meets-bind (λ _. Holds n f) _ _
                  (lift-Meets (Holds n f) (exact b.common f.common) (λ d h. h.1))
                  (λ _. Meets-pure f (λ d h. h))))
      where
        present : (file : Option Fence) (f : Fence) → or_missing file ≡ ok f → file ≡ some f
        present none f e = absurd (ground arith)
        present (some g) f e = ground arith
