-- ===== src/Continuation/Steps.antt =====
-- How many launches each operation of the launch fence of src/continuation.rs leaves, wherever faults stop
-- it.
use agent_bash_tool.Common.{
  String, ℕ, ◌+◌, ◌≤◌, ◌≡◌, ap, ◌∙◌, Bool, true, false, none, some, List, arith, both,
}
use agent_bash_tool.Effects.{error_other, Result, pure, raise}
use agent_bash_tool.Effects.Meets.{
  Meets, Meets-pure, Meets-raise, Meets-if, Meets-look, Meets-bind, Meets-weaken, Meets-loosen,
}
use agent_bash_tool.Identity.{CallerChainEntry}
use agent_bash_tool.RootProtocol.Json.{Value, value_eq}
use agent_bash_tool.Continuation.{
  abandon, abandon_registered, admit, confirm_launch, is_enabled, is_receipt, launch_of,
  launch_registered, launch_with, may_spend, record_launch, require, revoke, spend,
}
use agent_bash_tool.Continuation.Accesses.{
  AtMost, Holds, Told, Told-none, Told-of_none, binding-Meets, immutable-Meets, launches_left,
  launches_left_of, left_in, lift-Meets, own_fence-Meets, phase_eq_lem, put_local-Meets, reported,
  transition-Meets,
}
use agent_bash_tool.Continuation.Files.{
  Fence, Paths, Phase, Source, exact, launched, local_file, may_launch, or_missing, phase_eq,
  put_receipt, receipt_file, revoked_never_launched, unreleased,
}

module _ (n : ℕ) (paths : Paths) (digest : Value → List ℕ) (self : Result CallerChainEntry) where
  Unspent : Fence → Source → Type 0
  Unspent f d = Holds n f d × (f.phase ≡ unreleased)

  Unspent-left :
      (f : Fence) (phase : Phase)
      → launches_left_of phase ≤ 1
      → (d : Source) → Unspent f d
      → 0 + launches_left_of phase ≤ n
  unfolding Unspent launches_left
  Unspent-left f phase small d h =
      let one : launches_left d ≡ 1 = ap left_in h.0.0 ∙ ap launches_left_of h.1 in
      let less : launches_left d ≤ n = h.0.1 in omega arith

  admit-Meets :
      (f : Fence) (reply : Value)
      → Meets (AtMost n) (Unspent f) (admit paths digest self f reply) (λ _. AtMost n)
  unfolding admit Unspent launches_left
  admit-Meets f reply =
      Meets-bind (λ _. Unspent f) _ _
        (immutable-Meets n value_eq receipt_file put_receipt reply (Unspent f) (λ d h. h.0.1)
          (λ d e h. h))
        (λ _.
          Meets-bind (λ _. Told 0 n) _ _
            (transition-Meets n 0 f may_launch (Unspent f) (λ d h. h.0.1)
              (Unspent-left f may_launch (omega arith)))
            (λ _.
              Meets-weaken _ (λ d h. Told-none d h)
                (Meets-bind (λ _. AtMost n) _ _ (Meets-look local_file (λ d h. h) (λ d h. h))
                  (λ file.
                    Meets-bind (λ _. AtMost n) _ _
                      (lift-Meets n (AtMost n) (or_missing file) (λ d h. h))
                      (λ v. put_local-Meets n (AtMost n) _ (λ d h. h))))))

  spend-Meets :
      (reply : Value) (f : Fence) (own : CallerChainEntry)
      → Meets (AtMost n) (Holds n f) (spend paths digest self reply f own) (λ _. AtMost n)
  unfolding spend Unspent
  spend-Meets reply f own =
      Meets-if (may_spend paths digest self f own) _
        (raise (error_other "original launch authority is not spendable"))
        (λ may.
          Meets-weaken _ (λ d h. (h, phase_eq_lem f.phase unreleased (both _ _ may).1))
            (admit-Meets f reply))
        (λ _. Meets-raise (error_other "original launch authority is not spendable") (λ d h. h.1))

  require-Meets :
      (holds : Bool) (message : String)
      → Meets (AtMost n) (AtMost n) (require paths digest self holds message) (λ _. AtMost n)
  require-Meets true message = Meets-pure tt (λ d h. h)
  require-Meets false message = Meets-raise (error_other message) (λ d h. h)

  pub confirm_launch-Meets :
      (reply : Value)
      → Meets (AtMost n) (AtMost n) (confirm_launch paths digest self reply) (λ _. AtMost n)
  unfolding confirm_launch
  confirm_launch-Meets reply =
      Meets-bind (λ _. AtMost n) _ _ (binding-Meets n paths digest self)
        (λ b.
          Meets-bind (λ _. AtMost n) _ _ (lift-Meets n (AtMost n) (exact b.common reply) (λ d h. h))
            (λ _.
              Meets-bind (λ _. AtMost n) _ _
                (require-Meets (is_receipt paths digest self b reply)
                  "not an exact committed registration receipt")
                (λ _.
                  Meets-bind (λ f. Holds n f) _ _ (own_fence-Meets n paths digest self b)
                    (λ f.
                      Meets-bind (λ _. Holds n f) _ _ (lift-Meets n (Holds n f) self (λ d h. h.1))
                        (λ own. spend-Meets reply f own)))))

  revoke-Meets :
      (f : Fence) (own : CallerChainEntry)
      → Meets (AtMost n) (Holds n f) (revoke paths digest self f own) (λ _. AtMost n)
  unfolding revoke
  revoke-Meets f own =
      Meets-if (may_spend paths digest self f own) _ (pure tt)
        (λ _.
          Meets-loosen _ (λ d h. h) (λ _ d h. Told-none d h)
            (transition-Meets n 0 f revoked_never_launched (Holds n f) (λ d h. h.1)
              (λ d h. omega arith)))
        (λ _. Meets-pure tt (λ d h. h.1))

  pub abandon-Meets : Meets (AtMost n) (AtMost n) (abandon paths digest self) (λ _. AtMost n)
  unfolding abandon abandon_registered
  abandon-Meets =
      Meets-bind (λ _. AtMost n) _ _
        (Meets-look (is_enabled paths digest self) (λ d h. h) (λ d h. h))
        (λ on.
          Meets-if on (abandon_registered paths digest self) (pure tt)
            (λ _.
              Meets-bind (λ _. AtMost n) _ _ (binding-Meets n paths digest self)
                (λ b.
                  Meets-bind (λ f. Holds n f) _ _ (own_fence-Meets n paths digest self b)
                    (λ f.
                      Meets-bind (λ _. Holds n f) _ _ (lift-Meets n (Holds n f) self (λ d h. h.1))
                        (λ own. revoke-Meets f own))))
            (λ _. Meets-pure tt (λ d h. h)))

  -- A launch that is reported is one fewer that is left.
  launch_of-Meets :
      (child : Result CallerChainEntry) (f : Fence)
      → Meets
          (AtMost n)
          (Holds n f)
          (launch_of paths digest self child f)
          (λ told. Told (reported told) n)
  unfolding launch_of launch_with launches_left
  launch_of-Meets child f =
      Meets-if (phase_eq f.phase may_launch) _ (raise (error_other "launch fence conflict"))
        (λ spendable.
          Meets-bind (λ _. Holds n f) _ _ (lift-Meets n (Holds n f) child (λ d h. h.1))
            (λ workload.
              Meets-bind (λ _. Told 1 n) _ _
                (transition-Meets n 1 (record f { workload_identity = some workload }) launched
                  (Holds n f) (λ d h. h.1)
                  (λ d h.
                    let one : launches_left d ≡ 1 =
                      ap left_in h.0
                      ∙ ap launches_left_of (phase_eq_lem f.phase may_launch spendable) in
                    let less : launches_left d ≤ n = h.1 in omega arith))
                (λ _. Meets-pure (some workload) (λ d h. h))))
        (λ _. Meets-raise (error_other "launch fence conflict") (λ d h. h.1))

  pub record_launch-Meets :
      (child : Result CallerChainEntry)
      → Meets
          (AtMost n)
          (AtMost n)
          (record_launch paths digest self child)
          (λ told. Told (reported told) n)
  unfolding record_launch launch_registered
  record_launch-Meets child =
      Meets-bind (λ _. AtMost n) _ _
        (Meets-look (is_enabled paths digest self) (λ d h. h) (λ d h. h))
        (λ on.
          Meets-if on (launch_registered paths digest self child) (pure none)
            (λ _.
              Meets-bind (λ _. AtMost n) _ _ (binding-Meets n paths digest self)
                (λ b.
                  Meets-bind (λ f. Holds n f) _ _ (own_fence-Meets n paths digest self b)
                    (λ f. launch_of-Meets child f)))
            (λ _. Meets-pure none (λ d h. Told-of_none d h)))
