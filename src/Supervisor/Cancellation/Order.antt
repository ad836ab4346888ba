-- ===== src/Supervisor/Cancellation/Order.antt =====
-- The precedence of causes as a least upper bound, and the names of causes as a round trip.
use agent_bash_tool.Common.{◌≡◌, ◌↔◌, max, refl, ◌∙◌, ap, true, some, String, str_eq, eq_iff, arith}
use agent_bash_tool.Supervisor.Cancellation.{
  CancellationCause, owner_exit, explicit_request, causal_parent, root_authority_lost,
  output_capture_failure, rank, with_precedence_over, with_observed_explicit_cancel,
  from_completion_reason, completion_reason,
}

rank_injective : (a b : CancellationCause) → rank a ≡ rank b → a ≡ b
rank_injective a b h = ground arith

from-completion_reason :
    (c : CancellationCause) → from_completion_reason (completion_reason c) ≡ some c
unfolding from_completion_reason completion_reason
from-completion_reason owner_exit = refl
from-completion_reason explicit_request = refl
from-completion_reason causal_parent = refl
from-completion_reason root_authority_lost = refl
from-completion_reason output_capture_failure = refl

reason-of :
    (s : String) (c : CancellationCause)
    → from_completion_reason s ≡ some c
    → s ≡ completion_reason c
unfolding from_completion_reason completion_reason
reason-of s owner_exit h =
    let a : (str_eq s "owner-exit" ≡ true) → s ≡ "owner-exit" = (eq_iff s "owner-exit").0 in
    ground arith
reason-of s explicit_request h = let a = eq_iff s "cancel-request" in ground arith
reason-of s causal_parent h = let a = eq_iff s "causal-parent-cancelled" in ground arith
reason-of s root_authority_lost h = let a = eq_iff s "root-authority-lost" in ground arith
reason-of s output_capture_failure h = let a = eq_iff s "output-capture-failed" in ground arith

rank-max : (a b : CancellationCause) → rank (with_precedence_over a b) ≡ max (rank a) (rank b)
unfolding with_precedence_over
rank-max a b = ground arith

-- Combining causes does not depend on the order or grouping in which they are observed, an explicit
-- request wins over every cause, and losing the root authority over none.
precedence_laws :
    (a b c : CancellationCause)
    → (with_precedence_over a b ≡ with_precedence_over b a)
      × (with_precedence_over (with_precedence_over a b) c
          ≡ with_precedence_over a (with_precedence_over b c))
      × (with_observed_explicit_cancel a true ≡ explicit_request)
      × (with_precedence_over a root_authority_lost ≡ a)
unfolding with_observed_explicit_cancel
precedence_laws a b c = (
  rank_injective _ _ (omega (arith, rank-max a b, rank-max b a)),
  rank_injective _ _ (
      omega (
        arith,
        rank-max (with_precedence_over a b) c,
        rank-max a b,
        rank-max a (with_precedence_over b c),
        rank-max b c,
      )),
  explicit a,
  weakest a,
)
  where
    explicit : (x : CancellationCause) → with_precedence_over x explicit_request ≡ explicit_request
    explicit x = rank_injective _ _ (ground (arith, rank-max x explicit_request))

    weakest : (x : CancellationCause) → with_precedence_over x root_authority_lost ≡ x
    weakest x = rank_injective _ _ (ground (arith, rank-max x root_authority_lost))

-- A completion reason is read back as a cause exactly if it is the name that the cause is written under.
pub reason_roundtrip :
    (s : String) (c : CancellationCause)
    → (from_completion_reason s ≡ some c) ↔ (s ≡ completion_reason c)
reason_roundtrip s c = (reason-of s c, λ e. ap from_completion_reason e ∙ from-completion_reason c)
