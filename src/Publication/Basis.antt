-- ===== src/Publication/Basis.antt =====
-- The registration that a source is bound to, and what an accepted cancellation of it rests on,
-- src/continuation.rs: `binding`, `cancellation_identity`.
use agent_bash_tool.Common.{
  ℕ, Bool, false, ◌&&◌, ◌||◌, Option, none, some, List, String, if◌then◌else◌,
}
use agent_bash_tool.Common.Bytes.{codes}
use agent_bash_tool.Effects.{error_other, Result, ok, err, ◌>>?◌}
use agent_bash_tool.Effects.Actors.{Program, returns, ◌>>=◌, ◌>>◌, lifted, reads, touches}
use agent_bash_tool.Meta.{Meta}
use agent_bash_tool.RootProtocol.Json.{Value, str, at, is_null, is_text, value_eq}
use text.Mathlib.Text.{◌==◌ as str_eq}
use agent_bash_tool.Publication.Evidence.{Evidence, Outside, or_null_value, with_text}
use agent_bash_tool.Publication.Immutable.{checks, immutable, is_there}
use agent_bash_tool.Continuation.Files.{Binding, Fence, binding_of, exact, or_missing, with_key}

module _ (o : Outside) where
  unfoldable pub binding : Program Evidence Binding
  binding = do
    file ← reads (λ d. d.source.registration)
    registration ← lifted (or_missing file)
    lifted (binding_of o.paths o.digest registration)

  -- The fence, if it is of this registration.
  unfoldable pub own_fence : Binding → Program Evidence Fence
  own_fence b = do
    file ← reads (λ d. d.source.fence)
    fence ← lifted (or_missing file)
    lifted (exact b.common fence.common)
    returns fence

  abbrev reason_is : Meta → String → Bool
  reason_is meta name = elim meta.completion_reason [ none ↦ false | some r ↦ str_eq r name ]

  abbrev root_protocol : List ℕ
  root_protocol = codes "original-work-v1"

  abbrev is_of_work : Value → Bool
  is_of_work v =
      is_text (at v (codes "protocol")) root_protocol
      && is_text (at v (codes "work_id")) o.paths.handle

  abbrev same_root : Value → Value → Bool
  same_root a b = value_eq (at a (codes "root_id")) (at b (codes "root_id"))

  abbrev causal_basis : Value → Value → Value → Result Value
  causal_basis receipt accepted causal =
      checks
        (is_of_work causal
          && same_root causal accepted
          && is_text (at causal (codes "cause")) (codes "causal_parent_cancelled")
          && is_null (at causal (codes "requester")))
        "causal cancellation receipt identity conflict"
      >>? λ _. ok (
          with_key (with_text receipt "basis" "root_causal_receipt") (codes "root_cancel_sha256")
            (str (o.digest causal)))

  abbrev work_basis : Value → Meta → Value → Value → Result Value
  work_basis receipt meta intent accepted =
      let named =
        with_key (with_key receipt (codes "accepted_work_sha256") (str (o.digest accepted)))
          (codes "root_id") (at accepted (codes "root_id")) in
      checks
        (is_of_work intent
          && is_of_work accepted
          && same_root intent accepted
          && is_text (at accepted (codes "request_sha256")) (o.digest intent))
        "paired cancellation acceptance identity conflict"
      >>? λ _.
          if reason_is meta "causal-parent-cancelled"
          then or_missing o.cancelling.causal >>? causal_basis named accepted
          else ok (
              with_key (with_text named "basis" "paired_worker_root_loss_observation")
                (codes "guardian_identity") (at intent (codes "guardian_identity")))

  abbrev paired_basis : Value → Meta → Result Value
  paired_basis receipt meta = or_missing o.cancelling.intent >>? λ intent.
      or_missing o.cancelling.accepted >>? work_basis receipt meta intent

  -- What the accepted cancellation rests on.
  unfoldable pub basis_of : Value → Meta → Option (List ℕ) → Result Value
  basis_of receipt meta (some request) = ok (
      with_key (with_text receipt "basis" "explicit_request") (codes "request_sha256")
        (str (o.body_digest request)))
  basis_of receipt meta none =
      if reason_is meta "owner-exit" && is_there o.cancelling.cancel_owner
      then ok (
          with_key (with_text receipt "basis" "registered_owner_lease") (codes "owner_identity")
            (or_null_value o.cancelling.cancel_owner))
      else if reason_is meta "causal-parent-cancelled" || reason_is meta "root-authority-lost"
      then paired_basis receipt meta
      else err (error_other "missing accepted cancellation basis")

  abbrev pub cancellation_file : Evidence → Option Value
  cancellation_file d = d.cancellation

  abbrev pub put_cancellation : Value → Evidence → Evidence
  put_cancellation v d = record d { cancellation = some v }

  unfoldable pub cancellation_identity : Meta → Program Evidence (List ℕ)
  unfolding immutable binding basis_of
  cancellation_identity meta = do
    b ← binding
    touches
    receipt ← lifted (basis_of b.common meta o.cancelling.accepted_cancel)
    immutable value_eq cancellation_file put_cancellation receipt
    returns (o.digest receipt)
