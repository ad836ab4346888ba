-- ===== src/RootWork/Replay.antt =====
-- When the response to a submitted work is taken as its rejection, `submit_response_disposition` of
-- src/root_work.rs.
use agent_bash_tool.Common.{
  ℕ, ◌≡◌, refl, ◌↔◌, inl, inr, Bool, true, false, ◌&&◌, ◌||◌, List, if◌then◌else◌, arith,
  Bool-cases, both,
}
use agent_bash_tool.Common.Bytes.{codes, text_eq, text_eq_sound, text_eq_refl}
use agent_bash_tool.Effects.{ok}
use agent_bash_tool.RootWork.{
  WorkSubmission, WorkResponse, names_submission, is_absent, validate_response, accepted,
  rejected_preaccept, effects_possible_no_replay, disposition_of, submit_response_disposition,
}

-- The response is about this submission: the same work, root and supervisor under this protocol.
pub record IsOf (submission : WorkSubmission) (response : WorkResponse) : Type 0 where
  pub protocol : response.protocol ≡ codes "original-work-v1"
  pub work : response.work_id ≡ submission.work_id
  pub root : response.root_id ≡ submission.root_id
  pub supervisor : response.supervisor_authority_id ≡ submission.supervisor_authority_id

named-IsOf : (r : WorkResponse) (s : WorkSubmission) → names_submission r s ≡ true → IsOf s r
named-IsOf r s h =
    let supervisor = both _ (text_eq r.supervisor_authority_id s.supervisor_authority_id) h in
    let root = both _ (text_eq r.root_id s.root_id) supervisor.0 in
    let work = both _ (text_eq r.work_id s.work_id) root.0 in
    record {
      protocol = text_eq_sound r.protocol (codes "original-work-v1") work.0;
      work = text_eq_sound r.work_id s.work_id work.1;
      root = text_eq_sound r.root_id s.root_id root.1;
      supervisor = text_eq_sound r.supervisor_authority_id s.supervisor_authority_id supervisor.1;
    }

IsOf-named : (r : WorkResponse) (s : WorkSubmission) → IsOf s r → names_submission r s ≡ true
IsOf-named r s i =
    rw
      (
        i.protocol,
        i.work,
        i.root,
        i.supervisor,
        text_eq_refl s.work_id,
        text_eq_refl s.root_id,
        text_eq_refl s.supervisor_authority_id,
      )
      refl

unrejected :
    (b : Bool)
    → (if b then accepted else if false then rejected_preaccept else effects_possible_no_replay)
      ≡ rejected_preaccept
    → ⊥
unrejected true h = ground arith
unrejected false h = ground arith

rejected_status :
    (status : List ℕ)
    → disposition_of status (ok tt) ≡ rejected_preaccept
    → status ≡ codes "rejected_preaccept"
rejected_status status h = elim (Bool-cases (text_eq status (codes "rejected_preaccept"))) [
  | inl same ↦ text_eq_sound status (codes "rejected_preaccept") same
  | inr other ↦ absurd (
      unrejected
        (text_eq status (codes "accepted") || text_eq status (codes "already_accepted_no_replay"))
        (rw other at h))
]

rejected-IsOf :
    (r : WorkResponse) (s : WorkSubmission)
    → submit_response_disposition r s ≡ rejected_preaccept
    → IsOf s r × (r.status ≡ codes "rejected_preaccept")
unfolding submit_response_disposition validate_response
rejected-IsOf r s h = elim (Bool-cases (names_submission r s)) [
  | inr foreign ↦ absurd (ground arith)
  | inl named ↦
      elim (Bool-cases (text_eq r.status (codes "accepted") && is_absent r.worker_identity)) [
        | inl anonymous ↦ absurd (ground arith)
        | inr known ↦ (named-IsOf r s named, rejected_status r.status (rw (named, known) at h))
      ]
]

IsOf-rejected :
    (r : WorkResponse) (s : WorkSubmission)
    → IsOf s r × (r.status ≡ codes "rejected_preaccept")
    → submit_response_disposition r s ≡ rejected_preaccept
unfolding submit_response_disposition validate_response
IsOf-rejected r s (of_it, status) = rw (IsOf-named r s of_it, status) refl

-- A response is taken as a rejection exactly if it names this protocol, work, root and supervisor and says
-- that the work was rejected before it was accepted.
submit_response-IsOf :
    (r : WorkResponse) (s : WorkSubmission)
    → (submit_response_disposition r s ≡ rejected_preaccept)
      ↔ (IsOf s r × (r.status ≡ codes "rejected_preaccept"))
submit_response-IsOf r s = (λ h. rejected-IsOf r s h, λ h. IsOf-rejected r s h)
