-- ===== src/DeliveryRole/Tests.antt =====
-- A custodian published, a store of another's, and a containment check that is answered.
use agent_bash_tool.Common.{ℕ, ◌≡◌, ◌≢◌, refl, true, false, none, some, [], ◌∷◌, arith}
use agent_bash_tool.Common.Int.{ℤ, pos}
use agent_bash_tool.DeliveryRole.{
  Role, pending, publish, still_owned, exclusion, PidfdState, nothing, issue_challenge, slot_is,
  answered, acknowledge_load, acknowledge_store,
}
use agent_bash_tool.DeliveryRole.Slot.{
  publishes, reaps, drains, access, accesses, child, publish_holds,
}
use agent_bash_tool.DeliveryRole.Containment.{
  System, idle, waiting, checked, confirmed, issues, custodian_loads, custodian_stores, checks_slot,
  checks_answer, Reach, here, next, confirmed_fresh,
}

abbrev empty_role : Role
empty_role = record { pid = pos 0; challenge = 0; acknowledged = 0 }

abbrev named_role : Role
named_role = record { pid = child 7; challenge = 3; acknowledged = 3 }

publish_holds_example :
    let t = accesses (reaps 7 ∷ drains 8 ∷ []) (access (publishes 7) (some empty_role)) in
    (pending t ≡ true)
    × ((n : ℕ) → publish (child n) t ≡ (t, some still_owned))
    × ((pidfd : ℤ → PidfdState) → exclusion pidfd t ≢ nothing)
publish_holds_example = publish_holds 7 (some empty_role) (reaps 7 ∷ drains 8 ∷ []) refl refl

abbrev asking : System
asking = record { role = named_role; loaded = none; phase = idle; fresh = false }

abbrev asked : System
asked = record asking { role = record named_role { challenge = 4 }; phase = waiting 4 }

abbrev answering : System
answering = record asked { loaded = some 4; fresh = true }

abbrev answer_stored : System
answer_stored = record answering {
  role = record answering.role { acknowledged = 4 };
  loaded = none;
}

abbrev slot_checked : System
slot_checked = record answer_stored { phase = checked 4 }

abbrev answer_checked : System
answer_checked = record answer_stored { phase = confirmed }

containment_check : Reach (child 7) asking answer_checked
unfolding issue_challenge slot_is answered acknowledge_load acknowledge_store
containment_check =
    next
      (next
        (next
          (next (next here (issues asking (record named_role { challenge = 4 }) 4 refl refl))
            (custodian_loads asked))
          (custodian_stores answering 4 refl))
        (checks_slot answer_stored 4 refl))
      (checks_answer slot_checked 4 refl)

confirmed_fresh_example : answer_checked.fresh ≡ true
confirmed_fresh_example =
    confirmed_fresh (child 7) asking answer_checked refl (omega arith) tt containment_check refl
