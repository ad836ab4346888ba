-- ===== src/DeliveryRole.antt =====
-- src/delivery_role.rs: the shared slot that names the one completion custodian, and the challenge by
-- which that custodian proves that it still holds its descendants. `none` is a process in which
-- `initialize` was not called. Each function below is one atomic access, or a chain of them.
pub mod Slot
pub mod Containment
mod Tests
use agent_bash_tool.Common.{
  ℕ, zero, suc, ◌+◌, ◌-◌, ◌^◌, Bool, true, false, not, Option, none, some, ltb, ◌==◌, if◌then◌else◌,
}
use agent_bash_tool.Common.Int.{ℤ, pos, negsuc, neg, int_eq, int_leb}

pub record Role : Type 0 where
  pub pid : ℤ
  pub challenge : ℕ
  pub acknowledged : ℕ

abbrev pub unknown : ℤ
unknown = negsuc 0

-- `initialize`: what is written into the fresh shared mapping.
pub initialize : Option Role
initialize = some (record { pid = pos 0; challenge = 0; acknowledged = 0 })

-- `compare_exchange(old, new)` on the slot: the new value, and whether it was stored.
abbrev pub compare_exchange : Role → ℤ → ℤ → Role × Bool
compare_exchange r old new = if int_eq r.pid old then (record r { pid = new }, true) else (r, false)

pub enabled : Option Role → Bool
enabled none = false
enabled (some r) = true

pub pending : Option Role → Bool
pending none = false
pending (some r) = not (int_eq r.pid (pos 0))

pub data PublishError : Type 0 where
  unavailable still_owned : PublishError

-- `none` in the second part is success.
pub publish : ℤ → Option Role → Option Role × Option PublishError
publish pid none = (none, some unavailable)
publish pid (some r) =
    let (r', stored) = compare_exchange r (pos 0) pid in
    (some r', if stored then none else some still_owned)

-- Called by the custodian `me` once `waitpid` reported ECHILD.
pub drained : ℤ → Option Role → Option Role
drained me none = none
drained me (some r) = some (compare_exchange r me (neg me)).0

pub retired_slot : ℤ → ℤ → ℤ
retired_slot value pid =
    if int_eq value pid then unknown else if int_eq value (neg pid) then pos 0 else value

-- The load of `before_reap`: the value, and what is to be stored instead, if that differs.
pub retire_load : ℤ → Role → Option (ℤ × ℤ)
unfolding retired_slot
retire_load pid r =
    let retired = retired_slot r.pid pid in
    if int_eq retired r.pid then none else some (r.pid, retired)

-- Its store, which fails if the slot has changed since the load.
pub retire_store : Option (ℤ × ℤ) → Role → Role
retire_store none r = r
retire_store (some (value, retired)) r = (compare_exchange r value retired).0

-- Both, with nothing in between.
pub before_reap : ℤ → Option Role → Option Role
unfolding retire_load retire_store
before_reap pid none = none
before_reap pid (some r) = some (retire_store (retire_load pid r) r)

pub guardian_tree_drained : Option Role → Option Role
guardian_tree_drained none = none
guardian_tree_drained (some r) = some (compare_exchange r unknown (pos 0)).0

-- What `pidfd_open` and `poll` report of the custodian.
pub data PidfdState : Type 0 where
  open_failed not_live live : PidfdState

pub data Exclusion : Type 0 where
  nothing : Exclusion
  excluded : ℤ → Exclusion
  role_unknown os_error custodian_not_live : Exclusion

abbrev of_pidfd : ℤ → PidfdState → Exclusion
of_pidfd value open_failed = os_error
of_pidfd value not_live = custodian_not_live
of_pidfd value live = excluded value

pub exclusion : (ℤ → PidfdState) → Option Role → Exclusion
exclusion pidfd none = nothing
exclusion pidfd (some r) =
    if int_eq r.pid (pos 0)
    then nothing
    else if int_eq r.pid unknown
    then role_unknown
    else if int_leb r.pid unknown
    then nothing
    else of_pidfd r.pid (pidfd r.pid)

-- `confirm_role` up to its loop, its load of the pid and its update of the challenge as one access: `none`
-- refuses, `some` holds the challenge that was issued.
pub issue_challenge : ℤ → Role → Option (Role × ℕ)
issue_challenge pid r =
    if int_eq r.pid pid
    then (if ltb (r.challenge + 1) (2 ^ 64)
        then some (record r { challenge = r.challenge + 1 }, r.challenge + 1)
        else none)
    else none

-- The two loads of one turn of its loop.
pub slot_is : ℤ → Role → Bool
slot_is pid r = int_eq r.pid pid

pub answered : ℕ → Role → Bool
answered challenge r = r.acknowledged == challenge

-- `acknowledge_containment`: the custodian loads the challenge, then stores it.
pub acknowledge_load : Role → ℕ
acknowledge_load r = r.challenge

pub acknowledge_store : ℕ → Role → Role
acknowledge_store challenge r = record r { acknowledged = challenge }
