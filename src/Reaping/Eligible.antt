-- ===== src/Reaping/Eligible.antt =====
-- What makes a handle directory eligible for removal in src/state.rs: `state_dir_reap_eligible`. What the
-- file system and /proc answer while a directory is looked at is a record of answers.
use agent_bash_tool.Common.{
  ℕ, ◌-◌, ◌*◌, min, max, Bool, true, false, not, ◌&&◌, ◌||◌, Option, none, some, String, str_eq,
  List, ◌==◌, ltb, leb, if◌then◌else◌, is_empty, length, keep_if,
}
use agent_bash_tool.Common.Int.{ℤ}
use agent_bash_tool.Common.Bytes.{codes, text_eq, strip_prefix, split}
use agent_bash_tool.Completion.{is_some, completion_lifecycle, needs_progress}
use agent_bash_tool.Meta.{Meta, is_final_state}
use agent_bash_tool.Identity.{
  StatResult, ProcessIdentityEvidence, live, gone, mismatch, unavailable, inspect_process_identity,
}
use agent_bash_tool.Custody.{Files, physical_custody_may_remain}
use agent_bash_tool.RootProtocol.Json.{Value, at, as_str, is_text, is_true, value_eq}

-- A JSON file that may be absent. One that cannot be read or parsed, or is over 1 MiB, is `broken`.
pub data JsonFile : Type 0 where
  absent broken : JsonFile
  content : Value → JsonFile

-- What `symlink_metadata` says of a handle's directory.
pub data Lookup : Type 0 where
  not_there failing : Lookup
  there : Bool → Lookup

-- What is answered while one handle is looked at.
pub record Handle : Type 0 where
  pub name : List ℕ
  pub accepted : JsonFile
  pub root_result : JsonFile
  pub directory : List ℕ → Lookup
  pub continuation_enabled : Bool
  -- none where the release could not be read
  pub retention_released : Option Bool
  pub meta : Option Meta
  pub custody : Files
  pub proc : ℤ → StatResult
  pub modified_at : Option ℕ

pub record ReapConfig : Type 0 where
  pub ttl_secs : ℕ
  pub max_dirs : ℕ
  pub max_scan : ℕ
  pub shards : ℕ
  pub now : ℕ

-- `secs_to_ms`, saturating at the largest 64-bit number.
unfoldable pub ttl_ms : ReapConfig → ℕ
ttl_ms config = min (config.ttl_secs * 1000) 18446744073709551615

-- A part of a path that `components` leaves out, but for a leading dot.
abbrev is_left_out : List ℕ → Bool
is_left_out part = is_empty part || text_eq part (codes ".")

-- `components().count() == 1`, of a name that begins with neither a slash nor a dot.
abbrev pub is_one_component : List ℕ → Bool
is_one_component name = length (keep_if (λ part. not (is_left_out part)) (split 47 name)) == 1

abbrev pub starts_with : List ℕ → List ℕ → Bool
starts_with prefix text = is_some (strip_prefix prefix text)

abbrev pub is_directory : Lookup → Option Bool
is_directory not_there = some false
is_directory failing = none
is_directory (there directory) = some directory

abbrev pub parent_retains : (List ℕ → Lookup) → Option (List ℕ) → Option Bool
parent_retains directory none = none
parent_retains directory (some parent) =
    if is_one_component parent && starts_with (codes "ab_") parent
    then is_directory (directory parent)
    else none

abbrev pub registration_retains : (List ℕ → Lookup) → Value → Option Bool
registration_retains directory registration =
    if is_text (at registration (codes "kind")) (codes "root")
    then some false
    else if is_text (at registration (codes "kind")) (codes "nested")
    then parent_retains directory (as_str (at registration (codes "parent_work_id")))
    else none

-- `none` is an error.
abbrev pub causal_parent_of : (List ℕ → Lookup) → JsonFile → Option Bool
causal_parent_of directory absent = some false
causal_parent_of directory broken = none
causal_parent_of directory (content value) =
    registration_retains directory (at value (codes "registration"))

unfoldable pub causal_parent_retains : Handle → Option Bool
causal_parent_retains h = causal_parent_of h.directory h.accepted

abbrev pub is_nonempty : Option (List ℕ) → Bool
is_nonempty none = false
is_nonempty (some text) = not (is_empty text)

abbrev pub protocol : List ℕ
protocol = codes "original-work-v1"

abbrev pub is_acceptance : List ℕ → Value → Bool
is_acceptance name value =
    is_text (at value (codes "protocol")) protocol
    && is_text (at value (codes "work_id")) name
    && is_nonempty (as_str (at value (codes "root_id")))
    && is_some (as_str (at (at value (codes "registration")) (codes "kind")))

-- The result says that the tree of this work is drained.
abbrev pub is_drained_result : List ℕ → Value → Value → Bool
is_drained_result name acceptance result =
    is_text (at result (codes "protocol")) protocol
    && is_text (at result (codes "work_id")) name
    && value_eq (at result (codes "root_id")) (at acceptance (codes "root_id"))
    && is_nonempty (as_str (at result (codes "result_nonce")))
    && is_true (at result (codes "physical_tree_drained"))
    && is_nonempty (as_str (at result (codes "outcome")))

abbrev pub result_pending : List ℕ → Value → JsonFile → Option Bool
result_pending name acceptance absent = some true
result_pending name acceptance broken = none
result_pending name acceptance (content result) =
    some (not (is_drained_result name acceptance result))

abbrev pub root_pending_of : List ℕ → JsonFile → JsonFile → Option Bool
root_pending_of name absent result = some false
root_pending_of name broken result = none
root_pending_of name (content value) result =
    if not (is_acceptance name value)
    then some true
    else if not (is_text (at (at value (codes "registration")) (codes "kind")) (codes "root"))
    then some false
    else result_pending name value result

unfoldable pub accepted_root_result_pending : Handle → Option Bool
accepted_root_result_pending h = root_pending_of h.name h.accepted h.root_result

-- `unwrap_or`
abbrev pub unwrap_or : Bool → Option Bool → Bool
unwrap_or default none = default
unwrap_or default (some b) = b

abbrev pub is_gone_or_reused : ProcessIdentityEvidence → Bool
is_gone_or_reused gone = true
is_gone_or_reused mismatch = true
is_gone_or_reused live = false
is_gone_or_reused unavailable = false

unfoldable pub process_is_gone_or_reused :
    (ℤ → StatResult) → Option ℤ → Option ℕ → Option String → String → Bool
process_is_gone_or_reused proc pid starttime recorded_boot boot =
    is_gone_or_reused (inspect_process_identity proc pid starttime recorded_boot boot)

abbrev pub supervisor_gone : Handle → String → Meta → Bool
supervisor_gone h boot m =
    process_is_gone_or_reused h.proc m.supervisor_pid m.supervisor_starttime m.process_boot_id boot

abbrev pub workload_gone : Handle → String → Meta → Bool
workload_gone h boot m =
    process_is_gone_or_reused h.proc m.workload_pid m.workload_starttime m.process_boot_id boot

abbrev is_reason : String → Option String → Bool
is_reason reason none = false
is_reason reason (some text) = str_eq text reason

unfoldable pub ready_sentinel_workload_may_be_running : Handle → String → Meta → Bool
ready_sentinel_workload_may_be_running h boot m =
    if not (is_reason "ready-sentinel" m.completion_reason)
      || is_some m.workload_rc
      || is_some m.workload_signal
    then false
    else not (workload_gone h boot m)

unfoldable pub meta_is_reap_terminal : Handle → String → Meta → Bool
meta_is_reap_terminal h boot m =
    is_final_state m.state
    && is_some m.completed_at
    && not (ready_sentinel_workload_may_be_running h boot m)

abbrev pub or_zero : Option ℕ → ℕ
or_zero none = 0
or_zero (some n) = n

abbrev pub age_of : Option ℕ → ℕ → ℕ
age_of none now = 0
age_of (some modified) now = now - modified

-- Subtraction saturates at 0.
unfoldable pub state_dir_reap_age_ms : Handle → Meta → ℕ → ℕ
state_dir_reap_age_ms h m now =
    let reference = max (or_zero m.completed_at) m.updated_at in
    if ltb 0 reference then now - reference else age_of h.modified_at now

abbrev pub old_enough : Handle → ReapConfig → Meta → Bool
old_enough h config m = leb (ttl_ms config) (state_dir_reap_age_ms h m config.now)

abbrev pub settled : Handle → String → Meta → Bool
settled h boot m =
    if meta_is_reap_terminal h boot m
    then not (needs_progress (completion_lifecycle m.delivery))
    else str_eq m.state "RUNNING" && supervisor_gone h boot m && workload_gone h boot m

abbrev pub meta_eligible : Handle → ReapConfig → String → Option Meta → Bool
meta_eligible h config boot none = false
meta_eligible h config boot (some m) =
    if physical_custody_may_remain h.custody (codes boot)
    then false
    else if is_some m.supervisor_pid && not (supervisor_gone h boot m)
    then false
    else if not (old_enough h config m)
    then false
    else settled h boot m

unfoldable pub state_dir_reap_eligible : Handle → ReapConfig → String → Bool
state_dir_reap_eligible h config boot =
    if unwrap_or true (causal_parent_retains h)
    then false
    else if h.continuation_enabled && not (unwrap_or false h.retention_released)
    then false
    else if unwrap_or true (accepted_root_result_pending h)
    then false
    else meta_eligible h config boot h.meta
