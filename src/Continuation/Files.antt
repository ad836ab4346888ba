-- ===== src/Continuation/Files.antt =====
-- The files of a registered source and how they are written, src/continuation.rs: the registration, the
-- launch fence, `exact`, `common`, `immutable`, `transition`.
use agent_bash_tool.Common.{
  ℕ, ◌+◌, Bool, true, false, not, ◌&&◌, Option, none, some, List, ◌==◌, ltb, if◌then◌else◌,
}
use agent_bash_tool.Common.Int.{int_eq}
use agent_bash_tool.Common.Bytes.{codes, text_eq}
use agent_bash_tool.Effects.{
  IoError, error_other, Result, ok, err, Exec, pure, raise, look, commit, ◌>>=◌, ◌>>◌,
}
use agent_bash_tool.Identity.{CallerChainEntry}
use agent_bash_tool.RootProtocol.Json.{
  Value, null, str, object, Fields, empty, field, get, at, is_null, is_text, value_eq,
}
use text.Mathlib.Text.{◌==◌ as str_eq}

pub data Phase : Type 0 where
  unreleased may_launch launched revoked_never_launched : Phase

-- `source-launch-v2.json`. `common` is the part that names the registration.
pub record Fence : Type 0 where
  pub common : Value
  pub revision : ℕ
  pub phase : Phase
  pub registration_worker : CallerChainEntry
  pub workload_identity : Option CallerChainEntry

-- The files of the handle's directory, `none` for one that is not there.
pub record Source : Type 0 where
  pub registration : Option Value
  pub fence : Option Fence
  pub receipt : Option Value
  pub local : Option Value

-- The handle and its directories.
pub record Paths : Type 0 where
  pub handle : List ℕ
  pub state_dir : List ℕ
  pub root : List ℕ

abbrev pub put_first : List ℕ → Value → Fields → Fields
put_first key value empty = field key value empty
put_first key value (field name v rest) =
    let kept = put_first key value rest in
    if text_eq name key then field key value rest else field name v kept

-- `value[key] = …` on an object.
abbrev pub with_key : Value → List ℕ → Value → Value
with_key (object fields) key v = object (put_first key v fields)
with_key other key v = object (field key v empty)

-- The keys that name the registration, with the digest of its file.
unfoldable pub common_of : Value → List ℕ → Value
common_of registration digest = object (
    field (codes "domain_id") (at registration (codes "domain_id")) (
      field (codes "handle") (at registration (codes "handle")) (
        field (codes "protocol") (at registration (codes "protocol")) (
          field (codes "registration_digest") (str digest) (
            field (codes "registration_id") (at registration (codes "registration_id"))
              (field (codes "source_id") (at registration (codes "source_id")) empty))))))

abbrev is_same : Value → Option Value → Bool
is_same expected none = false
is_same expected (some value) = value_eq value expected

unfoldable pub fields_agree : Fields → Value → Bool
fields_agree empty reply = true
fields_agree (field key expected rest) reply =
    let others = fields_agree rest reply in
    not (is_null expected) && is_same expected (get reply key) && others

abbrev pub agrees : Value → Value → Bool
agrees (object fields) reply = fields_agree fields reply
agrees null reply = false
agrees common reply = false

unfoldable pub exact : Value → Value → Result (Unit {0})
exact common reply =
    if agrees common reply then ok tt else err (error_other "continuation identity conflict")

abbrev protocol : List ℕ
protocol = codes "completion-continuation-v2"

abbrev names_the_source : Paths → Value → Bool
names_the_source paths registration =
    is_text (at registration (codes "protocol")) protocol
    && is_text (at registration (codes "handle")) paths.handle
    && is_text (at registration (codes "handle_dir")) paths.state_dir
    && is_text (at registration (codes "meta_relative")) (codes "meta.json")
    && is_text (at registration (codes "log_relative")) (codes "log")
    && is_text (at registration (codes "rc_relative")) (codes "rc")
    && is_text (at registration (codes "registration_relative"))
        (codes "source-registration-v2.json")
    && is_text (at registration (codes "outcome_relative")) (codes "source-outcome-v2.json")
    && is_text (at registration (codes "snapshot_relative")) (codes "completion-snapshot-v2.json")
    && is_text (at registration (codes "spool_root")) paths.root
    && is_text (at registration (codes "source_evidence_protocol")) protocol

-- What a call takes from the registration: the value itself and its common part.
pub record Binding : Type 0 where
  pub registration : Value
  pub common : Value

abbrev missing : IoError
missing = error_other "no such file"

abbrev pub or_missing : {A : Type 0} → Option A → Result A
or_missing none = err missing
or_missing (some a) = ok a

-- `binding`, of the registration that was read; `digest` is that of its bytes.
unfoldable pub binding_of : Paths → (Value → List ℕ) → Value → Result Binding
unfolding exact
binding_of paths digest registration =
    let common = common_of registration (digest registration) in
    if names_the_source paths registration && agrees common common
    then ok (record { registration = registration; common = common })
    else err (error_other "registration source binding conflict")

abbrev pub entry_eq : CallerChainEntry → CallerChainEntry → Bool
entry_eq a b =
    int_eq a.pid b.pid && a.starttime_ticks == b.starttime_ticks && str_eq a.boot_id b.boot_id

abbrev pub phase_eq : Phase → Phase → Bool
phase_eq unreleased unreleased = true
phase_eq may_launch may_launch = true
phase_eq launched launched = true
phase_eq revoked_never_launched revoked_never_launched = true
phase_eq _ _ = false

abbrev option_eq : Option CallerChainEntry → Option CallerChainEntry → Bool
option_eq none none = true
option_eq (some a) (some b) = entry_eq a b
option_eq none (some b) = false
option_eq (some a) none = false

abbrev pub fence_eq : Fence → Fence → Bool
fence_eq f g =
    value_eq f.common g.common
    && f.revision == g.revision
    && phase_eq f.phase g.phase
    && entry_eq f.registration_worker g.registration_worker
    && option_eq f.workload_identity g.workload_identity

-- `immutable`: a file that is there must have these bytes; else it is linked into place whole. The
-- accesses to the temporary file and to the directory may fail.
module _ {S A : Type 0} (same : A → A → Bool) (get_file : S → Option A) (put_file : A → S → S)
    (content : A) where
  unfoldable pub publish_new : Option A → Exec S (Unit {0})
  publish_new (some present) =
      if same present content then pure tt else raise (error_other "immutable source conflict")
  publish_new none = do look (λ d. tt); commit (put_file content); look (λ d. tt)

  unfoldable pub immutable : Exec S (Unit {0})
  unfolding publish_new
  immutable = do present ← look get_file; publish_new present

abbrev pub put_registration : Value → Source → Source
put_registration v d = record d { registration = some v }

abbrev pub put_fence : Fence → Source → Source
put_fence f d = record d { fence = some f }

abbrev pub put_receipt : Value → Source → Source
put_receipt v d = record d { receipt = some v }

abbrev pub put_local : Value → Source → Source
put_local v d = record d { local = some v }

abbrev pub registration_file : Source → Option Value
registration_file d = d.registration

abbrev pub fence_file : Source → Option Fence
fence_file d = d.fence

abbrev pub receipt_file : Source → Option Value
receipt_file d = d.receipt

abbrev pub local_file : Source → Option Value
local_file d = d.local

-- `transition`: the revision is checked against the largest 64-bit number.
unfoldable pub transition : Fence → Phase → Exec Source (Unit {0})
transition f phase =
    if ltb f.revision 18446744073709551615
    then commit (put_fence (record f { revision = f.revision + 1; phase = phase }))
    else raise (error_other "launch revision overflow")

abbrev pub first_fence : Value → CallerChainEntry → Fence
first_fence common worker = record {
  common = common;
  revision = 0;
  phase = unreleased;
  registration_worker = worker;
  workload_identity = none;
}

abbrev pub intent : Value → Value
intent common =
    with_key (with_key common (codes "registration") (str (codes "intent"))) (codes "enqueue")
      (str (codes "waiting_evidence"))
