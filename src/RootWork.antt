-- ===== src/RootWork.antt =====
-- The authority of original works in src/root_work.rs: whether a process may run without it, which is told
-- by its session keyring and its ancestors, and what the root's answer to a submitted work means.
pub mod Ring
pub mod Replay
mod Tests
use agent_bash_tool.Common.{
  ℕ, zero, suc, Bool, true, false, not, ◌&&◌, ◌||◌, Option, none, some, List, [], ◌∷◌, ◌++◌, ◌==◌,
  ltb, leb, if◌then◌else◌, length, is_empty,
}
use Prim.Native.String.{String, ◌++◌ as str_append}
use agent_bash_tool.Common.Bytes.{codes, text_eq, split, all_of, strip_prefix}
use agent_bash_tool.Common.Decimal.{is_digit, parse_unsigned, print_unsigned}
use agent_bash_tool.Effects.{IoError, error_other, Result, ok, err}
use agent_bash_tool.Identity.{CallerChainEntry}

abbrev pub u32_max : ℕ
u32_max = 4294967295

-- ';'
abbrev pub semicolon : ℕ
semicolon = 59

abbrev pub is_ring_hex : ℕ → Bool
is_ring_hex b = is_digit b || (leb 65 b && leb b 70) || (leb 97 b && leb b 102)

abbrev is_lower_hex : ℕ → Bool
is_lower_hex b = is_digit b || (leb 97 b && leb b 102)

abbrev is_dash_index : ℕ → Bool
is_dash_index i = i == 8 || i == 13 || i == 18 || i == 23

unfoldable pub uuid_bytes : ℕ → List ℕ → Bool
uuid_bytes i [] = true
uuid_bytes i (b ∷ bs) =
    let rest = uuid_bytes (suc i) bs in
    (if is_dash_index i then b == 45 else is_lower_hex b) && rest

abbrev byte_at : ℕ → List ℕ → ℕ
byte_at n [] = 0
byte_at zero (b ∷ bs) = b
byte_at (suc n) (b ∷ bs) = byte_at n bs

-- A random UUID in lower case: its version is 4 and its variant 8, 9, a or b.
unfoldable pub valid_paired_ring_uuid : List ℕ → Bool
valid_paired_ring_uuid uuid =
    length uuid == 36
    && uuid_bytes 0 uuid
    && byte_at 14 uuid == 52
    && (byte_at 19 uuid == 56
        || byte_at 19 uuid == 57
        || byte_at 19 uuid == 97
        || byte_at 19 uuid == 98)

abbrev check_canonical : List ℕ → Option ℕ → Result ℕ
check_canonical text none = err (error_other "invalid session keyring owner")
check_canonical text (some n) =
    if text_eq (print_unsigned n) text
    then ok n
    else err (error_other "noncanonical session keyring owner")

unfoldable pub canonical_decimal : List ℕ → Result ℕ
canonical_decimal text = check_canonical text (parse_unsigned u32_max text)

abbrev pub paired_ring_prefix : List ℕ
paired_ring_prefix = codes "oulipoly-paired-original-work-v1:"

abbrev pub is_printable : ℕ → Bool
is_printable b = leb 32 b && leb b 126

abbrev pub paired_name : Option (List ℕ) → Result Bool
paired_name none = ok false
paired_name (some uuid) =
    if valid_paired_ring_uuid uuid
    then ok true
    else err (error_other "invalid paired session keyring UUID")

-- An ASCII byte that is no control character is printable.
abbrev pub check_name : List ℕ → List ℕ → Result Bool
check_name permissions name =
    if not (length permissions == 8 && all_of is_ring_hex permissions)
    then err (error_other "invalid session keyring permission description")
    else if is_empty name || not (all_of is_printable name)
    then err (error_other "invalid session keyring name")
    else paired_name (strip_prefix paired_ring_prefix name)

abbrev pub check_group : List ℕ → List ℕ → Result ℕ → Result Bool
check_group permissions name (err e) = err e
check_group permissions name (ok gid) = check_name permissions name

abbrev pub check_owner : ℕ → List ℕ → List ℕ → List ℕ → Result ℕ → Result Bool
check_owner effective_uid gid permissions name (err e) = err e
check_owner effective_uid gid permissions name (ok uid) =
    if uid == effective_uid
    then check_group permissions name (canonical_decimal gid)
    else err (error_other "session keyring owner UID differs from caller")

abbrev invalid_fields : Result Bool
invalid_fields = err (error_other "invalid session keyring description fields")

abbrev pub ring_fields : ℕ → List (List ℕ) → Result Bool
ring_fields effective_uid (kind ∷ uid ∷ gid ∷ permissions ∷ name ∷ []) =
    if text_eq kind (codes "keyring")
    then check_owner effective_uid gid permissions name (canonical_decimal uid)
    else invalid_fields
ring_fields effective_uid [] = invalid_fields
ring_fields effective_uid (a ∷ []) = invalid_fields
ring_fields effective_uid (a ∷ b ∷ []) = invalid_fields
ring_fields effective_uid (a ∷ b ∷ c ∷ []) = invalid_fields
ring_fields effective_uid (a ∷ b ∷ c ∷ d ∷ []) = invalid_fields
ring_fields effective_uid (a ∷ b ∷ c ∷ d ∷ e ∷ f ∷ rest) = invalid_fields

-- Whether the caller's session keyring is that of a paired work; `is_utf8` is the library's test.
unfoldable pub parse_session_ring_description : (List ℕ → Bool) → List ℕ → ℕ → Result Bool
parse_session_ring_description is_utf8 description effective_uid =
    if is_utf8 description
    then ring_fields effective_uid (split semicolon description)
    else err (error_other "invalid session keyring description encoding")

-- `operation_error`
abbrev operation_error : String → IoError → IoError
operation_error operation e = record e {
  message = str_append operation (str_append ": " e.message);
}

abbrev by_ancestor : Result Bool → Result (Unit {0})
by_ancestor (ok true) = err (
    error_other
      "paired worker or guardian ancestor is live but inherited original-work authority is missing")
by_ancestor (ok false) = ok tt
by_ancestor (err e) = err (operation_error "standalone selection: ancestor classification" e)

-- Without authority a process runs alone only if neither its keyring nor its ancestors are paired.
unfoldable pub classify_standalone : Result Bool → Result Bool → Result (Unit {0})
classify_standalone (ok true) ancestor =
    err (error_other "inherited paired session keyring but original-work authority is missing")
classify_standalone (err e) ancestor =
    err (operation_error "standalone selection: session keyring classification" e)
classify_standalone (ok false) ancestor = by_ancestor ancestor

-- A submitted work, as far as the root's answer must name it; the grant of the root is taken apart.
pub record WorkSubmission : Type 0 where
  pub work_id : List ℕ
  pub root_id : List ℕ
  pub supervisor_authority_id : List ℕ

pub record WorkResponse : Type 0 where
  pub protocol : List ℕ
  pub work_id : List ℕ
  pub status : List ℕ
  pub root_id : List ℕ
  pub supervisor_authority_id : List ℕ
  pub worker_identity : Option CallerChainEntry

abbrev pub names_submission : WorkResponse → WorkSubmission → Bool
names_submission response submission =
    text_eq response.protocol (codes "original-work-v1")
    && text_eq response.work_id submission.work_id
    && text_eq response.root_id submission.root_id
    && text_eq response.supervisor_authority_id submission.supervisor_authority_id

abbrev is_absent : Option CallerChainEntry → Bool
is_absent none = true
is_absent (some worker) = false

unfoldable pub validate_response : WorkResponse → WorkSubmission → Result (Unit {0})
validate_response response submission =
    if not (names_submission response submission)
    then err (error_other "root original-work response identity conflict")
    else if text_eq response.status (codes "accepted") && is_absent response.worker_identity
    then err (error_other "accepted original work has no exact worker identity")
    else ok tt

pub data SubmitResponseDisposition : Type 0 where
  accepted rejected_preaccept effects_possible_no_replay : SubmitResponseDisposition

abbrev pub disposition_of : List ℕ → Result (Unit {0}) → SubmitResponseDisposition
disposition_of status (err e) = effects_possible_no_replay
disposition_of status (ok u) =
    if text_eq status (codes "accepted") || text_eq status (codes "already_accepted_no_replay")
    then accepted
    else if text_eq status (codes "rejected_preaccept")
    then rejected_preaccept
    else effects_possible_no_replay

unfoldable pub submit_response_disposition :
    WorkResponse → WorkSubmission → SubmitResponseDisposition
submit_response_disposition response submission =
    disposition_of response.status (validate_response response submission)
