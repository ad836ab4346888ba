-- ===== src/RootProtocol/Retained.antt =====
-- `retained` of src/root_v1.rs: a read of retained output, or its acceptance, through the owner.
pub mod Range
use agent_bash_tool.Common.{
  ℕ, ◌+◌, ◌-◌, min, Bool, true, false, not, ◌&&◌, ◌||◌, Option, none, some, List, [], ◌∷◌, ◌==◌,
  ltb, if◌then◌else◌, length,
}
use agent_bash_tool.Common.Int.{ℤ}
use agent_bash_tool.Common.Bytes.{codes}
use agent_bash_tool.RootProtocol.Json.{
  Value, bool, at, as_str, as_u64, is_true, is_text, is_number, is_signed, is_boolean, value_eq,
}
use agent_bash_tool.RootProtocol.Base64.{unbase64}
use agent_bash_tool.RootProtocol.Reference.{Identity, parse_identity, parse_reference, valid_record}

-- The line that is sent to the owner. The size and hash stand in it for an exact identity.
pub record Request : Type 0 where
  pub accept : Bool
  pub root_id : List ℕ
  pub work : ℤ
  pub offset : ℕ
  pub length : ℕ
  pub exact : Option Identity

pub data Reason : Type 0 where
  bad_identity bad_range owner_unreachable : Reason
  owner_refused : List ℕ → Reason

pub data Answer : Type 0 where
  was_refused : Reason → Answer
  unknown : Answer
  was_accepted was_read : Value → Answer

abbrev work_of : Option Identity → Option (List ℕ × ℤ)
work_of none = none
work_of (some i) = some (i.root, i.work)

abbrev or_else : Option (List ℕ × ℤ) → Option (List ℕ × ℤ) → Option (List ℕ × ℤ)
or_else none second = second
or_else (some first) second = some first

-- The work that is asked about: a read may name it by its reference only.
unfoldable pub target : Bool → List ℕ → Option (List ℕ × ℤ)
target accept identity =
    or_else (work_of (parse_identity identity)) (if accept then none else parse_reference identity)

abbrev last_offset : Option Identity → ℕ
last_offset none = 67108864
last_offset (some i) = i.bytes

abbrev pub is_bad_range : Bool → Option Identity → ℕ → ℕ → Bool
is_bad_range accept exact offset size =
    not accept && (size == 0 || ltb 262144 size || ltb (last_offset exact) offset)

abbrev or_owner_refused : Option (List ℕ) → List ℕ
or_owner_refused none = codes "owner-refused"
or_owner_refused (some reason) = reason

abbrev is_other_identity : Option Identity → List ℕ → Value → Bool
is_other_identity none identity kept = false
is_other_identity (some i) identity kept = not (is_text (at kept (codes "identity")) identity)

abbrev pub is_other_record : Request → List ℕ → Value → Bool
is_other_record request identity kept =
    not (valid_record kept)
    || not (is_text (at kept (codes "root_id")) request.root_id)
    || not (is_signed (at kept (codes "work")) request.work)
    || is_other_identity request.exact identity kept

-- `reply["receipt"]` names the record, of which `size` and `hash` are.
abbrev is_receipt : Request → Value → ℕ → List ℕ → Bool
is_receipt request reply size hash =
    is_text (at reply (codes "event")) (codes "output-accepted")
    && is_true (at reply (codes "durable"))
    && is_boolean (at reply (codes "repeat"))
    && is_text (at (at reply (codes "receipt")) (codes "root_id")) request.root_id
    && is_signed (at (at reply (codes "receipt")) (codes "work")) request.work
    && is_number (at (at reply (codes "receipt")) (codes "bytes")) size
    && is_text (at (at reply (codes "receipt")) (codes "sha256")) hash

abbrev pub is_range : Request → Value → ℕ → List ℕ → Bool
is_range request reply size chunk =
    let taken = min request.length (size - request.offset) in
    is_text (at reply (codes "event")) (codes "output-range")
    && is_number (at reply (codes "offset")) request.offset
    && is_number (at reply (codes "length")) taken
    && length chunk == taken
    && is_number (at reply (codes "next_offset")) (request.offset + taken)
    && value_eq (at reply (codes "eof")) (bool (request.offset + taken == size))

abbrev pub decoded : Option (List ℕ) → Option (List ℕ)
decoded none = none
decoded (some text) = unbase64 text

abbrev pub check_data : Request → Value → ℕ → Option (List ℕ) → Answer
check_data request reply size none = unknown
check_data request reply size (some chunk) =
    if ltb size request.offset
    then unknown
    else if is_range request reply size chunk
    then was_read reply
    else unknown

-- The record is valid here, so both of its fields are there.
abbrev pub check_content : Request → Value → Option ℕ → Option (List ℕ) → Answer
check_content request reply (some size) (some hash) =
    if request.accept
    then if is_receipt request reply size hash then was_accepted reply else unknown
    else check_data request reply size (decoded (as_str (at reply (codes "b64"))))
check_content request reply (some size) none = unknown
check_content request reply none hash = unknown

-- `none` for a reply that cannot be read, has no end of line or is no JSON value.
unfoldable pub check_reply : Request → List ℕ → Option Value → Answer
check_reply request identity none = unknown
check_reply request identity (some reply) =
    if is_text (at reply (codes "event")) (codes "refused")
    then was_refused (owner_refused (or_owner_refused (as_str (at reply (codes "reason")))))
    else if is_other_record request identity (at reply (codes "retained"))
    then unknown
    else check_content request reply (as_u64 (at (at reply (codes "retained")) (codes "bytes")))
        (as_str (at (at reply (codes "retained")) (codes "sha256")))

-- The owner is there and answers a request, or cannot be reached.
abbrev pub Owner : Type 0
Owner = Option (Request → Option Value)

abbrev pub ask : Owner → Request → List ℕ → Answer
ask none request identity = was_refused owner_unreachable
ask (some owner) request identity = check_reply request identity (owner request)

abbrev pub ask_about : Owner → List ℕ → Bool → ℕ → ℕ → Option (List ℕ × ℤ) → Answer
ask_about owner identity accept offset size none = was_refused bad_identity
ask_about owner identity accept offset size (some (root, work)) =
    if is_bad_range accept (parse_identity identity) offset size
    then was_refused bad_range
    else ask owner
        (record {
          accept = accept;
          root_id = root;
          work = work;
          offset = offset;
          length = size;
          exact = parse_identity identity;
        })
        identity

unfoldable pub retained : Owner → List ℕ → Bool → ℕ → ℕ → Answer
retained owner identity accept offset size =
    ask_about owner identity accept offset size (target accept identity)
