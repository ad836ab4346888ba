-- ===== src/RootProtocol/Retained/Range.antt =====
-- What `retained` of src/root_v1.rs hands on as a read range.
use agent_bash_tool.Common.{
  ℕ, ◌+◌, ◌-◌, ◌≤◌, ◌<◌, min, ◌≡◌, refl, sym, inl, inr, Bool, true, false, Option, none, some, List,
  ◌==◌, ltb, length, arith, Bool-cases, both, equal, neither, ltb_false→le,
}
use agent_bash_tool.Common.Int.{ℤ}
use agent_bash_tool.Common.Bytes.{codes}
use agent_bash_tool.RootProtocol.Json.{
  Value, null, bool, int, float, str, array, object, is_text, at, as_str, as_u64, is_true, value_eq,
}
use agent_bash_tool.RootProtocol.Reference.{parse_identity}
use agent_bash_tool.RootProtocol.Retained.{
  Request, was_read, Owner, target, is_bad_range, is_range, decoded, check_data, check_content,
  is_other_record, check_reply, ask, ask_about, retained,
}

-- The reply holds the requested part of a record of `size` bytes, as much as there is of it.
pub record IsRange (offset size : ℕ) (reply : Value) : Type 0 where
  pub total : ℕ
  pub chunk : List ℕ
  pub kept : as_u64 (at (at reply (codes "retained")) (codes "bytes")) ≡ some total
  pub encoded : decoded (as_str (at reply (codes "b64"))) ≡ some chunk
  pub inside : offset ≤ total
  pub taken : length chunk ≡ min size (total - offset)
  pub at_end : is_true (at reply (codes "eof")) ≡ (offset + length chunk == total)

value_eq_bool : (v : Value) (b : Bool) → value_eq v (bool b) ≡ true → is_true v ≡ b
unfolding value_eq
value_eq_bool (bool true) true h = refl
value_eq_bool (bool false) false h = refl
value_eq_bool (bool true) false h = absurd (ground arith)
value_eq_bool (bool false) true h = absurd (ground arith)
value_eq_bool null b h = absurd (ground arith)
value_eq_bool (int z) b h = absurd (ground arith)
value_eq_bool (float x) b h = absurd (ground arith)
value_eq_bool (str text) b h = absurd (ground arith)
value_eq_bool (array items) b h = absurd (ground arith)
value_eq_bool (object fields) b h = absurd (ground arith)

was_read_lem : (v w : Value) → was_read v ≡ was_read w → v ≡ w
was_read_lem v w h = ground arith

range :
    (request : Request) (reply v : Value) (total : ℕ) (chunk : List ℕ)
    → as_u64 (at (at reply (codes "retained")) (codes "bytes")) ≡ some total
    → decoded (as_str (at reply (codes "b64"))) ≡ some chunk
    → request.offset ≤ total
    → is_range request reply total chunk ≡ true
    → reply ≡ v
    → IsRange request.offset request.length v
range request reply v total chunk k e inside ok same =
    let eof =
      both _
        (value_eq (at reply (codes "eof"))
          (bool (request.offset + min request.length (total - request.offset) == total)))
        ok in
    let next_offset = both _ _ eof.0 in
    let size = both _ (length chunk == min request.length (total - request.offset)) next_offset.0 in
    let taken : length chunk ≡ min request.length (total - request.offset) = equal _ _ size.1 in
    rw (sym same) record {
      total = total;
      chunk = chunk;
      kept = k;
      encoded = e;
      inside = inside;
      taken = taken;
      at_end = rw taken (value_eq_bool _ _ eof.1);
    }

above_zero : (n : ℕ) → (n == 0) ≡ false → 0 < n
above_zero n h = ground arith

check_data-IsRange :
    (request : Request) (reply v : Value) (total : ℕ) (chunk : Option (List ℕ))
    → as_u64 (at (at reply (codes "retained")) (codes "bytes")) ≡ some total
    → decoded (as_str (at reply (codes "b64"))) ≡ chunk
    → check_data request reply total chunk ≡ was_read v
    → IsRange request.offset request.length v
check_data-IsRange request reply v total none k e h = absurd (ground arith)
check_data-IsRange request reply v total (some chunk) k e h =
    elim (Bool-cases (ltb total request.offset)) [
      | inl beyond ↦ absurd (ground arith)
      | inr inside ↦ elim (Bool-cases (is_range request reply total chunk)) [
        | inl ok ↦
            range request reply v total chunk k e (ltb_false→le _ _ inside) ok
              (was_read_lem reply v (rw (inside, ok) at h))
        | inr bad ↦ absurd (ground arith)
      ]
    ]

check_content-IsRange :
    (request : Request) (reply v : Value) (size : Option ℕ) (hash : Option (List ℕ))
    → request.accept ≡ false
    → as_u64 (at (at reply (codes "retained")) (codes "bytes")) ≡ size
    → check_content request reply size hash ≡ was_read v
    → IsRange request.offset request.length v
check_content-IsRange request reply v none hash a k h = absurd (ground arith)
check_content-IsRange request reply v (some size) none a k h = absurd (ground arith)
check_content-IsRange request reply v (some size) (some hash) a k h =
    check_data-IsRange request reply v size (decoded (as_str (at reply (codes "b64")))) k refl
      (rw a at h)

check_reply-IsRange :
    (request : Request) (identity : List ℕ) (reply : Option Value) (v : Value)
    → request.accept ≡ false
    → check_reply request identity reply ≡ was_read v
    → IsRange request.offset request.length v
unfolding check_reply
check_reply-IsRange request identity none v a h = absurd (ground arith)
check_reply-IsRange request identity (some reply) v a h =
    elim (Bool-cases (is_text (at reply (codes "event")) (codes "refused"))) [
      | inl refusal ↦ absurd (ground arith)
      | inr other_event ↦
          elim (Bool-cases (is_other_record request identity (at reply (codes "retained")))) [
            | inl foreign ↦ absurd (ground arith)
            | inr same_record ↦
                check_content-IsRange request reply v _ _ a refl
                  (rw (other_event, same_record) at h)
          ]
    ]

ask-IsRange :
    (owner : Owner) (request : Request) (identity : List ℕ) (v : Value)
    → request.accept ≡ false
    → ask owner request identity ≡ was_read v
    → IsRange request.offset request.length v
ask-IsRange none request identity v a h = absurd (ground arith)
ask-IsRange (some answers) request identity v a h =
    check_reply-IsRange request identity (answers request) v a h

ask_about-IsRange :
    (owner : Owner) (identity : List ℕ) (offset size : ℕ) (work : Option (List ℕ × ℤ)) (v : Value)
    → ask_about owner identity false offset size work ≡ was_read v
    → (0 < size) × (size ≤ 262144) × IsRange offset size v
ask_about-IsRange owner identity offset size none v h = absurd (ground arith)
ask_about-IsRange owner identity offset size (some (root, work)) v h =
    elim (Bool-cases (is_bad_range false (parse_identity identity) offset size)) [
      | inl bad ↦ absurd (ground arith)
      | inr good ↦
          let sized = neither _ _ good in
          let limits = neither (size == 0) (ltb 262144 size) sized.0 in
          (
            above_zero size limits.0,
            ltb_false→le 262144 size limits.1,
            ask-IsRange owner _ identity v refl (rw good at h),
          )
    ]

-- A read that is handed on was for 1 byte to 256 KiB. It begins inside the kept record, holds as many
-- bytes as were asked for or as are left there, and its `eof` says whether it reaches the record's end.
pub retained-IsRange :
    (owner : Owner) (identity : List ℕ) (offset size : ℕ) (v : Value)
    → retained owner identity false offset size ≡ was_read v
    → (0 < size) × (size ≤ 262144) × IsRange offset size v
unfolding retained
retained-IsRange owner identity offset size v h =
    ask_about-IsRange owner identity offset size (target false identity) v h
