-- ===== src/RootProtocol/Reference.antt =====
-- `parse_identity`, `parse_reference`, `valid_record` and `wait_status` of src/root_v1.rs.
pub mod Printed
use agent_bash_tool.Common.{
  ℕ, zero, suc, ◌+◌, Bool, true, false, not, ◌&&◌, ◌||◌, Option, none, some, List, [], ◌∷◌, ◌++◌,
  ◌==◌, ltb, leb, if◌then◌else◌, length, is_empty,
}
use agent_bash_tool.Common.Int.{ℤ, pos, int_leb}
use agent_bash_tool.Common.Bytes.{codes, text_eq, split, all_of, strip_prefix}
use agent_bash_tool.Common.Decimal.{
  is_digit, parse_unsigned, parse_signed, print_unsigned, print_signed,
}
use agent_bash_tool.RootProtocol.Json.{Value, at, as_str, is_text, is_number, is_signed, is_array}

-- `(root, work, bytes, hash)`
pub record Identity : Type 0 where
  pub root : List ℕ
  pub work : ℤ
  pub bytes : ℕ
  pub hash : List ℕ

abbrev pub i64_max : ℕ
i64_max = 9223372036854775807

abbrev pub u64_max : ℕ
u64_max = 18446744073709551615

abbrev i32_max : ℕ
i32_max = 2147483647

-- ':'
abbrev pub colon : ℕ
colon = 58

abbrev pub root_byte : ℕ → Bool
root_byte b = is_digit b || (leb 65 b && leb b 90) || (leb 97 b && leb b 122) || b == 45 || b == 95

abbrev pub hash_byte : ℕ → Bool
hash_byte b = is_digit b || (leb 97 b && leb b 102)

-- `format!("rv1o:{}:{}:{}:{}", …)`
unfoldable pub print_identity : Identity → List ℕ
print_identity i =
    codes "rv1o"
    ++ (colon ∷ i.root
        ++ (colon ∷ print_signed i.work ++ (colon ∷ print_unsigned i.bytes ++ (colon ∷ i.hash))))

abbrev if_exact : List ℕ → Identity → Option Identity
if_exact identity parsed = if text_eq (print_identity parsed) identity then some parsed else none

abbrev pub check_numbers : List ℕ → List ℕ → List ℕ → Option ℤ → Option ℕ → Option Identity
check_numbers identity root hash (some work) (some bytes) =
    if int_leb work (pos 0) || ltb 67108864 bytes
    then none
    else if_exact identity (record { root = root; work = work; bytes = bytes; hash = hash })
check_numbers identity root hash (some work) none = none
check_numbers identity root hash none bytes = none

abbrev pub is_malformed : List ℕ → List ℕ → List ℕ → Bool
is_malformed tag root hash =
    not (text_eq tag (codes "rv1o"))
    || is_empty root
    || ltb 64 (length root)
    || not (all_of root_byte root)
    || not (length hash == 64)
    || not (all_of hash_byte hash)

abbrev pub check_parts : List ℕ → List (List ℕ) → Option Identity
check_parts identity (tag ∷ root ∷ work ∷ bytes ∷ hash ∷ []) =
    if is_malformed tag root hash
    then none
    else check_numbers identity root hash (parse_signed i64_max work) (parse_unsigned u64_max bytes)
check_parts identity [] = none
check_parts identity (a ∷ []) = none
check_parts identity (a ∷ b ∷ []) = none
check_parts identity (a ∷ b ∷ c ∷ []) = none
check_parts identity (a ∷ b ∷ c ∷ d ∷ []) = none
check_parts identity (a ∷ b ∷ c ∷ d ∷ e ∷ f ∷ rest) = none

unfoldable pub parse_identity : List ℕ → Option Identity
parse_identity identity = check_parts identity (split colon identity)

abbrev zeros : ℕ → List ℕ
zeros zero = []
zeros (suc n) = 48 ∷ zeros n

abbrev root_and_work : Option Identity → Option (List ℕ × ℤ)
root_and_work none = none
root_and_work (some i) = some (i.root, i.work)

abbrev reference_parts : List (List ℕ) → Option (List ℕ × ℤ)
reference_parts (tag ∷ root ∷ work ∷ []) =
    if text_eq tag (codes "rv1w")
    then root_and_work
        (parse_identity (codes "rv1o:" ++ root ++ (colon ∷ work ++ (codes ":0:" ++ zeros 64))))
    else none
reference_parts [] = none
reference_parts (a ∷ []) = none
reference_parts (a ∷ b ∷ []) = none
reference_parts (a ∷ b ∷ c ∷ d ∷ rest) = none

unfoldable pub parse_reference : List ℕ → Option (List ℕ × ℤ)
parse_reference reference = reference_parts (split colon reference)

abbrev parsed_text : Option (List ℕ) → Option Identity
parsed_text none = none
parsed_text (some text) = parse_identity text

abbrev is_kept_state : Option (List ℕ) → Bool
is_kept_state none = false
is_kept_state (some state) = text_eq state (codes "complete") || text_eq state (codes "partial")

abbrev matches_identity : Value → Option Identity → Bool
matches_identity value none = false
matches_identity value (some i) =
    is_text (at value (codes "root_id")) i.root
    && is_signed (at value (codes "work")) i.work
    && is_number (at value (codes "bytes")) i.bytes
    && is_text (at value (codes "sha256")) i.hash
    && is_kept_state (as_str (at value (codes "state")))
    && is_array (at value (codes "losses"))

unfoldable pub valid_record : Value → Bool
valid_record value = matches_identity value (parsed_text (as_str (at value (codes "identity"))))

-- How the work ended, `code:N` or `signal:N`.
pub data Wait : Type 0 where
  code signal : ℤ → Wait

abbrev as_code : Option ℤ → Option Wait
as_code none = none
as_code (some n) = some (code n)

abbrev as_signal : Option ℤ → Option Wait
as_signal none = none
as_signal (some n) = some (signal n)

abbrev signal_of : Option (List ℕ) → Option Wait
signal_of none = none
signal_of (some number) = as_signal (parse_signed i32_max number)

abbrev wait_of : List ℕ → Option (List ℕ) → Option Wait
wait_of status none = signal_of (strip_prefix (codes "signal:") status)
wait_of status (some number) = as_code (parse_signed i32_max number)

unfoldable pub wait_status : List ℕ → Option Wait
wait_status status = wait_of status (strip_prefix (codes "code:") status)
