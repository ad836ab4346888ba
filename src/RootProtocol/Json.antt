-- ===== src/RootProtocol/Json.antt =====
-- The JSON values that src/root_v1.rs indexes and compares, as serde_json gives them. Reading a
-- value from a line is serde_json's and not modelled.
pub mod Equal
use agent_bash_tool.Common.{
  ℕ, Bool, true, false, ◌&&◌, Option, none, some, List, ◌==◌, leb, if◌then◌else◌,
}
use agent_bash_tool.Common.Int.{ℤ, pos, negsuc, int_eq}
use agent_bash_tool.Common.Bytes.{text_eq}

-- A float stands for the number it denotes; an object has each key once, in the map's order.
mutual
  pub data Value : Type 0 where
    null : Value
    bool : Bool → Value
    int : ℤ → Value
    float : ℕ → Value
    str : List ℕ → Value
    array : Values → Value
    object : Fields → Value

  pub data Values : Type 0 where
    nothing : Values
    item : Value → Values → Values

  pub data Fields : Type 0 where
    empty : Fields
    field : List ℕ → Value → Fields → Fields

abbrev pub find_field : List ℕ → Fields → Option Value
find_field key empty = none
find_field key (field name value rest) =
    if text_eq name key then some value else find_field key rest

-- `value.get(key)`
abbrev pub get : Value → List ℕ → Option Value
get (object fields) key = find_field key fields
get null key = none
get (bool b) key = none
get (int z) key = none
get (float x) key = none
get (str text) key = none
get (array items) key = none

abbrev or_null : Option Value → Value
or_null none = null
or_null (some value) = value

-- `value[key]`
abbrev pub at : Value → List ℕ → Value
at value key = or_null (get value key)

abbrev pub as_str : Value → Option (List ℕ)
as_str (str text) = some text
as_str null = none
as_str (bool b) = none
as_str (int z) = none
as_str (float x) = none
as_str (array items) = none
as_str (object fields) = none

abbrev pub as_u64 : Value → Option ℕ
as_u64 (int (pos n)) = some n
as_u64 (int (negsuc n)) = none
as_u64 null = none
as_u64 (bool b) = none
as_u64 (float x) = none
as_u64 (str text) = none
as_u64 (array items) = none
as_u64 (object fields) = none

abbrev in_i64 : ℤ → Option ℤ
in_i64 (pos n) = if leb n 9223372036854775807 then some (pos n) else none
in_i64 (negsuc n) = some (negsuc n)

abbrev pub as_i64 : Value → Option ℤ
as_i64 (int z) = in_i64 z
as_i64 null = none
as_i64 (bool b) = none
as_i64 (float x) = none
as_i64 (str text) = none
as_i64 (array items) = none
as_i64 (object fields) = none

abbrev pub is_null : Value → Bool
is_null null = true
is_null (bool b) = false
is_null (int z) = false
is_null (float x) = false
is_null (str text) = false
is_null (array items) = false
is_null (object fields) = false

abbrev pub is_array : Value → Bool
is_array (array items) = true
is_array null = false
is_array (bool b) = false
is_array (int z) = false
is_array (float x) = false
is_array (str text) = false
is_array (object fields) = false

abbrev pub is_boolean : Value → Bool
is_boolean (bool b) = true
is_boolean null = false
is_boolean (int z) = false
is_boolean (float x) = false
is_boolean (str text) = false
is_boolean (array items) = false
is_boolean (object fields) = false

-- `value == true`
abbrev pub is_true : Value → Bool
is_true (bool b) = b
is_true null = false
is_true (int z) = false
is_true (float x) = false
is_true (str text) = false
is_true (array items) = false
is_true (object fields) = false

-- `value == text`
abbrev pub is_text : Value → List ℕ → Bool
is_text (str text) other = text_eq text other
is_text null other = false
is_text (bool b) other = false
is_text (int z) other = false
is_text (float x) other = false
is_text (array items) other = false
is_text (object fields) other = false

-- `value == n` for an unsigned number
abbrev pub is_number : Value → ℕ → Bool
is_number (int z) n = int_eq z (pos n)
is_number null n = false
is_number (bool b) n = false
is_number (float x) n = false
is_number (str text) n = false
is_number (array items) n = false
is_number (object fields) n = false

-- `value == z` for a signed number
abbrev pub is_signed : Value → ℤ → Bool
is_signed (int y) z = int_eq y z
is_signed null z = false
is_signed (bool b) z = false
is_signed (float x) z = false
is_signed (str text) z = false
is_signed (array items) z = false
is_signed (object fields) z = false

-- `left == right`
unfoldable mutual
  pub value_eq : Value → Value → Bool
  value_eq null null = true
  value_eq (bool true) (bool true) = true
  value_eq (bool false) (bool false) = true
  value_eq (int y) (int z) = int_eq y z
  value_eq (float x) (float y) = x == y
  value_eq (str text) (str other) = text_eq text other
  value_eq (array items) (array others) = values_eq items others
  value_eq (object fields) (object others) = fields_eq fields others
  value_eq _ _ = false

  pub values_eq : Values → Values → Bool
  values_eq nothing nothing = true
  values_eq (item x xs) (item y ys) = value_eq x y && values_eq xs ys
  values_eq _ _ = false

  pub fields_eq : Fields → Fields → Bool
  fields_eq empty empty = true
  fields_eq (field key x xs) (field name y ys) = text_eq key name && value_eq x y && fields_eq xs ys
  fields_eq _ _ = false
