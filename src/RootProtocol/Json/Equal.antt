-- ===== src/RootProtocol/Json/Equal.antt =====
-- What the comparison of two JSON values tells.
use agent_bash_tool.Common.{
  ℕ, ◌≡◌, refl, ap, ◌∙◌, true, false, ◌&&◌, List, arith, both, equal, some, some-injective,
}
use agent_bash_tool.Common.Int.{int_eq_iff}
use agent_bash_tool.Common.Bytes.{text_eq, text_eq_sound}
use agent_bash_tool.RootProtocol.Json.{
  Value, null, bool, int, float, str, array, object, Values, nothing, item, Fields, empty, field,
  as_str, is_text, value_eq, values_eq, fields_eq,
}

mutual
  unfolding value_eq values_eq fields_eq

  pub value_eq_sound : (v w : Value) → value_eq v w ≡ true → v ≡ w
  value_eq_sound null null h = refl
  value_eq_sound (bool true) (bool true) h = refl
  value_eq_sound (bool false) (bool false) h = refl
  value_eq_sound (int y) (int z) h = ap int ((int_eq_iff y z).0 h)
  value_eq_sound (float x) (float y) h = ap float (equal x y h)
  value_eq_sound (str text) (str other) h = ap str (text_eq_sound text other h)
  value_eq_sound (array items) (array others) h = ap array (values_eq_sound items others h)
  value_eq_sound (object fields) (object others) h = ap object (fields_eq_sound fields others h)
  value_eq_sound _ _ h = absurd (ground arith)

  values_eq_sound : (v w : Values) → values_eq v w ≡ true → v ≡ w
  values_eq_sound nothing nothing h = refl
  values_eq_sound (item x xs) (item y ys) h =
      let (first, rest) = both (value_eq x y) (values_eq xs ys) h in
      let head = value_eq_sound x y first in
      let tail = values_eq_sound xs ys rest in ap (λ z. item z xs) head ∙ ap (item y) tail
  values_eq_sound _ _ h = absurd (ground arith)

  fields_eq_sound : (v w : Fields) → fields_eq v w ≡ true → v ≡ w
  fields_eq_sound empty empty h = refl
  fields_eq_sound (field key x xs) (field name y ys) h =
      let (front, rest) = both (text_eq key name && value_eq x y) (fields_eq xs ys) h in
      let (name_of, value_of) = both (text_eq key name) (value_eq x y) front in
      let head = value_eq_sound x y value_of in
      let tail = fields_eq_sound xs ys rest in
      ap (λ k. field k x xs) (text_eq_sound key name name_of)
      ∙ ap (λ z. field name z xs) head
      ∙ ap (field name y) tail
  fields_eq_sound _ _ h = absurd (ground arith)

pub is_text_sound : (v : Value) (text : List ℕ) → is_text v text ≡ true → v ≡ str text
is_text_sound (str other) text h = ap str (text_eq_sound other text h)
is_text_sound _ text h = absurd (ground arith)

pub as_str_sound : (v : Value) (text : List ℕ) → as_str v ≡ some text → v ≡ str text
as_str_sound (str other) text h = ap str (some-injective h)
as_str_sound _ text h = absurd (ground arith)
