-- ===== src/Publication/Honest.antt =====
-- What an acceptance leaves in the local record of a source, src/continuation.rs: digests of what was
-- published.
use agent_bash_tool.Common.{
  ℕ, ◌≡◌, refl, sym, ap, ◌∙◌, true, false, some, List, [], ◌∷◌, inl, inr, some-injective, subst,
  Bool-cases, arith,
}
use agent_bash_tool.Common.Bytes.{codes, text_eq, text_eq_refl, text_eq_sound}
use agent_bash_tool.Effects.{ok, err}
use agent_bash_tool.RootProtocol.Json.{
  Value, null, bool, int, float, str, array, object, Fields, empty, field, find_field, get, at,
  is_text,
}
use agent_bash_tool.Continuation.Files.{put_first, with_key}
use agent_bash_tool.Publication.Evidence.{Chain}
use agent_bash_tool.Publication.Story.{IsHonest}
use agent_bash_tool.Publication.Acceptance.{accepted_keys, conflicts, record_accepted}

find_field-put_first :
    (key : List ℕ) (v : Value) (fields : Fields) → find_field key (put_first key v fields) ≡ some v
find_field-put_first key v empty = rw (text_eq_refl key) refl
find_field-put_first key v (field name w rest) = elim (Bool-cases (text_eq name key)) [
  | inl same ↦ rw same (rw (text_eq_refl key) refl)
  | inr other ↦ rw other (rw other (find_field-put_first key v rest))
]

find_field-put_first_ne :
    (key other : List ℕ) (v : Value) (fields : Fields)
    → text_eq key other ≡ false
    → find_field other (put_first key v fields) ≡ find_field other fields
find_field-put_first_ne key other v empty ne = rw ne refl
find_field-put_first_ne key other v (field name w rest) ne = elim (Bool-cases (text_eq name key)) [
  | inl same ↦
      let here : name ≡ key = text_eq_sound name key same in rw same (rw (ne, here) (rw ne refl))
  | inr differ ↦ rw differ (elim (Bool-cases (text_eq name other)) [
    | inl found ↦ rw found refl
    | inr on ↦ rw on (find_field-put_first_ne key other v rest ne)
  ])
]

-- The value that was set, whatever held it.
pub get-with_key :
    (l : Value) (key : List ℕ) (v x : Value) → get (with_key l key v) key ≡ some x → x ≡ v
get-with_key (object fields) key v x h =
    sym (some-injective (sym (find_field-put_first key v fields) ∙ h))
get-with_key null key v x h = sym (some-injective (sym (find_field-put_first key v empty) ∙ h))
get-with_key (bool b) key v x h = sym (some-injective (sym (find_field-put_first key v empty) ∙ h))
get-with_key (int z) key v x h = sym (some-injective (sym (find_field-put_first key v empty) ∙ h))
get-with_key (float f) key v x h = sym (some-injective (sym (find_field-put_first key v empty) ∙ h))
get-with_key (str s) key v x h = sym (some-injective (sym (find_field-put_first key v empty) ∙ h))
get-with_key (array a) key v x h = sym (some-injective (sym (find_field-put_first key v empty) ∙ h))

nothing_under :
    (key other : List ℕ) (v x : Value)
    → text_eq key other ≡ false
    → find_field other (field key v empty) ≡ some x
    → ⊥
nothing_under key other v x ne h =
    absurd (let e = find_field-put_first_ne key other v empty ne in cc)

-- Other keys keep what they held.
pub get-with_key_ne :
    (l : Value) (key other : List ℕ) (v x : Value)
    → text_eq key other ≡ false
    → get (with_key l key v) other ≡ some x
    → get l other ≡ some x
get-with_key_ne (object fields) key other v x ne h =
    sym (find_field-put_first_ne key other v fields ne) ∙ h
get-with_key_ne null key other v x ne h = absurd (nothing_under key other v x ne h)
get-with_key_ne (bool b) key other v x ne h = absurd (nothing_under key other v x ne h)
get-with_key_ne (int z) key other v x ne h = absurd (nothing_under key other v x ne h)
get-with_key_ne (float f) key other v x ne h = absurd (nothing_under key other v x ne h)
get-with_key_ne (str s) key other v x ne h = absurd (nothing_under key other v x ne h)
get-with_key_ne (array a) key other v x ne h = absurd (nothing_under key other v x ne h)

abbrev pub record_all : List (List ℕ) → Value → Value → Value
record_all [] reply l = l
record_all (key ∷ keys) reply l = record_all keys reply (with_key l key (at reply key))

pub record_accepted-record_all :
    (keys : List (List ℕ)) (reply l r : Value)
    → record_accepted keys reply l ≡ ok r
    → r ≡ record_all keys reply l
unfolding record_accepted
record_accepted-record_all [] reply l r h = ground arith
record_accepted-record_all (key ∷ keys) reply l r h =
    elim (Bool-cases (conflicts (get l key) (at reply key))) [
      | inl bad ↦ absurd (let e : err _ ≡ ok r = rw bad at h in cc)
      | inr good ↦
          record_accepted-record_all keys reply (with_key l key (at reply key)) r (rw good at h)
    ]

abbrev snapshot_key : List ℕ
snapshot_key = codes "snapshot_sha256"

abbrev outcome_key : List ℕ
outcome_key = codes "outcome_sha256"

-- What was under another key of a record that was written is there from before.
before :
    (l l' : Value) (key other : List ℕ) (v x : Value)
    → text_eq key other ≡ false
    → some (with_key l key v) ≡ some l'
    → get l' other ≡ some x
    → get l other ≡ some x
before l l' key other v x ne e f =
    get-with_key_ne l key other v x ne (ap (λ t. get t other) (some-injective e) ∙ f)

module _ (digest : Value → List ℕ) (c : Chain) where
  -- Keys other than the two digests do not matter.
  pub with_key-IsHonest :
      (l : Value) (key : List ℕ) (v : Value)
      → text_eq key snapshot_key ≡ false
      → text_eq key outcome_key ≡ false
      → IsHonest digest c (some l)
      → IsHonest digest c (some (with_key l key v))
  with_key-IsHonest l key v ne ne' h = record {
    snapshot_named =
        λ l' e x f. h.snapshot_named l refl x (before l l' key snapshot_key v x ne e f);
    outcome_named = λ l' e x f. h.outcome_named l refl x (before l l' key outcome_key v x ne' e f);
  }

  -- The digests of an acceptance are those of what is published.
  pub accepted-IsHonest :
      (reply l s out : Value)
      → c.snapshot ≡ some s
      → c.outcome ≡ some out
      → is_text (at reply snapshot_key) (digest s) ≡ true
      → is_text (at reply outcome_key) (digest out) ≡ true
      → IsHonest digest c (some (record_all accepted_keys reply l))
  accepted-IsHonest reply l s out there there' named named' =
      with_key-IsHonest with_payload (codes "payload_byte_len")
        (at reply (codes "payload_byte_len")) refl refl
        (with_key-IsHonest with_outcome (codes "payload_sha256") (at reply (codes "payload_sha256"))
          refl refl
          (record {
            snapshot_named = λ l' e x f.
                let old =
                  before with_snapshot l' outcome_key snapshot_key (at reply outcome_key) x refl e
                    f in
                (
                  s,
                  there,
                  subst (λ y. is_text y (digest s) ≡ true)
                      (sym (get-with_key l snapshot_key (at reply snapshot_key) x old)) named,
                );
            outcome_named = λ l' e x f. (
              out,
              there',
              subst (λ y. is_text y (digest out) ≡ true)
                  (sym (
                    get-with_key with_snapshot outcome_key (at reply outcome_key) x
                      (ap (λ t. get t outcome_key) (some-injective e) ∙ f)))
                  named',
            );
          }))
    where
      with_snapshot : Value
      with_snapshot = with_key l snapshot_key (at reply snapshot_key)

      with_outcome : Value
      with_outcome = with_key with_snapshot outcome_key (at reply outcome_key)

      with_payload : Value
      with_payload =
          with_key with_outcome (codes "payload_sha256") (at reply (codes "payload_sha256"))
