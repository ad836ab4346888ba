-- ===== src/RootWork/Ring.antt =====
-- What src/root_work.rs takes for the session keyring of a paired work.
use agent_bash_tool.Common.{
  ℕ, ◌≡◌, refl, sym, ap, ◌∙◌, inl, inr, Bool, true, not, ◌&&◌, ◌||◌, Option, none, some, List, [],
  ◌∷◌, ◌++◌, ◌==◌, length, is_empty, arith, Bool-cases, both, equal,
}
use agent_bash_tool.Common.Bytes.{
  codes, text_eq, text_eq_sound, split, all_of, strip_prefix, join, join-split, strip_prefix-append,
}
use agent_bash_tool.Common.Decimal.{parse_unsigned, print_unsigned}
use agent_bash_tool.Effects.{Result, ok, err}
use agent_bash_tool.RootWork.{
  u32_max, semicolon, is_ring_hex, valid_paired_ring_uuid, check_canonical, canonical_decimal,
  paired_ring_prefix, is_printable, paired_name, check_name, check_group, check_owner, ring_fields,
  parse_session_ring_description,
}

-- The description of a paired work's keyring that this user owns: canonical numbers, eight hexadecimal
-- digits, and a valid identifier behind the prefix.
pub record IsPairedRing (uid : ℕ) (description : List ℕ) : Type 0 where
  pub gid : ℕ
  pub permissions : List ℕ
  pub uuid : List ℕ
  pub text :
      description
      ≡ join semicolon (
          codes "keyring"
          ∷ print_unsigned uid
          ∷ print_unsigned gid
          ∷ permissions
          ∷ (paired_ring_prefix ++ uuid)
          ∷ [])
  pub eight : length permissions ≡ 8
  pub hexadecimal : all_of is_ring_hex permissions ≡ true
  pub valid : valid_paired_ring_uuid uuid ≡ true

canonical_lem : (text : List ℕ) (n : ℕ) → canonical_decimal text ≡ ok n → print_unsigned n ≡ text
unfolding canonical_decimal
canonical_lem text n h = by_parsed (parse_unsigned u32_max text) h
  where
    by_parsed : (parsed : Option ℕ) → check_canonical text parsed ≡ ok n → print_unsigned n ≡ text
    by_parsed none h = absurd (ground arith)
    by_parsed (some m) h = elim (Bool-cases (text_eq (print_unsigned m) text)) [
      | inl same ↦
          let number : m ≡ n = ground arith in
          rw (sym number) (text_eq_sound (print_unsigned m) text same)
      | inr other ↦ absurd (ground arith)
    ]

-- What a paired name and its permissions are.
record IsPairedName (permissions name : List ℕ) : Type 0 where
  uuid : List ℕ
  named : name ≡ paired_ring_prefix ++ uuid
  eight : length permissions ≡ 8
  hexadecimal : all_of is_ring_hex permissions ≡ true
  valid : valid_paired_ring_uuid uuid ≡ true

named_ring :
    (permissions name : List ℕ) (stripped : Option (List ℕ))
    → strip_prefix paired_ring_prefix name ≡ stripped
    → length permissions ≡ 8
    → all_of is_ring_hex permissions ≡ true
    → paired_name stripped ≡ ok true
    → IsPairedName permissions name
named_ring permissions name none e eight hexadecimal h = absurd (ground arith)
named_ring permissions name (some uuid) e eight hexadecimal h =
    elim (Bool-cases (valid_paired_ring_uuid uuid)) [
      | inl valid ↦ record {
        uuid = uuid;
        named = strip_prefix-append paired_ring_prefix name uuid e;
        eight = eight;
        hexadecimal = hexadecimal;
        valid = valid;
      }
      | inr invalid ↦ absurd (ground arith)
    ]

same_parts :
    (kind owner group permissions name : List ℕ) (uid gid : ℕ) (uuid : List ℕ)
    → kind ≡ codes "keyring"
    → print_unsigned uid ≡ owner
    → print_unsigned gid ≡ group
    → name ≡ paired_ring_prefix ++ uuid
    → join semicolon (kind ∷ owner ∷ group ∷ permissions ∷ name ∷ [])
      ≡ join semicolon (
          codes "keyring"
          ∷ print_unsigned uid
          ∷ print_unsigned gid
          ∷ permissions
          ∷ (paired_ring_prefix ++ uuid)
          ∷ [])
same_parts kind owner group permissions name uid gid uuid k o g n = rw (k, sym o, sym g, n) refl

check_name-IsPairedName :
    (permissions name : List ℕ)
    → check_name permissions name ≡ ok true
    → IsPairedName permissions name
check_name-IsPairedName permissions name h =
    elim (Bool-cases (length permissions == 8 && all_of is_ring_hex permissions)) [
      | inr bad ↦ absurd (ground arith)
      | inl good ↦ elim (Bool-cases (is_empty name || not (all_of is_printable name))) [
        | inl unprintable ↦ absurd (ground arith)
        | inr printable ↦
            let digits = both (length permissions == 8) (all_of is_ring_hex permissions) good in
            named_ring permissions name (strip_prefix paired_ring_prefix name) refl
              (equal (length permissions) 8 digits.0) digits.1 (rw (good, printable) at h)
      ]
    ]

check_group-paired :
    (permissions name : List ℕ) (gid : Result ℕ)
    → check_group permissions name gid ≡ ok true
    → (g : ℕ) × (gid ≡ ok g) × IsPairedName permissions name
check_group-paired permissions name (err e) h = absurd (ground arith)
check_group-paired permissions name (ok g) h = (g, refl, check_name-IsPairedName permissions name h)

check_owner-paired :
    (uid : ℕ) (gid permissions name : List ℕ) (owner : Result ℕ)
    → check_owner uid gid permissions name owner ≡ ok true
    → (owner ≡ ok uid) × (g : ℕ) × (canonical_decimal gid ≡ ok g) × IsPairedName permissions name
check_owner-paired uid gid permissions name (err e) h = absurd (ground arith)
check_owner-paired uid gid permissions name (ok n) h = elim (Bool-cases (n == uid)) [
  | inl same ↦
      let rest = check_group-paired permissions name (canonical_decimal gid) (rw same at h) in
      (ap ok (equal n uid same), rest.0, rest.1, rest.2)
  | inr other ↦ absurd (ground arith)
]

fields-IsPairedRing :
    (uid : ℕ) (description : List ℕ) (parts : List (List ℕ))
    → join semicolon parts ≡ description
    → ring_fields uid parts ≡ ok true
    → IsPairedRing uid description
fields-IsPairedRing uid description [] e h = absurd (ground arith)
fields-IsPairedRing uid description (a ∷ []) e h = absurd (ground arith)
fields-IsPairedRing uid description (a ∷ b ∷ []) e h = absurd (ground arith)
fields-IsPairedRing uid description (a ∷ b ∷ c ∷ []) e h = absurd (ground arith)
fields-IsPairedRing uid description (a ∷ b ∷ c ∷ d ∷ []) e h = absurd (ground arith)
fields-IsPairedRing uid description (a ∷ b ∷ c ∷ d ∷ f ∷ g ∷ rest) e h = absurd (ground arith)
fields-IsPairedRing uid description (kind ∷ owner ∷ group ∷ permissions ∷ name ∷ []) e h =
    elim (Bool-cases (text_eq kind (codes "keyring"))) [
      | inr other ↦ absurd (ground arith)
      | inl keyring ↦
          let found =
            check_owner-paired uid group permissions name (canonical_decimal owner)
              (rw keyring at h) in
          let paired = found.3 in
          record {
            gid = found.1;
            permissions = permissions;
            uuid = paired.uuid;
            text =
                sym e
                ∙ same_parts kind owner group permissions name uid found.1 paired.uuid
                    (text_eq_sound kind (codes "keyring") keyring) (canonical_lem owner uid found.0)
                    (canonical_lem group found.1 found.2) paired.named;
            eight = paired.eight;
            hexadecimal = paired.hexadecimal;
            valid = paired.valid;
          }
    ]

-- A keyring is taken for a paired work's only if its description is exactly the keyring type, the caller's
-- own number and a group in canonical decimals, eight hexadecimal digits, and the paired prefix followed by
-- a valid identifier.
pub paired-IsPairedRing :
    (is_utf8 : List ℕ → Bool) (description : List ℕ) (uid : ℕ)
    → parse_session_ring_description is_utf8 description uid ≡ ok true
    → IsPairedRing uid description
unfolding parse_session_ring_description
paired-IsPairedRing is_utf8 description uid h = elim (Bool-cases (is_utf8 description)) [
  | inl text ↦
      fields-IsPairedRing uid description (split semicolon description)
        (join-split semicolon description) (rw text at h)
  | inr binary ↦ absurd (ground arith)
]
