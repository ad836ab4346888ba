-- ===== src/RetainedOutput/Snapshots.antt =====
-- A snapshot of src/retained_output.rs while its log grows.
use agent_bash_tool.Common.{
  ℕ, ◌≤◌, ◌≡◌, refl, ◌∙◌, ap, true, false, not, ◌||◌, Option, none, some, String, str_eq, eq_iff,
  List, [], ◌∷◌, ◌++◌, ◌==◌, length, take, arith, length-append, if◌then◌else◌, le→ltb_false,
}
use agent_bash_tool.Effects.{IoError, Result, ok, err, ◌>>?◌}
use agent_bash_tool.RetainedOutput.{
  Source, read_prefix, hex, identity_of, snapshot_of, acquire, matches, validate, or_length,
}

take-append : (c more : List ℕ) → take (length c) (c ++ more) ≡ c
take-append [] more = refl
take-append (x ∷ c) more = ap (λ (ys : List ℕ). x ∷ ys) (take-append c more)

str_eq_refl : (s : String) → str_eq s s ≡ true
str_eq_refl s = (eq_iff s s).1 refl

pub eq_refl : (n : ℕ) → (n == n) ≡ true
eq_refl n = ground arith

read-grown :
    (c more : List ℕ) (opened : ℕ) (bytes : Option ℕ)
    → length c ≤ opened
    → or_length bytes opened ≡ length c
    → read_prefix (record { is_file = true; opened_length = opened; content = c ++ more }) bytes
      ≡ ok c
unfolding read_prefix
read-grown c more opened bytes h e =
    rw (e, le→ltb_false opened (length c) h, take-append c more, eq_refl (length c)) refl

module _ (digest : List ℕ → String) (source : Source) where
  pub heads :
      (e : IoError) (X : Result (Unit {0}))
      → (if not (str_eq source.handle source.handle)
            || not (source.created_at == source.created_at)
            || false
          then err e
          else X)
        ≡ X
  heads e X = rw (str_eq_refl source.handle, eq_refl source.created_at) refl

  pub matched : (c : List ℕ) → matches digest source (identity_of digest source c) c ≡ ok tt
  matched c =
      rw
        (
          str_eq_refl source.handle,
          eq_refl source.created_at,
          eq_refl (length c),
          str_eq_refl (digest c),
        )
        refl

  -- A snapshot taken of a whole log is of the bytes that it had when it was opened, whatever was appended
  -- before they were read, and it is validated by that log and by all that the log grows into.
  pub snapshot_survives :
      (c more later unread : List ℕ)
      → (acquire digest
            (record { is_file = true; opened_length = length c; content = c ++ more })
            source
            none
          ≡ ok (record { identity = identity_of digest source c; output = hex c }))
        × (validate digest
              (record {
                is_file = true;
                opened_length = length (c ++ later);
                content = c ++ (later ++ unread);
              })
              source
              (identity_of digest source c)
            ≡ ok tt)
  unfolding acquire validate ◌>>?◌
  snapshot_survives c more later unread = (
    ap (λ (r : Result (List ℕ)). r >>? snapshot_of digest source)
        (read-grown c more (length c) none (omega arith) refl),
    heads _ _
        ∙ ap (λ (r : Result (List ℕ)). r >>? matches digest source (identity_of digest source c))
            (read-grown c (later ++ unread) (length (c ++ later)) (some (length c))
              (omega (arith, length-append c later)) refl)
        ∙ matched c,
  )
