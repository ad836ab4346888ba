-- ===== src/RetainedOutput/Validated.antt =====
-- What `validate` of src/retained_output.rs accepts.
use agent_bash_tool.Common.{
  ℕ, ◌≤◌, ◌≡◌, refl, sym, subst, ap, ◌∙◌, ◌↔◌, Bool, true, false, some, String, eq_iff, List,
  length, take, arith, if◌then◌else◌, le→ltb_false,
}
use agent_bash_tool.Effects.{IoError, Result, ok, err, ◌>>?◌}
use agent_bash_tool.Effects.Results.{reached}
use agent_bash_tool.RetainedOutput.Snapshots.{heads, matched, eq_refl}
use agent_bash_tool.RetainedOutput.{
  Log, Source, SourceIdentity, read_prefix, identity_of, same_identity, matches, validate,
}

module _ (digest : List ℕ → String) (log : Log) (source : Source) (expected : SourceIdentity) where
  -- The log is a file that was long enough when it was opened, and the identity is that of the bytes at its
  -- start, of the source.
  pub record IsOfLog : Type 0 where
    pub regular : log.is_file ≡ true
    pub long_enough : expected.bytes ≤ log.opened_length
    pub identity : expected ≡ identity_of digest source (take expected.bytes log.content)

  pub record IsRead (c : List ℕ) : Type 0 where
    pub regular : log.is_file ≡ true
    pub long_enough : expected.bytes ≤ log.opened_length
    pub whole : length c ≡ expected.bytes
    pub start : take expected.bytes log.content ≡ c

  read_prefix-IsRead : (c : List ℕ) → read_prefix log (some expected.bytes) ≡ ok c → IsRead c
  unfolding read_prefix
  read_prefix-IsRead c h = record {
    regular = ground arith;
    long_enough = ground arith;
    whole = ground arith;
    start = ground arith;
  }

  same_of : (a b : SourceIdentity) → same_identity digest a b ≡ true → a ≡ b
  same_of a b h =
      let handle = (eq_iff a.handle b.handle).0 (ground arith) in
      let sha = (eq_iff a.sha256 b.sha256).0 (ground arith) in
      let encoding = (eq_iff a.encoding b.encoding).0 (ground arith) in
      let version : a.version ≡ b.version = ground arith in
      let created : a.created_at ≡ b.created_at = ground arith in
      let bytes : a.bytes ≡ b.bytes = ground arith in cc

  matches-same :
      (c : List ℕ)
      → matches digest source expected c ≡ ok tt
      → expected ≡ identity_of digest source c
  matches-same c h = sym (same_of (identity_of digest source c) expected (ground arith))

  passed :
      (test : Bool) (e : IoError) (r : Result (Unit {0}))
      → (if test then err e else r) ≡ ok tt
      → r ≡ ok tt
  passed true e r h = absurd (ground arith)
  passed false e r h = h

  validated-IsOfLog : validate digest log source expected ≡ ok tt → IsOfLog
  unfolding validate
  validated-IsOfLog h =
      let (c, read, same) =
        reached (read_prefix log (some expected.bytes)) (matches digest source expected) tt
          (passed _ _ _ h) in
      let r = read_prefix-IsRead c read in
      record {
        regular = r.regular;
        long_enough = r.long_enough;
        identity = matches-same c same ∙ ap (identity_of digest source) (sym r.start);
      }

read_whole :
    (log : Log) (c : List ℕ)
    → log.is_file ≡ true
    → length c ≤ log.opened_length
    → take (length c) log.content ≡ c
    → read_prefix log (some (length c)) ≡ ok c
unfolding read_prefix
read_whole log c file long start =
    rw (file, le→ltb_false log.opened_length (length c) long, start, eq_refl (length c)) refl

module _ (digest : List ℕ → String) (log : Log) (source : Source) where
  taken_validates :
      (c : List ℕ)
      → log.is_file ≡ true
      → length c ≤ log.opened_length
      → take (length c) log.content ≡ c
      → validate digest log source (identity_of digest source c) ≡ ok tt
  unfolding validate ◌>>?◌
  taken_validates c file long start =
      heads digest source _ _
      ∙ ap (λ (r : Result (List ℕ)). r >>? matches digest source (identity_of digest source c))
          (read_whole log c file long start)
      ∙ matched digest source c

  IsOfLog-validate :
      (expected : SourceIdentity)
      → IsOfLog digest log source expected
      → validate digest log source expected ≡ ok tt
  IsOfLog-validate expected h =
      let c = take expected.bytes log.content in
      let size : length c ≡ expected.bytes =
        sym (ap (λ (i : SourceIdentity). i.bytes) h.identity) in
      ap (validate digest log source) h.identity
      ∙ taken_validates c h.regular (subst (λ n. n ≤ log.opened_length) (sym size) h.long_enough)
          (ap (λ n. take n log.content) size)

-- An identity is accepted exactly if it is, in every field, the one that the source gives to the bytes which
-- the log begins with, of the length that the identity names, where the log is a file that was at least that
-- long when it was opened.
pub validate-IsOfLog :
    (digest : List ℕ → String) (log : Log) (source : Source) (expected : SourceIdentity)
    → (validate digest log source expected ≡ ok tt) ↔ IsOfLog digest log source expected
validate-IsOfLog digest log source expected =
    (validated-IsOfLog digest log source expected, IsOfLog-validate digest log source expected)
