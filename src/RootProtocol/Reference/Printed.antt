-- ===== src/RootProtocol/Reference/Printed.antt =====
-- `parse_identity` of src/root_v1.rs reads the printed form of the usable identities, and no other text.
use agent_bash_tool.Common.{
  ℕ, ◌≤◌, ◌<◌, ◌≡◌, refl, sym, ap, ◌∙◌, subst, ◌↔◌, inl, inr, Bool, true, false, not, ◌||◌, Option,
  none, some, List, [], ◌∷◌, arith, ◌==◌, ltb, if◌then◌else◌, length, is_empty, Bool-cases, both,
  guarded, neither, not-false, some-injective, ltb_false→le, le→ltb_false,
}
use agent_bash_tool.Common.Int.{ℤ, pos, negsuc, int_leb}
use agent_bash_tool.Common.Bytes.{
  codes, text_eq, text_eq_sound, text_eq_refl, split, split-append, split-whole, all_of, Without,
}
use agent_bash_tool.Common.Decimal.{parse_unsigned, parse_signed, print_unsigned, print_signed}
use agent_bash_tool.Common.Decimal.RoundTrip.{
  AreDigits, print_unsigned-AreDigits, parse_unsigned-print, parse_signed-print, parse_signed_bound,
}
use agent_bash_tool.RootProtocol.Reference.{
  Identity, colon, root_byte, hash_byte, i64_max, u64_max, print_identity, check_numbers,
  is_malformed, check_parts, parse_identity,
}

-- The work is a positive 64-bit number, at most 64 MiB are kept, the root has 1 to 64 bytes of its
-- alphabet and the hash is 64 hexadecimal digits.
pub record IsUsable (i : Identity) : Type 0 where
  pub number : ℕ
  pub work : i.work ≡ pos number
  pub positive : 0 < number
  pub fits : number ≤ i64_max
  pub bytes : i.bytes ≤ 67108864
  pub root_there : is_empty i.root ≡ false
  pub root_short : length i.root ≤ 64
  pub root_bytes : all_of root_byte i.root ≡ true
  pub hash_length : length i.hash ≡ 64
  pub hash_bytes : all_of hash_byte i.hash ≡ true

digits-Without : (text : List ℕ) → AreDigits text → Without colon text
digits-Without [] h = record {}
digits-Without (c ∷ cs) h = let digit : c ≤ 57 = h.1 in (ground arith, digits-Without cs h.2)

root_byte_lem : (c : ℕ) → root_byte c ≡ true → (c == colon) ≡ false
root_byte_lem c h = ground arith

hash_byte_lem : (c : ℕ) → hash_byte c ≡ true → (c == colon) ≡ false
hash_byte_lem c h = ground arith

all_of-Without :
    (test : ℕ → Bool)
    → ((c : ℕ) → test c ≡ true → (c == colon) ≡ false)
    → (text : List ℕ) → all_of test text ≡ true
    → Without colon text
all_of-Without test free [] h = record {}
all_of-Without test free (c ∷ cs) h =
    let parts = both (test c) (all_of test cs) h in
    (free c parts.0, all_of-Without test free cs parts.1)

pub split-print_identity :
    (i : Identity)
    → IsUsable i
    → split colon (print_identity i)
      ≡ codes "rv1o" ∷ i.root ∷ print_signed i.work ∷ print_unsigned i.bytes ∷ i.hash ∷ []
unfolding print_identity print_signed
split-print_identity i u =
    let work : Without colon (print_signed i.work) =
      rw u.work (digits-Without (print_unsigned u.number) (print_unsigned-AreDigits u.number)) in
    let bytes = digits-Without (print_unsigned i.bytes) (print_unsigned-AreDigits i.bytes) in
    split-append colon (codes "rv1o") _ (refl, (refl, (refl, (refl, record {}))))
    ∙ ap (λ t. codes "rv1o" ∷ t)
        (split-append colon i.root _ (all_of-Without root_byte root_byte_lem i.root u.root_bytes)
          ∙ ap (λ t. i.root ∷ t)
              (split-append colon (print_signed i.work) _ work
                ∙ ap (λ t. print_signed i.work ∷ t)
                    (split-append colon (print_unsigned i.bytes) _ bytes
                      ∙ ap (λ t. print_unsigned i.bytes ∷ t)
                          (split-whole colon i.hash
                            (all_of-Without hash_byte hash_byte_lem i.hash u.hash_bytes)))))

numbers :
    (i : Identity)
    → IsUsable i
    → check_numbers
        (print_identity i)
        i.root
        i.hash
        (parse_signed i64_max (print_signed i.work))
        (parse_unsigned u64_max (print_unsigned i.bytes))
      ≡ some i
numbers i u =
    let fits = u.fits in
    let bytes = u.bytes in
    let positive = u.positive in
    let work : parse_signed i64_max (print_signed i.work) ≡ some i.work =
      rw u.work (parse_signed-print i64_max u.number (omega arith) u.fits) in
    let above : int_leb i.work (pos 0) ≡ false = rw u.work (ground arith) in
    rw
      (
        work,
        parse_unsigned-print u64_max i.bytes (omega arith) (omega arith),
        above,
        le→ltb_false 67108864 i.bytes u.bytes,
        text_eq_refl (print_identity i),
      )
      refl

-- Every usable identity is read from its printed form.
pub parse_identity-print : (i : Identity) → IsUsable i → parse_identity (print_identity i) ≡ some i
unfolding parse_identity
parse_identity-print i u =
    ap (check_parts (print_identity i)) (split-print_identity i u)
    ∙ rw
        (
          u.root_there,
          le→ltb_false 64 (length i.root) u.root_short,
          u.root_bytes,
          u.hash_length,
          u.hash_bytes,
        )
        (numbers i u)

-- The numbers of an identity that `check_numbers` lets pass.
Passed : List ℕ → List ℕ → List ℕ → Identity → Type 0
Passed text root hash i =
    (print_identity i ≡ text)
    × (i.root ≡ root)
    × (i.hash ≡ hash)
    × (i.bytes ≤ 67108864)
    × (n : ℕ) × (i.work ≡ pos n)
    × (0 < n)
    × (n ≤ i64_max)

above_zero : (n : ℕ) → int_leb (pos n) (pos 0) ≡ false → 0 < n
above_zero n h = ground arith

exact_lem :
    (text : List ℕ) (parsed i : Identity)
    → (if text_eq (print_identity parsed) text then some parsed else none) ≡ some i
    → (print_identity parsed ≡ text) × (parsed ≡ i)
exact_lem text parsed i h = elim (Bool-cases (text_eq (print_identity parsed) text)) [
  | inl same ↦ (text_eq_sound (print_identity parsed) text same, some-injective (rw same at h))
  | inr other ↦ absurd (ground arith)
]

numbers-Passed :
    (text root hash : List ℕ) (work : Option ℤ) (bytes : Option ℕ) (i : Identity)
    → ((n : ℕ) → work ≡ some (pos n) → n ≤ i64_max)
    → check_numbers text root hash work bytes ≡ some i
    → Passed text root hash i
unfolding Passed
numbers-Passed text root hash none bytes i bound h = absurd (ground arith)
numbers-Passed text root hash (some w) none i bound h = absurd (ground arith)
numbers-Passed text root hash (some (negsuc n)) (some b) i bound h = absurd (ground arith)
numbers-Passed text root hash (some (pos n)) (some b) i bound h =
    let parsed : Identity = record { root = root; work = pos n; bytes = b; hash = hash } in
    let outer = guarded (int_leb (pos n) (pos 0) || ltb 67108864 b) _ i h in
    let limits = neither (int_leb (pos n) (pos 0)) (ltb 67108864 b) outer.0 in
    let above : int_leb (pos n) (pos 0) ≡ false = limits.0 in
    let inner = exact_lem text parsed i outer.1 in
    let positive : 0 < n = above_zero n above in
    rw (sym inner.1)
      (inner.0, refl, refl, ltb_false→le 67108864 b limits.1, n, refl, positive, bound n refl)

-- The root and the hash that are not malformed.
WellFormed : List ℕ → List ℕ → Type 0
WellFormed root hash =
    (is_empty root ≡ false)
    × (length root ≤ 64)
    × (all_of root_byte root ≡ true)
    × (length hash ≡ 64)
    × (all_of hash_byte hash ≡ true)

formed : (tag root hash : List ℕ) → is_malformed tag root hash ≡ false → WellFormed root hash
unfolding WellFormed
formed tag root hash h =
    let hash_bytes = neither _ (not (all_of hash_byte hash)) h in
    let hash_length = neither _ (not (length hash == 64)) hash_bytes.0 in
    let root_bytes = neither _ (not (all_of root_byte root)) hash_length.0 in
    let short = neither _ (ltb 64 (length root)) root_bytes.0 in
    let there = neither _ (is_empty root) short.0 in
    let long : (length hash == 64) ≡ true = not-false _ hash_length.1 in
    (
      there.1,
      ltb_false→le 64 (length root) short.1,
      not-false _ root_bytes.1,
      ground arith,
      not-false _ hash_bytes.1,
    )

usable :
    (text root hash : List ℕ) (i : Identity)
    → WellFormed root hash
    → Passed text root hash i
    → IsUsable i
unfolding WellFormed Passed
usable text root hash i (there, short, root_bytes, hash_length, hash_bytes)
      (exact, same_root, same_hash, bytes, n, work, positive, fits) =
    record {
      number = n;
      work = work;
      positive = positive;
      fits = fits;
      bytes = bytes;
      root_there = rw same_root there;
      root_short = rw same_root short;
      root_bytes = rw same_root root_bytes;
      hash_length = rw same_hash hash_length;
      hash_bytes = rw same_hash hash_bytes;
    }

parts-IsUsable :
    (text : List ℕ) (parts : List (List ℕ)) (i : Identity)
    → check_parts text parts ≡ some i
    → (print_identity i ≡ text) × IsUsable i
unfolding Passed
parts-IsUsable text [] i h = absurd (ground arith)
parts-IsUsable text (a ∷ []) i h = absurd (ground arith)
parts-IsUsable text (a ∷ b ∷ []) i h = absurd (ground arith)
parts-IsUsable text (a ∷ b ∷ c ∷ []) i h = absurd (ground arith)
parts-IsUsable text (a ∷ b ∷ c ∷ d ∷ []) i h = absurd (ground arith)
parts-IsUsable text (a ∷ b ∷ c ∷ d ∷ e ∷ f ∷ rest) i h = absurd (ground arith)
parts-IsUsable text (tag ∷ root ∷ work ∷ bytes ∷ hash ∷ []) i h =
    let outer = guarded (is_malformed tag root hash) _ i h in
    let passed =
      numbers-Passed text root hash _ _ i (λ n e. parse_signed_bound i64_max n work e) outer.1 in
    (passed.0, usable text root hash i (formed tag root hash outer.0) passed)

-- A text is read as an identity exactly when the identity is usable and the text is its printed form.
pub parse_identity-IsUsable :
    (text : List ℕ) (i : Identity)
    → (parse_identity text ≡ some i) ↔ (IsUsable i × (print_identity i ≡ text))
unfolding parse_identity
parse_identity-IsUsable text i = (
  λ h. let read = parts-IsUsable text (split colon text) i h in (read.1, read.0),
  λ h. subst (λ t. check_parts t (split colon t) ≡ some i) h.1 (parse_identity-print i h.0),
)
