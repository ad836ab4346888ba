-- ===== src/RetainedOutput/Receipt/Published.antt =====
-- What a recorded receipt promises, src/retained_output.rs.
use agent_bash_tool.Common.{
  suc, [], ◌∷◌, ◌≡◌, ◌⊎◌, inl, inr, refl, sym, subst, if◌then◌else◌, ◌∙◌, ap, Bool, true, false,
  Option, none, some, length, take, arith,
}
use agent_bash_tool.Effects.{Result, ok, err, World, look}
use agent_bash_tool.Effects.Meets.{
  Post, Meets, Meets-pure, Meets-raise, Meets-lift, Meets-if, Meets-look, Meets-commit, Meets-bind,
  Meets-attempt, Meets-weaken, Meets-loosen, Meets-missing,
}
use agent_bash_tool.Custody.{
  Text, Entry, absent, file, unreadable, not_a_file, same_text, durable_marker_exists, read_text,
}
use agent_bash_tool.RetainedOutput.{SourceIdentity}
use agent_bash_tool.RetainedOutput.Receipt.{
  Shelf, legacy_of, reject_legacy, sync_receipt_directory, create_staging, renamed, publish_new,
  confirm_duplicate, compare_existing, existing_of, open_existing, publish_receipt, record_receipt,
  opened, is_consumed,
}
use agent_bash_tool.RetainedOutput.Receipt.Phases.{in_phase-Meets, writes-Meets}

-- The receipt stands and outlives the machine.
pub record IsPublished (encoded : Text) (d : Shelf) : Type 0 where
  pub stands : d.receipt ≡ file encoded
  pub synced : d.is_synced ≡ true
  pub linked : d.is_linked ≡ true

-- One byte more than the text has tells it from a longer one.
same_start :
    (content text : Text)
    → same_text (take (suc (length text)) content) text ≡ true
    → content ≡ text
same_start [] [] h = refl
same_start (x ∷ xs) [] h = absurd (ground arith)
same_start [] (y ∷ ys) h = absurd (ground arith)
same_start (x ∷ xs) (y ∷ ys) h =
    let tail : same_text (take (suc (length ys)) xs) ys ≡ true → xs ≡ ys = same_start xs ys in
    grind arith

module _ (encoded : Text) (before : Entry) where
  abbrev Unchanged : Shelf → Type 0
  Unchanged d = d.receipt ≡ before

  abbrev Kept : Shelf → Type 0
  Kept d = (d.receipt ≡ before) ⊎ (d.receipt ≡ file encoded)

  abbrev Stands : Shelf → Type 0
  Stands d = (d.receipt ≡ file encoded) × (d.is_synced ≡ true)

  abbrev Published : Bool → Shelf → Type 0
  Published fresh d = IsPublished encoded d × (fresh ≡ false → before ≡ file encoded)

  sync-Meets : Meets Kept Stands sync_receipt_directory (λ _. IsPublished encoded)
  unfolding sync_receipt_directory
  sync-Meets =
      Meets-bind (λ _. Stands) _ _
        (in_phase-Meets Kept "directory-open" (look (λ d. tt)) (λ _. Stands)
          (Meets-look (λ d. tt) (λ d s. inr s.0) (λ d s. s)))
        (λ _.
          writes-Meets Kept "published-directory-sync" (λ d. record d { is_linked = true })
            (λ d s. inr s.0)
            (λ d s. (inr s.0, record { stands = s.0; synced = s.1; linked = refl })))

  create-Meets : Meets Kept Unchanged create_staging (λ _. Unchanged)
  unfolding create_staging
  create-Meets =
      Meets-bind (λ _. Unchanged) _ _ (Meets-look (λ d. d) (λ d u. inl u) (λ d u. u))
        (λ seen.
          Meets-bind (λ _. Unchanged) _ _
            (Meets-lift (opened seen.staging) (λ d u. inl u) (λ _ _ d u. u))
            (λ _. Meets-commit _ (λ d u. inl u) (λ d u. (inl u, u))))

  abbrev Staged : Shelf → Type 0
  Staged d = Unchanged d × (d.staging ≡ file encoded)

  publish_new-Meets : Meets Kept Unchanged (publish_new encoded) Published
  unfolding publish_new
  publish_new-Meets =
      Meets-bind (λ _. Unchanged) _ _
        (in_phase-Meets Kept "prepare" create_staging (λ _. Unchanged) create-Meets)
        (λ _.
          Meets-bind (λ _. Staged) _ _
            (writes-Meets Kept "write" _ (λ d u. inl u) (λ d u. (inl u, (u, refl))))
            (λ _.
              Meets-bind (λ _ d. Staged d × (d.staging_synced ≡ true)) _ _
                (writes-Meets Kept "prepare-file-sync" _ (λ d s. inl s.0)
                  (λ d s. (inl s.0, (s, refl))))
                (λ _.
                  Meets-bind (λ _. Stands) _ _
                    (writes-Meets Kept "publish" renamed (λ d s. inl (s.0).0)
                      (λ d s. (inr (s.0).1, ((s.0).1, s.1))))
                    (λ _.
                      Meets-bind (λ _. IsPublished encoded) _ _ sync-Meets
                        (λ _. Meets-pure true (λ d p. (p, λ e. absurd (ground arith))))))))

  confirm_duplicate-Meets : before ≡ file encoded → Meets Kept Unchanged confirm_duplicate Published
  unfolding confirm_duplicate
  confirm_duplicate-Meets same =
      Meets-bind (λ _. Stands) _ _
        (writes-Meets Kept "duplicate-file-sync" _ (λ d u. inl u)
          (λ d u. (inl u, (u ∙ same, refl))))
        (λ _.
          Meets-bind (λ _. IsPublished encoded) _ _ sync-Meets
            (λ _. Meets-pure false (λ d p. (p, λ e. same))))

  abbrev Found : Option Text → Shelf → Type 0
  Found none d = Unchanged d
  Found (some content) d = Unchanged d × (before ≡ file content)

  compared-Meets :
      (content bytes : Text)
      → Meets Kept
          (λ d. Found (some content) d × (bytes ≡ take (suc (length encoded)) content))
          (if same_text bytes encoded then confirm_duplicate else publish_new encoded)
          Published
  compared-Meets content bytes =
      Meets-if (same_text bytes encoded) _ _
        (λ same. record {
          at = λ w f.
              let whole =
                same_start content encoded (subst (λ t. same_text t encoded ≡ true) f.1 same) in
              (confirm_duplicate-Meets ((f.0).1 ∙ ap file whole)).at w (f.0).0;
        })
        (λ _. Meets-weaken _ (λ d f. (f.0).0) publish_new-Meets)

  compare_existing-Meets :
      (existing : Option Text)
      → Meets Kept (Found existing) (compare_existing encoded existing) Published
  unfolding compare_existing
  compare_existing-Meets none = publish_new-Meets
  compare_existing-Meets (some content) =
      Meets-bind (λ bytes d. Found (some content) d × (bytes ≡ take (suc (length encoded)) content))
        _ _ (Meets-look _ (λ d f. inl f.0) (λ d f. (f, refl)))
        (λ bytes. compared-Meets content bytes)

  abbrev Answered : Result Text → Shelf → Type 0
  Answered (ok content) d = Unchanged d × (before ≡ file content)
  Answered (err e) d = Unchanged d

  read_text-file : (e : Entry) (content : Text) → read_text e ≡ ok content → e ≡ file content
  unfolding read_text
  read_text-file absent content h = absurd (ground arith)
  read_text-file (file text) content h = cc
  read_text-file unreadable content h = absurd (ground arith)
  read_text-file not_a_file content h = absurd (ground arith)

  existing_of-Meets : (r : Result Text) → Meets Unchanged (Answered r) (existing_of r) Found
  unfolding existing_of
  existing_of-Meets (ok content) = Meets-pure (some content) (λ d h. h)
  existing_of-Meets (err e) =
      Meets-missing e.kind _ _ (Meets-pure none (λ d u. u)) (Meets-raise _ (λ d u. u))

  open_existing-Meets : Meets Unchanged Unchanged open_existing Found
  unfolding open_existing
  open_existing-Meets =
      Meets-bind Answered _ existing_of
        (Meets-attempt _ (λ content d. Unchanged d × (before ≡ file content)) Answered (λ a d h. h)
          (λ e d h. h) (λ d h. h)
          (Meets-bind (λ seen d. Unchanged d × (seen.receipt ≡ before)) _ _
            (Meets-look (λ d. d) (λ d u. u) (λ d u. (u, u)))
            (λ seen.
              Meets-lift (read_text seen.receipt) (λ d h. h.0)
                (λ content is d h. (h.0, sym h.1 ∙ read_text-file seen.receipt content is)))))
        existing_of-Meets

  publish_receipt-Meets : Meets Kept Unchanged (publish_receipt encoded) Published
  unfolding publish_receipt
  publish_receipt-Meets =
      Meets-bind (λ _. Unchanged) _ _
        (in_phase-Meets Kept "read" _ (λ _. Unchanged)
          (Meets-bind (λ _. Unchanged) _ _ (Meets-look (λ d. d) (λ d u. inl u) (λ d u. u))
            (λ seen.
              Meets-lift (durable_marker_exists seen.receipt) (λ d u. inl u) (λ _ _ d u. u))))
        (λ _.
          Meets-bind Found _ _
            (Meets-loosen open_existing (λ d u. inl u) (λ _ _ f. f) open_existing-Meets)
            compare_existing-Meets)

legacy_of-Meets :
    (before : Entry) (r : Result (Unit {0}))
    → Meets
        (λ d. d.receipt ≡ before)
        (λ d. d.receipt ≡ before)
        (legacy_of r)
        (λ _ d. d.receipt ≡ before)
unfolding legacy_of
legacy_of-Meets before (ok there) = Meets-raise _ (λ d u. u)
legacy_of-Meets before (err e) =
    Meets-missing e.kind _ _ (Meets-pure tt (λ d u. u)) (Meets-raise e (λ d u. u))

reject_legacy-Meets :
    (before : Entry)
    → Meets
        (λ d. d.receipt ≡ before)
        (λ d. d.receipt ≡ before)
        reject_legacy
        (λ _ d. d.receipt ≡ before)
unfolding reject_legacy
reject_legacy-Meets before =
    Meets-bind (λ _ d. d.receipt ≡ before) _ legacy_of
      (Meets-attempt _ (λ _ d. d.receipt ≡ before) (λ _ d. d.receipt ≡ before) (λ _ _ u. u)
        (λ _ _ u. u) (λ _ u. u)
        (Meets-bind (λ _ d. d.receipt ≡ before) _ _ (Meets-look (λ d. d) (λ d u. u) (λ d u. u))
          (λ seen. Meets-lift (is_consumed seen.consumed) (λ d u. u) (λ _ _ d u. u))))
      (legacy_of-Meets before)

module _ (encode : SourceIdentity → Result Text) (identity : SourceIdentity) where
  -- The encoded identity is what a path holds.
  abbrev pub IsReceipt : Entry → Type 0
  IsReceipt e = (encoded : Text) × (encode identity ≡ ok encoded) × (e ≡ file encoded)

  abbrev pub KeepsReceipt : Entry → Shelf → Type 0
  KeepsReceipt before d = (d.receipt ≡ before) ⊎ IsReceipt d.receipt

  abbrev pub RecordsReceipt : Entry → Bool → Shelf → Type 0
  RecordsReceipt before fresh d =
      IsReceipt d.receipt
      × (d.is_synced ≡ true)
      × (d.is_linked ≡ true)
      × (fresh ≡ false → IsReceipt before)

  publishes-Meets :
      (before : Entry) (encoded : Text)
      → Meets
          (KeepsReceipt before)
          (λ d. (encode identity ≡ ok encoded) × (d.receipt ≡ before))
          (publish_receipt encoded)
          (RecordsReceipt before)
  publishes-Meets before encoded = record {
    at = λ w p.
        (Meets-loosen (publish_receipt encoded)
            (λ d k. elim k [ inl same ↦ inl same | inr new ↦ inr (encoded, p.0, new) ])
            (λ fresh d q. (
              (encoded, p.0, (q.0).stands),
              (q.0).synced,
              (q.0).linked,
              λ old. (encoded, p.0, q.1 old),
            ))
            (publish_receipt-Meets encoded before)).at
          w p.1;
  }

  record_receipt-Meets :
      (before : Entry)
      → Meets
          (KeepsReceipt before)
          (λ d. d.receipt ≡ before)
          (record_receipt encode identity)
          (RecordsReceipt before)
  unfolding record_receipt
  record_receipt-Meets before =
      Meets-bind (λ _ d. d.receipt ≡ before) _ _
        (Meets-loosen reject_legacy (λ d u. inl u) (λ _ _ u. u) (reject_legacy-Meets before))
        (λ _.
          Meets-bind (λ encoded d. (encode identity ≡ ok encoded) × (d.receipt ≡ before)) _ _
            (Meets-lift (encode identity) (λ d u. inl u) (λ encoded e d u. (e, u)))
            (publishes-Meets before))

  -- Whatever faults hit, the receipt is left as it was or is the given one, never removed or torn; and
  -- where the call returns, it is the given one and outlives the machine, and was there before if the call
  -- says that it is not new.
  pub record_receipt-IsReceipt :
      (w : World Shelf)
      → Post
          (KeepsReceipt (w.disk).receipt)
          (RecordsReceipt (w.disk).receipt)
          (record_receipt encode identity w)
  record_receipt-IsReceipt w = (record_receipt-Meets (w.disk).receipt).at w refl
