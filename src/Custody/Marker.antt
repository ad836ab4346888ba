-- ===== src/Custody/Marker.antt =====
-- What writing and taking back a create-once marker keeps, wherever faults stop it.
use agent_bash_tool.Common.{◌≡◌, refl, ◌∙◌, ap, Bool, true, false, not, [], arith}
use agent_bash_tool.Effects.{Result, ok, err}
use agent_bash_tool.Effects.Meets.{
  Meets, Meets-pure, Meets-raise, Meets-if, Meets-look, Meets-commit, Meets-bind, Meets-attempt,
}
use agent_bash_tool.Custody.{
  Entry, absent, file, Files, Place, is_absent, sync, rollback_created_marker,
  published_or_rolled_back, record_durable_create_once_marker,
}

-- A new marker at `p`, over facts `L` that writing `p` does not disturb.
module _ (inv : Files → Type 0) (p : Place) (L : Files → Type 0)
    (get_set : (e : Entry) (d : Files) → p.get (p.set e d) ≡ e) (owed : (d : Files) → L d → inv d)
    (stable : (e : Entry) (d : Files) → L d → L (p.set e d)) where
  abbrev Present : Files → Type 0
  Present d = L d × (is_absent (p.get d) ≡ false)

  sync-Meets : (P : Files → Type 0) → Meets P P sync (λ _ d. P d)
  unfolding sync
  sync-Meets P = Meets-look (λ d. tt) (λ d h. h) (λ d h. h)

  pub rollback-Meets : Meets L L (rollback_created_marker p) (λ _ d. L d)
  unfolding rollback_created_marker sync
  rollback-Meets =
      Meets-bind (λ _ d. L d) _ _ (Meets-look p.get (λ d h. h) (λ d h. h))
        λ entry.
          Meets-if (is_absent entry) _ _ (λ _. Meets-pure tt (λ d h. h))
            λ _.
              Meets-bind (λ _ d. L d) _ _
                (Meets-commit (p.set absent) (λ d h. h)
                  (λ d h. (stable absent d h, stable absent d h)))
                (λ _. Meets-look (λ d. tt) (λ d h. h) (λ d h. h))

  abbrev Synced : Result (Unit {0}) → Files → Type 0
  Synced (ok u) d = Present d
  Synced (err e) d = L d

  outcome-Meets :
      (Q : Bool → Files → Type 0)
      → ((d : Files) → Present d → Q true d)
      → (s : Result (Unit {0})) → Meets inv (Synced s) (published_or_rolled_back p s) Q
  unfolding published_or_rolled_back
  outcome-Meets Q q (ok u) = Meets-pure true (λ d h. q d h)
  outcome-Meets Q q (err e) =
      Meets-bind (λ _ d. L d) _ _
        (Meets-attempt _ (λ _ d. L d) (λ _ d. L d) (λ _ d h. h) (λ _ d h. h) owed rollback-Meets)
        (λ r. Meets-raise _ owed)

  pub create-Meets :
      (P : Files → Type 0) (Q : Bool → Files → Type 0)
      → ((d : Files) → P d → inv d)
      → ((d : Files) → P d → is_absent (p.get d) ≡ true → L d)
      → ((d : Files) → P d → is_absent (p.get d) ≡ false → Q false d)
      → ((d : Files) → Present d → Q true d)
      → Meets inv P (record_durable_create_once_marker p) Q
  unfolding record_durable_create_once_marker
  create-Meets P Q i l old new =
      Meets-bind (λ entry d. P d × (p.get d ≡ entry)) _ _ (Meets-look p.get i (λ d h. (h, refl)))
        λ entry.
          Meets-if (not (is_absent entry)) _ _
            (λ e. Meets-pure false (λ d h. old d h.0 (ap is_absent h.1 ∙ ground arith)))
            λ e.
              Meets-bind (λ _ d. Present d) _ _
                (Meets-commit (p.set (file [])) (λ d h. i d h.0)
                  (λ d h.
                    let fresh : L d = l d h.0 (ap is_absent h.1 ∙ ground arith) in
                    (
                      owed (p.set (file []) d) (stable (file []) d fresh),
                      (stable (file []) d fresh, ap is_absent (get_set (file []) d)),
                    )))
                λ _.
                  Meets-bind Synced _ _
                    (Meets-attempt _ (λ _ d. Present d) Synced (λ _ d h. h) (λ _ d h. h.0)
                      (λ d h. owed d h.0)
                      (Meets-bind (λ _ d. Present d) _ _ (sync-Meets Present)
                        (λ _. sync-Meets Present)))
                    (outcome-Meets Q new)
