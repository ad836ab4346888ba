-- ===== src/Reaping/Limits.antt =====
-- The limits of one pass of `reap_state_dirs` of src/state.rs, and what it may remove.
use agent_bash_tool.Common.{
  ℕ, ◌≤◌, ◌<◌, ◌≡◌, refl, inl, inr, true, false, ◌||◌, Option, none, some, String, List, [], ◌∷◌,
  ◌==◌, leb, length, arith, Bool-cases, neither,
}
use agent_bash_tool.Reaping.Eligible.{ReapConfig, state_dir_reap_eligible}
use agent_bash_tool.Reaping.Pass.{
  Reaped, nothing_reaped, with_error, look_at, count_scanned, Lock, taken, busy, lock_failed,
  Removal, removed, already_gone, removal_failed, remove_dir, under_locks, Entry, reap_state_entry,
  reap_limits_reached, is_due, reap_due, reap_entries, Listing, no_root, listing_failed, entries,
  reap_listing, reap_state_dirs, CursorWrite, next_reap_shard,
}

-- What it takes to remove a directory.
pub record IsRemovable (config : ReapConfig) (boot : String) (e : Entry) : Type 0 where
  pub delivery_locked : e.delivery_lock ≡ taken
  pub custody_locked : e.custody_lock ≡ taken
  pub output_locked : e.output_lock ≡ taken
  pub eligible : state_dir_reap_eligible e.handle config boot ≡ true

module _ (config : ReapConfig) (boot : String) (shard : ℕ) where
  -- The first entries, in order, are some of the second, each of which is of the shard.
  pub data IsAmong : List Entry → List Entry → Type 0 where
    nothing_seen : IsAmong [] []
    left :
        {gone looked_at : List Entry} {e : Entry}
        → is_due e config shard ≡ true
        → IsAmong gone looked_at
        → IsAmong gone (e ∷ looked_at)
    taken_away :
        {gone looked_at : List Entry} {e : Entry}
        → is_due e config shard ≡ true
        → IsRemovable config boot e
        → IsAmong gone looked_at
        → IsAmong (e ∷ gone) (e ∷ looked_at)

-- No more directories were looked at and removed than the configuration allows, and each removed one was
-- looked at, in this shard, and removable.
pub record IsWithin (config : ReapConfig) (boot : String) (shard : ℕ) (r : Reaped) : Type 0 where
  pub scanned : length r.looked_at ≤ config.max_scan
  pub reaped : length r.gone ≤ config.max_dirs
  pub each_removable : IsAmong config boot shard r.gone r.looked_at
  pub scans_counted : r.stats.scanned ≡ length r.looked_at
  pub removals_counted : r.stats.reaped ≡ length r.gone

module _ (config : ReapConfig) (boot : String) (shard : ℕ) where
  with_error-IsWithin :
      (r : Reaped) → IsWithin config boot shard r → IsWithin config boot shard (with_error r)
  with_error-IsWithin r h = record {
    scanned = h.scanned;
    reaped = h.reaped;
    each_removable = h.each_removable;
    scans_counted = h.scans_counted;
    removals_counted = h.removals_counted;
  }

  under_locks-IsWithin :
      (delivery custody output : Lock) (r after : Reaped)
      → IsWithin config boot shard r
      → (delivery ≡ taken → custody ≡ taken → output ≡ taken → IsWithin config boot shard after)
      → IsWithin config boot shard (under_locks delivery custody output r after)
  under_locks-IsWithin lock_failed custody output r after h run = with_error-IsWithin r h
  under_locks-IsWithin busy custody output r after h run = h
  under_locks-IsWithin taken lock_failed output r after h run = h
  under_locks-IsWithin taken busy output r after h run = h
  under_locks-IsWithin taken taken lock_failed r after h run = with_error-IsWithin r h
  under_locks-IsWithin taken taken busy r after h run = h
  under_locks-IsWithin taken taken taken r after h run = run refl refl refl

  below : (a b : ℕ) → leb a b ≡ false → b < a
  below a b h = ground arith

  looked-IsWithin :
      (e : Entry) (r : Reaped)
      → IsWithin config boot shard r
      → r.stats.scanned < config.max_scan
      → is_due e config shard ≡ true
      → IsWithin config boot shard (look_at e (count_scanned r))
  looked-IsWithin e r h open_still due =
      let counted = h.scans_counted in
      record {
        scanned = omega arith;
        reaped = h.reaped;
        each_removable = left due h.each_removable;
        scans_counted = omega arith;
        removals_counted = h.removals_counted;
      }

  remove_dir-IsWithin :
      (e : Entry) (removal : Removal) (r : Reaped)
      → IsWithin config boot shard r
      → r.stats.scanned < config.max_scan
      → r.stats.reaped < config.max_dirs
      → is_due e config shard ≡ true
      → IsRemovable config boot e
      → IsWithin config boot shard (remove_dir e removal (look_at e (count_scanned r)))
  remove_dir-IsWithin e removed r h scan dirs due removable =
      let scans = h.scans_counted in
      let removals = h.removals_counted in
      record {
        scanned = omega arith;
        reaped = omega arith;
        each_removable = taken_away due removable h.each_removable;
        scans_counted = omega arith;
        removals_counted = omega arith;
      }
  remove_dir-IsWithin e already_gone r h scan dirs due removable = looked-IsWithin e r h scan due
  remove_dir-IsWithin e removal_failed r h scan dirs due removable =
      with_error-IsWithin _ (looked-IsWithin e r h scan due)

  reap_due-IsWithin :
      (e : Entry) (r : Reaped)
      → IsWithin config boot shard r
      → reap_limits_reached r.stats config ≡ false
      → is_due e config shard ≡ true
      → IsWithin config boot shard (reap_due e config boot r)
  unfolding reap_state_entry
  reap_due-IsWithin e r h open_still due =
      let limits =
        neither (leb config.max_scan r.stats.scanned) (leb config.max_dirs r.stats.reaped)
          open_still in
      let scan = below config.max_scan r.stats.scanned limits.0 in
      let dirs = below config.max_dirs r.stats.reaped limits.1 in
      let looked = looked-IsWithin e r h scan due in
      under_locks-IsWithin e.delivery_lock e.custody_lock e.output_lock _ _ looked
        (λ delivery custody output.
          elim (Bool-cases (state_dir_reap_eligible e.handle config boot)) [
            | inr needed ↦ rw needed looked
            | inl eligible ↦ rw eligible (
                remove_dir-IsWithin e e.removal r h scan dirs due (record {
                  delivery_locked = delivery;
                  custody_locked = custody;
                  output_locked = output;
                  eligible = eligible;
                }))
          ])

  reap_entries-IsWithin :
      (list : List (Option Entry)) (r : Reaped)
      → IsWithin config boot shard r
      → IsWithin config boot shard (reap_entries list config boot shard r)
  unfolding reap_entries
  reap_entries-IsWithin [] r h = h
  reap_entries-IsWithin (none ∷ list) r h = elim (Bool-cases (reap_limits_reached r.stats config)) [
    | inl full ↦ rw full h
    | inr open_still ↦
        rw open_still (reap_entries-IsWithin list (with_error r) (with_error-IsWithin r h))
  ]
  reap_entries-IsWithin (some e ∷ list) r h =
      elim (Bool-cases (reap_limits_reached r.stats config)) [
        | inl full ↦ rw full h
        | inr open_still ↦ elim (Bool-cases (is_due e config shard)) [
          | inl due ↦
              rw (open_still, due)
                (reap_entries-IsWithin list (reap_due e config boot r)
                  (reap_due-IsWithin e r h open_still due))
          | inr passed ↦ rw (open_still, passed) (reap_entries-IsWithin list r h)
        ]
      ]

  nothing_reaped-IsWithin : IsWithin config boot shard nothing_reaped
  nothing_reaped-IsWithin = record {
    scanned = omega arith;
    reaped = omega arith;
    each_removable = nothing_seen;
    scans_counted = refl;
    removals_counted = refl;
  }

  reap_listing-IsWithin :
      (listing : Listing) → IsWithin config boot shard (reap_listing listing config boot shard)
  reap_listing-IsWithin no_root = nothing_reaped-IsWithin
  reap_listing-IsWithin listing_failed = with_error-IsWithin nothing_reaped nothing_reaped-IsWithin
  reap_listing-IsWithin (entries list) =
      reap_entries-IsWithin list nothing_reaped nothing_reaped-IsWithin

-- Whatever the directory listing holds and whatever locks and removals answer, a pass looks at and removes no
-- more handle directories than its configuration allows, counts both exactly, and removes only directories
-- of its shard that it looked at, each at most once a look, under all three locks and where eligible.
pub reap_state_dirs-IsWithin :
    (listing : Listing) (write : CursorWrite) (cursor : Option ℕ) (config : ReapConfig)
    (boot : String)
    → IsWithin config boot
        (next_reap_shard write cursor config.shards).0
        (reap_state_dirs listing write cursor config boot)
unfolding reap_state_dirs
reap_state_dirs-IsWithin listing write cursor config boot =
    let shard = (next_reap_shard write cursor config.shards).0 in
    elim (Bool-cases (config.max_dirs == 0 || config.max_scan == 0)) [
      | inl off ↦ rw off (nothing_reaped-IsWithin config boot shard)
      | inr on ↦ rw on (reap_listing-IsWithin config boot shard listing)
    ]
