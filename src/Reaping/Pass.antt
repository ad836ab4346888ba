-- ===== src/Reaping/Pass.antt =====
-- One pass of `reap_state_dirs` of src/state.rs over the handle directories of its shard.
use agent_bash_tool.Common.{
  ℕ, zero, suc, ◌+◌, ◌*◌, ◌/◌, ◌%◌, ◌^◌, max, Bool, ◌&&◌, ◌||◌, Option, none, some, String, List,
  [], ◌∷◌, ◌==◌, leb, if◌then◌else◌,
}
use agent_bash_tool.Common.Bytes.{codes}
use agent_bash_tool.Reaping.Eligible.{
  Handle, ReapConfig, starts_with, or_zero, state_dir_reap_eligible,
}

-- What became of an attempt to lock, and of a removal.
pub data Lock : Type 0 where
  taken busy lock_failed : Lock

pub data Removal : Type 0 where
  removed already_gone removal_failed : Removal

-- An entry of the root, as the directory listing gives it, and what meets the reaper there.
pub record Entry : Type 0 where
  pub is_directory : Bool
  pub delivery_lock : Lock
  pub custody_lock : Lock
  pub output_lock : Lock
  pub handle : Handle
  pub removal : Removal

pub record ReapStats : Type 0 where
  pub scanned : ℕ
  pub reaped : ℕ
  pub errors : ℕ

abbrev pub no_stats : ReapStats
no_stats = record { scanned = 0; reaped = 0; errors = 0 }

abbrev pub one_error : ReapStats → ReapStats
one_error stats = record stats { errors = stats.errors + 1 }

-- What the pass counts, and what it really does: the entries that it looks at and the directories that it
-- removes, the latest first.
pub record Reaped : Type 0 where
  pub stats : ReapStats
  pub looked_at : List Entry
  pub gone : List Entry

abbrev pub nothing_reaped : Reaped
nothing_reaped = record { stats = no_stats; looked_at = []; gone = [] }

abbrev pub with_error : Reaped → Reaped
with_error r = record r { stats = one_error r.stats }

-- `remove_dir_all` and its count.
abbrev pub remove_dir : Entry → Removal → Reaped → Reaped
remove_dir e removed r = record r {
  stats = record r.stats { reaped = r.stats.reaped + 1 };
  gone = e ∷ r.gone;
}
remove_dir e already_gone r = r
remove_dir e removal_failed r = with_error r

abbrev pub under_locks : Lock → Lock → Lock → Reaped → Reaped → Reaped
under_locks lock_failed custody output r after = with_error r
under_locks busy custody output r after = r
under_locks taken lock_failed output r after = r
under_locks taken busy output r after = r
under_locks taken taken lock_failed r after = with_error r
under_locks taken taken busy r after = r
under_locks taken taken taken r after = after

abbrev pub look_at : Entry → Reaped → Reaped
look_at e r = record r { looked_at = e ∷ r.looked_at }

-- Delivery, then custody, then output lock, each released at the end.
unfoldable pub reap_state_entry : Entry → ReapConfig → String → Reaped → Reaped
reap_state_entry e config boot before =
    let r = look_at e before in
    under_locks e.delivery_lock e.custody_lock e.output_lock r
      (if state_dir_reap_eligible e.handle config boot then remove_dir e e.removal r else r)

-- `^` on numbers of this many bits.
unfoldable pub bit_xor : ℕ → ℕ → ℕ → ℕ
bit_xor zero a b = 0
bit_xor (suc bits) a b = (a % 2 + b % 2) % 2 + 2 * bit_xor bits (a / 2) (b / 2)

unfoldable pub name_hash : ℕ → List ℕ → ℕ
name_hash hash [] = hash
name_hash hash (byte ∷ bytes) = name_hash (bit_xor 64 (hash * 16777619 % 2 ^ 64) byte) bytes

unfoldable pub handle_reap_shard : List ℕ → ℕ → ℕ
handle_reap_shard name shards = name_hash 2166136261 name % max shards 1

-- What became of the write of the cursor file, of which the code ignores the failure: it may leave the file as
-- it was, or cut off.
pub data CursorWrite : Type 0 where
  stored kept cut_off : CursorWrite

abbrev pub write_cursor : CursorWrite → Option ℕ → ℕ → Option ℕ
write_cursor stored cursor next = some next
write_cursor kept cursor next = cursor
write_cursor cut_off cursor next = none

-- The cursor file holds a number or nothing that reads as one.
unfoldable pub next_reap_shard : CursorWrite → Option ℕ → ℕ → ℕ × Option ℕ
next_reap_shard write cursor shards = if leb shards 1 then (0, cursor) else (
  or_zero cursor % shards,
  write_cursor write cursor ((or_zero cursor % shards + 1) % shards),
)

abbrev pub reap_limits_reached : ReapStats → ReapConfig → Bool
reap_limits_reached stats config =
    leb config.max_scan stats.scanned || leb config.max_dirs stats.reaped

-- `reap_entry_is_handle_dir`, and that the handle is of this shard.
abbrev pub is_due : Entry → ReapConfig → ℕ → Bool
is_due e config shard =
    e.is_directory
    && starts_with (codes "ab_") e.handle.name
    && handle_reap_shard e.handle.name config.shards == shard

abbrev pub count_scanned : Reaped → Reaped
count_scanned r = record r { stats = record r.stats { scanned = r.stats.scanned + 1 } }

abbrev pub reap_due : Entry → ReapConfig → String → Reaped → Reaped
reap_due e config boot r = reap_state_entry e config boot (count_scanned r)

-- The entries in the order of the listing; `none` is one that could not be read.
unfoldable pub reap_entries : List (Option Entry) → ReapConfig → String → ℕ → Reaped → Reaped
reap_entries [] config boot shard r = r
reap_entries (none ∷ entries) config boot shard r =
    let rest = reap_entries entries config boot shard (with_error r) in
    if reap_limits_reached r.stats config then r else rest
reap_entries (some e ∷ entries) config boot shard r =
    let rest = reap_entries entries config boot shard (reap_due e config boot r) in
    let passed = reap_entries entries config boot shard r in
    if reap_limits_reached r.stats config then r else if is_due e config shard then rest else passed

pub data Listing : Type 0 where
  no_root listing_failed : Listing
  entries : List (Option Entry) → Listing

abbrev pub reap_listing : Listing → ReapConfig → String → ℕ → Reaped
reap_listing no_root config boot shard = nothing_reaped
reap_listing listing_failed config boot shard = with_error nothing_reaped
reap_listing (entries list) config boot shard = reap_entries list config boot shard nothing_reaped

-- The code returns the counts.
unfoldable pub reap_state_dirs : Listing → CursorWrite → Option ℕ → ReapConfig → String → Reaped
reap_state_dirs listing write cursor config boot =
    if config.max_dirs == 0 || config.max_scan == 0
    then nothing_reaped
    else reap_listing listing config boot ((next_reap_shard write cursor config.shards).0)
