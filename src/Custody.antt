-- ===== src/Custody.antt =====
-- The physical-custody files of src/state.rs: who still owes the reaping of a process tree, and whether
-- a cancellation may still be admitted to it. The caller holds the custody lock in `accept` and `end`,
-- so each runs whole; a failing or interrupted file operation is a fault.
pub mod Marker
pub mod Admission
pub mod Remains
pub mod Discharge
pub mod History
mod Tests
use agent_bash_tool.Common.{
  ℕ, suc, Option, none, some, Bool, true, false, not, ◌&&◌, ◌||◌, List, [], ◌∷◌, leb, ◌==◌, length,
  if◌then◌else◌,
}
use agent_bash_tool.Effects.{
  ErrorKind, not_found, other, IoError, error_other, Result, ok, err, World, Exec, pure, raise,
  lift, look, commit, attempt, ◌>>=◌, ◌>>◌,
}

-- Texts as bytes.
abbrev pub Text : Type 0
Text = List ℕ

-- What a path holds. A file may be unreadable though it is there.
pub data Entry : Type 0 where
  absent : Entry
  file : Text → Entry
  unreadable : Entry
  not_a_file : Entry

pub record Files : Type 0 where
  pub physical_custody : Entry
  pub external_transfer_custody : Entry
  pub accepted_cancel : Entry
  pub cancellation_drained : Entry

abbrev pub same_text : Text → Text → Bool
same_text [] [] = true
same_text [] (y ∷ ys) = false
same_text (x ∷ xs) [] = false
same_text (x ∷ xs) (y ∷ ys) = x == y && same_text xs ys

abbrev pub between : ℕ → ℕ → ℕ → Bool
between lo hi b = leb lo b && leb b hi

-- `byte.is_ascii_hexdigit()`
pub is_hex_digit : ℕ → Bool
is_hex_digit b = between b'0' b'9' b || between b'a' b'f' b || between b'A' b'F' b

abbrev is_dash_place : ℕ → Bool
is_dash_place i = i == 8 || i == 13 || i == 18 || i == 23

boot_id_bytes : ℕ → Text → Bool
unfolding is_hex_digit
boot_id_bytes i [] = true
boot_id_bytes i (b ∷ bs) =
    (if is_dash_place i then b == b'-' else is_hex_digit b) && boot_id_bytes (suc i) bs

pub valid_boot_id : Text → Bool
unfolding boot_id_bytes
valid_boot_id id = length id == 36 && boot_id_bytes 0 id

-- `fs::read_to_string`
unfoldable pub read_text : Entry → Result Text
read_text absent = err (record { kind = not_found; message = "not found" })
read_text (file text) = ok text
read_text unreadable = err (error_other "unreadable")
read_text not_a_file = err (error_other "is a directory")

-- `durable_marker_exists`: of the file's metadata, which an unreadable file has too.
unfoldable pub durable_marker_exists : Entry → Result Bool
durable_marker_exists absent = ok false
durable_marker_exists (file text) = ok true
durable_marker_exists unreadable = ok true
durable_marker_exists not_a_file = err (error_other "durable marker is not a regular file")

abbrev may_remain_of : Text → Result Text → Bool
may_remain_of boot (ok recorded) =
    not (valid_boot_id recorded) || not (valid_boot_id boot) || same_text recorded boot
may_remain_of boot (err e) = elim e.kind [ not_found ↦ false | _ ↦ true ]

unfoldable pub boot_custody_may_remain : Entry → Text → Bool
unfolding read_text
boot_custody_may_remain marker boot = may_remain_of boot (read_text marker)

unfoldable pub physical_custody_may_remain : Files → Text → Bool
physical_custody_may_remain d boot =
    boot_custody_may_remain d.physical_custody boot
    || boot_custody_may_remain d.external_transfer_custody boot

-- A path of the handle's directory, to be read and written.
pub record Place : Type 0 where
  pub get : Files → Entry
  pub set : Entry → Files → Files

abbrev pub at_physical : Place
at_physical = record {
  get = λ d. d.physical_custody;
  set = λ e d. record d { physical_custody = e };
}

abbrev pub at_external : Place
at_external = record {
  get = λ d. d.external_transfer_custody;
  set = λ e d. record d { external_transfer_custody = e };
}

abbrev pub at_accepted : Place
at_accepted = record { get = λ d. d.accepted_cancel; set = λ e d. record d { accepted_cancel = e } }

abbrev pub at_drained : Place
at_drained = record {
  get = λ d. d.cancellation_drained;
  set = λ e d. record d { cancellation_drained = e };
}

abbrev pub is_absent : Entry → Bool
is_absent absent = true
is_absent _ = false

-- `sync_all`, of a file or of its directory: nothing to see, but it may fail.
sync : Exec Files (Unit {0})
sync = look (λ d. tt)

-- `rollback_created_marker`
pub rollback_created_marker : Place → Exec Files (Unit {0})
unfolding sync
rollback_created_marker p = do
  entry ← look p.get
  if is_absent entry then pure tt else (do commit (p.set absent); sync)

-- The error reported, of the publication's and that of its rollback.
publication_error : IoError → Result (Unit {0}) → IoError
publication_error e (ok _) = e
publication_error e (err _) = record {
  kind = e.kind;
  message = "failed to publish durable marker; rollback failed";
}

-- What follows the two syncs of a new marker.
published_or_rolled_back : Place → Result (Unit {0}) → Exec Files Bool
unfolding rollback_created_marker publication_error
published_or_rolled_back p (ok _) = pure true
published_or_rolled_back p (err e) = do
  rolled_back ← attempt (rollback_created_marker p)
  raise (publication_error e rolled_back)

-- `record_durable_create_once_marker`: whether the marker is new.
unfoldable pub record_durable_create_once_marker : Place → Exec Files Bool
unfolding published_or_rolled_back sync
record_durable_create_once_marker p = do
  entry ← look p.get
  if not (is_absent entry) then pure false else (do
    commit (p.set (file []))
    synced ← attempt (do sync; sync)
    published_or_rolled_back p synced)

-- `begin_physical_custody`, of the running boot.
pub begin_physical_custody : Text → Exec Files (Unit {0})
begin_physical_custody boot = commit (λ d. record d { physical_custody = file boot })

-- A custody file as `accept_terminal_custody_cancel` reads it: `none` where it is not there.
abbrev pub custody_text : Entry → Exec Files (Option Text)
custody_text absent = pure none
custody_text (file text) = pure (some text)
custody_text unreadable = raise (error_other "unreadable")
custody_text not_a_file = raise (error_other "is a directory")

accept_recorded : Text → Option Text → Exec Files Bool
unfolding record_durable_create_once_marker
accept_recorded boot none = pure false
accept_recorded boot (some recorded) =
    if not (valid_boot_id recorded) || not (valid_boot_id boot)
    then raise (error_other "physical custody boot identity unavailable")
    else if not (same_text recorded boot)
    then pure false
    else (do
      d ← look (λ d. d)
      drained ← lift (durable_marker_exists d.cancellation_drained)
      if drained then pure false else record_durable_create_once_marker at_accepted)

-- `accept_terminal_custody_cancel`, of the answer to `lock_custody` and the running boot: whether the
-- cancellation was newly accepted.
pub accept_terminal_custody_cancel : Result (Unit {0}) → Text → Exec Files Bool
unfolding accept_recorded
accept_terminal_custody_cancel lock boot = do
  lift lock
  entry ← look (λ d. d.physical_custody)
  recorded ← custody_text entry
  accept_recorded boot recorded

mark_drained : Bool → Exec Files (Unit {0})
unfolding record_durable_create_once_marker
mark_drained true = do record_durable_create_once_marker at_drained; pure tt
mark_drained false = pure tt

end_locked : Exec Files (Unit {0})
unfolding mark_drained rollback_created_marker
end_locked = do
  d ← look (λ d. d)
  accepted ← lift (durable_marker_exists d.accepted_cancel)
  mark_drained accepted
  rollback_created_marker at_physical

-- `end_physical_custody`, of a caller that has seen the tree empty. Where the directory is gone, so is
-- the custody.
pub end_physical_custody : Result (Unit {0}) → Exec Files (Unit {0})
unfolding end_locked
end_physical_custody (ok _) = end_locked
end_physical_custody (err e) = elim e.kind [ not_found ↦ pure tt | _ ↦ raise e ]

-- `begin_external_transfer_custody`: whether this attempt owns the marker.
pub begin_external_transfer_custody : Text → Exec Files Bool
begin_external_transfer_custody boot = do
  d ← look (λ d. d)
  exists ← lift (durable_marker_exists d.external_transfer_custody)
  if exists && boot_custody_may_remain d.external_transfer_custody boot
      then pure false
      else (do commit (λ d. record d { external_transfer_custody = file boot }); pure true)

-- `end_external_transfer_custody`
pub end_external_transfer_custody : Exec Files (Unit {0})
unfolding sync
end_external_transfer_custody = do
  entry ← look (λ d. d.external_transfer_custody)
  if is_absent entry
      then pure tt
      else (do commit (λ d. record d { external_transfer_custody = absent }); sync)
