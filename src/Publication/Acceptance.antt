-- ===== src/Publication/Acceptance.antt =====
-- What the runner's replies make of a published completion, src/continuation.rs: `handed_off`,
-- `notification_owned` and `accept`.
use agent_bash_tool.Common.{
  ℕ, Bool, false, not, ◌&&◌, ◌||◌, Option, none, some, List, [], ◌∷◌, ◌==◌, leb, length,
  if◌then◌else◌,
}
use agent_bash_tool.Common.Bytes.{codes, text_eq, all_of}
use agent_bash_tool.Effects.{error_other, Result, ok, err}
use agent_bash_tool.Effects.Actors.{Program, returns, ◌>>=◌, ◌>>◌, lifted, reads, writes, touches}
use agent_bash_tool.RootProtocol.Json.{Value, get, at, as_str, as_u64, is_text, value_eq}
use agent_bash_tool.Publication.Basis.{binding}
use agent_bash_tool.Publication.Evidence.{Evidence, Outside, with_text}
use agent_bash_tool.Publication.Immutable.{is_there, require}
use agent_bash_tool.Publication.Recovery.{put_local}
use agent_bash_tool.Continuation.Files.{Binding, exact, or_missing, with_key}

abbrev is_hex : ℕ → Bool
is_hex c = (leb 48 c && leb c 57) || (leb 97 c && leb c 102)

-- 64 digits of lower case.
abbrev valid_digest : List ℕ → Bool
valid_digest s = (length s == 64) && all_of is_hex s

abbrev is_digest : Option (List ℕ) → Bool
is_digest none = false
is_digest (some s) = valid_digest s

-- The largest number where the registration has none.
abbrev or_max : Option ℕ → ℕ
or_max none = 18446744073709551615
or_max (some n) = n

abbrev reaches : Option ℕ → Option ℕ → Bool
reaches none registered = false
reaches (some revision) registered = leb (or_max registered) revision

abbrev is_accepted_status : Option (List ℕ) → Bool
is_accepted_status none = false
is_accepted_status (some s) = text_eq s (codes "accepted") || text_eq s (codes "already_accepted")

abbrev pub accepted_keys : List (List ℕ)
accepted_keys =
    codes "snapshot_sha256"
    ∷ codes "outcome_sha256"
    ∷ codes "payload_sha256"
    ∷ codes "payload_byte_len"
    ∷ []

abbrev pub conflicts : Option Value → Value → Bool
conflicts none now = false
conflicts (some prior) now = not (value_eq prior now)

-- The digests go into the local record unless it holds others.
unfoldable pub record_accepted : List (List ℕ) → Value → Value → Result Value
record_accepted [] reply local = ok local
record_accepted (key ∷ keys) reply local =
    let rest = record_accepted keys reply (with_key local key (at reply key)) in
    if conflicts (get local key) (at reply key)
    then err (error_other "accepted payload conflict")
    else rest

module _ (o : Outside) where
  abbrev is_confirmed : Option (List ℕ) → Bool
  is_confirmed none = false
  is_confirmed (some s) =
      text_eq s (codes "confirmed") || text_eq s (codes "completion_only_confirmed")

  -- The registration owns the notification, whatever became of the source.
  unfoldable pub notification_owned : Program Evidence Bool
  unfolding binding
  notification_owned = do
    b ← binding o
    file ← reads (λ d. d.source.local)
    local_value ← lifted (or_missing file)
    lifted (exact b.common local_value)
    returns (is_confirmed (as_str (at local_value (codes "registration"))))

  -- The local duty ends with a confirmed registration and a published snapshot.
  unfoldable pub handed_off : Program Evidence Bool
  unfolding notification_owned
  handed_off = do
    owned ← notification_owned
    told ← reads (λ d. is_there d.chain.snapshot)
    returns (owned && told)

  abbrev pub is_acceptance : Binding → Value → Value → Value → Bool
  is_acceptance b reply snapshot outcome =
      is_accepted_status (as_str (at reply (codes "status")))
      && is_text (at reply (codes "snapshot_sha256")) (o.digest snapshot)
      && is_text (at reply (codes "outcome_sha256")) (o.digest outcome)
      && is_digest (as_str (at reply (codes "payload_sha256")))
      && is_there (as_u64 (at reply (codes "payload_byte_len")))
      && reaches (as_u64 (at reply (codes "listener_revision")))
          (as_u64 (at b.registration (codes "listener_revision")))

  unfoldable pub save_accepted : Value → Program Evidence (Unit {0})
  unfolding record_accepted
  save_accepted reply = do
    touches
    file ← reads (λ d. d.source.local)
    local_value ← lifted (or_missing file)
    recorded ← lifted (record_accepted accepted_keys reply local_value)
    writes (put_local (with_text recorded "enqueue" "accepted"))

  unfoldable pub accept : Value → Program Evidence (Unit {0})
  unfolding binding save_accepted
  accept reply = do
    b ← binding o
    lifted (exact b.common reply)
    file ← reads (λ d. d.chain.snapshot)
    snapshot ← lifted (or_missing file)
    file' ← reads (λ d. d.chain.outcome)
    outcome ← lifted (or_missing file')
    require (is_acceptance b reply snapshot outcome) "not an exact completion acceptance receipt"
    save_accepted reply
