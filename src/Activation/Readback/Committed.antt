-- ===== src/Activation/Readback/Committed.antt =====
-- What is read back where a failed retry of src/delivery.rs is taken for a success.
use agent_bash_tool.Common.{
  ℕ, ◌≡◌, ◌⊎◌, inl, inr, refl, sym, ◌∙◌, ap, Bool, true, false, Option, none, some, List, [], ◌∷◌,
  ◌++◌, if◌then◌else◌, arith, both, Bool-cases,
}
use agent_bash_tool.Common.Bytes.{codes}
use agent_bash_tool.Effects.{
  Result, ok, err, IoError, World, Outcome, done, failed, killed, Exec, raise,
}
use agent_bash_tool.Effects.Results.{reached}
use agent_bash_tool.RootProtocol.Json.{Value, str, array, Values, at, as_str, is_text, is_true}
use agent_bash_tool.RootProtocol.Json.Equal.{is_text_sound, as_str_sound}
use agent_bash_tool.Continuation.Files.{Binding, exact}
use agent_bash_tool.Transfer.{HelperRun, exited, not_started, not_awaited}
use agent_bash_tool.Activation.{ActivationDisk, Detach}
use agent_bash_tool.Activation.Attempt.{retried}
use agent_bash_tool.Activation.Readback.{
  items, as_array, is_of, rows_of, is_nonempty_text, is_requested, one_request, requested_by,
  owner_of, is_committed, committed_by, activation_committed, or_false, readback, reads_back,
}

-- No row of the listener.
abbrev pub AreOthers : List ℕ → List Value → Type 0
AreOthers owner [] = Unit {0}
AreOthers owner (row ∷ rows) = (is_of owner row ≡ false) × AreOthers owner rows

-- The one row of the listener, and the others' around it.
pub record IsOnly (owner : List ℕ) (request : Value) (rows : List Value) : Type 0 where
  pub before : List Value
  pub after : List Value
  pub around : rows ≡ before ++ (request ∷ after)
  pub others_before : AreOthers owner before
  pub others_after : AreOthers owner after
  pub own : at request (codes "listener_id") ≡ str owner

-- The reply is of the registration, its activation is committed, and the original listener asked for it
-- once.
pub record IsActivated (b : Binding) (reply : Value) : Type 0 where
  pub of_registration : exact b.common reply ≡ ok tt
  pub status : at reply (codes "status") ≡ str (codes "exact_committed")
  pub registered : is_true (at reply (codes "registration_committed")) ≡ true
  pub owner : List ℕ
  pub owner_is : at b.registration (codes "owner_invocation_uuid") ≡ str owner
  pub rows : Values
  pub rows_are : at reply (codes "notification_dispositions") ≡ array rows
  pub request : Value
  pub only : IsOnly owner request (items rows)
  pub basis :
      at request (codes "request_basis") ≡ str (codes "explicit_listener_activation_unattributed")

no_rows : (owner : List ℕ) (rows : List Value) → rows_of owner rows ≡ [] → AreOthers owner rows
no_rows owner [] h = tt
no_rows owner (row ∷ rows) h = elim (Bool-cases (is_of owner row)) [
  | inl own ↦ absurd (ground arith)
  | inr other ↦ (other, no_rows owner rows (rw other at h))
]

one_row :
    (owner : List ℕ) (request : Value) (rows : List Value)
    → rows_of owner rows ≡ request ∷ []
    → IsOnly owner request rows
one_row owner request [] h = absurd (ground arith)
one_row owner request (row ∷ rows) h = elim (Bool-cases (is_of owner row)) [
  | inl own ↦
      let split : row ∷ rows_of owner rows ≡ request ∷ [] = rw own at h in
      let same : row ≡ request = cc in
      let none_left : rows_of owner rows ≡ [] = cc in
      record {
        before = [];
        after = rows;
        around = ap (λ r. r ∷ rows) same;
        others_before = tt;
        others_after = no_rows owner rows none_left;
        own =
            ap (λ r. at r (codes "listener_id")) (sym same)
            ∙ is_text_sound (at row (codes "listener_id")) owner own;
      }
  | inr other ↦
      let rest = one_row owner request rows (rw other at h) in
      record {
        before = row ∷ rest.before;
        after = rest.after;
        around = ap (λ rs. row ∷ rs) rest.around;
        others_before = (other, rest.others_before);
        others_after = rest.others_after;
        own = rest.own;
      }
]

-- What the request itself says.
asked_once :
    (owner : List ℕ) (found : List Value)
    → one_request found ≡ true
    → (request : Value) × (found ≡ request ∷ []) × (is_requested request ≡ true)
asked_once owner [] h = absurd (ground arith)
asked_once owner (request ∷ []) h = (request, refl, h)
asked_once owner (request ∷ other ∷ more) h = absurd (ground arith)

array_rows :
    (v : Value) (owner : List ℕ)
    → requested_by owner (as_array v) ≡ true
    → (rows : Values) × (v ≡ array rows) × (one_request (rows_of owner (items rows)) ≡ true)
array_rows (array rows) owner h = (rows, refl, h)
array_rows _ owner h = absurd (ground arith)

owner_read :
    (text : Option (List ℕ)) (owner : List ℕ) → owner_of text ≡ ok owner → text ≡ some owner
owner_read none owner h = absurd (ground arith)
owner_read (some []) owner h = absurd (ground arith)
owner_read (some (c ∷ cs)) owner h = cc

is_requested_lem :
    (request : Value)
    → is_requested request ≡ true
    → at request (codes "request_basis") ≡ str (codes "explicit_listener_activation_unattributed")
unfolding is_requested
is_requested_lem request h = is_text_sound _ _ (both (is_nonempty_text _) _ h).1

is_committed_lem :
    (reply : Value)
    → is_committed reply ≡ true
    → (at reply (codes "status") ≡ str (codes "exact_committed"))
      × (is_true (at reply (codes "registration_committed")) ≡ true)
unfolding is_committed
is_committed_lem reply h =
    let (status, registered) = both (is_text (at reply (codes "status")) _) _ h in
    (is_text_sound _ _ status, registered)

committed_by-IsActivated :
    (b : Binding) (reply : Value)
    → exact b.common reply ≡ ok tt
    → is_committed reply ≡ true
    → committed_by b reply ≡ ok true
    → IsActivated b reply
unfolding committed_by
committed_by-IsActivated b reply same committed h =
    let uuid = at b.registration (codes "owner_invocation_uuid") in
    let (owner, o, asked) = reached (owner_of (as_str uuid)) _ true h in
    let found : requested_by owner (as_array (at reply (codes "notification_dispositions")))
        ≡ true =
      cc in
    let (rows, rows_are, one) =
      array_rows (at reply (codes "notification_dispositions")) owner found in
    let (request, only, requested) = asked_once owner (rows_of owner (items rows)) one in
    record {
      of_registration = same;
      status = (is_committed_lem reply committed).0;
      registered = (is_committed_lem reply committed).1;
      owner = owner;
      owner_is = as_str_sound uuid owner (owner_read (as_str uuid) owner o);
      rows = rows;
      rows_are = rows_are;
      request = request;
      only = one_row owner request (items rows) only;
      basis = is_requested_lem request requested;
    }

-- The original listener's committed activation was read back.
abbrev pub IsReadBack : Result Binding → Result Value → Type 0
IsReadBack bound reply =
    (b : Binding) × (v : Value) × (bound ≡ ok b) × (reply ≡ ok v) × IsActivated b v

gated_reply :
    (test : Bool) (next : Result Bool)
    → (if test then next else ok false) ≡ ok true
    → (test ≡ true) × (next ≡ ok true)
gated_reply true next h = (refl, h)
gated_reply false next h = absurd (ground arith)

or_false_lem : (r : Result Bool) → or_false r ≡ true → r ≡ ok true
or_false_lem (ok committed) h = ap ok h
or_false_lem (err e) h = absurd (ground arith)

readback-IsReadBack :
    (bound : Result Binding) (reply : Result Value)
    → readback bound reply ≡ true
    → IsReadBack bound reply
unfolding readback activation_committed
readback-IsReadBack bound reply h =
    let (v, r, h1) = reached reply _ true (or_false_lem _ h) in
    let (b, e, h2) = reached bound _ true h1 in
    let (u, x, h3) = reached (exact b.common v) _ true h2 in
    let (committed, h4) = gated_reply (is_committed v) _ h3 in
    (b, v, e, r, committed_by-IsActivated b v x committed h4)

abbrev pub IsExited : HelperRun (Unit {0}) → Type 0
IsExited (exited u) = Unit {0}
IsExited (not_started e) = ⊥
IsExited (not_awaited e) = ⊥

abbrev pub IsDone : Outcome (Unit {0}) → Type 0
IsDone (done u) = Unit {0}
IsDone (failed e) = ⊥
IsDone killed = ⊥

unawaited :
    (bound : Result Binding) (reply : Result Value) (e : IoError)
    (m : Exec ActivationDisk (Unit {0})) (w : World ActivationDisk)
    → IsDone ((if readback bound reply then m else raise e) w).0
    → IsReadBack bound reply
unfolding raise
unawaited bound reply e m w h = elim (Bool-cases (readback bound reply)) [
  | inl read ↦ readback-IsReadBack bound reply read
  | inr not_read ↦ absurd (rw not_read at h)
]

-- A retry of an uncertain activation succeeds only where its helper exited well, or where a reply of this
-- registration was read back, by which the activation that the original listener asked for, exactly once
-- and explicitly, is committed.
pub retried-IsReadBack :
    (q : Detach) (bound : Result Binding) (reply : Result Value) (run : HelperRun (Unit {0}))
    (w : World ActivationDisk)
    → IsDone (retried (reads_back bound reply q) run w).0
    → IsExited run ⊎ IsReadBack bound reply
unfolding retried
retried-IsReadBack q bound reply (exited u) w h = inl tt
retried-IsReadBack q bound reply (not_started e) w h = inr (unawaited bound reply e _ w h)
retried-IsReadBack q bound reply (not_awaited e) w h = inr (unawaited bound reply e _ w h)
