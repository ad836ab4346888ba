-- ===== src/Activation/Readback.antt =====
-- Whether an activation was committed before a retry of it failed: activation_committed of
-- src/continuation.rs, of the reply that readback_activation_committed of src/delivery.rs reads back.
pub mod Committed
use agent_bash_tool.Common.{
  ℕ, Bool, true, false, not, ◌&&◌, ◌||◌, Option, none, some, String, List, [], ◌∷◌, is_empty,
  if◌then◌else◌,
}
use agent_bash_tool.Common.Bytes.{codes}
use agent_bash_tool.Effects.{error_other, Result, ok, err, ◌>>?◌}
use agent_bash_tool.RootProtocol.Json.{
  Value, null, bool, int, float, str, array, object, Values, nothing, item, at, as_str, is_text,
  is_true,
}
use agent_bash_tool.Continuation.Files.{Binding, exact}
use agent_bash_tool.Activation.{Detach}

abbrev pub items : Values → List Value
items nothing = []
items (item v vs) = v ∷ items vs

-- `as_array`
abbrev as_array : Value → Option (List Value)
as_array (array values) = some (items values)
as_array null = none
as_array (bool b) = none
as_array (int z) = none
as_array (float x) = none
as_array (str text) = none
as_array (object fields) = none

abbrev pub is_of : List ℕ → Value → Bool
is_of owner row = is_text (at row (codes "listener_id")) owner

-- The rows of the original listener.
abbrev pub rows_of : List ℕ → List Value → List Value
rows_of owner [] = []
rows_of owner (row ∷ rows) =
    let rest = rows_of owner rows in if is_of owner row then row ∷ rest else rest

abbrev is_nonempty_text : Option (List ℕ) → Bool
is_nonempty_text none = false
is_nonempty_text (some text) = not (is_empty text)

unfoldable pub is_requested : Value → Bool
is_requested request =
    is_nonempty_text (as_str (at request (codes "requested_at")))
    && is_text (at request (codes "request_basis"))
        (codes "explicit_listener_activation_unattributed")

abbrev one_request : List Value → Bool
one_request [] = false
one_request (request ∷ []) = is_requested request
one_request (request ∷ other ∷ more) = false

abbrev requested_by : List ℕ → Option (List Value) → Bool
requested_by owner none = false
requested_by owner (some rows) = one_request (rows_of owner rows)

abbrev owner_of : Option (List ℕ) → Result (List ℕ)
owner_of none = err (error_other "missing original activation listener")
owner_of (some owner) =
    if is_empty owner then err (error_other "missing original activation listener") else ok owner

unfoldable pub is_committed : Value → Bool
is_committed reply =
    is_text (at reply (codes "status")) (codes "exact_committed")
    && is_true (at reply (codes "registration_committed"))

unfoldable pub committed_by : Binding → Value → Result Bool
committed_by b reply =
    owner_of (as_str (at b.registration (codes "owner_invocation_uuid"))) >>? λ owner.
    ok (requested_by owner (as_array (at reply (codes "notification_dispositions"))))

unfoldable pub activation_committed : Result Binding → Value → Result Bool
unfolding committed_by
activation_committed bound reply = bound >>? λ b.
    exact b.common reply >>? λ u. if is_committed reply then committed_by b reply else ok false

-- `readback_activation_committed(..).unwrap_or(false)`, of the helper's reply.
abbrev or_false : Result Bool → Bool
or_false (ok committed) = committed
or_false (err e) = false

unfoldable pub readback : Result Binding → Result Value → Bool
unfolding activation_committed
readback bound reply = or_false (reply >>? activation_committed bound)

-- A detach whose retry reads this back.
abbrev pub reads_back : Result Binding → Result Value → Detach → Detach
reads_back bound reply q = record q { committed = readback bound reply }
