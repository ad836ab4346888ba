-- ===== src/Continuation.antt =====
-- The launch fence of src/continuation.rs: the durable files that decide whether the registered workload
-- may be started. Each call holds the launch lock from its first access to the fence to its last, so it
-- runs whole; a failing or interrupted file operation is a fault. The digest crate, the clock of the
-- kernel and the identity of a process are parameters.
pub mod Files
pub mod Accesses
pub mod Steps
pub mod Once
pub mod Samples
mod Tests
use agent_bash_tool.Common.{
  ℕ, suc, ◌+◌, Bool, true, false, not, ◌&&◌, ◌||◌, Option, none, some, List, [], ◌∷◌, ◌==◌, ltb,
  if◌then◌else◌, String,
}
use agent_bash_tool.Common.Int.{int_eq}
use agent_bash_tool.Common.Bytes.{codes, text_eq}
use agent_bash_tool.Effects.{
  IoError, error_other, Result, ok, err, World, Exec, pure, raise, lift, look, commit, ◌>>=◌, ◌>>◌,
}
use agent_bash_tool.Identity.{CallerChainEntry}
use agent_bash_tool.RootProtocol.Json.{
  Value, null, str, object, Fields, empty, field, get, at, as_str, is_null, is_true, is_text,
  value_eq,
}
use text.Mathlib.Text.{◌==◌ as str_eq}
use agent_bash_tool.Continuation.Files.{
  Binding, Fence, Paths, Phase, Source, binding_of, common_of, entry_eq, exact, fence_eq,
  fence_file, first_fence, immutable, intent, launched, local_file, may_launch, or_missing,
  phase_eq, publish_new, put_fence, put_local, put_receipt, put_registration, receipt_file,
  registration_file, revoked_never_launched, transition, unreleased, with_key,
}

-- What the kernel and the directory are to a call: the paths, the digest of a registration's bytes and the
-- process's own identity.
module _ (paths : Paths) (digest : Value → List ℕ) (self : Result CallerChainEntry) where
  -- The part of `prepare` under the launch lock, for the registration that it has put together.
  unfoldable pub prepare : Value → CallerChainEntry → Exec Source (Unit {0})
  prepare registration worker = do
    immutable value_eq registration_file put_registration registration
    immutable fence_eq fence_file put_fence
        (first_fence (common_of registration (digest registration)) worker)
    commit (put_local (intent (common_of registration (digest registration))))

  unfoldable pub binding : Exec Source Binding
  binding = do
    file ← look registration_file
    registration ← lift (or_missing file)
    lift (binding_of paths digest registration)

  -- The fence, if it is of this registration.
  unfoldable pub own_fence : Binding → Exec Source Fence
  own_fence b = do
    file ← look fence_file
    fence ← lift (or_missing file)
    lift (exact b.common fence.common)
    pure fence

  abbrev is_registered : Option (List ℕ) → Bool
  is_registered none = false
  is_registered (some status) =
      text_eq status (codes "registered") || text_eq status (codes "already_registered")

  abbrev pub is_receipt : Binding → Value → Bool
  is_receipt b reply =
      is_registered (as_str (at reply (codes "status")))
      && is_true (at reply (codes "registration_committed"))
      && value_eq (at reply (codes "continuation_owner_domain")) (at b.common (codes "domain_id"))
      && value_eq (at reply (codes "listener_revision"))
          (at b.registration (codes "listener_revision"))
      && value_eq (at reply (codes "listeners")) (at b.registration (codes "listeners"))

  abbrev pub require : Bool → String → Exec Source (Unit {0})
  require holds message = if holds then pure tt else raise (error_other message)

  abbrev pub confirmed : Value → Value
  confirmed v = with_key v (codes "registration") (str (codes "confirmed"))

  -- The workload may be launched from here on.
  unfoldable pub admit : Fence → Value → Exec Source (Unit {0})
  unfolding transition
  admit fence reply = do
    immutable value_eq receipt_file put_receipt reply
    transition fence may_launch
    file ← look local_file
    local_value ← lift (or_missing file)
    commit (put_local (confirmed local_value))

  -- Only the worker that registered the source, and only once.
  abbrev pub may_spend : Fence → CallerChainEntry → Bool
  may_spend fence own = entry_eq fence.registration_worker own && phase_eq fence.phase unreleased

  unfoldable pub spend : Value → Fence → CallerChainEntry → Exec Source (Unit {0})
  spend reply fence own =
      if may_spend fence own
      then admit fence reply
      else raise (error_other "original launch authority is not spendable")

  unfoldable pub confirm_launch : Value → Exec Source (Unit {0})
  confirm_launch reply = do
    b ← binding
    lift (exact b.common reply)
    require (is_receipt b reply) "not an exact committed registration receipt"
    fence ← own_fence b
    own ← lift self
    spend reply fence own

  -- Whether a registration file stands, also one that cannot be read.
  unfoldable pub is_enabled : Source → Bool
  is_enabled d = elim d.registration [ none ↦ false | some v ↦ true ]

  unfoldable pub revoke : Fence → CallerChainEntry → Exec Source (Unit {0})
  revoke fence own =
      if may_spend fence own then transition fence revoked_never_launched else pure tt

  unfoldable pub abandon_registered : Exec Source (Unit {0})
  abandon_registered = do b ← binding; fence ← own_fence b; own ← lift self; revoke fence own

  unfoldable pub abandon : Exec Source (Unit {0})
  abandon = do on ← look is_enabled; if on then abandon_registered else pure tt

  unfoldable pub launch_with : Fence → CallerChainEntry → Exec Source (Option CallerChainEntry)
  launch_with fence workload = do
    transition (record fence { workload_identity = some workload }) launched
    pure (some workload)

  unfoldable pub launch_of : Result CallerChainEntry → Fence → Exec Source (Option CallerChainEntry)
  launch_of child fence =
      if phase_eq fence.phase may_launch
      then lift child >>= launch_with fence
      else raise (error_other "launch fence conflict")

  unfoldable pub launch_registered : Result CallerChainEntry → Exec Source (Option CallerChainEntry)
  launch_registered child = do b ← binding; fence ← own_fence b; launch_of child fence

  -- `launched`: `child` is the direct child with the given number, as the kernel identifies it.
  unfoldable pub record_launch : Result CallerChainEntry → Exec Source (Option CallerChainEntry)
  record_launch child = do on ← look is_enabled; if on then launch_registered child else pure none
