-- ===== src/Effects.antt =====
-- Code that reads and writes durable files and may stop at any of its steps: `io::Result`, the faults
-- that the environment injects into each access, and child processes that end early.
pub mod Results
pub mod Meets
pub mod Actors
use agent_bash_tool.Common.{String, List, [], ◌∷◌, Bool, true, false, if◌then◌else◌}

-- The kinds of `io::Error` that the program tells apart.
pub data ErrorKind : Type 0 where
  not_found would_block already_exists interrupted invalid_data other : ErrorKind

pub record IoError : Type 0 where
  pub kind : ErrorKind
  pub message : String

abbrev pub error_other : String → IoError
error_other message = record { kind = other; message = message }

pub data Result {ℓ} (A : Type ℓ) : Type ℓ where
  ok : A → Result A
  err : IoError → Result A

infixl 5 ◌>>?◌
unfoldable pub ◌>>?◌ {ℓ κ} : {A : Type ℓ} {B : Type κ} → Result A → (A → Result B) → Result B
ok a >>? f = f a
err e >>? f = err e

-- `if err.kind() == NotFound`
unfoldable pub if_missing : {A : Type 0} → ErrorKind → A → A → A
if_missing not_found missing failure = missing
if_missing would_block missing failure = failure
if_missing already_exists missing failure = failure
if_missing interrupted missing failure = failure
if_missing invalid_data missing failure = failure
if_missing other missing failure = failure

-- What the environment does to one access. A write that fails may have taken effect or not, and the
-- process may be killed before or after it.
pub data Fault : Type 0 where
  fine killed_before killed_after : Fault
  fails_before fails_after : IoError → Fault

-- The durable state, and the faults of the accesses to come; past the end of the list all succeed.
pub record World (S : Type 0) : Type 0 where
  pub disk : S
  pub faults : List Fault

pub data Outcome (A : Type 0) : Type 0 where
  done : A → Outcome A
  failed : IoError → Outcome A
  killed : Outcome A

abbrev pub Exec : Type 0 → Type 0 → Type 0
Exec S A = World S → Outcome A × World S

module _ {S A : Type 0} where
  unfoldable pub pure : A → Exec S A
  pure a w = (done a, w)

  unfoldable pub raise : IoError → Exec S A
  raise e w = (failed e, w)

  -- A value that the environment answers with.
  unfoldable pub lift : Result A → Exec S A
  lift (ok a) w = (done a, w)
  lift (err e) w = (failed e, w)

  abbrev pub look_with : (S → A) → S → List Fault → Outcome A × World S
  look_with f d [] = (done (f d), record { disk = d; faults = [] })
  look_with f d (fine ∷ fs) = (done (f d), record { disk = d; faults = fs })
  look_with f d (killed_before ∷ fs) = (killed, record { disk = d; faults = fs })
  look_with f d (killed_after ∷ fs) = (killed, record { disk = d; faults = fs })
  look_with f d (fails_before e ∷ fs) = (failed e, record { disk = d; faults = fs })
  look_with f d (fails_after e ∷ fs) = (failed e, record { disk = d; faults = fs })

  -- A read of the durable state.
  unfoldable pub look : (S → A) → Exec S A
  look f w = look_with f w.disk w.faults

module _ {S : Type 0} where
  abbrev pub commit_with : (S → S) → S → List Fault → Outcome (Unit {0}) × World S
  commit_with f d [] = (done tt, record { disk = f d; faults = [] })
  commit_with f d (fine ∷ fs) = (done tt, record { disk = f d; faults = fs })
  commit_with f d (killed_before ∷ fs) = (killed, record { disk = d; faults = fs })
  commit_with f d (killed_after ∷ fs) = (killed, record { disk = f d; faults = fs })
  commit_with f d (fails_before e ∷ fs) = (failed e, record { disk = d; faults = fs })
  commit_with f d (fails_after e ∷ fs) = (failed e, record { disk = f d; faults = fs })

  -- A durable write.
  unfoldable pub commit : (S → S) → Exec S (Unit {0})
  commit f w = commit_with f w.disk w.faults

module _ {S A B : Type 0} where
  abbrev pub continue : Outcome A → World S → (A → Exec S B) → Outcome B × World S
  continue (done a) w f = f a w
  continue (failed e) w f = (failed e, w)
  continue killed w f = (killed, w)

  infixl 5 ◌>>=◌ ◌>>◌
  unfoldable pub ◌>>=◌ : Exec S A → (A → Exec S B) → Exec S B
  ◌>>=◌ m f w = let (r, w') = m w in continue r w' f

  abbrev pub ◌>>◌ : Exec S A → Exec S B → Exec S B
  m >> n = m >>= λ _. n

module _ {A : Type 0} where
  abbrev pub reaped : IoError → Outcome A → Outcome (Result (Unit {0}))
  reaped e (done a) = done (ok tt)
  reaped e (failed e') = done (err e)
  reaped e killed = done (err e)

  abbrev pub caught : Outcome A → Outcome (Result A)
  caught (done a) = done (ok a)
  caught (failed e) = done (err e)
  caught killed = killed

module _ {S A : Type 0} where
  -- `m` in a child process, waited for: the parent learns only whether it ended well.
  unfoldable pub in_child : IoError → Exec S A → Exec S (Result (Unit {0}))
  in_child e m w = let (r, w') = m w in (reaped e r, w')

  -- `match m { Ok(..) => .., Err(..) => .. }`
  unfoldable pub attempt : Exec S A → Exec S (Result A)
  attempt m w = let (r, w') = m w in (caught r, w')

module _ {S T A : Type 0} where
  -- `m` on a part of the durable state.
  unfoldable pub zoom : (S → T) → (T → S → S) → Exec T A → Exec S A
  zoom get set m w =
      let (r, w') = m (record { disk = get w.disk; faults = w.faults }) in
      (r, record { disk = set w'.disk w.disk; faults = w'.faults })
