-- ===== src/Effects/Actors.antt =====
-- Code of which single file accesses interleave with those of other processes. A program is a tree of
-- accesses; a schedule says whose access comes next and what the environment does to it.
pub mod Schedules
pub mod Keeps
use agent_bash_tool.Common.{ℕ, zero, suc, Bool, Option, none, some, List, [], ◌∷◌}
use agent_bash_tool.Effects.{
  ErrorKind, already_exists, IoError, error_other, Result, ok, err, Fault, fine, killed_before,
  killed_after, fails_before, fails_after,
}

-- `access change next handler` changes the files at once and goes on with what it found before, or with
-- the error of the access.
pub data Program (S : Type 0) (A : Type 0) : Type 0 where
  returns : A → Program S A
  fails : IoError → Program S A
  access : (S → S) → (S → Program S A) → (IoError → Program S A) → Program S A

infixl 5 ◌>>=◌ ◌>>◌
unfoldable pub ◌>>=◌ : {S A B : Type 0} → Program S A → (A → Program S B) → Program S B
returns a >>= f = f a
fails e >>= f = fails e
access change next handler >>= f = access change (λ d. next d >>= f) (λ e. handler e >>= f)

abbrev pub ◌>>◌ : {S A B : Type 0} → Program S A → Program S B → Program S B
m >> n = m >>= λ _. n

-- `match m { Ok(..) => .., Err(..) => .. }`
unfoldable pub attempt : {S A : Type 0} → Program S A → Program S (Result A)
attempt (returns a) = returns (ok a)
attempt (fails e) = returns (err e)
attempt (access change next handler) =
    access change (λ d. attempt (next d)) (λ e. attempt (handler e))

abbrev pub lifted : {S A : Type 0} → Result A → Program S A
lifted (ok a) = returns a
lifted (err e) = fails e

module _ {S : Type 0} where
  unfoldable pub reads : {A : Type 0} → (S → A) → Program S A
  reads f = access (λ d. d) (λ d. returns (f d)) fails

  unfoldable pub writes : (S → S) → Program S (Unit {0})
  writes change = access change (λ d. returns tt) fails

  -- An access that leaves the files of the model alone and may fail.
  abbrev pub touches : Program S (Unit {0})
  touches = reads (λ d. tt)

-- `fs::hard_link` to a name that must be free.
module _ {S A : Type 0} (get_file : S → Option A) (put_file : A → S → S) (content : A) where
  abbrev pub into : Option A → S → S
  into none d = put_file content d
  into (some present) d = d

  abbrev pub linked_over : Option A → Program S (Unit {0})
  linked_over none = returns tt
  linked_over (some present) = fails (record { kind = already_exists; message = "file exists" })

  unfoldable pub links : Program S (Unit {0})
  links = access (λ d. into (get_file d) d) (λ d. linked_over (get_file d)) fails

-- A turn gives the next access to the actor at this place, with what becomes of it.
pub record Turn : Type 0 where
  pub actor : ℕ
  pub fate : Fault

module _ {S A : Type 0} where
  abbrev stopped : Program S A
  stopped = fails (error_other "killed")

  unfoldable pub advance : Fault → Program S A → S → Program S A × S
  advance fate (returns a) d = (returns a, d)
  advance fate (fails e) d = (fails e, d)
  advance fine (access change next handler) d = (next d, change d)
  advance killed_before (access change next handler) d = (stopped, d)
  advance killed_after (access change next handler) d = (stopped, change d)
  advance (fails_before e) (access change next handler) d = (handler e, d)
  advance (fails_after e) (access change next handler) d = (handler e, change d)

  unfoldable pub give_turn : ℕ → Fault → List (Program S A) → S → List (Program S A) × S
  give_turn actor fate [] d = ([], d)
  give_turn zero fate (p ∷ ps) d = let (p', d') = advance fate p d in (p' ∷ ps, d')
  give_turn (suc n) fate (p ∷ ps) d = let (ps', d') = give_turn n fate ps d in (p ∷ ps', d')

  -- What the files are after the turns.
  unfoldable pub interleave : List Turn → List (Program S A) → S → S
  interleave [] ps d = d
  interleave (t ∷ ts) ps d = let (ps', d') = give_turn t.actor t.fate ps d in interleave ts ps' d'
