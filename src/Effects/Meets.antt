-- ===== src/Effects/Meets.antt =====
-- Postconditions of such code. `Meets inv P m Q`: from `P`, either `m` returns `a` with `Q a`, or it
-- fails or is killed and `inv` holds of what it leaves behind.
use agent_bash_tool.Common.{◌≡◌, refl, subst, List, [], ◌∷◌, Bool, true, false, if◌then◌else◌}
use agent_bash_tool.Effects.{
  ErrorKind, not_found, would_block, already_exists, interrupted, invalid_data, other, if_missing,
  IoError, Result, ok, err, World, Fault, fine, killed_before, killed_after, fails_before,
  fails_after, Outcome, done, failed, killed, Exec, pure, raise, lift, look, commit, look_with,
  commit_with, in_child, attempt, ◌>>=◌, continue, zoom, reaped, caught,
}

abbrev pub Post : {S A : Type 0} → (S → Type 0) → (A → S → Type 0) → Outcome A × World S → Type 0
Post inv Q (done a, w) = Q a w.disk
Post inv Q (failed e, w) = inv w.disk
Post inv Q (killed, w) = inv w.disk

pub record Meets {S A : Type 0} (inv : S → Type 0) (P : S → Type 0) (m : Exec S A)
    (Q : A → S → Type 0) : Type 0 where
  pub at : (w : World S) → P w.disk → Post inv Q (m w)

module _ {S A : Type 0} (inv : S → Type 0) (Q : A → S → Type 0) where
  look-Post :
      (f : S → A) (d : S) (fs : List Fault) → inv d → Q (f d) d → Post inv Q (look_with f d fs)
  look-Post f d [] i q = q
  look-Post f d (fine ∷ fs) i q = q
  look-Post f d (killed_before ∷ fs) i q = i
  look-Post f d (killed_after ∷ fs) i q = i
  look-Post f d (fails_before e ∷ fs) i q = i
  look-Post f d (fails_after e ∷ fs) i q = i

module _ {S : Type 0} (inv : S → Type 0) (Q : Unit {0} → S → Type 0) where
  commit-Post :
      (f : S → S) (d : S) (fs : List Fault)
      → inv d
      → inv (f d)
      → Q tt (f d)
      → Post inv Q (commit_with f d fs)
  commit-Post f d [] i j q = q
  commit-Post f d (fine ∷ fs) i j q = q
  commit-Post f d (killed_before ∷ fs) i j q = i
  commit-Post f d (killed_after ∷ fs) i j q = j
  commit-Post f d (fails_before e ∷ fs) i j q = i
  commit-Post f d (fails_after e ∷ fs) i j q = j

module _ {S A B : Type 0} (inv : S → Type 0) (Q : B → S → Type 0) where
  continue-Post :
      (R : A → S → Type 0) (f : A → Exec S B)
      → ((a : A) → Meets inv (R a) (f a) Q)
      → (r : Outcome A × World S) → Post inv R r
      → Post inv Q (continue r.0 r.1 f)
  continue-Post R f k (done a, w) h = (k a).at w h
  continue-Post R f k (failed e, w) h = h
  continue-Post R f k (killed, w) h = h

module _ {S A : Type 0} {inv P : S → Type 0} {Q : A → S → Type 0} where
  pub Meets-pure : (a : A) → ((d : S) → P d → Q a d) → Meets inv P (pure a) Q
  unfolding pure
  Meets-pure a q = record { at = λ w p. q w.disk p }

  pub Meets-raise : (e : IoError) → ((d : S) → P d → inv d) → Meets inv P (raise e) Q
  unfolding raise
  Meets-raise e i = record { at = λ w p. i w.disk p }

  pub Meets-lift :
      (r : Result A)
      → ((d : S) → P d → inv d)
      → ((a : A) → r ≡ ok a → (d : S) → P d → Q a d)
      → Meets inv P (lift r) Q
  unfolding lift
  Meets-lift (ok a) i q = record { at = λ w p. q a refl w.disk p }
  Meets-lift (err e) i q = record { at = λ w p. i w.disk p }

  pub Meets-if :
      (b : Bool) (m n : Exec S A)
      → (b ≡ true → Meets inv P m Q)
      → (b ≡ false → Meets inv P n Q)
      → Meets inv P (if b then m else n) Q
  Meets-if true m n hm hn = hm refl
  Meets-if false m n hm hn = hn refl

  pub Meets-look :
      (f : S → A) → ((d : S) → P d → inv d) → ((d : S) → P d → Q (f d) d) → Meets inv P (look f) Q
  unfolding look
  Meets-look f i q = record {
    at = λ w p. look-Post inv Q f w.disk w.faults (i w.disk p) (q w.disk p);
  }

module _ {S : Type 0} {inv P : S → Type 0} {Q : Unit {0} → S → Type 0} where
  pub Meets-commit :
      (f : S → S)
      → ((d : S) → P d → inv d)
      → ((d : S) → P d → inv (f d) × Q tt (f d))
      → Meets inv P (commit f) Q
  unfolding commit
  Meets-commit f i q = record {
    at = λ w p. commit-Post inv Q f w.disk w.faults (i w.disk p) (q w.disk p).0 (q w.disk p).1;
  }

module _ {S A B : Type 0} {inv P : S → Type 0} {Q : B → S → Type 0} where
  pub Meets-bind :
      (R : A → S → Type 0) (m : Exec S A) (f : A → Exec S B)
      → Meets inv P m R
      → ((a : A) → Meets inv (R a) (f a) Q)
      → Meets inv P (m >>= f) Q
  unfolding ◌>>=◌
  Meets-bind R m f h k = record { at = λ w p. continue-Post inv Q R f k (m w) (h.at w p) }

module _ {S A : Type 0} {inv : S → Type 0} where
  reaped-Post :
      (e : IoError) (Q : S → Type 0) (R : Result (Unit {0}) → S → Type 0)
      → ((d : S) → Q d → R (ok tt) d)
      → ((d : S) → inv d → R (err e) d)
      → (r : Outcome A × World S) → Post inv (λ _ d. Q d) r
      → Post inv R (reaped e r.0, r.1)
  reaped-Post e Q R f g (done a, w) h = f w.disk h
  reaped-Post e Q R f g (failed e', w) h = g w.disk h
  reaped-Post e Q R f g (killed, w) h = g w.disk h

  -- The parent goes on whatever became of the child.
  pub Meets-in_child :
      {P : S → Type 0} (e : IoError) (m : Exec S A) (Q : S → Type 0)
      (R : Result (Unit {0}) → S → Type 0)
      → ((d : S) → Q d → R (ok tt) d)
      → ((d : S) → inv d → R (err e) d)
      → Meets inv P m (λ _ d. Q d)
      → Meets inv P (in_child e m) R
  unfolding in_child
  Meets-in_child e m Q R f g h = record { at = λ w p. reaped-Post e Q R f g (m w) (h.at w p) }

  pub Meets-weaken :
      {P P' : S → Type 0} {Q : A → S → Type 0} (m : Exec S A)
      → ((d : S) → P' d → P d)
      → Meets inv P m Q
      → Meets inv P' m Q
  Meets-weaken m f h = record { at = λ w p. h.at w (f w.disk p) }

module _ {S A : Type 0} {inv kept : S → Type 0} {Q R : A → S → Type 0} where
  loosened-Post :
      ((d : S) → kept d → inv d)
      → ((a : A) (d : S) → Q a d → R a d)
      → (r : Outcome A × World S) → Post kept Q r
      → Post inv R r
  loosened-Post k f (done a, w) h = f a w.disk h
  loosened-Post k f (failed e, w) h = k w.disk h
  loosened-Post k f (killed, w) h = k w.disk h

  pub Meets-loosen :
      {P : S → Type 0} (m : Exec S A)
      → ((d : S) → kept d → inv d)
      → ((a : A) (d : S) → Q a d → R a d)
      → Meets kept P m Q
      → Meets inv P m R
  Meets-loosen m k f h = record { at = λ w p. loosened-Post k f (m w) (h.at w p) }

-- What `m` keeps when it fails is there for the handler.
module _ {S A : Type 0} {inv kept : S → Type 0} where
  caught-Post :
      (Q : A → S → Type 0) (R : Result A → S → Type 0)
      → ((a : A) (d : S) → Q a d → R (ok a) d)
      → ((e : IoError) (d : S) → kept d → R (err e) d)
      → ((d : S) → kept d → inv d)
      → (r : Outcome A × World S) → Post kept Q r
      → Post inv R (caught r.0, r.1)
  caught-Post Q R f g k (done a, w) h = f a w.disk h
  caught-Post Q R f g k (failed e, w) h = g e w.disk h
  caught-Post Q R f g k (killed, w) h = k w.disk h

  pub Meets-attempt :
      {P : S → Type 0} (m : Exec S A) (Q : A → S → Type 0) (R : Result A → S → Type 0)
      → ((a : A) (d : S) → Q a d → R (ok a) d)
      → ((e : IoError) (d : S) → kept d → R (err e) d)
      → ((d : S) → kept d → inv d)
      → Meets kept P m Q
      → Meets inv P (attempt m) R
  unfolding attempt
  Meets-attempt m Q R f g k h = record { at = λ w p. caught-Post Q R f g k (m w) (h.at w p) }

-- The rest of the durable state stays as it was.
module _ {S T A : Type 0} where
  zoomed-Post :
      (set : T → S → S) (inv : S → Type 0) (Q : A → S → Type 0) (s : S) (r : Outcome A × World T)
      → Post (λ d. inv (set d s)) (λ a d. Q a (set d s)) r
      → Post inv Q (r.0, record { disk = set (r.1).disk s; faults = (r.1).faults })
  zoomed-Post set inv Q s (done a, w) h = h
  zoomed-Post set inv Q s (failed e, w) h = h
  zoomed-Post set inv Q s (killed, w) h = h

  pub Meets-zoom :
      {inv P : S → Type 0} {Q : A → S → Type 0} (get : S → T) (set : T → S → S) (m : Exec T A)
      → ((s : S) → P s → Meets (λ d. inv (set d s)) (λ d. d ≡ get s) m (λ a d. Q a (set d s)))
      → Meets inv P (zoom get set m) Q
  unfolding zoom
  Meets-zoom {inv} {P} {Q} get set m h = record {
    at = λ w p.
        zoomed-Post set inv Q w.disk (m (record { disk = get w.disk; faults = w.faults }))
          ((h w.disk p).at (record { disk = get w.disk; faults = w.faults }) refl);
  }

-- What does not depend on the state.
module _ {S A : Type 0} where
  const-Post : (X : Type 0) → X → (r : Outcome A × World S) → Post (λ _. X) (λ _ _. X) r
  const-Post X x (done a, w) = x
  const-Post X x (failed e, w) = x
  const-Post X x (killed, w) = x

  pub Meets-const : {P : S → Type 0} (X : Type 0) (m : Exec S A) → X → Meets (λ _. X) P m (λ _ _. X)
  Meets-const X m x = record { at = λ w p. const-Post X x (m w) }

-- What a part of the state has no say in.
module _ {S T A : Type 0} where
  pub Meets-frame :
      (K : S → Type 0) (get : S → T) (set : T → S → S) (m : Exec T A)
      → ((t : T) (s : S) → K s ≡ K (set t s))
      → Meets K K (zoom get set m) (λ _ d. K d)
  Meets-frame K get set m f = Meets-zoom get set m λ s k.
      Meets-loosen m (λ d h. subst (λ (X : Type 0). X) (f d s) h)
        (λ _ d h. subst (λ (X : Type 0). X) (f d s) h) (Meets-const (K s) m k)

-- Whatever the kind of the error.
pub Meets-missing :
    {S A : Type 0} {inv P : S → Type 0} {Q : A → S → Type 0} (kind : ErrorKind)
    (missing failure : Exec S A)
    → Meets inv P missing Q
    → Meets inv P failure Q
    → Meets inv P (if_missing kind missing failure) Q
unfolding if_missing
Meets-missing not_found missing failure hm hf = hm
Meets-missing would_block missing failure hm hf = hf
Meets-missing already_exists missing failure hm hf = hf
Meets-missing interrupted missing failure hm hf = hf
Meets-missing invalid_data missing failure hm hf = hf
Meets-missing other missing failure hm hf = hf
