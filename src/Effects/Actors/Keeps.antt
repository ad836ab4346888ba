-- ===== src/Effects/Actors/Keeps.antt =====
-- What programs keep while others run between their accesses. `Grows` is what no actor undoes and
-- `Inv` what all keep; `Keeps Q p d`: from any files that have grown from `d`, each access of `p` keeps
-- both, and a result `a` comes with `Q a`.
use agent_bash_tool.Common.{◌≡◌, refl, Bool, true, false, Option, none, some, if◌then◌else◌}
use agent_bash_tool.Effects.{IoError, Result, ok, err}
use agent_bash_tool.Effects.Actors.{
  Program, returns, fails, access, ◌>>=◌, attempt, lifted, reads, writes, links, into, linked_over,
}

pub record Order (S : Type 0) : Type 1 where
  pub Grows : S → S → Type 0
  pub grows_refl : (d : S) → Grows d d
  pub grows_trans : (d d' d'' : S) → Grows d d' → Grows d' d'' → Grows d d''
  pub Inv : S → Type 0

-- Of a result that says nothing.
abbrev pub Ends : {S A : Type 0} → A → S → Type 0
Ends a d = Unit {0}

module _ {S : Type 0} (o : Order S) where
  open o use {Grows, grows_refl, grows_trans, Inv}

  -- What a change of the files does to any that have grown from `d`.
  abbrev pub Changes : (S → S) → S → Type 0
  Changes change d = (d' : S) → Grows d d' → Inv d' → Grows d' (change d') × Inv (change d')

  unfoldable pub Kept : {A : Type 0} → (A → S → Type 0) → Program S A → S → Type 0
  Kept Q (returns a) d = Q a d
  Kept Q (fails e) d = Unit {0}
  Kept Q (access change next handler) d =
      (d' : S)
      → Grows d d'
      → Inv d'
      → Grows d' (change d')
        × Inv (change d')
        × Kept Q (next d') (change d')
        × ((e : IoError) → Kept Q (handler e) d' × Kept Q (handler e) (change d'))

  pub record Keeps {A : Type 0} (Q : A → S → Type 0) (p : Program S A) (d : S) : Type 0 where
    pub at : Kept Q p d

  -- From files that have grown since.
  module _ {A : Type 0} (Q : A → S → Type 0) where
    pub Kept-later :
        (p : Program S A) (d d' : S)
        → ((a : A) → Q a d → Q a d')
        → Grows d d'
        → Kept Q p d
        → Kept Q p d'
    unfolding Kept
    Kept-later (returns a) d d' q g h = q a h
    Kept-later (fails e) d d' q g h = tt
    Kept-later (access change next handler) d d' q g h =
        λ d'' g' i. h d'' (grows_trans d d' d'' g g') i

  module _ {A B : Type 0} (Q : B → S → Type 0) (R : A → S → Type 0) (f : A → Program S B) where
    Kept-bind :
        (m : Program S A) (d : S)
        → Kept R m d
        → ((a : A) (d' : S) → Grows d d' → R a d' → Keeps Q (f a) d')
        → Kept Q (m >>= f) d
    unfolding Kept ◌>>=◌
    Kept-bind (returns a) d h k = (k a d (grows_refl d) h).at
    Kept-bind (fails e) d h k = tt
    Kept-bind (access change next handler) d h k = λ d' g i.
        let s = h d' g i in
        let on_change = grows_trans d d' (change d') g s.0 in
        let k' = λ (a : A) (d'' : S) (g' : Grows (change d') d'').
          k a d'' (grows_trans d (change d') d'' on_change g') in
        (
          s.0,
          s.1,
          Kept-bind (next d') (change d') s.2 k',
          λ e. (
            Kept-bind (handler e) d' (s.3 e).0 (λ a d'' g'. k a d'' (grows_trans d d' d'' g g')),
            Kept-bind (handler e) (change d') (s.3 e).1 k',
          ),
        )

  module _ {A : Type 0} (Q : Result A → S → Type 0) (R : A → S → Type 0) where
    Kept-attempt :
        (m : Program S A) (d : S)
        → Kept R m d
        → ((a : A) (d' : S) → Grows d d' → R a d' → Q (ok a) d')
        → ((e : IoError) (d' : S) → Grows d d' → Q (err e) d')
        → Kept Q (attempt m) d
    unfolding Kept attempt
    Kept-attempt (returns a) d h k l = k a d (grows_refl d) h
    Kept-attempt (fails e) d h k l = l e d (grows_refl d)
    Kept-attempt (access change next handler) d h k l = λ d' g i.
        let s = h d' g i in
        let on_change = grows_trans d d' (change d') g s.0 in
        let k' = λ (a : A) (d'' : S) (g' : Grows (change d') d'').
          k a d'' (grows_trans d (change d') d'' on_change g') in
        let l' = λ (e : IoError) (d'' : S) (g' : Grows (change d') d'').
          l e d'' (grows_trans d (change d') d'' on_change g') in
        (
          s.0,
          s.1,
          Kept-attempt (next d') (change d') s.2 k' l',
          λ e. (
            Kept-attempt (handler e) d' (s.3 e).0 (λ a d'' g'. k a d'' (grows_trans d d' d'' g g'))
                (λ e' d'' g'. l e' d'' (grows_trans d d' d'' g g')),
            Kept-attempt (handler e) (change d') (s.3 e).1 k' l',
          ),
        )

-- The rules.
module _ {S : Type 0} {o : Order S} where
  open o use {Grows, Inv}

  module _ {A : Type 0} {Q : A → S → Type 0} where
    pub Keeps-returns : (a : A) (d : S) → Q a d → Keeps o Q (returns a) d
    unfolding Kept
    Keeps-returns a d q = record { at = q }

    pub Keeps-fails : (e : IoError) (d : S) → Keeps o Q (fails e) d
    unfolding Kept
    Keeps-fails e d = record { at = tt }

    pub Keeps-lifted :
        (r : Result A) (d : S) → ((a : A) → r ≡ ok a → Q a d) → Keeps o Q (lifted r) d
    unfolding Kept
    Keeps-lifted (ok a) d q = record { at = q a refl }
    Keeps-lifted (err e) d q = record { at = tt }

    pub Keeps-if :
        (b : Bool) (m n : Program S A) (d : S)
        → (b ≡ true → Keeps o Q m d)
        → (b ≡ false → Keeps o Q n d)
        → Keeps o Q (if b then m else n) d
    Keeps-if true m n d hm hn = hm refl
    Keeps-if false m n d hm hn = hn refl

    pub Keeps-reads :
        (f : S → A) (d : S) → ((d' : S) → Grows d d' → Inv d' → Q (f d') d') → Keeps o Q (reads f) d
    unfolding Kept reads
    Keeps-reads f d q = record { at = λ d' g i. (o.grows_refl d', i, q d' g i, λ e. (tt, tt)) }

  pub Keeps-writes :
      {Q : Unit {0} → S → Type 0} (change : S → S) (d : S)
      → Changes o change d
      → ((d' : S) → Grows d d' → Inv d' → Q tt (change d'))
      → Keeps o Q (writes change) d
  unfolding Kept writes
  Keeps-writes change d c q = record {
    at = λ d' g i. ((c d' g i).0, (c d' g i).1, q d' g i, λ e. (tt, tt));
  }

  -- A link that finds its name free puts the file there.
  pub Keeps-links :
      {A : Type 0} {Q : Unit {0} → S → Type 0} (get_file : S → Option A) (put_file : A → S → S)
      (content : A) (d : S)
      → ((d' : S)
          → Grows d d'
          → Inv d'
          → get_file d' ≡ none
          → Grows d' (put_file content d') × Inv (put_file content d'))
      → ((d' : S) → Grows d d' → Inv d' → get_file d' ≡ none → Q tt (put_file content d'))
      → Keeps o Q (links get_file put_file content) d
  unfolding Kept links
  Keeps-links {A} {Q} get_file put_file content d c q = record {
    at = λ d' g i. by_file d' g i (get_file d') refl;
  }
    where
      by_file :
          (d' : S)
          → Grows d d'
          → Inv d'
          → (file : Option A) → get_file d' ≡ file
          → Grows d' (into get_file put_file content file d')
            × Inv (into get_file put_file content file d')
            × Kept o Q
                (linked_over get_file put_file content file)
                (into get_file put_file content file d')
            × ((e : IoError) → Unit {0} × Unit {0})
      by_file d' g i none e = ((c d' g i e).0, (c d' g i e).1, q d' g i e, λ _. (tt, tt))
      by_file d' g i (some present) e = (o.grows_refl d', i, tt, λ _. (tt, tt))

  module _ {A B : Type 0} {Q : B → S → Type 0} where
    pub Keeps-bind :
        (R : A → S → Type 0) (m : Program S A) (f : A → Program S B) (d : S)
        → Keeps o R m d
        → ((a : A) (d' : S) → Grows d d' → R a d' → Keeps o Q (f a) d')
        → Keeps o Q (m >>= f) d
    Keeps-bind R m f d h k = record { at = Kept-bind o Q R f m d h.at k }

  module _ {A : Type 0} {Q : Result A → S → Type 0} where
    pub Keeps-attempt :
        (R : A → S → Type 0) (m : Program S A) (d : S)
        → Keeps o R m d
        → ((a : A) (d' : S) → Grows d d' → R a d' → Q (ok a) d')
        → ((e : IoError) (d' : S) → Grows d d' → Q (err e) d')
        → Keeps o Q (attempt m) d
    Keeps-attempt R m d h k l = record { at = Kept-attempt o Q R m d h.at k l }

  module _ {A B : Type 0} {Q : B → S → Type 0} where
    pub Keeps-then :
        (m : Program S A) (f : A → Program S B) (d : S)
        → Keeps o Ends m d
        → ((a : A) (d' : S) → Grows d d' → Keeps o Q (f a) d')
        → Keeps o Q (m >>= f) d
    Keeps-then m f d h k = Keeps-bind Ends m f d h (λ a d' g _. k a d' g)

    pub Keeps-look :
        (look : S → A) (f : A → Program S B) (d : S)
        → ((a : A) (d' : S) → Grows d d' → Keeps o Q (f a) d')
        → Keeps o Q (reads look >>= f) d
    Keeps-look look f d k = Keeps-then (reads look) f d (Keeps-reads look d (λ d' g i. tt)) k

    pub Keeps-lift :
        (r : Result A) (f : A → Program S B) (d : S)
        → ((a : A) (d' : S) → r ≡ ok a → Grows d d' → Keeps o Q (f a) d')
        → Keeps o Q (lifted r >>= f) d
    Keeps-lift r f d k =
        Keeps-bind (λ a d'. r ≡ ok a) (lifted r) f d (Keeps-lifted r d (λ a e. e))
          (λ a d' g e. k a d' e g)
