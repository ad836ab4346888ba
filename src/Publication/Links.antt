-- ===== src/Publication/Links.antt =====
-- What `immutable` of src/continuation.rs keeps, and that it returns only where the file stands.
use agent_bash_tool.Common.{◌≡◌, refl, Bool, Option, none, some}
use agent_bash_tool.Effects.{IoError, error_other, Result, ok, err}
use agent_bash_tool.Effects.Actors.{returns, fails, attempt, reads, touches, links}
use agent_bash_tool.Effects.Actors.Keeps.{
  Order, Keeps, Ends, Keeps-returns, Keeps-fails, Keeps-if, Keeps-reads, Keeps-links, Keeps-bind,
  Keeps-attempt, Keeps-look,
}
use agent_bash_tool.Publication.Evidence.{Evidence}
use agent_bash_tool.Publication.Immutable.{compared, immutable, is_taken, publish_new, settle}

module _ (o : Order Evidence) {A : Type 0} (same : A → A → Bool) (get_file : Evidence → Option A)
    (put_file : A → Evidence → Evidence) (content : A) (There : Evidence → Type 0) where
  open o use {Grows, grows_trans, Inv}

  -- That the file may be linked from here on, and what it then shows.
  pub record MayLink (d : Evidence) : Type 0 where
    pub links_well :
        (d' : Evidence)
        → Grows d d'
        → Inv d'
        → get_file d' ≡ none
        → Grows d' (put_file content d') × Inv (put_file content d')
    pub found : (d' : Evidence) (a : A) → get_file d' ≡ some a → There d'
    pub stable : (d' d'' : Evidence) → Grows d' d'' → There d' → There d''
    pub linked : (d' : Evidence) → There (put_file content d')

  MayLink-later : (d d' : Evidence) → Grows d d' → MayLink d → MayLink d'
  MayLink-later d d' g m = record {
    links_well = λ d'' h i e. m.links_well d'' (grows_trans d d' d'' g h) i e;
    found = m.found;
    stable = m.stable;
    linked = m.linked;
  }

  abbrev Then : {B : Type 0} → B → Evidence → Type 0
  Then b d = There d

  touches-Then : (d : Evidence) → MayLink d → There d → Keeps o Then touches d
  touches-Then d m t = Keeps-reads (λ d. tt) d (λ d' g i. m.stable d d' g t)

  compared-There :
      (e : IoError) (file : Option A) (d : Evidence)
      → MayLink d
      → ((a : A) → file ≡ some a → There d)
      → Keeps o Then (compared same get_file put_file content e file) d
  unfolding compared
  compared-There e none d m t = Keeps-fails (error_other "no such file") d
  compared-There e (some present) d m t =
      Keeps-if (same present content) touches (fails e) d (λ _. touches-Then d m (t present refl))
        (λ _. Keeps-fails e d)

  abbrev WhenOk : Result (Unit {0}) → Evidence → Type 0
  WhenOk (ok linked) d = There d
  WhenOk (err e) d = Unit {0}

  WhenOk-stable :
      (r : Result (Unit {0})) (d d' : Evidence) → MayLink d → Grows d d' → WhenOk r d → WhenOk r d'
  WhenOk-stable (ok linked) d d' m g t = m.stable d d' g t
  WhenOk-stable (err e) d d' m g t = tt

  settle-There :
      (r : Result (Unit {0})) (d : Evidence)
      → MayLink d
      → WhenOk r d
      → Keeps o Then (settle same get_file put_file content r) d
  unfolding settle
  settle-There (ok linked) d m t = touches-Then d m t
  settle-There (err e) d m t =
      Keeps-if (is_taken e.kind) _ (fails e) d
        (λ _.
          Keeps-bind (λ file d'. (a : A) → file ≡ some a → There d') (reads get_file) _ d
            (Keeps-reads get_file d (λ d' g i. m.found d'))
            (λ file d' g t. compared-There e file d' (MayLink-later d d' g m) t))
        (λ _. Keeps-fails e d)

  publish_new-There :
      (file : Option A) (d : Evidence)
      → MayLink d
      → ((a : A) → file ≡ some a → There d)
      → Keeps o Then (publish_new same get_file put_file content file) d
  unfolding publish_new
  publish_new-There (some present) d m t =
      Keeps-if (same present content) (returns tt) (fails (error_other "immutable source conflict"))
        d (λ _. Keeps-returns tt d (t present refl))
        (λ _. Keeps-fails (error_other "immutable source conflict") d)
  publish_new-There none d m t =
      Keeps-look (λ d. tt) _ d
        (λ _ d1 g1.
          let m1 = MayLink-later d d1 g1 m in
          Keeps-bind WhenOk (attempt (links get_file put_file content)) _ d1
            (Keeps-attempt (λ _. There) (links get_file put_file content) d1
              (Keeps-links get_file put_file content d1 m1.links_well (λ d' g i e. m1.linked d'))
              (λ a d' g t. t) (λ e d' g. tt))
            (λ r d2 g2 w.
              let m2 = MayLink-later d1 d2 g2 m1 in
              Keeps-bind (λ _. WhenOk r) touches _ d2
                (Keeps-reads (λ d. tt) d2 (λ d' g i. WhenOk-stable r d2 d' m2 g w))
                (λ _ d3 g3 w. settle-There r d3 (MayLink-later d2 d3 g3 m2) w)))

  pub immutable-There :
      (d : Evidence)
      → MayLink d
      → Keeps o (λ _ d'. There d') (immutable same get_file put_file content) d
  unfolding immutable
  immutable-There d m =
      Keeps-bind (λ file d'. (a : A) → file ≡ some a → There d') (reads get_file) _ d
        (Keeps-reads get_file d (λ d' g i. m.found d'))
        (λ file d' g t. publish_new-There file d' (MayLink-later d d' g m) t)

-- Of a file outside the chain.
module _ (o : Order Evidence) {A : Type 0} (same : A → A → Bool) (get_file : Evidence → Option A)
    (put_file : A → Evidence → Evidence) (content : A) where
  open o use {Grows, Inv}

  pub immutable-Ends :
      ((d : Evidence) → Inv d → Grows d (put_file content d) × Inv (put_file content d))
      → (d : Evidence) → Keeps o Ends (immutable same get_file put_file content) d
  immutable-Ends may d =
      immutable-There o same get_file put_file content (λ d'. Unit {0}) d
        (record {
          links_well = λ d' g i e. may d' i;
          found = λ d' a e. tt;
          stable = λ d' d'' g t. tt;
          linked = λ d'. tt;
        })
