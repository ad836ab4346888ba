-- ===== src/Reaping/Work.antt =====
-- What the works that a handle takes part in ask of its directory, src/state.rs: `causal_parent_retains` and
-- `accepted_root_result_pending`.
use agent_bash_tool.Common.{
  ℕ, ◌≡◌, refl, sym, ap, ◌∙◌, ◌⊎◌, inl, inr, Bool, true, false, ◌&&◌, Option, none, some, List,
  arith, Bool-cases,
}
use agent_bash_tool.Common.Bytes.{codes, text_eq_refl}
use agent_bash_tool.RootProtocol.Json.{Value, bool, str, at, as_str, is_text, is_true}
use agent_bash_tool.RootProtocol.Json.Equal.{value_eq_sound, is_text_sound, as_str_sound}
use agent_bash_tool.Reaping.Eligible.{
  Handle, JsonFile, absent, broken, content, Lookup, not_there, failing, there, is_directory,
  starts_with, is_one_component, parent_retains, registration_retains, causal_parent_of,
  causal_parent_retains, is_acceptance, is_drained_result, result_pending, root_pending_of,
  accepted_root_result_pending,
}

-- Whether a work's acceptance, where there is one, leaves no parent handle standing.
pub data HasNoParent (h : Handle) : Type 0 where
  unaccepted : h.accepted ≡ absent → HasNoParent h
  under_root :
      (acceptance : Value)
      → h.accepted ≡ content acceptance
      → at (at acceptance (codes "registration")) (codes "kind") ≡ str (codes "root")
      → HasNoParent h
  parent_left :
      (acceptance : Value) (parent : List ℕ)
      → h.accepted ≡ content acceptance
      → at (at acceptance (codes "registration")) (codes "parent_work_id") ≡ str parent
      → (h.directory parent ≡ not_there) ⊎ (h.directory parent ≡ there false)
      → HasNoParent h

-- The result on record is of this work and of the root that accepted it, and says that its tree is drained.
pub record IsDrained (name : List ℕ) (acceptance result : Value) : Type 0 where
  pub work : at result (codes "work_id") ≡ str name
  pub root : at result (codes "root_id") ≡ at acceptance (codes "root_id")
  pub drained : at result (codes "physical_tree_drained") ≡ bool true

-- Whether no result of the work is owed to a root.
pub data OwesNothing (h : Handle) : Type 0 where
  never_accepted : h.accepted ≡ absent → OwesNothing h
  of_no_root :
      (acceptance : Value)
      → h.accepted ≡ content acceptance
      → ¬ (at (at acceptance (codes "registration")) (codes "kind") ≡ str (codes "root"))
      → OwesNothing h
  result_told :
      (acceptance result : Value)
      → h.accepted ≡ content acceptance
      → h.root_result ≡ content result
      → IsDrained h.name acceptance result
      → OwesNothing h

not_directory : (l : Lookup) → is_directory l ≡ some false → (l ≡ not_there) ⊎ (l ≡ there false)
not_directory not_there h = inl refl
not_directory failing h = absurd (ground arith)
not_directory (there false) h = inr refl
not_directory (there true) h = absurd (ground arith)

abbrev unknown_answer : Option Bool
unknown_answer = none

no_answer : unknown_answer ≡ some false → ⊥
no_answer p = ground arith

still_pending : some true ≡ some false → ⊥
still_pending p = ground arith

-- The parent that does not retain the work.
parent_left_lem :
    (directory : List ℕ → Lookup) (parent : Option (List ℕ))
    → parent_retains directory parent ≡ some false
    → (name : List ℕ) × (parent ≡ some name)
      × ((directory name ≡ not_there) ⊎ (directory name ≡ there false))
parent_left_lem directory none h = absurd (ground arith)
parent_left_lem directory (some name) h =
    elim (Bool-cases (is_one_component name && starts_with (codes "ab_") name)) [
      | inl plain ↦ (name, refl, not_directory (directory name) (rw plain at h))
      | inr strange ↦ absurd (no_answer (rw strange at h))
    ]

registered-HasNoParent :
    (h : Handle) (acceptance : Value)
    → h.accepted ≡ content acceptance
    → registration_retains h.directory (at acceptance (codes "registration")) ≡ some false
    → HasNoParent h
registered-HasNoParent h acceptance e r =
    let registration = at acceptance (codes "registration") in
    let kind = at registration (codes "kind") in
    elim (Bool-cases (is_text kind (codes "root"))) [
      | inl root ↦ under_root acceptance e (is_text_sound kind (codes "root") root)
      | inr other ↦ elim (Bool-cases (is_text kind (codes "nested"))) [
        | inl nested ↦
            let work = at registration (codes "parent_work_id") in
            let (name, named, left) =
              parent_left_lem h.directory (as_str work) (rw (other, nested) at r) in
            parent_left acceptance name e (as_str_sound work name named) left
        | inr unknown ↦ absurd (no_answer (rw (other, unknown) at r))
      ]
    ]

retained_by-HasNoParent :
    (h : Handle) (accepted : JsonFile)
    → h.accepted ≡ accepted
    → causal_parent_of h.directory accepted ≡ some false
    → HasNoParent h
retained_by-HasNoParent h absent e r = unaccepted e
retained_by-HasNoParent h broken e r = absurd (ground arith)
retained_by-HasNoParent h (content acceptance) e r = registered-HasNoParent h acceptance e r

pub causal_parent_retains-HasNoParent :
    (h : Handle) → causal_parent_retains h ≡ some false → HasNoParent h
unfolding causal_parent_retains
causal_parent_retains-HasNoParent h r = retained_by-HasNoParent h h.accepted refl r

is_true_sound : (v : Value) → is_true v ≡ true → v ≡ bool true
is_true_sound (bool true) h = refl
is_true_sound (bool false) h = absurd (ground arith)
is_true_sound _ h = absurd (ground arith)

drained_lem :
    (name : List ℕ) (acceptance result : Value)
    → is_drained_result name acceptance result ≡ true
    → IsDrained name acceptance result
drained_lem name acceptance result h = record {
  work = is_text_sound (at result (codes "work_id")) name (ground arith);
  root =
      value_eq_sound (at result (codes "root_id")) (at acceptance (codes "root_id")) (ground arith);
  drained = is_true_sound (at result (codes "physical_tree_drained")) (ground arith);
}

told-OwesNothing :
    (h : Handle) (acceptance : Value) (result : JsonFile)
    → h.accepted ≡ content acceptance
    → h.root_result ≡ result
    → result_pending h.name acceptance result ≡ some false
    → OwesNothing h
told-OwesNothing h acceptance absent e f r = absurd (ground arith)
told-OwesNothing h acceptance broken e f r = absurd (ground arith)
told-OwesNothing h acceptance (content result) e f r =
    elim (Bool-cases (is_drained_result h.name acceptance result)) [
      | inl done ↦ result_told acceptance result e f (drained_lem h.name acceptance result done)
      | inr going ↦ absurd (still_pending (rw going at r))
    ]

accepted-OwesNothing :
    (h : Handle) (accepted : JsonFile)
    → h.accepted ≡ accepted
    → root_pending_of h.name accepted h.root_result ≡ some false
    → OwesNothing h
accepted-OwesNothing h absent e r = never_accepted e
accepted-OwesNothing h broken e r = absurd (ground arith)
accepted-OwesNothing h (content acceptance) e r =
    let kind = at (at acceptance (codes "registration")) (codes "kind") in
    elim (Bool-cases (is_acceptance h.name acceptance)) [
      | inr foreign ↦ absurd (still_pending (rw foreign at r))
      | inl own ↦ elim (Bool-cases (is_text kind (codes "root"))) [
        | inr rootless ↦ of_no_root acceptance e (λ p.
            bool_clash
              (sym (ap (λ v. is_text v (codes "root")) p ∙ text_eq_refl (codes "root")) ∙ rootless))
        | inl root ↦ told-OwesNothing h acceptance h.root_result e refl (rw (own, root) at r)
      ]
    ]
  where
    bool_clash : true ≡ false → ⊥
    bool_clash p = ground arith

pub accepted_root_result_pending-OwesNothing :
    (h : Handle) → accepted_root_result_pending h ≡ some false → OwesNothing h
unfolding accepted_root_result_pending
accepted_root_result_pending-OwesNothing h r = accepted-OwesNothing h h.accepted refl r
