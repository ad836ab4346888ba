-- ===== src/DeliveryRole/Containment.antt =====
-- `confirm_role` among the other processes: a confirmation rests on a response that the custodian
-- made after the challenge was issued, whatever else happens to the shared words in between.
use agent_bash_tool.Common.{
  ℕ, suc, ◌≤◌, ◌<◌, ◌≡◌, refl, ◌⊎◌, inl, inr, Bool, true, false, Option, none, some, arith, subst,
  if◌then◌else◌, Bool-cases, sym,
}
use agent_bash_tool.Common.Int.{ℤ}
use agent_bash_tool.DeliveryRole.{
  Role, issue_challenge, slot_is, answered, acknowledge_load, acknowledge_store,
}

-- Where one call of `confirm_role` stands.
pub data Phase : Type 0 where
  idle : Phase
  -- at the head of the loop, and between the two loads of a turn
  waiting checked : ℕ → Phase
  confirmed refused : Phase

pub record System : Type 0 where
  pub role : Role
  -- the value that the custodian has loaded and not yet stored
  pub loaded : Option ℕ
  pub phase : Phase
  -- whether the custodian has loaded the challenge since this call issued its own
  pub fresh : Bool

abbrev after_load : ℕ → Bool → Phase
after_load ch true = confirmed
after_load ch false = waiting ch

-- One atomic access, of this call for custodian `pid`, of the custodian, or of anyone else.
pub data Step (pid : ℤ) : System → System → Type 0 where
  issues :
      (s : System) (r : Role) (ch : ℕ)
      → s.phase ≡ idle
      → issue_challenge pid s.role ≡ some (r, ch)
      → Step pid s (record s { role = r; phase = waiting ch; fresh = false })
  checks_slot :
      (s : System) (ch : ℕ)
      → s.phase ≡ waiting ch
      → Step pid s (record s { phase = if slot_is pid s.role then checked ch else refused })
  checks_answer :
      (s : System) (ch : ℕ)
      → s.phase ≡ checked ch
      → Step pid s (record s { phase = after_load ch (answered ch s.role) })
  times_out :
      (s : System) (ch : ℕ) → s.phase ≡ waiting ch → Step pid s (record s { phase = refused })
  custodian_loads :
      (s : System) → Step pid s (record s { loaded = some (acknowledge_load s.role); fresh = true })
  custodian_stores :
      (s : System) (v : ℕ)
      → s.loaded ≡ some v
      → Step pid s (record s { role = acknowledge_store v s.role; loaded = none })
  -- another caller issues a challenge, for any custodian
  others_issue :
      (s : System) (other : ℤ) (r : Role) (ch : ℕ)
      → issue_challenge other s.role ≡ some (r, ch)
      → Step pid s (record s { role = r })
  -- the slot is published, certified, retired or cleared
  others_set_slot :
      (s : System) (v : ℤ) → Step pid s (record s { role = record s.role { pid = v } })

pub data Reach (pid : ℤ) (s : System) : System → Type 0 where
  here : Reach pid s s
  next : {t u : System} → Reach pid s t → Step pid t u → Reach pid s u

abbrev LoadedBelow : ℕ → Option ℕ → Type 0
LoadedBelow n none = Unit {0}
LoadedBelow n (some v) = v < n

-- Nobody has seen the challenge of a call until the custodian loads it.
abbrev Unseen : System → ℕ → Type 0
Unseen s ch =
    (ch ≤ s.role.challenge)
    × ((s.fresh ≡ true) ⊎ ((s.role.acknowledged < ch) × LoadedBelow ch s.loaded))

abbrev Awaits : System → Phase → Type 0
Awaits s idle = Unit {0}
Awaits s (waiting ch) = Unseen s ch
Awaits s (checked ch) = Unseen s ch
Awaits s confirmed = s.fresh ≡ true
Awaits s refused = Unit {0}

abbrev Inv : System → Type 0
Inv s =
    (s.role.acknowledged ≤ s.role.challenge)
    × LoadedBelow (suc s.role.challenge) s.loaded
    × Awaits s s.phase

Awaits-map :
    (s t : System) (ph : Phase)
    → ((ch : ℕ) → Unseen s ch → Unseen t ch)
    → (s.fresh ≡ true → t.fresh ≡ true)
    → Awaits s ph
    → Awaits t ph
Awaits-map s t idle f g h = tt
Awaits-map s t (waiting ch) f g h = f ch h
Awaits-map s t (checked ch) f g h = f ch h
Awaits-map s t confirmed f g h = g h
Awaits-map s t refused f g h = tt

LoadedBelow-mono : (m n : ℕ) (o : Option ℕ) → m ≤ n → LoadedBelow m o → LoadedBelow n o
LoadedBelow-mono m n none h l = tt
LoadedBelow-mono m n (some v) h l = omega arith

-- What issuing does to the words.
issue_challenge_lem :
    (pid : ℤ) (r r' : Role) (ch : ℕ)
    → issue_challenge pid r ≡ some (r', ch)
    → (r'.challenge ≡ suc r.challenge) × (ch ≡ suc r.challenge) × (r'.acknowledged ≡ r.acknowledged)
unfolding issue_challenge
issue_challenge_lem pid r r' ch e = (ground arith, ground arith, ground arith)

issues-Inv :
    (pid : ℤ) (s : System) (r : Role) (ch : ℕ)
    → issue_challenge pid s.role ≡ some (r, ch)
    → Inv s
    → Inv (record s { role = r; phase = waiting ch; fresh = false })
issues-Inv pid s r ch e h =
    let i = issue_challenge_lem pid s.role r ch e in
    (
      omega (arith, h.0, i.0, i.2),
      LoadedBelow-mono (suc s.role.challenge) (suc r.challenge) s.loaded (omega (arith, i.0)) h.1,
      (
        omega (arith, i.0, i.1),
        inr (
          omega (arith, h.0, i.1, i.2),
          LoadedBelow-mono (suc s.role.challenge) ch s.loaded (omega (arith, i.1)) h.1,
        ),
      ),
    )

others-Inv :
    (pid : ℤ) (s : System) (r : Role) (ch : ℕ)
    → issue_challenge pid s.role ≡ some (r, ch)
    → Inv s
    → Inv (record s { role = r })
others-Inv pid s r ch e h =
    let i = issue_challenge_lem pid s.role r ch e in
    (
      omega (arith, h.0, i.0, i.2),
      LoadedBelow-mono (suc s.role.challenge) (suc r.challenge) s.loaded (omega (arith, i.0)) h.1,
      Awaits-map s (record s { role = r }) s.phase
          (λ c u. (
            omega (arith, i.0, u.0),
            elim (u.1) [ inl f ↦ inl f | inr (a, l) ↦ inr (omega (arith, i.2, a), l) ],
          ))
          (λ f. f) h.2,
    )

awaiting : (s : System) (ph : Phase) → s.phase ≡ ph → Inv s → Awaits s ph
awaiting s ph e h = subst (Awaits s) e h.2

slot_outcome :
    (t : System) (ch : ℕ) (b : Bool) → Unseen t ch → Awaits t (if b then checked ch else refused)
slot_outcome t ch true u = u
slot_outcome t ch false u = tt

-- An answer to the challenge that nobody had seen is a fresh one.
seen_fresh : (s : System) (ch : ℕ) → s.role.acknowledged ≡ ch → Unseen s ch → s.fresh ≡ true
seen_fresh s ch e (le, inl f) = f
seen_fresh s ch e (le, inr (lt, l)) = absurd (omega arith)

checks_slot-Inv :
    (pid : ℤ) (s : System) (ch : ℕ)
    → s.phase ≡ waiting ch
    → Inv s
    → Inv (record s { phase = if slot_is pid s.role then checked ch else refused })
checks_slot-Inv pid s ch e h =
    (h.0, h.1, slot_outcome s ch (slot_is pid s.role) (awaiting s (waiting ch) e h))

answered_iff : (ch : ℕ) (r : Role) → answered ch r ≡ true → r.acknowledged ≡ ch
unfolding answered
answered_iff ch r h = ground arith

checks_answer-Inv :
    (s : System) (ch : ℕ)
    → s.phase ≡ checked ch
    → Inv s
    → Inv (record s { phase = after_load ch (answered ch s.role) })
checks_answer-Inv s ch e h = elim (Bool-cases (answered ch s.role)) [
  | inl got ↦
      rw got (h.0, h.1, seen_fresh s ch (answered_iff ch s.role got) (awaiting s (checked ch) e h))
  | inr miss ↦ rw miss (h.0, h.1, awaiting s (checked ch) e h)
]

stores-Inv :
    (s : System) (v : ℕ)
    → s.loaded ≡ some v
    → Inv s
    → Inv (record s { role = acknowledge_store v s.role; loaded = none })
unfolding acknowledge_store
stores-Inv s v e h = (
  omega (arith, subst (LoadedBelow (suc s.role.challenge)) e h.1),
  tt,
  Awaits-map s (record s { role = acknowledge_store v s.role; loaded = none }) s.phase
      (λ c u.
        (u.0, elim (u.1) [ inl f ↦ inl f | inr (a, l) ↦ inr (subst (LoadedBelow c) e l, tt) ]))
      (λ f. f) h.2,
)

Step-Inv : (pid : ℤ) {s t : System} → Step pid s t → Inv s → Inv t
unfolding acknowledge_load
Step-Inv pid (issues s r ch at e) h = issues-Inv pid s r ch e h
Step-Inv pid (checks_slot s ch e) h = checks_slot-Inv pid s ch e h
Step-Inv pid (checks_answer s ch e) h = checks_answer-Inv s ch e h
Step-Inv pid (times_out s ch e) h = (h.0, h.1, tt)
Step-Inv pid (custodian_loads s) h = (
  h.0,
  omega arith,
  Awaits-map s (record s { loaded = some s.role.challenge; fresh = true }) s.phase
      (λ c u. (u.0, inl refl)) (λ f. refl) h.2,
)
Step-Inv pid (custodian_stores s v e) h = stores-Inv s v e h
Step-Inv pid (others_issue s other r ch e) h = others-Inv other s r ch e h
Step-Inv pid (others_set_slot s v) h = (
  h.0,
  h.1,
  Awaits-map s (record s { role = record s.role { pid = v } }) s.phase (λ c u. u) (λ f. f) h.2,
)

Reach-Inv : (pid : ℤ) {s t : System} → Inv s → Reach pid s t → Inv t
Reach-Inv pid h here = h
Reach-Inv pid h (next r st) = Step-Inv pid st (Reach-Inv pid h r)

-- From any state in which the call has not begun, whose words hold nothing past the challenge that
-- was issued last, every interleaving that ends with the containment of `pid` confirmed has the
-- custodian load the challenge word after this call issued its own.
pub confirmed_fresh :
    (pid : ℤ) (s t : System)
    → s.phase ≡ idle
    → s.role.acknowledged ≤ s.role.challenge
    → LoadedBelow (suc s.role.challenge) s.loaded
    → Reach pid s t
    → t.phase ≡ confirmed
    → t.fresh ≡ true
confirmed_fresh pid s t at a l r e =
    awaiting t confirmed e (Reach-Inv pid (a, l, subst (Awaits s) (sym at) tt) r)
