-- ===== src/DeliveryRole/Slot.antt =====
-- Who may clear the slot: responsibility for a published custodian ends by its own certificate and
-- its reaping, or by the guardian's proof that the whole tree is empty, and by nothing else.
use agent_bash_tool.Common.{
  ℕ, suc, ◌≡◌, ◌≢◌, ◌⊎◌, inl, inr, Bool, true, false, Option, none, some, List, [], ◌∷◌, arith,
  ◌==◌, any_of,
}
use agent_bash_tool.Common.Int.{ℤ, pos, negsuc, neg}
use agent_bash_tool.DeliveryRole.{
  Role, unknown, still_owned, pending, publish, drained, before_reap, guardian_tree_drained,
  retire_load, retire_store, exclusion, nothing, PidfdState,
}

-- A child process: no child of these reapers has pid 0 or 1.
abbrev pub child : ℕ → ℤ
child n = pos (suc (suc n))

-- The accesses that processes make to the slot. `stores` is the second half of a `before_reap` whose
-- load found `seen` at some earlier time.
pub data Access : Type 0 where
  publishes drains reaps : ℕ → Access
  stores : ℕ → ℤ → Access
  guardian : Access

abbrev late_store : ℕ → ℤ → Option Role → Option Role
late_store n seen none = none
late_store n seen (some r) = some (retire_store (retire_load (child n) (record r { pid = seen })) r)

pub access : Access → Option Role → Option Role
access (publishes n) s = (publish (child n) s).0
access (drains n) s = drained (child n) s
access (reaps n) s = before_reap (child n) s
access (stores n seen) s = late_store n seen s
access guardian s = guardian_tree_drained s

pub accesses : List Access → Option Role → Option Role
accesses [] s = s
accesses (a ∷ rest) s = accesses rest (access a s)

-- The accesses that can end the responsibility for a running custodian, and for a certified one.
abbrev pub can_release : ℕ → Access → Bool
can_release p (drains n) = n == p
can_release p guardian = true
can_release p _ = false

abbrev pub can_retire : ℕ → Access → Bool
can_retire p (reaps n) = n == p
can_retire p (stores n seen) = n == p
can_retire p _ = false

-- The slot names the custodian, or says that it was lost.
abbrev pub IsHeld : ℕ → Option Role → Type 0
IsHeld p none = ⊥
IsHeld p (some r) = (r.pid ≡ child p) ⊎ (r.pid ≡ unknown)

abbrev pub IsCertified : ℕ → Option Role → Type 0
IsCertified p none = ⊥
IsCertified p (some r) = r.pid ≡ neg (child p)

abbrev pub IsNamed : ℕ → Option Role → Type 0
IsNamed p none = ⊥
IsNamed p (some r) = r.pid ≡ child p

abbrev pub IsFree : Option Role → Type 0
IsFree none = ⊥
IsFree (some r) = r.pid ≡ pos 0

access-IsHeld :
    (p : ℕ) (a : Access) (s : Option Role)
    → can_release p a ≡ false
    → IsHeld p s
    → IsHeld p (access a s)
unfolding access publish drained before_reap guardian_tree_drained
access-IsHeld p a none h e = absurd e
access-IsHeld p (publishes n) (some r) h (inl e) = ground arith
access-IsHeld p (publishes n) (some r) h (inr e) = ground arith
access-IsHeld p (drains n) (some r) h (inl e) = ground arith
access-IsHeld p (drains n) (some r) h (inr e) = ground arith
access-IsHeld p (reaps n) (some r) h (inl e) = ground arith
access-IsHeld p (reaps n) (some r) h (inr e) = ground arith
access-IsHeld p (stores n (pos k)) (some r) h (inl e) = ground arith
access-IsHeld p (stores n (negsuc k)) (some r) h (inl e) = ground arith
access-IsHeld p (stores n (pos k)) (some r) h (inr e) = ground arith
access-IsHeld p (stores n (negsuc k)) (some r) h (inr e) = ground arith
access-IsHeld p guardian (some r) h e = absurd (cc)

access-IsCertified :
    (p : ℕ) (a : Access) (s : Option Role)
    → can_retire p a ≡ false
    → IsCertified p s
    → IsCertified p (access a s)
unfolding access publish drained before_reap guardian_tree_drained
access-IsCertified p a none h e = absurd e
access-IsCertified p (stores n (pos k)) (some r) h e = ground arith
access-IsCertified p (stores n (negsuc k)) (some r) h e = ground arith
access-IsCertified p a (some r) h e = ground arith

accesses-IsHeld :
    (p : ℕ) (us : List Access) (s : Option Role)
    → any_of (can_release p) us ≡ false
    → IsHeld p s
    → IsHeld p (accesses us s)
unfolding accesses
accesses-IsHeld p [] s h e = e
accesses-IsHeld p (a ∷ rest) s h e =
    accesses-IsHeld p rest (access a s) (ground arith) (access-IsHeld p a s (ground arith) e)

accesses-IsCertified :
    (p : ℕ) (us : List Access) (s : Option Role)
    → any_of (can_retire p) us ≡ false
    → IsCertified p s
    → IsCertified p (accesses us s)
unfolding accesses
accesses-IsCertified p [] s h e = e
accesses-IsCertified p (a ∷ rest) s h e =
    accesses-IsCertified p rest (access a s) (ground arith)
      (access-IsCertified p a s (ground arith) e)

-- What the code refuses while the slot is not free.
abbrev pub Refuses : Option Role → Type 0
Refuses s = (pending s ≡ true) × ((n : ℕ) → (publish (child n) s ≡ (s, some still_owned)))

IsHeld-Refuses : (p : ℕ) (s : Option Role) → IsHeld p s → Refuses s
unfolding pending publish
IsHeld-Refuses p none e = absurd e
IsHeld-Refuses p (some r) (inl e) = (ground arith, λ n. ground arith)
IsHeld-Refuses p (some r) (inr e) = (ground arith, λ n. ground arith)

IsCertified-Refuses : (p : ℕ) (s : Option Role) → IsCertified p s → Refuses s
unfolding pending publish
IsCertified-Refuses p none e = absurd e
IsCertified-Refuses p (some r) e = (ground arith, λ n. ground arith)

IsHeld-exclusion :
    (p : ℕ) (s : Option Role) (pidfd : ℤ → PidfdState) → IsHeld p s → exclusion pidfd s ≢ nothing
unfolding exclusion
IsHeld-exclusion p none pidfd e = absurd e
IsHeld-exclusion p (some r) pidfd (inl e) = ground (arith, pidfd (child p))
IsHeld-exclusion p (some r) pidfd (inr e) = ground arith

taken : (p : ℕ) (s : Option Role) → IsFree s → IsHeld p (access (publishes p) s)
unfolding access publish
taken p none free = absurd free
taken p (some r) free = inl (ground arith)

certified : (p : ℕ) (s : Option Role) → IsNamed p s → IsCertified p (access (drains p) s)
unfolding access drained
certified p none e = absurd e
certified p (some r) e = ground arith

retired :
    (p n : ℕ) (s : Option Role)
    → IsCertified p s
    → (pending (before_reap (child p) s) ≡ false)
      × ((publish (child n) (before_reap (child p) s)).1 ≡ none)
unfolding before_reap pending publish
retired p n none e = absurd e
retired p n (some r) e = (ground arith, ground arith)

-- Once custodian p is published in a free slot, and us long us p does not certify its drain and the
-- guardian does not prove its tree empty, any accesses of the other processes, reaping p and late
-- stores included, leave the slot held: it stays pending, every further publication is refused and
-- changes nothing, and `exclusion` never reports that there is nothing to exclude.
pub publish_holds :
    (p : ℕ) (s : Option Role) (us : List Access)
    → IsFree s
    → any_of (can_release p) us ≡ false
    → let t = accesses us (access (publishes p) s) in
      (pending t ≡ true)
      × ((n : ℕ) → publish (child n) t ≡ (t, some still_owned))
      × ((pidfd : ℤ → PidfdState) → exclusion pidfd t ≢ nothing)
publish_holds p s us free h =
    let held : IsHeld p (accesses us (access (publishes p) s)) =
      accesses-IsHeld p us (access (publishes p) s) h (taken p s free) in
    (
      (IsHeld-Refuses p _ held).0,
      (IsHeld-Refuses p _ held).1,
      λ pidfd. IsHeld-exclusion p _ pidfd held,
    )

-- After p certified its drain, only reaping p frees the slot: until then it refuses every
-- publication, and then it takes the next one.
drained_until_reaped :
    (p n : ℕ) (s : Option Role) (us : List Access)
    → IsNamed p s
    → any_of (can_retire p) us ≡ false
    → let t = accesses us (access (drains p) s) in
      (pending t ≡ true)
      × ((m : ℕ) → publish (child m) t ≡ (t, some still_owned))
      × (pending (before_reap (child p) t) ≡ false)
      × ((publish (child n) (before_reap (child p) t)).1 ≡ none)
drained_until_reaped p n s us e h =
    let cert : IsCertified p (accesses us (access (drains p) s)) =
      accesses-IsCertified p us (access (drains p) s) h (certified p s e) in
    (
      (IsCertified-Refuses p (accesses us (access (drains p) s)) cert).0,
      (IsCertified-Refuses p (accesses us (access (drains p) s)) cert).1,
      (retired p n (accesses us (access (drains p) s)) cert).0,
      (retired p n (accesses us (access (drains p) s)) cert).1,
    )
