-- ===== src/Reaping/Owed.antt =====
-- What makes a handle directory eligible for removal in src/state.rs.
use agent_bash_tool.Common.{
  ℕ, ◌≤◌, ◌≡◌, refl, sym, subst, ◌⊎◌, inl, inr, Bool, true, false, not, ◌&&◌, Option, none, some,
  String, str_eq, eq_iff, leb, if◌then◌else◌, arith, Bool-cases, both, not-false,
}
use agent_bash_tool.Common.Int.{ℤ}
use agent_bash_tool.Common.Bytes.{codes}
use agent_bash_tool.Completion.{is_some, completion_lifecycle, needs_progress}
use agent_bash_tool.Meta.{Meta, terminal, is_final_state, completion_delivery_pending}
use agent_bash_tool.Custody.{physical_custody_may_remain}
use agent_bash_tool.Custody.Remains.{IsOver, physical_custody_may_remain-IsOver}
use agent_bash_tool.Reaping.Work.{
  HasNoParent, OwesNothing, causal_parent_retains-HasNoParent,
  accepted_root_result_pending-OwesNothing,
}
use agent_bash_tool.Reaping.Ended.{IsEnded, gone_or_reused-IsEnded, HasAged, old_enough-HasAged}
use agent_bash_tool.Reaping.Eligible.{
  Handle, ReapConfig, ttl_ms, causal_parent_retains, accepted_root_result_pending, unwrap_or,
  supervisor_gone, workload_gone, meta_is_reap_terminal, old_enough, settled, meta_eligible,
  state_dir_reap_eligible,
}

-- Nobody needs the directory any more, of which `m` is the metadata.
pub record IsUnneeded (h : Handle) (config : ReapConfig) (boot : String) (m : Meta) : Type 0 where
  pub recorded : h.meta ≡ some m
  pub parent_released : HasNoParent h
  pub result_delivered : OwesNothing h
  pub released : (h.continuation_enabled ≡ false) ⊎ (h.retention_released ≡ some true)
  pub no_custody :
      IsOver (codes boot) h.custody.physical_custody
      × IsOver (codes boot) h.custody.external_transfer_custody
  pub supervisor :
      (m.supervisor_pid ≡ none)
      ⊎ IsEnded h.proc boot m.supervisor_pid m.supervisor_starttime m.process_boot_id
  pub nothing_pending : completion_delivery_pending m ≡ false
  pub over :
      (terminal m ≡ true)
      ⊎ ((m.state ≡ "RUNNING")
          × IsEnded h.proc boot m.workload_pid m.workload_starttime m.process_boot_id)
  pub old : HasAged h config m (ttl_ms config)

not_running : (s : String) → str_eq s "RUNNING" ≡ true → is_final_state s ≡ false
not_running s h = subst (λ t. is_final_state t ≡ false) (sym ((eq_iff s "RUNNING").0 h)) refl

known_false : (o : Option Bool) → unwrap_or true o ≡ false → o ≡ some false
known_false none h = absurd (ground arith)
known_false (some true) h = absurd (ground arith)
known_false (some false) h = refl

known_true : (o : Option Bool) → unwrap_or false o ≡ true → o ≡ some true
known_true none h = absurd (ground arith)
known_true (some true) h = refl
known_true (some false) h = absurd (ground arith)

not-true : (b : Bool) → not b ≡ true → b ≡ false
not-true true h = absurd (ground arith)
not-true false h = refl

leb→le : (a b : ℕ) → leb a b ≡ true → a ≤ b
leb→le a b h = ground arith

none_or_gone :
    (pid : Option ℤ) (b : Bool) → is_some pid && not b ≡ false → (pid ≡ none) ⊎ (b ≡ true)
none_or_gone none b h = inl refl
none_or_gone (some p) true h = inr refl
none_or_gone (some p) false h = absurd (ground arith)

off_or_released :
    (on : Bool) (release : Option Bool)
    → on && not (unwrap_or false release) ≡ false
    → (on ≡ false) ⊎ (release ≡ some true)
off_or_released false release h = inl refl
off_or_released true release h = inr (known_true release (not-false _ h))

if_false : (b c : Bool) → (if b then false else c) ≡ true → (b ≡ false) × (c ≡ true)
if_false true c h = absurd (ground arith)
if_false false c h = (refl, h)

-- What the last test of a directory says of its metadata.
record IsSettledMeta (h : Handle) (boot : String) (m : Meta) : Type 0 where
  nothing_pending : completion_delivery_pending m ≡ false
  over :
      (terminal m ≡ true)
      ⊎ ((m.state ≡ "RUNNING")
          × IsEnded h.proc boot m.workload_pid m.workload_starttime m.process_boot_id)

settled-IsSettledMeta :
    (h : Handle) (boot : String) (m : Meta) → settled h boot m ≡ true → IsSettledMeta h boot m
unfolding completion_delivery_pending terminal meta_is_reap_terminal
settled-IsSettledMeta h boot m e = elim (Bool-cases (meta_is_reap_terminal h boot m)) [
  | inl done ↦
      let finished = both (is_final_state m.state && is_some m.completed_at) _ done in
      let idle : needs_progress (completion_lifecycle m.delivery) ≡ false =
        not-true _ (rw done at e) in
      record { nothing_pending = rw (finished.0, idle) refl; over = inl finished.0 }
  | inr going ↦
      let live = both _ (workload_gone h boot m) (rw going at e) in
      let running = (both (str_eq m.state "RUNNING") _ live.0).0 in
      record {
        nothing_pending = rw (not_running m.state running) refl;
        over = inr (
          (eq_iff m.state "RUNNING").0 running,
          gone_or_reused-IsEnded h.proc boot m.workload_pid m.workload_starttime m.process_boot_id
              live.1,
        );
      }
]

supervisor_lem :
    (h : Handle) (boot : String) (m : Meta)
    → (m.supervisor_pid ≡ none) ⊎ (supervisor_gone h boot m ≡ true)
    → (m.supervisor_pid ≡ none)
      ⊎ IsEnded h.proc boot m.supervisor_pid m.supervisor_starttime m.process_boot_id
supervisor_lem h boot m (inl unrecorded) = inl unrecorded
supervisor_lem h boot m (inr gone) = inr (
    gone_or_reused-IsEnded h.proc boot m.supervisor_pid m.supervisor_starttime m.process_boot_id
      gone)

meta-IsUnneeded :
    (h : Handle) (config : ReapConfig) (boot : String) (meta : Option Meta)
    → h.meta ≡ meta
    → HasNoParent h
    → OwesNothing h
    → (h.continuation_enabled ≡ false) ⊎ (h.retention_released ≡ some true)
    → meta_eligible h config boot meta ≡ true
    → (m : Meta) × IsUnneeded h config boot m
meta-IsUnneeded h config boot none e parent result released ok = absurd (ground arith)
meta-IsUnneeded h config boot (some m) e parent result released ok =
    let custody = if_false (physical_custody_may_remain h.custody (codes boot)) _ ok in
    let supervisor =
      if_false (is_some m.supervisor_pid && not (supervisor_gone h boot m)) _ custody.1 in
    let age = if_false (not (old_enough h config m)) _ supervisor.1 in
    let over = settled-IsSettledMeta h boot m age.1 in
    (
      m,
      record {
        recorded = e;
        parent_released = parent;
        result_delivered = result;
        released = released;
        no_custody = (physical_custody_may_remain-IsOver h.custody (codes boot)).0 custody.0;
        supervisor =
            supervisor_lem h boot m
              (none_or_gone m.supervisor_pid (supervisor_gone h boot m) supervisor.0);
        nothing_pending = over.nothing_pending;
        over = over.over;
        old = old_enough-HasAged h config m (not-false _ age.0);
      },
    )

-- A directory is eligible for removal only where its metadata can be read and is over, with no delivery
-- pending; its work has no parent handle standing and no root awaits its result; a continuation has released
-- it; each custody marker is absent or of another boot; a recorded supervisor, or of a running handle the
-- workload, is of another boot or gone, or its number reused; and the configured time has passed since its
-- last recorded time, without one since the directory was changed, and where that is unknown too only if
-- that time is 0.
pub eligible-IsUnneeded :
    (h : Handle) (config : ReapConfig) (boot : String)
    → state_dir_reap_eligible h config boot ≡ true
    → (m : Meta) × IsUnneeded h config boot m
unfolding state_dir_reap_eligible
eligible-IsUnneeded h config boot ok =
    let parent = if_false (unwrap_or true (causal_parent_retains h)) _ ok in
    let continuation =
      if_false (h.continuation_enabled && not (unwrap_or false h.retention_released)) _ parent.1 in
    let result = if_false (unwrap_or true (accepted_root_result_pending h)) _ continuation.1 in
    meta-IsUnneeded h config boot h.meta refl
      (causal_parent_retains-HasNoParent h (known_false _ parent.0))
      (accepted_root_result_pending-OwesNothing h (known_false _ result.0))
      (off_or_released h.continuation_enabled h.retention_released continuation.0) result.1
