-- ===== src/Publication/Refines.antt =====
-- The programs of src/continuation.rs on the evidence of one source, interleaved access by access, keep
-- to the story that it promises.
use agent_bash_tool.Common.{ℕ, ap, Option, List, [], ◌∷◌, map}
use agent_bash_tool.Effects.Actors.{Program, returns, ◌>>=◌, Turn, interleave}
use agent_bash_tool.Effects.Actors.Keeps.{Keeps-returns, Keeps-then}
use agent_bash_tool.Effects.Actors.Schedules.{AllKeep, interleave-Grows}
use agent_bash_tool.Meta.{Meta}
use agent_bash_tool.RootProtocol.Json.{Value}
use agent_bash_tool.Publication.Acceptance.{accept}
use agent_bash_tool.Publication.Evidence.{Chain, Event, Evidence, Observation, Outside}
use agent_bash_tool.Publication.Finish.{Progress, advance_publication, publish}
use agent_bash_tool.Publication.Publishes.{advance_publication-Ends, publish-Ends}
use agent_bash_tool.Publication.Order.{Grows, IsLinked, order}
use agent_bash_tool.Publication.Recovers.{reconcile-Ends}
use agent_bash_tool.Publication.Accepts.{accept-Ends}
use agent_bash_tool.Publication.Recovery.{reconcile}
use agent_bash_tool.Publication.Select.{retain_event, select_observed_event}
use agent_bash_tool.Publication.Selects.{Sound, retain_event-Ends, select_observed_event-Ends}
use agent_bash_tool.Publication.Story.{IsHonest, Shows, of_bundle}

-- What a process calls, with all that it gets from outside.
pub data Call : Type 0 where
  selects : Meta → Observation → Call
  retains : Meta → Observation → Call
  publishes : Meta → Observation → Call
  advances : Meta → Observation → Progress → Call
  recovers : Value → Call
  accepts : Value → Call

pub record Caller : Type 0 where
  pub outside : Outside
  pub call : Call

abbrev ended : {A : Type 0} → Program Evidence A → Program Evidence (Unit {0})
ended m = m >>= λ _. returns tt

unfoldable pub run_call : Outside → Call → Program Evidence (Unit {0})
run_call o (selects meta ob) = ended (select_observed_event o meta ob)
run_call o (retains meta ob) = ended (retain_event o meta ob)
run_call o (publishes meta ob) = ended (publish o meta ob)
run_call o (advances meta ob progress) = ended (advance_publication o meta ob progress)
run_call o (recovers confirmation) = ended (reconcile o confirmation)
run_call o (accepts reply) = ended (accept o reply)

module _ (o : Outside) where
  ended-Ends :
      {A : Type 0} (m : Program Evidence A) (d : Evidence) → Sound o m d → Sound o (ended m) d
  ended-Ends m d h = Keeps-then m _ d h (λ _ d' g. Keeps-returns tt d' tt)

  run_call-Ends : (call : Call) (d : Evidence) → Sound o (run_call o call) d
  unfolding run_call
  run_call-Ends (selects meta ob) d = ended-Ends _ d (select_observed_event-Ends o meta ob d)
  run_call-Ends (retains meta ob) d = ended-Ends _ d (retain_event-Ends o meta ob d)
  run_call-Ends (publishes meta ob) d = ended-Ends _ d (publish-Ends o meta ob d)
  run_call-Ends (advances meta ob progress) d =
      ended-Ends _ d (advance_publication-Ends o meta ob progress d)
  run_call-Ends (recovers confirmation) d = ended-Ends _ d (reconcile-Ends o confirmation d)
  run_call-Ends (accepts reply) d = ended-Ends _ d (accept-Ends o reply d)

-- All processes use the same digests and the same printing.
module _ (digest : Value → List ℕ) (printed_len : Value → ℕ) where
  abbrev alike : Outside → Outside
  alike o = record o { digest = digest; printed_len = printed_len }

  abbrev pub program_of : Caller → Program Evidence (Unit {0})
  program_of c = run_call (alike c.outside) c.call

  programs-AllKeep :
      (cs : List Caller) (d : Evidence) → AllKeep (order digest printed_len) (map program_of cs) d
  programs-AllKeep [] d = tt
  programs-AllKeep (c ∷ cs) d = (run_call-Ends (alike c.outside) c.call d, programs-AllKeep cs d)

  IsLinked-Shows : (c : Chain) → IsLinked digest printed_len c → Shows digest printed_len c
  IsLinked-Shows c l = record {
    outcome_told = λ v h.
        let (b, there, same) = l.outcome_told v h in
        (b, ap (λ (file : Option Event). of_bundle file c.selection) there, same);
    snapshot_told = λ v h.
        let (b, there, same, out) = l.snapshot_told v h in
        (b, ap (λ (file : Option Event). of_bundle file c.selection) there, same, out);
  }

  -- From linked evidence with an honest local record, whatever processes select, retain, publish, recover
  -- and accept, interleaved at every file access with any failures and kills: no file that tells the event
  -- is taken back, at most one event is chosen and told at most once with one description of its output, what
  -- is published is what was told, the outcome before the snapshot, and the digests that the local record
  -- holds of an accepted snapshot and outcome are those of the published ones.
  pub interleave-Continues :
      (ts : List Turn) (cs : List Caller) (d : Evidence)
      → IsLinked digest printed_len d.chain
      → IsHonest digest d.chain d.source.local
      → let d' = interleave ts (map program_of cs) d in
        Grows digest printed_len d.chain d'.chain
        × Shows digest printed_len d'.chain
        × IsHonest digest d'.chain d'.source.local
  interleave-Continues ts cs d l h =
      let kept =
        interleave-Grows (order digest printed_len) ts (map program_of cs) d (l, h)
          (programs-AllKeep cs d) in
      (kept.0, IsLinked-Shows (interleave ts (map program_of cs) d).chain kept.1.0, kept.1.1)
