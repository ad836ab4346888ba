-- ===== src/Publication/Tests.antt =====
-- Two observers that publish at the same time, and a runner that accepts, at a concrete source.
use agent_bash_tool.Common.{Bool, false, Option, ◌&&◌, ◌++◌, ap, ◌∙◌, some-injective}
use agent_bash_tool.RootProtocol.Json.{Value, object, field, empty, str, int, get, at, is_text}
use agent_bash_tool.Publication.Story.{IsHonest}
use agent_bash_tool.Publication.Acceptance.{accept, save_accepted, record_accepted}
use agent_bash_tool.Publication.Refines.{accepts}
use agent_bash_tool.Common.{ℕ, zero, suc, ◌≡◌, refl, true, none, some, List, [], ◌∷◌, map}
use agent_bash_tool.Common.Int.{pos}
use agent_bash_tool.Common.Bytes.{codes}
use agent_bash_tool.Effects.{ok, fine}
use agent_bash_tool.Effects.Actors.{
  ◌>>=◌, attempt, reads, writes, links, Turn, advance, give_turn, interleave,
}
use agent_bash_tool.Meta.Samples.{finished_sample}
use agent_bash_tool.RootProtocol.Json.{value_eq}
use agent_bash_tool.Publication.Basis.{binding, own_fence}
use agent_bash_tool.Publication.Evidence.{
  Chain, Evidence, Observation, Outside, event_of, outcome_identity, presented,
}
use agent_bash_tool.Publication.Finish.{
  capture_enabled, capture_unbundled, capture_observation, descriptor_of, finish_observation,
  finish_observation_with_output, finish_snapshot, freeze, freeze_missing, freeze_output,
  freeze_selected, output_descriptor, publish, publish_enabled, publish_unbundled,
}
use agent_bash_tool.Publication.Immutable.{compared, immutable, is_there, publish_new, settle}
use agent_bash_tool.Publication.Order.{Grows, IsLinked}
use agent_bash_tool.Publication.Refines.{
  Caller, interleave-Continues, program_of, publishes, run_call,
}
use agent_bash_tool.Publication.Select.{
  select_unless_selected, identified, pin_if, pin_output, restore_selected_event, retain_event,
  select_event_output, select_new, select_observed_event, select_unless_observed, stage,
}
use agent_bash_tool.Publication.Story.{Shows}
use agent_bash_tool.Continuation.Files.{
  binding_of, common_of, exact, fields_agree, first_fence, launched,
}
use agent_bash_tool.Continuation.Samples.{registration, sample_digest, sample_paths, worker}

abbrev outside : Outside
outside = record {
  paths = sample_paths;
  digest = sample_digest;
  body_digest = λ body. codes "b1";
  printed_len = λ v. 9;
  self = ok worker;
  directory = record { device = 1; inode = 2 };
  log = record { is_file = true; byte_len = 3; device = 1; inode = 4; link_count = 2 };
  copied = ok (codes "out");
  lost = none;
  cancelling = record {
    accepted_cancel = none;
    cancel_owner = none;
    intent = none;
    accepted = none;
    causal = none;
  };
  observer_gone = λ v. true;
  worker_gone = λ e. true;
  executable_digest = codes "x1";
  environment_digest = codes "e1";
  now = 5;
}

abbrev exited : Observation
exited = record {
  kind = codes "exit";
  root_wait_status = some (pos 0);
  tree_drained = true;
  output_closed = true;
  ready_sentinel = none;
  output_trusted = true;
}

abbrev observer : Caller
observer = record { outside = outside; call = publishes finished_sample exited }

abbrev is_accepted : Option Value → Bool
is_accepted none = false
is_accepted (some l) = is_text (at l (codes "enqueue")) (codes "accepted")

abbrev untold : Chain
untold = record {
  selection = none;
  observation = none;
  bundle = none;
  outcome = none;
  snapshot = none;
}

abbrev registered : Evidence
registered = record {
  chain = untold;
  source = record {
    registration = some registration;
    fence =
        some
          (record (first_fence (common_of registration (codes "d1")) worker) { phase = launched });
    receipt = none;
    local = some (object empty);
  };
  confirmation = none;
  cancellation = none;
  selected_log = none;
  output = none;
  proof = none;
  rc = none;
  meta = some finished_sample;
}

-- The two take turns.
abbrev alternating : ℕ → List Turn
alternating zero = []
alternating (suc n) =
    record { actor = 0; fate = fine } ∷ record { actor = 1; fate = fine } ∷ alternating n

-- The runner's reply to the completion.
abbrev acceptance : Value
acceptance = object (
    field (codes "domain_id") (str (codes "dom")) (
      field (codes "handle") (str (codes "h1")) (
        field (codes "listener_revision") (int (pos 1)) (
          field (codes "outcome_sha256") (str (codes "d1")) (
            field (codes "payload_byte_len") (int (pos 3)) (
              field (codes "payload_sha256")
                (str (codes "0123456789abcdef0123456789abcdef0123456789abcdef0123456789abcdef"))
                (field (codes "protocol") (str (codes "completion-continuation-v2")) (
                  field (codes "registration_digest") (str (codes "d1")) (
                    field (codes "registration_id") (str (codes "reg")) (
                      field (codes "snapshot_sha256") (str (codes "d1")) (
                        field (codes "source_id") (str (codes "src"))
                          (field (codes "status") (str (codes "accepted")) empty))))))))))))

abbrev three_actors : List Caller
three_actors = observer ∷ observer ∷ record { outside = outside; call = accepts acceptance } ∷ []

abbrev runner_turns : ℕ → List Turn
runner_turns zero = []
runner_turns (suc n) = record { actor = 2; fate = fine } ∷ runner_turns n

abbrev schedule : List Turn
schedule = alternating 60 ++ runner_turns 20

untold-IsLinked : IsLinked sample_digest (λ v. 9) untold
untold-IsLinked = record {
  observed = λ e h. cc;
  bundled = λ b h. cc;
  outcome_told = λ v h. cc;
  snapshot_told = λ v h. cc;
}

empty-IsHonest : IsHonest sample_digest untold (some (object empty))
empty-IsHonest = record {
  snapshot_named = λ l e x h. absurd (nothing_held l (codes "snapshot_sha256") x e h);
  outcome_named = λ l e x h. absurd (nothing_held l (codes "outcome_sha256") x e h);
}
  where
    nothing_held :
        (l : Value) (key : List ℕ) (x : Value)
        → some (object empty) ≡ some l
        → get l key ≡ some x
        → ⊥
    nothing_held l key x e h =
        let held : get (object empty) key ≡ some x = ap (λ t. get t key) (some-injective e) ∙ h in
        cc

abbrev told_to_runner : Evidence
told_to_runner =
    interleave schedule (map (program_of sample_digest (λ v. 9)) three_actors) registered

published_and_accepted :
    (is_there told_to_runner.chain.snapshot && is_accepted told_to_runner.source.local) ≡ true
unfolding interleave give_turn advance run_call publish publish_enabled publish_unbundled
    capture_observation capture_enabled capture_unbundled retain_event select_observed_event
    select_unless_observed select_unless_selected stage binding binding_of common_of exact
    fields_agree value_eq own_fence identified select_event_output select_new pin_if pin_output
    attempt reads writes links immutable publish_new settle compared event_of outcome_identity
    restore_selected_event freeze_missing freeze_output freeze freeze_selected finish_observation
    output_descriptor descriptor_of finish_observation_with_output presented finish_snapshot accept
    save_accepted record_accepted ◌>>=◌
published_and_accepted = refl

interleave-Continues_example :
    Grows sample_digest (λ v. 9) registered.chain told_to_runner.chain
    × Shows sample_digest (λ v. 9) told_to_runner.chain
    × IsHonest sample_digest told_to_runner.chain told_to_runner.source.local
interleave-Continues_example =
    interleave-Continues sample_digest (λ v. 9) schedule three_actors registered untold-IsLinked
      empty-IsHonest
