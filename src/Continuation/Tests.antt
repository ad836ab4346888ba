-- ===== src/Continuation/Tests.antt =====
-- Runs of the launch fence at a concrete registration.
use agent_bash_tool.Common.{◌≡◌, ◌≤◌, refl, none, true, List, [], ◌∷◌}
use agent_bash_tool.Common.Int.{pos}
use agent_bash_tool.Common.Bytes.{codes}
use agent_bash_tool.Effects.{ok, World}
use agent_bash_tool.Effects.{pure, raise, lift, look, commit, ◌>>=◌}
use agent_bash_tool.Identity.{CallerChainEntry}
use agent_bash_tool.RootProtocol.Json.{Value, bool, int, str, object, empty, field, value_eq}
use agent_bash_tool.Continuation.{
  abandon, abandon_registered, admit, binding, confirm_launch, is_enabled, launch_of,
  launch_registered, launch_with, own_fence, prepare, record_launch, revoke, spend,
}
use agent_bash_tool.Continuation.Accesses.{launches_left}
use agent_bash_tool.Continuation.Files.{
  Source, binding_of, common_of, exact, fields_agree, immutable, publish_new, transition,
}
use agent_bash_tool.Continuation.Once.{
  Caller, abandons, confirms, launches, prepares, run_as, run_calls, run_calls-launches_left,
}
use agent_bash_tool.Continuation.Samples.{registration, sample_digest, sample_paths, worker}

abbrev workload : CallerChainEntry
workload = record { pid = pos 41; starttime_ticks = 12; boot_id = "boot" }

abbrev receipt : Value
receipt = object (
    field (codes "continuation_owner_domain") (str (codes "dom")) (
      field (codes "domain_id") (str (codes "dom")) (
        field (codes "handle") (str (codes "h1")) (
          field (codes "listener_revision") (int (pos 1)) (
            field (codes "protocol") (str (codes "completion-continuation-v2")) (
              field (codes "registration_committed") (bool true) (
                field (codes "registration_digest") (str (codes "d1")) (
                  field (codes "registration_id") (str (codes "reg")) (
                    field (codes "source_id") (str (codes "src"))
                      (field (codes "status") (str (codes "registered")) empty))))))))))

abbrev nothing_there : Source
nothing_there = record { registration = none; fence = none; receipt = none; local = none }

abbrev two_launches : List Caller
two_launches =
    record { self = ok worker; call = prepares registration worker }
    ∷ record { self = ok worker; call = confirms receipt }
    ∷ record { self = ok worker; call = launches (ok workload) }
    ∷ record { self = ok worker; call = launches (ok workload) }
    ∷ []

abbrev revoked_first : List Caller
revoked_first =
    record { self = ok worker; call = prepares registration worker }
    ∷ record { self = ok worker; call = abandons }
    ∷ record { self = ok worker; call = confirms receipt }
    ∷ record { self = ok worker; call = launches (ok workload) }
    ∷ []

abbrev calm : World Source
calm = record { disk = nothing_there; faults = [] }

launched_once : run_calls sample_paths sample_digest two_launches calm ≡ 1
unfolding run_calls run_as prepare immutable publish_new confirm_launch binding binding_of common_of
    exact fields_agree value_eq own_fence spend admit transition record_launch launch_registered
    launch_of launch_with is_enabled pure raise lift look commit ◌>>=◌
launched_once = refl

never_launched : run_calls sample_paths sample_digest revoked_first calm ≡ 0
unfolding run_calls run_as prepare immutable publish_new confirm_launch binding binding_of common_of
    exact fields_agree value_eq own_fence spend admit transition record_launch launch_registered
    launch_of launch_with is_enabled abandon abandon_registered revoke pure raise lift look commit
    ◌>>=◌
never_launched = refl

run_calls-launches_left_example :
    run_calls sample_paths sample_digest two_launches calm ≤ launches_left nothing_there
run_calls-launches_left_example =
    run_calls-launches_left sample_paths sample_digest two_launches calm
