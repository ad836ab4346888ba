-- ===== src/Continuation/Samples.antt =====
-- A registered source for tests of src/continuation.rs.
use agent_bash_tool.Common.{ℕ, List}
use agent_bash_tool.Common.Int.{pos}
use agent_bash_tool.Common.Bytes.{codes}
use agent_bash_tool.Identity.{CallerChainEntry}
use agent_bash_tool.RootProtocol.Json.{Value, int, str, object, empty, field}
use agent_bash_tool.Continuation.Files.{Paths}

abbrev pub worker : CallerChainEntry
worker = record { pid = pos 40; starttime_ticks = 9; boot_id = "boot" }

abbrev pub sample_paths : Paths
sample_paths = record { handle = codes "h1"; state_dir = codes "/s/h1"; root = codes "/s" }

abbrev pub sample_digest : Value → List ℕ
sample_digest value = codes "d1"

abbrev pub registration : Value
registration = object (
    field (codes "domain_id") (str (codes "dom")) (
      field (codes "handle") (str (codes "h1")) (
        field (codes "handle_dir") (str (codes "/s/h1")) (
          field (codes "listener_revision") (int (pos 1)) (
            field (codes "log_relative") (str (codes "log")) (
              field (codes "meta_relative") (str (codes "meta.json")) (
                field (codes "outcome_relative") (str (codes "source-outcome-v2.json")) (
                  field (codes "protocol") (str (codes "completion-continuation-v2")) (
                    field (codes "rc_relative") (str (codes "rc")) (
                      field (codes "registration_id") (str (codes "reg")) (
                        field (codes "registration_relative")
                          (str (codes "source-registration-v2.json"))
                          (field (codes "snapshot_relative")
                            (str (codes "completion-snapshot-v2.json"))
                            (field (codes "source_evidence_protocol")
                              (str (codes "completion-continuation-v2"))
                              (field (codes "source_id") (str (codes "src"))
                                (field (codes "spool_root") (str (codes "/s")) empty)))))))))))))))
