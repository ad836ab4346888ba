-- ===== src/Meta/Samples.antt =====
-- Metadata for concrete runs.
use agent_bash_tool.Common.{none, some}
use agent_bash_tool.Common.Int.{pos}
use agent_bash_tool.Completion.{default_delivery}
use agent_bash_tool.Meta.{Meta, async, sync}

abbrev pub running_sample : Meta
running_sample = record {
  handle = "h1";
  updated_at = 5;
  state = "RUNNING";
  completion_reason = none;
  supervisor_pid = some (pos 40);
  supervisor_starttime = some 7;
  workload_pid = some (pos 41);
  workload_starttime = some 8;
  process_boot_id = some "b1";
  mode = "exit";
  delivery_mode = sync;
  ready_at = none;
  completed_at = none;
  rc = none;
  signal = none;
  workload_rc = none;
  workload_signal = none;
  delivery = default_delivery;
  error = none;
}

abbrev pub finished_sample : Meta
finished_sample = record running_sample {
  state = "DONE";
  completion_reason = some "exit";
  delivery_mode = async;
  completed_at = some 5;
  rc = some (pos 0);
  workload_rc = some (pos 0);
}
