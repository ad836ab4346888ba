-- ===== src/Supervisor/Metadata.antt =====
-- What src/supervisor.rs makes of a wait status, and what it writes of an end into the metadata.
use agent_bash_tool.Common.{ℕ, ◌+◌, Option, none, some, String}
use agent_bash_tool.Common.Int.{ℤ, pos}
use agent_bash_tool.Meta.{Meta, touch}
use agent_bash_tool.Supervisor.Cancellation.{CancellationCause, completion_reason}

-- A wait status, with what `libc` decodes from it.
pub record WaitStatus : Type 0 where
  pub status : ℤ
  pub exited : Option ℤ
  pub signalled : Option ℕ

pub record RootStatus : Type 0 where
  pub raw : ℤ
  pub rc : ℤ
  pub signal : Option ℤ

pub record TerminalStatus : Type 0 where
  pub rc : ℤ
  pub signal : Option ℤ

abbrev pub ex_software : ℤ
ex_software = pos 70

abbrev pub signal_to_shell_rc : ℕ → ℤ
signal_to_shell_rc signal = pos (128 + signal)

abbrev status_of : ℤ → Option ℤ → Option ℕ → RootStatus
status_of raw (some code) signalled = record { raw = raw; rc = code; signal = none }
status_of raw none (some signal) = record {
  raw = raw;
  rc = signal_to_shell_rc signal;
  signal = some (pos signal);
}
status_of raw none none = record { raw = raw; rc = ex_software; signal = none }

pub status_to_root_status : WaitStatus → RootStatus
status_to_root_status w = status_of w.status w.exited w.signalled

pub data ExitCompletionReason : Type 0 where
  exit exit_before_ready : ExitCompletionReason
  cancellation : CancellationCause → ExitCompletionReason

abbrev pub exit_reason_text : ExitCompletionReason → String
exit_reason_text exit = "exit"
exit_reason_text exit_before_ready = "exit-before-ready"
exit_reason_text (cancellation cause) = completion_reason cause

abbrev pub sigterm : ℕ
sigterm = 15

unfoldable pub cancellation_terminal_status : TerminalStatus
cancellation_terminal_status = record {
  rc = signal_to_shell_rc sigterm;
  signal = some (pos sigterm);
}

unfoldable pub terminal_status : ExitCompletionReason → RootStatus → TerminalStatus
unfolding cancellation_terminal_status
terminal_status (cancellation cause) root_status = cancellation_terminal_status
terminal_status _ root_status = record { rc = root_status.rc; signal = root_status.signal }

unfoldable pub apply_ready_sentinel_metadata : ℕ → ℕ → Meta → Meta
apply_ready_sentinel_metadata clock now m = touch clock (record m {
  state = "DONE";
  completion_reason = some "ready-sentinel";
  rc = some (pos 0);
  signal = none;
  ready_at = some now;
  completed_at = some now;
})

unfoldable pub apply_terminal_metadata : ℕ → TerminalStatus → String → Meta → Meta
apply_terminal_metadata clock status reason m = touch clock (record m {
  state = "DONE";
  completion_reason = some reason;
  rc = some status.rc;
  signal = status.signal;
  completed_at = some clock;
})

unfoldable pub apply_supervisor_error_metadata : ℕ → String → Meta → Meta
apply_supervisor_error_metadata clock message m = touch clock (record m {
  state = "ERROR";
  completion_reason = some "supervisor-error";
  rc = some ex_software;
  error = some message;
  completed_at = some clock;
})

unfoldable pub apply_cancellation_metadata : ℕ → CancellationCause → Meta → Meta
unfolding apply_terminal_metadata cancellation_terminal_status
apply_cancellation_metadata clock cause m =
    record (apply_terminal_metadata clock cancellation_terminal_status (completion_reason cause)
      m) { error = none }

unfoldable pub apply_lost_supervisor_metadata : ℕ → Meta → Meta
apply_lost_supervisor_metadata clock m = touch clock (record m {
  state = "ERROR";
  completion_reason = some "supervisor-lost";
  rc = some ex_software;
  signal = none;
  completed_at = some clock;
  error = some "supervisor and workload process identities are gone";
})
