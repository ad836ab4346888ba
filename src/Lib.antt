-- ===== src/Lib.antt =====
-- Verification of agent-bash-tool.
--
-- The tool runs a command under a supervisor, keeps its output and its lifecycle in a directory per
-- handle, and hands the completion to a delivery helper at most once. Physical custody of the process
-- tree, the delivery of the completion and the admission of a cancellation are three responsibilities
-- that survive the death of any one process; most of the code below is about keeping them apart.
--
--   Common, Common/*      Boolean tests on native numbers, lists, integers, texts as bytes and decimals.
--   Effects, Effects/*    Durable files under faults: each access may fail, or the process may be killed,
--                         before or after it takes effect. Postconditions of such code.
--                         Actors: programs of which the single accesses interleave with others'.
--   Completion            The completion record of src/state.rs and its constructors in src/delivery.rs.
--   Meta                  The metadata of a handle, src/state.rs.
--   Transfer              One completion transfer of src/delivery.rs: start_completion_delivery, the worker,
--                         execute_completion_transfer, integrate_completion_transfer, with the custodian
--                         of src/delivery_role.rs (run_custodian) around the worker.
--   Custody               The custody files of src/state.rs: accept_terminal_custody_cancel,
--                         end_physical_custody, the durable create-once markers.
--   LiveCapture           src/live_capture.rs: `record` (here record_chunk), `read_from`, eviction.
--   DeliveryRole          src/delivery_role.rs: the shared slot, access by access, and confirm_role.
--   Supervisor            src/supervisor.rs, below it: Sentinel, the ready-sentinel matcher;
--                         Cancellation, Metadata and Terminal, from causes to what is published.
--                         Cancel: request_cancel. Finish: when the event loop records and leaves;
--                         its Runs, what the answers of its publications change.
--   Signals               src/supervisor/descendant_signal.rs: signalling a pinned descendant.
--   Activation            detach of src/delivery.rs and the activation outcome of src/state.rs.
--                         Readback: whether an activation was committed before its retry failed.
--   RetainedOutput        Snapshots of the output log, their validation and the receipt of one,
--                         src/retained_output.rs.
--   Release               retention_released of src/continuation.rs: Receipt, what Broker's receipt says;
--                         Evidence, the files that it names. Reaping asks it of a registered source.
--   RootProtocol          src/root_v1.rs: Json, the values that it indexes; Base64; Reference, the printed
--                         identities; Stage, the lines of an answer; Decode (decode, its loop, and below
--                         it Reply, its answer); Background (decode_async); Retained (retained).
--   Continuation          The launch fence of src/continuation.rs: prepare, confirm_launch, abandon and
--                         launched, here record_launch.
--   Publication           The evidence of a finished source, src/continuation.rs and below it capture.rs and
--                         missing_output.rs: Select, Finish, Losing, Recovery and Acceptance, of which
--                         the file accesses of all processes interleave; Story, what it promises.
--   RootWork              The session keyring of a paired work and the answer to a submitted work,
--                         src/root_work.rs.
--   Reaping               The removal of old handle directories, reap_state_dirs of src/state.rs: Eligible, the
--                         test of a directory; Pass, the walk; Owed, with Work and Ended, what makes a
--                         directory eligible; Limits of a pass; Rotation of its shards.
--   Identity              Evidence on recorded processes, the chain of callers, and Stat, the line of /proc
--                         that both are read from, src/state.rs.
--
-- Locks are held by the caller of an operation: an operation of the model is one holder's run, and
-- interleavings are sequences of whole runs, each with its faults. The code of Publication shares files
-- without a common lock, so there each file access is a turn of its own and any process may come between two;
-- its few locks only narrow these orders, and taking one is an access that may fail. A terminal publication
-- runs the completion transfer of Transfer on its part of the state, and the custody markers of Custody on
-- theirs.
--
-- Bytes are native numbers, signed integers an integer type over them, strings the native strings.
-- Machine words keep their wrap-around, or a fault where a debug build would panic. What lies outside
-- the repository (the regex engine, the kernel's answers on processes, the delivery helper) is an argument
-- of the definitions. Loops over data are structural. The walk of Signals runs on one turn for each number
-- that a pid_t can hold, which is enough since it visits none twice; the chain of callers has the 128 turns of
-- the code. The loops that wait for other processes are relations between states.
--
-- Not modelled: the file layout and JSON encoding, process creation, sockets and polling, image sealing,
-- cgroups, configuration, the command line, the fresh runs, the adoption loop of the guardian, the private
-- exchange of version 30, of root works all but the keyring and the answer to a submission, and of the
-- continuations the copying of the selected bytes and the inventory of a lost output. They are mostly system
-- calls, and what the modelled code needs of them is an argument of its definitions. The parsing of JSON lines
-- is a library's: the root protocol is modelled on their values, and a JSON file of a continuation is the
-- value that it was written from.
pub mod Common
pub mod Effects
pub mod Completion
pub mod Meta
pub mod Transfer
pub mod Custody
pub mod Activation
pub mod Continuation
pub mod DeliveryRole
pub mod Identity
pub mod LiveCapture
pub mod Publication
pub mod Reaping
pub mod Release
pub mod RetainedOutput
pub mod RootProtocol
pub mod RootWork
pub mod Signals
pub mod Supervisor
