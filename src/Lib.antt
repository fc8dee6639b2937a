-- ===== src/Lib.antt =====
-- Alicerce runs a coding contract in a controlled way: every run has an immutable identity, a monotonic
-- lifecycle whose snapshots and events are kept in a store, and commands that are executed only under
-- the run's policy. This library models that core and proves it correct.
--
-- The parts, and where they stand (paths are from the repository's root):
-- - Domain/RunIdentity.antt, Domain/Patterns.antt: src/alicerce/domain/run_identity.py. An identifier
--   is a record; `new_x` is the constructor with its `__post_init__`.
-- - Domain/Lifecycle.antt: src/alicerce/domain/lifecycle.py. `start_lifecycle` and `advance_lifecycle`
--   return the snapshot and the event, or an exception; Lifecycle/Reach.antt has the runs as sequences
--   of their calls.
-- - Domain/State.antt: src/alicerce/domain/state.py, checkpoints and updates.
-- - Domain/Workspace.antt, Domain/Command.antt, Domain/CommandPolicy.antt: the files of these names in
--   src/alicerce/domain/. Domain/Paths.antt is `PurePosixPath` on relative paths.
-- - Domain/ContractBinding.antt: src/alicerce/domain/contract_binding.py.
-- - Application/: src/alicerce/application/, the use cases that combine the domain with the ports.
-- - Ports/StateStore.antt: what src/alicerce/ports/state_store.py promises, as a map from runs to their
--   checkpoint and history.
-- - Adapters/SqliteStateStore.antt: src/alicerce/adapters/local/sqlite_state_store.py. Its state is the
--   two tables; Database.antt has the statements with the schema's constraints and the transactions,
--   Validation.antt the replay of the journal, and the other children the refinement of the map.
-- - Adapters/StateCodec.antt: the interface to the serialization that the store uses.
-- - Adapters/StateSerialization.antt: src/alicerce/adapters/local/state_serialization.py on the JSON
--   values of Json.antt; Timestamp.antt has the instants as text, Codec.antt fills the
--   interface of the store.
-- - Adapters/CommandExecutor.antt: src/alicerce/adapters/local/command_executor.py with the types of
--   process_sandbox.py. Adapters/Host.antt has the actions on the host: every answer of the file
--   system, of the lease and of the sandbox is free, and the host may change between two of them.
-- - Adapters/GitWorkspace.antt: src/alicerce/adapters/local/git_workspace.py, its two dicts and the
--   operations on them as steps; Checks.antt has the integrity checks. The other children are about
--   the dicts (Indexed, Reaches, Prepares, Releases) and about a workspace in use (Validates).
-- - Adapters/LinuxSandbox.antt: src/alicerce/adapters/local/linux_process_sandbox.py; Bubblewrap.antt
--   has the pinned executable and the command lines, Capture.antt the loop that reads the output and
--   the end of the process tree.
-- - Adapters/GitCli.antt: src/alicerce/adapters/local/git_cli.py, its three operations; Run.antt has one
--   run of git with the capture of its output. The workspace takes these operations as its host.
-- - Prelude, Errors, DateTime, Json: shared types, lemmas, exceptions as values, instants, JSON values.
-- - Tests/: the theorems at concrete values.
--
-- How the code is rendered. A Python exception is a value of `Exn`, by class and cause, without its
-- text; `except` clauses name the classes by `is_type_or_value_error`. A dataclass is a record, its
-- `__post_init__` a function into `Result`; an `isinstance` check is the type of the argument. A `str`
-- is the list of its code points, `bytes` a list of numbers. An integer that the source tests for its
-- sign is a `ℤ`, one that was accepted a natural number; Python's integers have no width, so nothing
-- wraps. Two instants are compared only where both are in UTC, by their fields. Every function is
-- structurally recursive. Three loops are on fuel: the capture of the sandbox, on a turn for each byte
-- of its ceilings, one for each pipe and two more, since a turn reads a byte or closes a pipe, and one
-- in which `select` reports nothing is followed by the timeout; the capture of git, on a turn for each byte of its bound and three more, since a turn reads a byte or closes one of
-- two pipes (`loop_not_ended` marks the end of this fuel); and the walk through a workspace, on 2048
-- levels, which is what a path of 4096 bytes can have; what is deeper cannot be listed. A
-- `process.wait()` of the sandbox that does not return is an answer of the host (none), as a command
-- may close its output and go on; that of git is taken to return. Every call of the workspace adapter is one step, since it holds its lock. The clocks count whole nanoseconds.
-- `sorted` is an insertion sort by the order of the keys.
--
-- Parameters: FINAL_STATES, the class Contract and the validator of the package loop_schemas, the JSON text of a value and
-- its decoder, SHA-256, the clock, the generator of identifiers, and the host: the file system, the
-- processes, git.
--
-- Not modelled: the serialization of evidence, the schema version of the SQLite file, failures of the
-- database engine, and the script of the quality gate.
pub mod Prelude
pub mod Errors
pub mod Json
pub mod DateTime
pub mod Domain
pub mod Ports
pub mod Application
pub mod Adapters
mod Tests
