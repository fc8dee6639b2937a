-- ===== src/Adapters/GitCli/Run.antt =====
-- git_cli.py: one run of git, with the capture of its output.
use alicerce.Prelude.{
  ℕ, zero, suc, ◌+◌, ◌-◌, Bool, not, Option, none, some, List, [], ◌∷◌, ◌++◌, ℤ, pos, int_eq, ◌==◌,
  length, leb, ltb, Text, Bytes, if◌then◌else◌,
}
use alicerce.Errors.{
  Exn, Result, ok, err, raise_if, or_raise, os_error, key_error, loop_not_ended, git_error,
  GitCliErrorCause,
}
use alicerce.Adapters.FileSystem.{HostPath}
use alicerce.Adapters.Host.{Action, ◌>>=◌, ◌>>◌, lift, rethrow}
use alicerce.Adapters.LinuxSandbox.Bubblewrap.{Channel, out_pipe, err_pipe, path_text}

-- What `ControlledGitCli` asks of the operating system. Durations are in nanoseconds.
pub record GitHost : Type 1 where
  pub World : Type 0
  pub Process : Type 0
  -- `path.resolve(strict=True)`
  pub resolve : HostPath → Action World HostPath
  pub exists : HostPath → Action World Bool
  pub is_dir : HostPath → Action World Bool
  pub is_symlink : HostPath → Action World Bool
  pub is_file : HostPath → Action World Bool
  -- `os.access(path, os.X_OK)`
  pub is_executable : HostPath → Action World Bool
  pub mkdir : HostPath → Action World (Unit {0})
  pub rmtree : HostPath → Action World (Unit {0})
  -- the two ends of `tempfile.TemporaryDirectory`
  pub make_temporary : Text → HostPath → Action World HostPath
  pub remove_temporary : HostPath → Action World (Unit {0})
  -- of an argument list, a directory and an environment
  pub popen : List Text → HostPath → List (Text × Text) → Action World Process
  -- `time.monotonic()`
  pub monotonic : Action World ℕ
  pub register : Process → Channel → Action World (Unit {0})
  -- the pipes, of those registered, that are ready within the time
  pub select : Process → List Channel → ℕ → Action World (List Channel)
  -- `os.read` of at most so many bytes
  pub read_chunk : Process → Channel → ℕ → Action World Bytes
  pub close_selector : Process → Action World (Unit {0})
  pub poll : Process → Action World (Option ℤ)
  -- `process.wait()`, with the return code that it leaves
  pub wait : Process → Action World ℤ
  -- false is ProcessLookupError or PermissionError
  pub killpg : Process → Action World Bool
  -- false is ProcessLookupError
  pub kill : Process → Action World Bool
  -- strict UTF-8
  pub decode : Bytes → Option Text

-- `ControlledGitCli`
pub record GitCli : Type 0 where
  pub executable : HostPath
  pub timeout_ns : ℕ
  pub max_output_bytes : ℕ

abbrev pub command_failed : Exn
command_failed = git_error GitCliErrorCause.command_failed

-- `except OSError` with COMMAND_FAILED and with INVALID_PATH
unfoldable pub failed_of_os : Exn → Exn
failed_of_os os_error = command_failed
failed_of_os e = e

unfoldable pub invalid_of_os : Exn → Exn
invalid_of_os os_error = git_error GitCliErrorCause.invalid_path
invalid_of_os e = e

-- The variables of the capture, with the map of the selector.
pub record GitOutput : Type 0 where
  pub stdout : Bytes
  pub stderr : Bytes
  pub registered : List Channel

abbrev pub no_output : GitOutput
no_output = record { stdout = []; stderr = []; registered = out_pipe ∷ err_pipe ∷ [] }

abbrev pub total : GitOutput → ℕ
total output = length output.stdout + length output.stderr

-- `target.extend(chunk)`
unfoldable pub append_chunk : Channel → Bytes → GitOutput → GitOutput
append_chunk out_pipe chunk output = record output { stdout = output.stdout ++ chunk }
append_chunk err_pipe chunk output = record output { stderr = output.stderr ++ chunk }

-- `selector.unregister`, which raises a KeyError for a pipe that is not registered
unfoldable pub drop_pipe : Channel → List Channel → Result (List Channel)
drop_pipe pipe [] = err key_error
drop_pipe out_pipe (out_pipe ∷ rest) = ok rest
drop_pipe err_pipe (err_pipe ∷ rest) = ok rest
drop_pipe out_pipe (err_pipe ∷ out_pipe ∷ rest) = ok (err_pipe ∷ rest)
drop_pipe err_pipe (out_pipe ∷ err_pipe ∷ rest) = ok (out_pipe ∷ rest)
drop_pipe _ _ = err key_error

-- What is done where no pipe is registered, and else.
abbrev pub if_registered {ℓ} : {A : Type ℓ} → List Channel → A → A → A
if_registered [] done more = done
if_registered (pipe ∷ pipes) done more = more

-- `min(a, b)`
abbrev minimum : ℕ → ℕ → ℕ
minimum a b = if leb a b then a else b

-- A turn of the capture reads a byte at least or closes one of the two pipes.
abbrev pub capture_fuel : GitCli → ℕ
capture_fuel git = suc (suc (suc git.max_output_bytes))

module _ ⦃host : GitHost⦄ where
  abbrev Act : Type 0 → Type 0
  Act A = Action host.World A

  -- `_terminate`
  unfoldable pub kill_if : host.Process → Option ℤ → Act (Unit {0})
  kill_if process (some _) = lift (ok tt)
  kill_if process none = do host.killpg process; host.kill process; lift (ok tt)

  unfoldable pub terminate : host.Process → Act (Unit {0})
  unfolding kill_if
  terminate process = do
    polled ← host.poll process
    kill_if process polled
    host.wait process
    lift (ok tt)

  -- `self._terminate(process)` and `raise GitCliError(…)`
  unfoldable pub abort : {A : Type 0} → host.Process → GitCliErrorCause → Act A
  unfolding terminate
  abort process cause = do terminate process; lift (err (git_error cause))

  -- The body of the `for` after `os.read`.
  unfoldable pub take_chunk : GitCli → host.Process → Channel → GitOutput → Bytes → Act GitOutput
  unfolding abort append_chunk drop_pipe
  take_chunk git process pipe output [] = do
    registered ← lift (drop_pipe pipe output.registered)
    lift (ok (record output { registered = registered }))
  take_chunk git process pipe output (byte ∷ bytes) =
      let longer = append_chunk pipe (byte ∷ bytes) output in
      if ltb git.max_output_bytes (total longer)
      then abort process GitCliErrorCause.output_limit
      else lift (ok longer)

  -- `for key, _ in events`
  unfoldable pub take_events : GitCli → host.Process → List Channel → GitOutput → Act GitOutput
  unfolding take_chunk
  take_events git process [] output = lift (ok output)
  take_events git process (pipe ∷ events) output = do
    chunk ← host.read_chunk process pipe (minimum 65536 (suc git.max_output_bytes))
    longer ← take_chunk git process pipe output chunk
    take_events git process events longer

  -- What follows `selector.select`: no event at all is the deadline.
  unfoldable pub take_ready : GitCli → host.Process → GitOutput → List Channel → Act GitOutput
  unfolding take_events
  take_ready git process output [] = abort process GitCliErrorCause.timeout
  take_ready git process output (event ∷ events) = take_events git process (event ∷ events) output

  -- One turn of the `while`.
  unfoldable pub take_turn : GitCli → host.Process → ℕ → GitOutput → Act GitOutput
  unfolding take_ready
  take_turn git process deadline output = do
    now ← host.monotonic
    if leb deadline now then abort process GitCliErrorCause.timeout else (do
      events ← host.select process output.registered (deadline - now)
      take_ready git process output events)

  -- `while selector.get_map()`, on fuel
  unfoldable pub take_all : ℕ → GitCli → host.Process → ℕ → GitOutput → Act GitOutput
  unfolding take_turn
  take_all zero git process deadline output = lift (err loop_not_ended)
  take_all (suc fuel) git process deadline output =
      if_registered output.registered (lift (ok output)) (do
        longer ← take_turn git process deadline output
        take_all fuel git process deadline longer)

  -- The end of a `with` statement: the exception of the body, or that of its own end.
  unfoldable pub ending_with : {A : Type 0} → Act (Unit {0}) → Result A → Act A
  ending_with leave result = do leave; lift result

  -- `_capture_bounded`, with the return code of the process
  unfoldable pub capture_bounded : GitCli → host.Process → Act (GitOutput × ℤ)
  unfolding take_all ending_with
  capture_bounded git process = do
    start ← host.monotonic
    output ← λ world.
        let (result, after) =
          (do
            host.register process out_pipe
            host.register process err_pipe
            take_all (capture_fuel git) git process (start + git.timeout_ns) no_output)
            world in
        ending_with (host.close_selector process) result after
    code ← host.wait process
    lift (ok (output, code))

  -- `_run`
  unfoldable pub run : GitCli → List Text → HostPath → List (Text × Text) → Act Text
  unfolding capture_bounded failed_of_os path_text
  run git arguments cwd environment = do
    (output, code) ← rethrow failed_of_os (do
      process ← host.popen (path_text git.executable ∷ arguments) cwd environment
      capture_bounded git process)
    lift (raise_if (not (code == pos 0)) command_failed)
    lift (or_raise (host.decode output.stdout) command_failed)
