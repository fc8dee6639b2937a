-- ===== src/Adapters/LinuxSandbox/Capture.antt =====
-- linux_process_sandbox.py: the loop that captures the output of a process, and the end of its tree.
use alicerce.Prelude.{
  ℕ, zero, suc, ◌-◌, Bool, true, false, not, Option, none, some, List, [], ◌∷◌, ◌++◌, ℤ, length,
  leb, ltb, Bytes, if◌then◌else◌,
}
use alicerce.Errors.{
  Exn, Result, ok, err, raise_if, or_raise, os_error, subprocess_error, sandbox_error,
  SandboxErrorCause,
}
use alicerce.Domain.Command.{CommandLimits, ExecutionTermination, exited, timed_out, output_limit}
use alicerce.Adapters.Host.{Action, ◌>>=◌, ◌>>◌, lift, rethrow}
use alicerce.Adapters.LinuxSandbox.Bubblewrap.{
  SandboxHost, Channel, out_pipe, err_pipe, sigterm, sigkill,
}

-- The variables of the loop, with the map of the selector.
pub record Captured : Type 0 where
  pub termination : ExecutionTermination
  pub stdout : Bytes
  pub stderr : Bytes
  pub registered : List Channel

abbrev pub nothing_captured : Captured
nothing_captured = record {
  termination = exited;
  stdout = [];
  stderr = [];
  registered = out_pipe ∷ err_pipe ∷ [];
}

-- `chunk[:n]`
unfoldable pub first_bytes : ℕ → Bytes → Bytes
first_bytes zero bytes = []
first_bytes (suc n) [] = []
first_bytes (suc n) (byte ∷ bytes) = byte ∷ first_bytes n bytes

-- `selector.unregister`
unfoldable pub unregister : Channel → List Channel → List Channel
unregister pipe [] = []
unregister out_pipe (out_pipe ∷ rest) = unregister out_pipe rest
unregister out_pipe (err_pipe ∷ rest) = err_pipe ∷ unregister out_pipe rest
unregister err_pipe (out_pipe ∷ rest) = out_pipe ∷ unregister err_pipe rest
unregister err_pipe (err_pipe ∷ rest) = unregister err_pipe rest

-- How much of a chunk is kept, of the bytes that a ceiling leaves.
abbrev pub after_chunk : ℕ → Bytes → Bytes → ExecutionTermination
after_chunk ceiling target chunk =
    if ltb (ceiling - length target) (length chunk) then output_limit else exited

-- What the body of the `for` does with a chunk of a pipe that is not empty.
unfoldable pub extend : CommandLimits → Captured → Channel → Bytes → Captured
unfolding first_bytes
extend limits captured out_pipe chunk = record captured {
  termination = after_chunk limits.stdout_max_bytes captured.stdout chunk;
  stdout = captured.stdout ++ first_bytes (limits.stdout_max_bytes - length captured.stdout) chunk;
}
extend limits captured err_pipe chunk = record captured {
  termination = after_chunk limits.stderr_max_bytes captured.stderr chunk;
  stderr = captured.stderr ++ first_bytes (limits.stderr_max_bytes - length captured.stderr) chunk;
}

-- `termination is ExecutionTermination.EXITED`
abbrev pub is_exited : ExecutionTermination → Bool
is_exited exited = true
is_exited _ = false

-- `except OSError` around the process
unfoldable pub cleanup_failed_of_os : Exn → Exn
cleanup_failed_of_os os_error = sandbox_error SandboxErrorCause.cleanup_failed
cleanup_failed_of_os subprocess_error = sandbox_error SandboxErrorCause.cleanup_failed
cleanup_failed_of_os e = e

module _ ⦃host : SandboxHost⦄ where
  abbrev Act : Type 0 → Type 0
  Act A = Action host.World A

  -- The body of the `for` after `os.read`, with the turns that follow.
  unfoldable pub handle_chunk :
      CommandLimits → Channel → Captured → (Captured → Act Captured) → Option Bytes → Act Captured
  unfolding extend unregister
  handle_chunk limits pipe captured turns none = turns captured
  handle_chunk limits pipe captured turns (some []) =
      turns (record captured { registered = unregister pipe captured.registered })
  handle_chunk limits pipe captured turns (some (byte ∷ bytes)) =
      let next = extend limits captured pipe (byte ∷ bytes) in
      if is_exited next.termination then turns next else lift (ok next)

  -- `for key, _mask in events`
  unfoldable pub handle_events :
      host.Process → CommandLimits → List Channel → Captured → Act Captured
  unfolding handle_chunk
  handle_events process limits [] captured = lift (ok captured)
  handle_events process limits (pipe ∷ events) captured = do
    chunk ← host.read_chunk process pipe
    handle_chunk limits pipe captured (handle_events process limits events) chunk

  -- What follows `selector.select`, with the turns of the `while`.
  unfoldable pub handle_ready :
      host.Process
      → CommandLimits
      → Captured
      → (Captured → Act (Option Captured))
      → List Channel
      → Act (Option Captured)
  unfolding handle_events
  handle_ready process limits captured turns [] = do _ ← host.poll process; turns captured
  handle_ready process limits captured turns (event ∷ events) = do
    next ← handle_events process limits (event ∷ events) captured
    if is_exited next.termination then turns next else lift (ok (some next))

  -- One turn of the `while`.
  unfoldable pub capture_turn :
      host.Process
      → CommandLimits
      → ℕ
      → Captured
      → (Captured → Act (Option Captured))
      → List Channel
      → Act (Option Captured)
  unfolding handle_ready
  capture_turn process limits deadline captured turns [] = lift (ok (some captured))
  capture_turn process limits deadline captured turns (pipe ∷ pipes) = do
    now ← host.monotonic
    if leb deadline now then lift (ok (some (record captured { termination = timed_out }))) else (do
      events ← host.select process (pipe ∷ pipes) (deadline - now)
      handle_ready process limits captured turns events)

  -- `while capture.selector.get_map()`, on fuel; none if that runs out
  unfoldable pub capture_loop :
      ℕ → host.Process → CommandLimits → ℕ → Captured → Act (Option Captured)
  unfolding capture_turn
  capture_loop zero process limits deadline captured = lift (ok none)
  capture_loop (suc fuel) process limits deadline captured =
      capture_turn process limits deadline captured (capture_loop fuel process limits deadline)
        captured.registered

  -- `_Capture.__enter__`
  unfoldable pub enter_capture : host.Process → List Channel → Act (Unit {0})
  enter_capture process [] = lift (ok tt)
  enter_capture process (pipe ∷ pipes) = do
    lift
        (raise_if (not (host.has_pipe process pipe)) (sandbox_error SandboxErrorCause.spawn_failed))
    host.register process pipe
    enter_capture process pipes

  -- The end of a `with` statement: the exception of the body, or that of `__exit__`.
  unfoldable pub closing : {A : Type 0} → host.Process → Result A → Act A
  closing process (ok value) = do host.close process; lift (ok value)
  closing process (err e) = do host.close process; lift (err e)

  -- `with _Capture(process) as capture: …`
  unfoldable pub with_capture : ℕ → host.Process → CommandLimits → ℕ → Act (Option Captured)
  unfolding enter_capture capture_loop closing
  with_capture fuel process limits deadline = do
    enter_capture process (out_pipe ∷ err_pipe ∷ [])
    λ world.
        let (captured, after) = capture_loop fuel process limits deadline nothing_captured world in
        closing process captured after

  -- `max(a, b)`
  abbrev pub maximum : ℕ → ℕ → ℕ
  maximum a b = if leb a b then b else a

  -- `_terminate_tree` after the first wait
  unfoldable pub kill_tree : host.Process → ℕ → Option ℤ → Act (Unit {0})
  kill_tree process grace_ms (some _) = lift (ok tt)
  kill_tree process grace_ms none = do
    host.killpg process sigkill
    killed ← host.wait_for process (maximum grace_ms 100)
    lift (or_raise killed subprocess_error)
    lift (ok tt)

  -- `_terminate_tree` after `process.poll()`
  unfoldable pub end_tree : host.Process → ℕ → Option ℤ → Act (Unit {0})
  unfolding kill_tree cleanup_failed_of_os
  end_tree process grace_ms (some _) = lift (ok tt)
  end_tree process grace_ms none = rethrow cleanup_failed_of_os (do
    host.killpg process sigterm
    ended ← host.wait_for process grace_ms
    kill_tree process grace_ms ended)

  -- `_terminate_tree`
  unfoldable pub terminate_tree : host.Process → ℕ → Act (Unit {0})
  unfolding end_tree
  terminate_tree process grace_ms = do polled ← host.poll process; end_tree process grace_ms polled
