-- ===== src/Adapters/LinuxSandbox.antt =====
-- src/alicerce/adapters/local/linux_process_sandbox.py: `LinuxProcessSandboxBackend`.
pub mod Bubblewrap
pub mod Capture
pub mod Bounded
pub mod Finishes
pub mod Executes
pub mod Progress
pub mod Timely
pub mod Ends
pub mod Confines
use alicerce.Prelude.{
  ℕ, ◌+◌, ◌*◌, suc, Bool, true, false, not, Option, none, some, List, [], ◌∷◌, ◌++◌, ℤ, pos, int_eq,
  ◌==◌, Text, text, if◌then◌else◌,
}
use alicerce.Errors.{
  Exn, Result, ok, err, raise_if, os_error, subprocess_error, sandbox_error, SandboxErrorCause,
}
use alicerce.DateTime.{DateTime}
use alicerce.Domain.Command.{NetworkPolicy, deny_all, CommandLimits, ExecutionTermination}
use alicerce.Adapters.Host.{Action, ◌>>=◌, ◌>>◌, lift, rethrow, either}
use alicerce.Adapters.CommandExecutor.{SandboxInvocation, SandboxResult}
use Bubblewrap.{
  SandboxHost, PinnedBubblewrap, sandbox_isolation, base_command, build_command, verify_bubblewrap,
}
use Capture.{Captured, is_exited, with_capture, terminate_tree}

-- `except OSError` around `subprocess.Popen`
unfoldable pub spawn_failed_of_os : Exn → Exn
spawn_failed_of_os os_error = sandbox_error SandboxErrorCause.spawn_failed
spawn_failed_of_os e = e

-- The nanoseconds of a timeout.
abbrev pub timeout_ns : CommandLimits → ℕ
timeout_ns limits = limits.timeout_ms * 1000000

-- A turn of the loop for each byte of the ceilings and for each pipe, one in which nothing is ready and
-- one that ends the loop.
abbrev pub enough_fuel : CommandLimits → ℕ
enough_fuel limits = limits.stdout_max_bytes + limits.stderr_max_bytes + 4

abbrev pub with_code : Captured → Option ℤ → Option (Captured × Option ℤ)
with_code captured none = none
with_code captured (some code) = some (captured, some code)

module _ ⦃host : SandboxHost⦄ where
  abbrev Act : Type 0 → Type 0
  Act A = Action host.World A

  -- `except (OSError, subprocess.SubprocessError): return False`
  unfoldable pub no_probe : Result ℤ × host.World → Result Bool × host.World
  no_probe (ok code, world) = (ok (code == pos 0), world)
  no_probe (err os_error, world) = (ok false, world)
  no_probe (err subprocess_error, world) = (ok false, world)
  no_probe (err e, world) = (err e, world)

  -- `supports`
  unfoldable pub supports : PinnedBubblewrap → NetworkPolicy → Act Bool
  unfolding no_probe base_command
  supports bubblewrap deny_all = do
    verify_bubblewrap bubblewrap
    λ world.
        no_probe
          (host.run_probe (base_command bubblewrap ++ text "--" ∷ text "/usr/bin/true" ∷ []) world)

  -- After the capture: the tree of a process that has not exited is ended, and one that has closed its
  -- pipes is waited for; none if that does not return.
  unfoldable pub finish :
      host.Process → CommandLimits → Option Captured → Act (Option (Captured × Option ℤ))
  finish process limits none = lift (ok none)
  finish process limits (some captured) =
      if is_exited captured.termination
      then (do code ← host.wait process; lift (ok (with_code captured code)))
      else (do
        terminate_tree process limits.termination_grace_ms
        lift (ok (some (captured, none))))

  -- `except OSError`
  unfoldable pub recover_capture : {A : Type 0} → host.Process → CommandLimits → Result A → Act A
  recover_capture process limits (err os_error) = do
    terminate_tree process limits.termination_grace_ms
    lift (err (sandbox_error SandboxErrorCause.cleanup_failed))
  recover_capture process limits result = lift result

  -- `finally: self._bubblewrap.verify()`, which a `try` that does not return does not reach
  unfoldable pub verified_after :
      {A : Type 0} → PinnedBubblewrap → Result (Option A) → Act (Option A)
  unfolding verify_bubblewrap
  verified_after bubblewrap (ok none) = lift (ok none)
  verified_after bubblewrap result = do verify_bubblewrap bubblewrap; lift result

  -- The `try` statement of `execute`; none if it does not return, or the fuel of the loop
  -- runs out.
  unfoldable pub run_process :
      ℕ → PinnedBubblewrap → host.Process → CommandLimits → ℕ → Act (Option (Captured × Option ℤ))
  unfolding finish recover_capture verified_after
  run_process fuel bubblewrap process limits deadline world =
      let (tried, w1) =
        (do captured ← with_capture fuel process limits deadline; finish process limits captured)
          world in
      let (recovered, w2) = recover_capture process limits tried w1 in
      verified_after bubblewrap recovered w2

  -- `SandboxResult(…)`
  unfoldable pub report : DateTime → Option (Captured × Option ℤ) → Act (Option SandboxResult)
  report started_at none = lift (ok none)
  report started_at (some (captured, exit_code)) = do
    finished_at ← host.datetime_now
    lift (
        ok (
          some (record {
            termination = captured.termination;
            exit_code = exit_code;
            stdout = captured.stdout;
            stderr = captured.stderr;
            started_at = started_at;
            finished_at = finished_at;
          })))

  -- `execute`
  unfoldable pub execute : ℕ → PinnedBubblewrap → SandboxInvocation → Act (Option SandboxResult)
  unfolding supports run_process spawn_failed_of_os report
  execute fuel bubblewrap invocation = do
    supported ← supports bubblewrap invocation.network_policy
    lift (raise_if (not supported) sandbox_isolation)
    verify_bubblewrap bubblewrap
    command ← lift (build_command bubblewrap invocation)
    started_at ← host.datetime_now
    process ← rethrow spawn_failed_of_os (host.popen command)
    start ← host.monotonic
    ended ←
        run_process fuel bubblewrap process invocation.limits (start + timeout_ns invocation.limits)
    report started_at ended
