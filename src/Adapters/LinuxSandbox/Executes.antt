-- ===== src/Adapters/LinuxSandbox/Executes.antt =====
-- What a result of the sandbox means.
use mathlib.Core.Path.{subst, subst₂}
use alicerce.Prelude.{
  ℕ, ◌+◌, ◌≤◌, ◌≡◌, refl, sym, ap, Bool, true, false, not, Option, none, some, List, ℤ, length,
  Text, Bytes, arith,
}
use alicerce.Errors.{Result, ok, err, raise_if, os_error}
use alicerce.DateTime.{DateTime}
use alicerce.Domain.Command.{CommandLimits}
use alicerce.Domain.Command.Results.{ExitFits}
use alicerce.Adapters.Host.{lift, rethrow, action_ok, rethrow_ok, ◌>>=◌}
use alicerce.Adapters.CommandExecutor.{SandboxInvocation, SandboxResult}
use alicerce.Adapters.LinuxSandbox.Bubblewrap.{
  SandboxHost, PinnedBubblewrap, sandbox_isolation, build_command, verify_bubblewrap,
}
use alicerce.Adapters.LinuxSandbox.Capture.{Captured, with_capture, terminate_tree}
use alicerce.Adapters.LinuxSandbox.Bounded.{with_capture-IsWithin}
use alicerce.Adapters.LinuxSandbox.{
  timeout_ns, spawn_failed_of_os, supports, finish, recover_capture, verified_after, run_process,
  report, execute,
}
use alicerce.Adapters.LinuxSandbox.Finishes.{
  lifted, same_world, some_of, Ended, IsFinished, finish-IsFinished,
}

module _ ⦃host : SandboxHost⦄ where
  pub recovered_ok :
      {A : Type 0} (process : host.Process) (limits : CommandLimits) (tried : Result A)
      (world last : host.World) (a : A)
      → recover_capture process limits tried world ≡ (ok a, last)
      → tried ≡ ok a
  unfolding recover_capture
  recovered_ok process limits (err os_error) world last a h =
      let (_, w1, _, h1) =
        action_ok (terminate_tree process limits.termination_grace_ms) _ world h in
      absurd (ground arith)
  recovered_ok process limits (err e) world last a h = absurd (ground arith)
  recovered_ok process limits (ok value) world last a h = lifted (ok value) world h

  pub verified_ok :
      {A : Type 0} (bubblewrap : PinnedBubblewrap) (result : Result (Option A))
      (world last : host.World) {a : Option A}
      → verified_after bubblewrap result world ≡ (ok a, last)
      → result ≡ ok a
  unfolding verified_after
  verified_ok bubblewrap (ok none) world last h = lifted (ok none) world h
  verified_ok bubblewrap (ok (some value)) world last h =
      let (_, w1, _, h1) = action_ok (verify_bubblewrap bubblewrap) _ world h in
      lifted (ok (some value)) w1 h1
  verified_ok bubblewrap (err e) world last h =
      let (_, w1, _, h1) = action_ok (verify_bubblewrap bubblewrap) _ world h in
      lifted (err e) w1 h1

  tried_IsFinished :
      (fuel : ℕ) (process : host.Process) (limits : CommandLimits) (deadline : ℕ)
      (world last : host.World) (out : Captured × Option ℤ)
      → (do captured ← with_capture fuel process limits deadline; finish process limits captured)
          world
        ≡ (ok (some out), last)
      → IsFinished process limits out.0 out.1
  unfolding finish
  tried_IsFinished fuel process limits deadline world last out h =
      let (captured, w1, kept, h1) =
        action_ok (with_capture fuel process limits deadline) _ world h in
      elim captured
          as (λ x.
            with_capture fuel process limits deadline world ≡ (ok x, w1)
            → finish process limits x w1 ≡ (ok (some out), last)
            → IsFinished process limits out.0 out.1) [
              | none ↦ λ p q. absurd (ground arith)
              | some c ↦ λ p q.
                  finish-IsFinished process limits c w1 last out
                    (with_capture-IsWithin process limits fuel deadline world w1 c p) q
            ]
        kept h1

  run_process-IsFinished :
      (fuel : ℕ) (bubblewrap : PinnedBubblewrap) (process : host.Process) (limits : CommandLimits)
      (deadline : ℕ) (world last : host.World) (out : Captured × Option ℤ)
      → run_process fuel bubblewrap process limits deadline world ≡ (ok (some out), last)
      → IsFinished process limits out.0 out.1
  unfolding run_process
  run_process-IsFinished fuel bubblewrap process limits deadline world last out h =
      let body = (do
        captured ← with_capture fuel process limits deadline
        finish process limits captured) in
      let tried = body world in
      let recovered = recover_capture process limits tried.0 tried.1 in
      let kept = verified_ok bubblewrap recovered.0 recovered.1 last h in
      let here : recover_capture process limits tried.0 tried.1 ≡ (ok (some out), recovered.1) =
        ap
          (λ (x : Result (Option (Captured × Option ℤ))).
            let y : Result (Option (Captured × Option ℤ)) × host.World = (x, recovered.1) in y)
          kept in
      let went = recovered_ok process limits tried.0 tried.1 recovered.1 (some out) here in
      tried_IsFinished fuel process limits deadline world tried.1 out (
        ap
          (λ (x : Result (Option (Captured × Option ℤ))).
            let y : Result (Option (Captured × Option ℤ)) × host.World = (x, tried.1) in y)
          went)

  -- One run of a process in the sandbox.
  pub record IsSandboxed (bubblewrap : PinnedBubblewrap) (invocation : SandboxInvocation)
      (r : SandboxResult) : Type 0 where
    pub command : List Text
    pub process : host.Process
    pub before_probe : host.World
    pub before_check : host.World
    pub before_start : host.World
    pub before_spawn : host.World
    pub after_spawn : host.World
    pub built : build_command bubblewrap invocation ≡ ok command
    pub supported :
        supports bubblewrap invocation.network_policy before_probe ≡ (ok true, before_check)
    pub verified : verify_bubblewrap bubblewrap before_check ≡ (ok tt, before_start)
    pub started : host.datetime_now before_start ≡ (ok r.started_at, before_spawn)
    pub spawned : host.popen command before_spawn ≡ (ok process, after_spawn)
    pub ended : Ended process
    pub exit : ExitFits r.termination r.exit_code
    pub stdout : length r.stdout ≤ invocation.limits.stdout_max_bytes
    pub stderr : length r.stderr ≤ invocation.limits.stderr_max_bytes

  reported_ok :
      (started_at : DateTime) (ended : Option (Captured × Option ℤ)) (world last : host.World)
      (r : SandboxResult)
      → report started_at ended world ≡ (ok (some r), last)
      → (out : Captured × Option ℤ) × (ended ≡ some out)
        × (r.started_at ≡ started_at)
        × (r.termination ≡ out.0.termination)
        × (r.exit_code ≡ out.1)
        × (r.stdout ≡ out.0.stdout)
        × (r.stderr ≡ out.0.stderr)
  unfolding report
  reported_ok started_at none world last r h = absurd (ground arith)
  reported_ok started_at (some (captured, exit_code)) world last r h =
      let (finished_at, w1, _, h1) = action_ok host.datetime_now _ world h in
      let made = some_of h1 in
      (
        (captured, exit_code),
        refl,
        ap (λ (x : SandboxResult). x.started_at) (sym made),
        ap (λ (x : SandboxResult). x.termination) (sym made),
        ap (λ (x : SandboxResult). x.exit_code) (sym made),
        ap (λ (x : SandboxResult). x.stdout) (sym made),
        ap (λ (x : SandboxResult). x.stderr) (sym made),
      )

  of_steps :
      (fuel : ℕ) (bubblewrap : PinnedBubblewrap) (invocation : SandboxInvocation)
      (r : SandboxResult) (command : List Text) (process : host.Process) (start : ℕ)
      (started_at : DateTime) (ended : Option (Captured × Option ℤ))
      (w0 w1 w2 w3 w4 w5 w6 last : host.World)
      → build_command bubblewrap invocation ≡ ok command
      → supports bubblewrap invocation.network_policy w0 ≡ (ok true, w1)
      → verify_bubblewrap bubblewrap w1 ≡ (ok tt, w2)
      → host.datetime_now w2 ≡ (ok started_at, w3)
      → host.popen command w3 ≡ (ok process, w4)
      → run_process fuel bubblewrap process invocation.limits
          (start + timeout_ns invocation.limits)
          w5
        ≡ (ok ended, w6)
      → report started_at ended w6 ≡ (ok (some r), last)
      → IsSandboxed bubblewrap invocation r
  of_steps fuel bubblewrap invocation r command process start started_at ended w0 w1 w2 w3 w4 w5 w6
        last built supported verified started spawned ran told =
      let (out, there, stamp, termination, code, stdout, stderr) =
        reported_ok started_at ended w6 last r told in
      let finished =
        run_process-IsFinished fuel bubblewrap process invocation.limits
          (start + timeout_ns invocation.limits) w5 w6 out
          (subst
            (λ x.
              run_process fuel bubblewrap process invocation.limits
                (start + timeout_ns invocation.limits) w5
              ≡ (ok x, w6))
            there ran) in
      record {
        command = command;
        process = process;
        before_probe = w0;
        before_check = w1;
        before_start = w2;
        before_spawn = w3;
        after_spawn = w4;
        built = built;
        supported = supported;
        verified = verified;
        started = subst (λ x. host.datetime_now w2 ≡ (ok x, w3)) (sym stamp) started;
        spawned = spawned;
        ended = finished.ended;
        exit = subst₂ ExitFits (sym termination) (sym code) finished.exit;
        stdout =
            subst (λ (x : Bytes). length x ≤ invocation.limits.stdout_max_bytes) (sym stdout)
              finished.within.stdout;
        stderr =
            subst (λ (x : Bytes). length x ≤ invocation.limits.stderr_max_bytes) (sym stderr)
              finished.within.stderr;
      }

  required_support :
      (b : Bool) {u : Unit {0}} → raise_if (not b) sandbox_isolation ≡ ok u → b ≡ true
  required_support true h = refl
  required_support false h = absurd (ground arith)

  -- A result of the sandbox is that of one process, started on the command that the invocation gives
  -- bubblewrap, after a probe that succeeded and directly after bubblewrap was verified. The process has
  -- ended, the result has an exit code exactly if it exited by itself, and each stream is within its
  -- ceiling.
  pub sandbox_sound :
      (fuel : ℕ) (bubblewrap : PinnedBubblewrap) (invocation : SandboxInvocation)
      (world last : host.World) (r : SandboxResult)
      → execute fuel bubblewrap invocation world ≡ (ok (some r), last)
      → IsSandboxed bubblewrap invocation r
  unfolding execute
  sandbox_sound fuel bubblewrap invocation world last r h =
      let (supported, w1, probed, h1) =
        action_ok (supports bubblewrap invocation.network_policy) _ world h in
      let (_, w2, required, h2) =
        action_ok (lift (raise_if (not supported) sandbox_isolation)) _ w1 h1 in
      let (_, w3, verified, h3) = action_ok (verify_bubblewrap bubblewrap) _ w2 h2 in
      let (command, w4, built, h4) =
        action_ok (lift (build_command bubblewrap invocation)) _ w3 h3 in
      let (started_at, w5, started, h5) = action_ok host.datetime_now _ w4 h4 in
      let (process, w6, spawned, h6) =
        action_ok (rethrow spawn_failed_of_os (host.popen command)) _ w5 h5 in
      let (start, w7, _, h7) = action_ok host.monotonic _ w6 h6 in
      let (ended, w8, ran, h8) =
        action_ok
          (run_process fuel bubblewrap process invocation.limits
            (start + timeout_ns invocation.limits))
          _ w7 h7 in
      let yes =
        required_support supported
          (lifted (raise_if (not supported) sandbox_isolation) w1 required) in
      let w1_w2 = same_world (raise_if (not supported) sandbox_isolation) w1 required in
      let w3_w4 = same_world (build_command bubblewrap invocation) w3 built in
      of_steps fuel bubblewrap invocation r command process start started_at ended world w1 w3 w5 w6
        w7 w8 last (lifted (build_command bubblewrap invocation) w3 built)
        (subst (λ x. supports bubblewrap invocation.network_policy world ≡ (ok x, w1)) yes probed)
        (subst (λ x. verify_bubblewrap bubblewrap x ≡ (ok tt, w3)) (sym w1_w2) verified)
        (subst (λ x. host.datetime_now x ≡ (ok started_at, w5)) (sym w3_w4) started)
        (rethrow_ok spawn_failed_of_os (host.popen command) w5 spawned) ran h8
