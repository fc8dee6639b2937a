-- ===== src/Adapters/LinuxSandbox/Ends.antt =====
-- `execute` on its fuel: a turn for each byte of the ceilings and for each pipe, and two more.
use mathlib.Core.Path.{subst}
use alicerce.Prelude.{
  List, Text, ℕ, ◌+◌, ◌≡◌, refl, ap, inl, inr, ◌⊎◌, not, Option, none, some, ℤ, Bool-cases, arith,
}
use alicerce.Errors.{Exn, Result, ok, err, raise_if}
use alicerce.DateTime.{DateTime}
use alicerce.Domain.Command.{CommandLimits}
use alicerce.Adapters.Host.{lift, rethrow, action_ok, rethrow_ok, lift_ok, ◌>>=◌}
use alicerce.Adapters.CommandExecutor.{SandboxInvocation, SandboxResult}
use alicerce.Adapters.LinuxSandbox.Bubblewrap.{
  SandboxHost, PinnedBubblewrap, sandbox_isolation, build_command, verify_bubblewrap,
}
use alicerce.Adapters.LinuxSandbox.Capture.{Captured, is_exited, with_capture, terminate_tree}
use alicerce.Adapters.LinuxSandbox.Executes.{recovered_ok, verified_ok}
use alicerce.Adapters.LinuxSandbox.Timely.{MonotonicClock, with_capture-Returns}
use alicerce.Adapters.LinuxSandbox.{
  timeout_ns, enough_fuel, with_code, spawn_failed_of_os, supports, finish, recover_capture,
  run_process, report, execute,
}

module _ ⦃host : SandboxHost⦄ (c : MonotonicClock host) where
  -- A call `process.wait()` that does not return.
  pub record Hangs (process : host.Process) : Type 0 where
    pub before : host.World
    pub after : host.World
    pub waits : host.wait process before ≡ (ok none, after)

  wait-Hangs :
      (process : host.Process) (captured : Captured) (reply : Option ℤ) (world w1 last : host.World)
      → host.wait process world ≡ (ok reply, w1)
      → lift (ok (with_code captured reply)) w1 ≡ (ok none, last)
      → Hangs process
  wait-Hangs process captured none world w1 last said h = record {
    before = world;
    after = w1;
    waits = said;
  }
  wait-Hangs process captured (some code) world w1 last said h = absurd (ground arith)

  ends_present :
      (process : host.Process) (limits : CommandLimits) (captured : Captured)
      (world last : host.World)
      → finish process limits (some captured) world ≡ (ok none, last)
      → Hangs process
  unfolding finish
  ends_present process limits captured world last h =
      elim (Bool-cases (is_exited captured.termination)) [
        | inl regular ↦
            let (reply, w1, said, h1) =
              action_ok (host.wait process) (λ reply. lift (ok (with_code captured reply))) world
                (rw regular at h) in
            wait-Hangs process captured reply world w1 last said h1
        | inr forced ↦
            let (_, w1, _, h1) =
              action_ok (terminate_tree process limits.termination_grace_ms)
                (λ _. lift (ok (some (captured, none)))) world (rw forced at h) in
            absurd (ground arith)
      ]

  tried-Hangs :
      (process : host.Process) (limits : CommandLimits) (deadline : ℕ) (world last : host.World)
      → (do
        captured ← with_capture (enough_fuel limits) process limits deadline
        finish process limits captured)
          world
        ≡ (ok none, last)
      → Hangs process
  unfolding finish
  tried-Hangs process limits deadline world last h =
      let (captured, w1, kept, h1) =
        action_ok (with_capture (enough_fuel limits) process limits deadline) _ world h in
      elim captured
          as (λ x.
            with_capture (enough_fuel limits) process limits deadline world ≡ (ok x, w1)
            → finish process limits x w1 ≡ (ok none, last)
            → Hangs process) [
              | none ↦ λ p q. absurd (with_capture-Returns c process limits deadline world w1 p)
              | some kept_output ↦ λ p q. ends_present process limits kept_output w1 last q
            ]
        kept h1

  run_process-Hangs :
      (bubblewrap : PinnedBubblewrap) (process : host.Process) (limits : CommandLimits)
      (deadline : ℕ) (world last : host.World)
      → run_process (enough_fuel limits) bubblewrap process limits deadline world ≡ (ok none, last)
      → Hangs process
  unfolding run_process
  run_process-Hangs bubblewrap process limits deadline world last h =
      let body = (do
        captured ← with_capture (enough_fuel limits) process limits deadline
        finish process limits captured) in
      let tried = body world in
      let recovered = recover_capture process limits tried.0 tried.1 in
      let kept = verified_ok bubblewrap recovered.0 recovered.1 last h in
      let here : recover_capture process limits tried.0 tried.1 ≡ (ok none, recovered.1) =
        ap
          (λ (x : Result (Option (Captured × Option ℤ))).
            let y : Result (Option (Captured × Option ℤ)) × host.World = (x, recovered.1) in y)
          kept in
      let went = recovered_ok process limits tried.0 tried.1 recovered.1 none here in
      tried-Hangs process limits deadline world tried.1 (
        ap
          (λ (x : Result (Option (Captured × Option ℤ))).
            let y : Result (Option (Captured × Option ℤ)) × host.World = (x, tried.1) in y)
          went)

  ended_absent :
      (started_at : DateTime) (ended : Option (Captured × Option ℤ)) (world last : host.World)
      → report started_at ended world ≡ (ok none, last)
      → ended ≡ none
  unfolding report
  ended_absent started_at none world last h = refl
  ended_absent started_at (some (captured, exit_code)) world last h =
      let (finished_at, w1, _, h1) = action_ok host.datetime_now _ world h in absurd (ground arith)

  -- A call that has not returned: the process that it started is never done.
  pub record IsHung (bubblewrap : PinnedBubblewrap) (invocation : SandboxInvocation)
      (world : host.World) : Type 0 where
    pub last : host.World
    pub unfinished :
        execute (enough_fuel invocation.limits) bubblewrap invocation world ≡ (ok none, last)
    pub command : List Text
    pub built : build_command bubblewrap invocation ≡ ok command
    pub process : host.Process
    pub before_spawn : host.World
    pub after_spawn : host.World
    pub spawned : host.popen command before_spawn ≡ (ok process, after_spawn)
    pub hangs : Hangs process

  none-Hangs :
      (bubblewrap : PinnedBubblewrap) (invocation : SandboxInvocation) (world last : host.World)
      → execute (enough_fuel invocation.limits) bubblewrap invocation world ≡ (ok none, last)
      → IsHung bubblewrap invocation world
  unfolding execute
  none-Hangs bubblewrap invocation world last h =
      let fuel = enough_fuel invocation.limits in
      let (supported, w1, probed, h1) =
        action_ok (supports bubblewrap invocation.network_policy) _ world h in
      let (_, w2, required, h2) =
        action_ok (lift (raise_if (not supported) sandbox_isolation)) _ w1 h1 in
      let (_, w3, verified, h3) = action_ok (verify_bubblewrap bubblewrap) _ w2 h2 in
      let (command, w4, built, h4) =
        action_ok (lift (build_command bubblewrap invocation)) _ w3 h3 in
      let (started_at, w5, started, h5) = action_ok host.datetime_now _ w4 h4 in
      let (process, w6, spawned, h6) =
        action_ok (rethrow spawn_failed_of_os (host.popen command)) _ w5 h5 in
      let (start, w7, read, h7) = action_ok host.monotonic _ w6 h6 in
      let (ended, w8, ran, h8) =
        action_ok
          (run_process fuel bubblewrap process invocation.limits
            (start + timeout_ns invocation.limits))
          _ w7 h7 in
      let missing = ended_absent started_at ended w8 last h8 in
      record {
        last = last;
        unfinished = h;
        command = command;
        built = lift_ok (build_command bubblewrap invocation) w3 built;
        process = process;
        before_spawn = w5;
        after_spawn = w6;
        spawned = rethrow_ok spawn_failed_of_os (host.popen command) w5 spawned;
        hangs =
            run_process-Hangs bubblewrap process invocation.limits
              (start + timeout_ns invocation.limits) w7 w8
              (subst
                (λ x.
                  run_process fuel bubblewrap process invocation.limits
                    (start + timeout_ns invocation.limits) w7
                  ≡ (ok x, w8))
                missing ran);
      }

  outcomes :
      {A H : Type 0} (out : Result (Option A) × host.World)
      → ((last : host.World) → out ≡ (ok none, last) → H)
      → ((r : A) × (last : host.World) × (out ≡ (ok (some r), last)))
        ⊎ ((e : Exn) × (last : host.World) × (out ≡ (err e, last)))
        ⊎ H
  outcomes (ok none, world) hangs = inr (inr (hangs world refl))
  outcomes (ok (some r), world) hangs = inl (r, world, refl)
  outcomes (err e, world) hangs = inr (inl (e, world, refl))

  -- On a host with the documented clock, `select` and reads, the capture loop of `execute` ends on its
  -- fuel: the call ends with a result or an exception, unless `process.wait()` of the process that it
  -- started does not return.
  pub execute_ends :
      (bubblewrap : PinnedBubblewrap) (invocation : SandboxInvocation) (world : host.World)
      → ((r : SandboxResult) × (last : host.World) × (execute
              (enough_fuel invocation.limits)
              bubblewrap
              invocation
              world
            ≡ (ok (some r), last)))
        ⊎ ((e : Exn) × (last : host.World) × (execute
                (enough_fuel invocation.limits)
                bubblewrap
                invocation
                world
              ≡ (err e, last)))
        ⊎ IsHung bubblewrap invocation world
  execute_ends bubblewrap invocation world =
      outcomes (execute (enough_fuel invocation.limits) bubblewrap invocation world)
        (λ last. none-Hangs bubblewrap invocation world last)
