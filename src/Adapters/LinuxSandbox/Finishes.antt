-- ===== src/Adapters/LinuxSandbox/Finishes.antt =====
-- The end of the process of the sandbox, and what was captured of it.
use mathlib.Core.Path.{subst}
use alicerce.Prelude.{ℕ, ◌≡◌, ap, inl, inr, true, false, Option, none, some, ℤ, Bool-cases, arith}
use alicerce.Errors.{Result, ok, or_raise, or_raise_ok, subprocess_error}
use alicerce.Domain.Command.{
  CommandLimits, ExecutionTermination, exited, timed_out, cancelled, output_limit,
}
use alicerce.Domain.Command.Results.{ExitFits}
use alicerce.Adapters.Host.{lift, action_ok, rethrow_ok, ◌>>=◌, ◌>>◌}
use alicerce.Adapters.LinuxSandbox.Bubblewrap.{SandboxHost, sigterm, sigkill}
use alicerce.Adapters.LinuxSandbox.Capture.{
  Captured, is_exited, maximum, kill_tree, end_tree, terminate_tree, cleanup_failed_of_os,
}
use alicerce.Adapters.LinuxSandbox.Bounded.{IsWithin}
use alicerce.Adapters.LinuxSandbox.{with_code, finish}

module _ ⦃host : SandboxHost⦄ where
  pub lifted :
      {A : Type 0} (r : Result A) (world : host.World) {a : A} {last : host.World}
      → lift r world ≡ (ok a, last)
      → r ≡ ok a
  lifted r world h = ap (λ (x : Result _ × host.World). x.0) h

  pub same_world :
      {A : Type 0} (r : Result A) (world : host.World) {a : A} {last : host.World}
      → lift r world ≡ (ok a, last)
      → world ≡ last
  same_world r world h = ap (λ (x : Result _ × host.World). x.1) h

  pub some_of :
      {A : Type 0} {a c : A} {world last : host.World}
      → lift (ok (some a)) world ≡ (ok (some c), last)
      → a ≡ c
  some_of h = cc h

  -- The process has ended: the system has said so, with its exit code.
  pub data Ended (process : host.Process) : Type 0 where
    polled :
        (code : ℤ) (before after : host.World)
        → host.poll process before ≡ (ok (some code), after)
        → Ended process
    waited :
        (code : ℤ) (before after : host.World)
        → host.wait process before ≡ (ok (some code), after)
        → Ended process
    waited_for :
        (code : ℤ) (limit : ℕ) (before after : host.World)
        → host.wait_for process limit before ≡ (ok (some code), after)
        → Ended process

  kill_tree-Ended :
      (process : host.Process) (grace_ms : ℕ) (before world last : host.World) (reply : Option ℤ)
      {u : Unit {0}}
      → host.wait_for process grace_ms before ≡ (ok reply, world)
      → kill_tree process grace_ms reply world ≡ (ok u, last)
      → Ended process
  unfolding kill_tree
  kill_tree-Ended process grace_ms before world last (some code) said h =
      waited_for code grace_ms before world said
  kill_tree-Ended process grace_ms before world last none said h =
      let (_, w1, _, h1) = action_ok (host.killpg process sigkill) _ world h in
      let limit = maximum grace_ms 100 in
      let (killed, w2, told, h2) = action_ok (host.wait_for process limit) _ w1 h1 in
      let (code, w3, there, _) = action_ok (lift (or_raise killed subprocess_error)) _ w2 h2 in
      let is_there =
        or_raise_ok killed subprocess_error (lifted (or_raise killed subprocess_error) w2 there) in
      waited_for code limit w1 w2
        (subst (λ x. host.wait_for process limit w1 ≡ (ok x, w2)) is_there told)

  end_tree-Ended :
      (process : host.Process) (grace_ms : ℕ) (before world last : host.World) (reply : Option ℤ)
      {u : Unit {0}}
      → host.poll process before ≡ (ok reply, world)
      → end_tree process grace_ms reply world ≡ (ok u, last)
      → Ended process
  unfolding end_tree
  end_tree-Ended process grace_ms before world last (some code) said h =
      polled code before world said
  end_tree-Ended process grace_ms before world last none said h =
      let killing = (do
        host.killpg process sigterm
        ended ← host.wait_for process grace_ms
        kill_tree process grace_ms ended) in
      let (_, w1, _, h1) =
        action_ok (host.killpg process sigterm) _ world
          (rethrow_ok cleanup_failed_of_os killing world h) in
      let (reply, w2, told, h2) = action_ok (host.wait_for process grace_ms) _ w1 h1 in
      kill_tree-Ended process grace_ms w1 w2 last reply told h2

  terminate_tree-Ended :
      (process : host.Process) (grace_ms : ℕ) (world last : host.World) {u : Unit {0}}
      → terminate_tree process grace_ms world ≡ (ok u, last)
      → Ended process
  unfolding terminate_tree
  terminate_tree-Ended process grace_ms world last h =
      let (reply, w1, said, h1) = action_ok (host.poll process) _ world h in
      end_tree-Ended process grace_ms world w1 last reply said h1

  -- What the capture of an ended process has.
  pub record IsFinished (process : host.Process) (limits : CommandLimits) (captured : Captured)
      (exit_code : Option ℤ) : Type 0 where
    pub within : IsWithin limits captured
    pub exit : ExitFits captured.termination exit_code
    pub ended : Ended process

  forced : (t : ExecutionTermination) → is_exited t ≡ false → ExitFits t none
  forced exited h = absurd (ground arith)
  forced timed_out h = tt
  forced cancelled h = tt
  forced output_limit h = tt

  regular : (t : ExecutionTermination) (code : ℤ) → is_exited t ≡ true → ExitFits t (some code)
  regular exited code h = tt
  regular timed_out code h = absurd (ground arith)
  regular cancelled code h = absurd (ground arith)
  regular output_limit code h = absurd (ground arith)

  waited-IsFinished :
      (process : host.Process) (limits : CommandLimits) (captured : Captured) (reply : Option ℤ)
      (world w1 last : host.World) (out : Captured × Option ℤ)
      → IsWithin limits captured
      → is_exited captured.termination ≡ true
      → host.wait process world ≡ (ok reply, w1)
      → lift (ok (with_code captured reply)) w1 ≡ (ok (some out), last)
      → IsFinished process limits out.0 out.1
  waited-IsFinished process limits captured none world w1 last out within exited_end said h =
      absurd (ground arith)
  waited-IsFinished process limits captured (some code) world w1 last out within exited_end said h =
      subst (λ (x : Captured × Option ℤ). IsFinished process limits x.0 x.1) (some_of h)
        (record {
          within = within;
          exit = regular captured.termination code exited_end;
          ended = waited code world w1 said;
        })

  pub finish-IsFinished :
      (process : host.Process) (limits : CommandLimits) (captured : Captured)
      (world last : host.World) (out : Captured × Option ℤ)
      → IsWithin limits captured
      → finish process limits (some captured) world ≡ (ok (some out), last)
      → IsFinished process limits out.0 out.1
  unfolding finish
  finish-IsFinished process limits captured world last out within h =
      elim (Bool-cases (is_exited captured.termination)) [
        | inl regular_end ↦
            let (reply, w1, said, h1) =
              action_ok (host.wait process) (λ reply. lift (ok (with_code captured reply))) world
                (rw regular_end at h) in
            waited-IsFinished process limits captured reply world w1 last out within regular_end
              said h1
        | inr forced_end ↦
            let (_, w1, done, h1) =
              action_ok (terminate_tree process limits.termination_grace_ms)
                (λ _. lift (ok (some (captured, none)))) world (rw forced_end at h) in
            subst (λ (x : Captured × Option ℤ). IsFinished process limits x.0 x.1) (some_of h1)
              (record {
                within = within;
                exit = forced captured.termination forced_end;
                ended = terminate_tree-Ended process limits.termination_grace_ms world w1 done;
              })
      ]
