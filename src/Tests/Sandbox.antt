-- ===== src/Tests/Sandbox.antt =====
-- The Linux sandbox on a host whose clock counts the answers, and whose process writes three bytes.
use mathlib.Core.Path.{subst}
use alicerce.Prelude.{
  ℕ, suc, ◌+◌, ◌≤◌, ltb, if◌then◌else◌, ◌≡◌, ◌⊎◌, refl, true, false, Option, none, some, List, [],
  ◌∷◌, ◌==◌, Bytes, text, pos, int_eq, ℤ-discrete, list_eq, nat_eq, list-discrete, ℕ_discrete,
  arith,
}
use alicerce.Errors.{Exn, ok, err}
use alicerce.Domain.Command.{exited, deny_all}
use alicerce.Adapters.Host.{Action}
use alicerce.Adapters.CommandExecutor.{SandboxInvocation, SandboxResult}
use alicerce.Adapters.LinuxSandbox.Bubblewrap.{
  Channel, out_pipe, err_pipe, SandboxHost, PinnedBubblewrap, build_command, relative_to,
  verify_bubblewrap,
}
use alicerce.Adapters.LinuxSandbox.Capture.{
  first_bytes, unregister, extend, handle_chunk, handle_events, handle_ready, capture_turn,
  capture_loop, enter_capture, closing, with_capture,
}
use alicerce.Adapters.LinuxSandbox.{
  enough_fuel, no_probe, supports, finish, recover_capture, verified_after, run_process, report,
  execute,
}
use alicerce.Adapters.LinuxSandbox.Executes.{IsSandboxed, sandbox_sound}
use alicerce.Adapters.LinuxSandbox.Progress.{is_in}
use alicerce.Adapters.LinuxSandbox.Timely.{MonotonicClock}
use alicerce.Adapters.LinuxSandbox.Ends.{IsHung, execute_ends}
use alicerce.Tests.Samples.{noon, limits}

abbrev says {ℓ} : {A : Type ℓ} → A → Action ℕ A
says a n = (ok a, suc n)

abbrev now : Action ℕ ℕ
now n = (ok n, suc n)

-- the process writes until the clock shows 24
abbrev written : ℕ → Option Bytes
written n = if ltb n 24 then some (1 ∷ 2 ∷ 3 ∷ []) else some []

abbrev reading : Action ℕ (Option Bytes)
reading n = (ok (written n), suc n)

-- each pipe that is registered is ready, and none is after the time
abbrev selecting : List Channel → ℕ → Action ℕ (List Channel)
selecting [] time n = (ok [], n + time)
selecting (pipe ∷ pipes) time n = (ok (pipe ∷ pipes), suc n)

instance abbrev writing_host : SandboxHost
writing_host = record {
  World = ℕ;
  Process = Unit;
  is_symlink = λ _. says false;
  resolve = λ path. says path;
  is_file = λ _. says true;
  is_executable = λ _. says true;
  file_sha256 = λ _. says (7 ∷ []);
  run_probe = λ _. says (pos 0);
  popen = λ _. says tt;
  datetime_now = says noon;
  monotonic = now;
  has_pipe = λ _ _. true;
  register = λ _ _. says tt;
  select = λ _ pipes time. selecting pipes time;
  read_chunk = λ _ _. reading;
  close = λ _. says tt;
  poll = λ _. says none;
  wait = λ _. says (some (pos 0));
  wait_for = λ _ _. says (some (pos 0));
  killpg = λ _ _. says tt;
}

abbrev bubblewrap : PinnedBubblewrap
bubblewrap = record { path = text "usr" ∷ text "bwrap" ∷ []; sha256 = 7 ∷ [] }

abbrev invocation : SandboxInvocation
invocation = record {
  executable = text "usr" ∷ text "python" ∷ [];
  arguments = text "--version" ∷ [];
  workspace_root = text "workspaces" ∷ text "w1" ∷ [];
  working_directory = text "workspaces" ∷ text "w1" ∷ text "src" ∷ [];
  environment = [];
  network_policy = deny_all;
  limits = limits;
}

abbrev result : SandboxResult
result = record {
  termination = exited;
  exit_code = some (pos 0);
  stdout = 1 ∷ 2 ∷ 3 ∷ 1 ∷ 2 ∷ 3 ∷ [];
  stderr = 1 ∷ 2 ∷ 3 ∷ 1 ∷ 2 ∷ 3 ∷ [];
  started_at = noon;
  finished_at = noon;
}

runs : execute 9 bubblewrap invocation 0 ≡ (ok (some result), 36)
unfolding execute supports no_probe verify_bubblewrap build_command relative_to run_process
    with_capture enter_capture capture_loop capture_turn handle_ready handle_events handle_chunk
    extend unregister first_bytes closing finish recover_capture verified_after report ◌==◌
    list-discrete ℕ_discrete ℤ-discrete
runs = refl

sandbox_sound_example : IsSandboxed bubblewrap invocation result
sandbox_sound_example = sandbox_sound 9 bubblewrap invocation 0 36 result runs

expires :
    (pipes : List Channel) (time n after : ℕ)
    → selecting pipes time n ≡ (ok [], after)
    → n + time ≤ after
expires [] time n after h = ground arith
expires (pipe ∷ pipes) time n after h = absurd (ground arith)

is_in_itself : (pipe : Channel) (pipes : List Channel) → is_in pipe (pipe ∷ pipes) ≡ true
is_in_itself out_pipe pipes = refl
is_in_itself err_pipe pipes = refl

reports :
    (pipes : List Channel) (time n after : ℕ) (pipe : Channel) (events : List Channel)
    → selecting pipes time n ≡ (ok (pipe ∷ events), after)
    → is_in pipe pipes ≡ true
reports [] time n after pipe events h = absurd (ground arith)
reports (first ∷ pipes) time n after pipe events h =
    let same : first ≡ pipe = cc h in
    subst (λ x. is_in x (first ∷ pipes) ≡ true) same (is_in_itself first pipes)

never_blocks : (n after : ℕ) → reading n ≡ (ok none, after) → ⊥
never_blocks n after h = ground arith

clock : MonotonicClock writing_host
clock = record {
  clock = λ n. n;
  reads = λ world now after h. (ground arith, ground arith);
  polls = λ _ world. omega arith;
  expires = λ process pipes time world after h. expires pipes time world after h;
  reports = λ process pipes time world after pipe events h.
      (reports pipes time world after pipe events h, λ last said. never_blocks after last said);
}

execute_ends_example :
    ((r : SandboxResult) × (last : ℕ) × (execute
          (enough_fuel invocation.limits)
          bubblewrap
          invocation
          0
        ≡ (ok (some r), last)))
    ⊎ ((e : Exn) × (last : ℕ) × (execute (enough_fuel invocation.limits) bubblewrap invocation 0
          ≡ (err e, last)))
    ⊎ IsHung clock bubblewrap invocation 0
execute_ends_example = execute_ends clock bubblewrap invocation 0
