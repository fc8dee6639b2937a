-- ===== src/Adapters/LinuxSandbox/Bubblewrap.antt =====
-- linux_process_sandbox.py: the pinned bubblewrap executable and the argument lists it is run with.
use alicerce.Prelude.{
  ℕ, Bool, not, Option, none, some, List, [], ◌∷◌, ◌++◌, ℤ, ◌==◌, Text, Bytes, text, slash, nat_eq,
  list_eq, if◌then◌else◌,
}
use alicerce.Errors.{
  Exn, Result, ok, err, raise_if, os_error, value_error, sandbox_error, SandboxErrorCause,
}
use alicerce.DateTime.{DateTime}
use alicerce.Domain.Paths.{join}
use alicerce.Domain.Command.{EnvironmentVariable}
use alicerce.Adapters.FileSystem.{HostPath}
use alicerce.Adapters.Host.{Action, ◌>>=◌, ◌>>◌, lift, rethrow, either}
use alicerce.Adapters.CommandExecutor.{SandboxInvocation}

-- The two pipes of a process.
pub data Channel : Type 0 where
  out_pipe err_pipe : Channel

pub data Signal : Type 0 where
  sigterm sigkill : Signal

-- What the backend asks of the operating system. Durations of the clock are in nanoseconds; another
-- exception of `subprocess` than an OSError is `subprocess_error`.
pub record SandboxHost : Type 1 where
  pub World : Type 0
  pub Process : Type 0
  pub is_symlink : HostPath → Action World Bool
  -- `path.resolve(strict=True)`
  pub resolve : HostPath → Action World HostPath
  pub is_file : HostPath → Action World Bool
  -- `os.access(path, os.X_OK)`
  pub is_executable : HostPath → Action World Bool
  pub file_sha256 : HostPath → Action World Bytes
  -- `subprocess.run(…).returncode`
  pub run_probe : List Text → Action World ℤ
  pub popen : List Text → Action World Process
  pub datetime_now : Action World DateTime
  -- `time.monotonic()`
  pub monotonic : Action World ℕ
  -- whether the process has the pipe
  pub has_pipe : Process → Channel → Bool
  -- `os.set_blocking(…, False)` and `selector.register`
  pub register : Process → Channel → Action World (Unit {0})
  -- the pipes, of those registered, that are ready within the time
  pub select : Process → List Channel → ℕ → Action World (List Channel)
  -- `os.read` of at most 64 KiB; none is BlockingIOError
  pub read_chunk : Process → Channel → Action World (Option Bytes)
  -- `_Capture.__exit__`
  pub close : Process → Action World (Unit {0})
  pub poll : Process → Action World (Option ℤ)
  -- `process.wait()`; none where the process never ends, so that the call does not return
  pub wait : Process → Action World (Option ℤ)
  -- `process.wait(timeout=…)`, in milliseconds; none is TimeoutExpired
  pub wait_for : Process → ℕ → Action World (Option ℤ)
  pub killpg : Process → Signal → Action World (Unit {0})

-- `_PinnedBubblewrap`
pub record PinnedBubblewrap : Type 0 where
  pub path : HostPath
  pub sha256 : Bytes

abbrev pub sandbox_isolation : Exn
sandbox_isolation = sandbox_error SandboxErrorCause.isolation_failure

-- `except OSError` with ISOLATION_FAILURE and with ValueError
unfoldable pub sandbox_isolation_of_os : Exn → Exn
sandbox_isolation_of_os os_error = sandbox_isolation
sandbox_isolation_of_os e = e

unfoldable pub unavailable_bubblewrap : Exn → Exn
unavailable_bubblewrap os_error = value_error
unavailable_bubblewrap e = e

-- `str(path)`, of an absolute path
unfoldable pub path_text : HostPath → Text
path_text path = slash ∷ join path

-- `path.relative_to(root)`; none is the ValueError
unfoldable pub relative_to : HostPath → HostPath → Option (List Text)
relative_to path [] = some path
relative_to [] (part ∷ root) = none
relative_to (first ∷ path) (part ∷ root) = if first == part then relative_to path root else none

-- `_base_command`
unfoldable pub base_command : PinnedBubblewrap → List Text
unfolding path_text
base_command bubblewrap =
    path_text bubblewrap.path
    ∷ text "--unshare-net"
    ∷ text "--unshare-pid"
    ∷ text "--unshare-ipc"
    ∷ text "--unshare-uts"
    ∷ text "--die-with-parent"
    ∷ text "--new-session"
    ∷ text "--clearenv"
    ∷ text "--proc"
    ∷ text "/proc"
    ∷ text "--dev"
    ∷ text "/dev"
    ∷ text "--ro-bind"
    ∷ text "/usr"
    ∷ text "/usr"
    ∷ text "--symlink"
    ∷ text "usr/bin"
    ∷ text "/bin"
    ∷ text "--symlink"
    ∷ text "usr/lib"
    ∷ text "/lib"
    ∷ text "--symlink"
    ∷ text "usr/lib64"
    ∷ text "/lib64"
    ∷ []

-- The loop over `invocation.environment`.
unfoldable pub environment_options : List EnvironmentVariable → List Text
environment_options [] = []
environment_options (entry ∷ environment) =
    text "--setenv" ∷ entry.name ∷ entry.value ∷ environment_options environment

-- The options of a sandbox whose working directory has these parts below the workspace.
unfoldable pub sandbox_options : PinnedBubblewrap → SandboxInvocation → List Text → List Text
unfolding base_command environment_options path_text
sandbox_options bubblewrap invocation relative =
    base_command bubblewrap
    ++ text "--dir"
      ∷ text "/alicerce"
      ∷ text "--ro-bind"
      ∷ path_text invocation.executable
      ∷ text "/alicerce/executable"
      ∷ text "--chmod"
      ∷ text "0555"
      ∷ text "/alicerce"
      ∷ text "--dir"
      ∷ text "/workspace"
      ∷ text "--bind"
      ∷ path_text invocation.workspace_root
      ∷ text "/workspace"
      ∷ text "--chdir"
      ∷ path_text (text "workspace" ∷ relative)
      ∷ environment_options invocation.environment

-- `_build_command`
unfoldable pub build_command : PinnedBubblewrap → SandboxInvocation → Result (List Text)
unfolding relative_to sandbox_options
build_command bubblewrap invocation =
    elim (relative_to invocation.working_directory invocation.workspace_root) [
      | none ↦ err sandbox_isolation
      | some relative ↦ ok (
          sandbox_options bubblewrap invocation relative
          ++ text "--" ∷ text "/alicerce/executable" ∷ invocation.arguments)
    ]

module _ ⦃host : SandboxHost⦄ where
  abbrev Act : Type 0 → Type 0
  Act A = Action host.World A

  -- `_PinnedBubblewrap.__post_init__`, of an absolute path
  unfoldable pub new_pinned_bubblewrap : HostPath → Act PinnedBubblewrap
  unfolding unavailable_bubblewrap
  new_pinned_bubblewrap path = do
    link ← host.is_symlink path
    lift (raise_if link value_error)
    rethrow unavailable_bubblewrap (do
      resolved ← host.resolve path
      unfit ← either (not (resolved == path)) (do
        file ← host.is_file resolved
        either (not file) (do executable ← host.is_executable resolved; lift (ok (not executable))))
      lift (raise_if unfit value_error)
      digest ← host.file_sha256 resolved
      lift (ok (record { path = resolved; sha256 = digest })))

  -- `_PinnedBubblewrap.verify`
  unfoldable pub verify_bubblewrap : PinnedBubblewrap → Act (Unit {0})
  unfolding sandbox_isolation_of_os
  verify_bubblewrap bubblewrap = rethrow sandbox_isolation_of_os (do
    link ← host.is_symlink bubblewrap.path
    changed ← either link (do
      resolved ← host.resolve bubblewrap.path
      either (not (resolved == bubblewrap.path)) (do
        file ← host.is_file bubblewrap.path
        either (not file) (do
          executable ← host.is_executable bubblewrap.path
          either (not executable) (do
            digest ← host.file_sha256 bubblewrap.path
            lift (ok (not (digest == bubblewrap.sha256)))))))
    lift (raise_if changed sandbox_isolation))
