-- ===== src/Adapters/LinuxSandbox/Confines.antt =====
-- What the command line of bubblewrap grants.
use alicerce.Prelude.{◌≡◌, true, false, List, [], ◌∷◌, ◌++◌, Text, text, elem, nat_eq, list_eq}
use alicerce.Errors.{ok}
use alicerce.Adapters.CommandExecutor.{SandboxInvocation}
use alicerce.Adapters.LinuxSandbox.Bubblewrap.{
  environment_options, PinnedBubblewrap, path_text, base_command, build_command,
}

-- The options bind nothing writable but the workspace, start the command in the working directory at
-- its place below that mount, and set the environment after them.
pub record IsConfined (bubblewrap : PinnedBubblewrap) (invocation : SandboxInvocation)
    (options : List Text) : Type 0 where
  pub relative : List Text
  pub below : invocation.working_directory ≡ invocation.workspace_root ++ relative
  pub before : List Text
  pub no_other_bind : elem (text "--bind") before ≡ false
  pub no_other_directory : elem (text "--chdir") before ≡ false
  pub mounted :
      options
      ≡ before
        ++ text "--bind"
          ∷ path_text invocation.workspace_root
          ∷ text "/workspace"
          ∷ text "--chdir"
          ∷ path_text (text "workspace" ∷ relative)
          ∷ environment_options invocation.environment
  pub no_network : elem (text "--unshare-net") options ≡ true
  pub command :
      (arguments : List Text)
      → build_command bubblewrap (record invocation { arguments = arguments })
        ≡ ok (options ++ text "--" ∷ text "/alicerce/executable" ∷ arguments)

-- The options before the mount of the workspace.
abbrev first_options : PinnedBubblewrap → SandboxInvocation → List Text
first_options bubblewrap invocation =
    base_command bubblewrap
    ++ text "--dir"
      ∷ text "/alicerce"
      ∷ text "--ro-bind"
      ∷ path_text invocation.executable
      ∷ text "/alicerce/executable"
      ∷ text "--chmod"
      ∷ text "0555"
      ∷ text "/alicerce"
      ∷ text "--dir"
      ∷ text "/workspace"
      ∷ []
