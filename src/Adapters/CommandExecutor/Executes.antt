-- ===== src/Adapters/CommandExecutor/Executes.antt =====
-- What a result of the executor means.
use alicerce.Prelude.{◌≡◌, ap, true}
use alicerce.Errors.{Result, ok}
use alicerce.Domain.Workspace.{WorkspaceIdentity}
use alicerce.Domain.Command.{ExecutionResult}
use alicerce.Domain.CommandPolicy.{AuthorizedCommand, authorized_command_eq}
use alicerce.Adapters.Host.{lift, action_ok}
use alicerce.Adapters.FileSystem.{HostPath, is_relative_to}
use alicerce.Adapters.CommandExecutor.{
  TrustedExecutable, SandboxResult, Host, Act, verify, resolve_working_directory, with_lease,
  invocation, result_of,
}

module _ ⦃host : Host⦄ where
  -- One run of the sandbox, on the request of the command, under a lease of its workspace, in its working
  -- directory below the root of that lease, directly after a verification of the executable that
  -- succeeded.
  pub record RunsVerified (command : AuthorizedCommand) (executable : TrustedExecutable)
      (r : ExecutionResult) : Type 0 where
    pub root : HostPath
    pub directory : HostPath
    pub before_lease : host.World
    pub under_lease : host.World
    pub before_check : host.World
    pub before_run : host.World
    pub after_run : host.World
    pub after_check : host.World
    pub output : SandboxResult
    pub leased : host.enter_lease command.request.workspace before_lease ≡ (ok root, under_lease)
    pub located :
        resolve_working_directory root command.request.working_directory under_lease
        ≡ (ok directory, before_check)
    pub below : is_relative_to directory root ≡ true
    pub verified : verify executable before_check ≡ (ok tt, before_run)
    pub ran :
        host.run (invocation command executable root directory) before_run ≡ (ok output, after_run)
    pub verified_again : verify executable after_run ≡ (ok tt, after_check)
    pub result : r ≡ result_of command output

  lifted :
      {A : Type 0} (r : Result A) (world : host.World) {a : A} {last : host.World}
      → lift r world ≡ (ok a, last)
      → r ≡ ok a
  lifted r world h = ap (λ (x : Result _ × host.World). x.0) h

  leased :
      (workspace : WorkspaceIdentity) (body : HostPath → Act ExecutionResult) (world : host.World)
      {r : ExecutionResult} {last : host.World}
      → with_lease workspace body world ≡ (ok r, last)
      → (root : HostPath) × (w1 : host.World) × (w2 : host.World) × (host.enter_lease workspace
            world
          ≡ (ok root, w1))
        × (body root w1 ≡ (ok r, w2))
  unfolding with_lease
  leased workspace body world {r} h =
      let (root, w1, entered, h1) = action_ok (host.enter_lease workspace) _ world h in
      let (_, w2, _, h2) =
        action_ok (host.exit_lease workspace) (λ _. lift (body root w1).0) (body root w1).1 h1 in
      (
        root,
        w1,
        (body root w1).1,
        entered,
        ap
            (λ (x : Result ExecutionResult).
              let out : Result ExecutionResult × host.World = (x, (body root w1).1) in out)
            (lifted (body root w1).0 w2 h2),
      )
