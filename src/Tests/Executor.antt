-- ===== src/Tests/Executor.antt =====
-- The executor on a host that counts its answers.
use alicerce.Prelude.{ℕ, suc, ◌≡◌, refl, true, false, some, [], ◌∷◌, list_eq, nat_eq, text, pos}
use alicerce.Errors.{ok}
use alicerce.DateTime.{before}
use alicerce.Domain.Command.{exited, new_execution_result, require_exit_code}
use alicerce.Domain.Command.Results.{IsExecution, new_execution_result_sound}
use alicerce.Domain.CommandPolicy.{authorized_command_eq}
use alicerce.Adapters.Host.{Action}
use alicerce.Adapters.CommandExecutor.{TrustedExecutable, SandboxResult, Host}
use alicerce.Tests.Samples.{noon, later, request}
use alicerce.Tests.Commands.{outcome}

abbrev python : TrustedExecutable
python = record {
  executable_id = request.executable;
  path = text "usr" ∷ text "python" ∷ [];
  sha256 = 7 ∷ [];
}

abbrev output : SandboxResult
output = record {
  termination = exited;
  exit_code = some (pos 0);
  stdout = text "Python 3";
  stderr = [];
  started_at = noon;
  finished_at = later;
}

-- The world is the number of answers.
abbrev says {ℓ} : {A : Type ℓ} → A → Action ℕ A
says a n = (ok a, suc n)

instance abbrev counting_host : Host
counting_host = record {
  World = ℕ;
  is_symlink = λ _. says false;
  resolve = λ path. says path;
  is_file = λ _. says true;
  is_dir = λ _. says true;
  is_executable = λ _. says true;
  file_sha256 = λ _. says (7 ∷ []);
  enter_lease = λ _. says (text "workspaces" ∷ []);
  exit_lease = λ _. says tt;
  supports = λ _. says true;
  run = λ _. says output;
}

result_fits : new_execution_result outcome ≡ ok outcome
unfolding new_execution_result require_exit_code before
result_fits = refl

new_execution_result_sound_example : IsExecution outcome × (outcome ≡ outcome)
new_execution_result_sound_example = new_execution_result_sound outcome outcome result_fits
