-- ===== src/Tests/Git.antt =====
-- git on a host whose process prints a baseline, for the first command, and then nothing.
use alicerce.Prelude.{
  ℕ, suc, ◌≤◌, ltb, if◌then◌else◌, ◌≡◌, ◌≢◌, ◌⊎◌, refl, true, false, none, some, [], ◌∷◌, ◌++◌,
  ◌==◌, Bytes, text, ℤ, pos, int_eq, ℤ-discrete, list_eq, nat_eq, list-discrete, ℕ_discrete, arith,
}
use alicerce.Errors.{Exn, ok, err, loop_not_ended}
use alicerce.Domain.Patterns.{strip}
use alicerce.Adapters.Host.{Action}
use alicerce.Adapters.FileSystem.{HostPath}
use alicerce.Adapters.GitCli.Run.{
  GitHost, GitCli, GitOutput, total, capture_bounded, run, take_all, take_turn, take_ready,
  take_events, take_chunk, append_chunk, drop_pipe, ending_with,
}
use alicerce.Adapters.GitCli.{
  MaterializedBaseline, validate_repository, with_control, prepare_control, read_repository,
  verify_baseline,
}
use alicerce.Adapters.GitCli.Fuel.{NoLoops}
use alicerce.Adapters.GitCli.Ends.{capture_bounded_returns}
use alicerce.Adapters.GitCli.Verifies.{IsVerified, verify_baseline_sound}
use alicerce.Tests.Samples.{identity, sha}

abbrev says {ℓ} : {A : Type ℓ} → A → Action ℕ A
says a n = (ok a, suc n)

abbrev now : Action ℕ ℕ
now n = (ok n, suc n)

-- the first chunk that is read is the commit
abbrev printing : Action ℕ Bytes
printing n = (ok (if ltb n 15 then sha else []), suc n)

instance abbrev printing_host : GitHost
printing_host = record {
  World = ℕ;
  Process = Unit;
  resolve = λ path. says path;
  exists = λ _. says true;
  is_dir = λ _. says true;
  is_symlink = λ _. says false;
  is_file = λ _. says true;
  is_executable = λ _. says true;
  mkdir = λ _. says tt;
  rmtree = λ _. says tt;
  make_temporary = λ _ directory. says (directory ++ text "control" ∷ []);
  remove_temporary = λ _. says tt;
  popen = λ _ _ _. says tt;
  monotonic = now;
  register = λ _ _. says tt;
  select = λ _ pipes _. says pipes;
  read_chunk = λ _ _ _. printing;
  close_selector = λ _. says tt;
  poll = λ _. says none;
  wait = λ _. says (pos 0);
  killpg = λ _. says true;
  kill = λ _. says true;
  decode = λ bytes. some bytes;
}

abbrev git : GitCli
git = record {
  executable = text "usr" ∷ text "git" ∷ [];
  timeout_ns = 1000;
  max_output_bytes = 100;
}

no_loops : NoLoops printing_host
no_loops = record {
  monotonic = λ world last h. ground arith;
  register = λ _ _ world last h. ground arith;
  select = λ _ _ _ world last h. ground arith;
  read_chunk = λ _ _ _ world last h. ground arith;
  close_selector = λ _ world last h. ground arith;
  poll = λ _ world last h. ground arith;
  wait = λ _ world last h. ground arith;
  killpg = λ _ world last h. ground arith;
  kill = λ _ world last h. ground arith;
}

capture_bounded_returns_example :
    ((output : GitOutput) × (code : ℤ) × (last : ℕ) × (capture_bounded git tt 0
        ≡ (ok (output, code), last))
      × (total output ≤ git.max_output_bytes))
    ⊎ ((e : Exn) × (last : ℕ) × (capture_bounded git tt 0 ≡ (err e, last)) × (e ≢ loop_not_ended))
capture_bounded_returns_example = capture_bounded_returns no_loops git tt 0

abbrev repository : HostPath
repository = text "workspaces" ∷ text "w1" ∷ []

abbrev verified : MaterializedBaseline
verified = record { repository = repository; baseline_sha = identity.baseline_sha }

verifies : verify_baseline git repository identity.baseline_sha 0 ≡ (ok verified, 32)
unfolding verify_baseline validate_repository with_control read_repository prepare_control run
    capture_bounded take_all take_turn take_ready take_events take_chunk append_chunk drop_pipe
    ending_with strip ◌==◌ list-discrete ℕ_discrete ℤ-discrete
verifies = refl

verify_baseline_sound_example : IsVerified git repository identity.baseline_sha verified
verify_baseline_sound_example =
    verify_baseline_sound git repository identity.baseline_sha 0 32 verified verifies
