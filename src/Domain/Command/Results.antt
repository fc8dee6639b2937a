-- ===== src/Domain/Command/Results.antt =====
-- What `ExecutionResult.__post_init__` leaves true of every result.
use alicerce.Prelude.{◌≤◌, ◌≡◌, not, ◌||◌, true, false, Option, none, some, length, ltb, arith, ℤ}
use alicerce.Errors.{ok, bind_ok, raise_if_ok, value_error}
use alicerce.DateTime.{is_utc, before}
use alicerce.Domain.Command.{
  ExecutionResult, ExecutionTermination, exited, timed_out, cancelled, output_limit,
  new_execution_result, require_exit_code,
}

-- An exit code is there exactly for EXITED.
abbrev pub ExitFits : ExecutionTermination → Option ℤ → Type 0
ExitFits exited none = ⊥
ExitFits exited (some _) = Unit
ExitFits _ none = Unit
ExitFits _ (some _) = ⊥

pub record IsExecution (r : ExecutionResult) : Type 0 where
  pub exit : ExitFits r.termination r.exit_code
  pub stdout : length r.stdout ≤ r.request.limits.stdout_max_bytes
  pub stderr : length r.stderr ≤ r.request.limits.stderr_max_bytes
  pub started : is_utc r.started_at ≡ true
  pub finished : is_utc r.finished_at ≡ true
  pub ordered : before r.finished_at r.started_at ≡ false

exit_fits :
    (t : ExecutionTermination) (code : Option ℤ) {u : Unit {0}}
    → require_exit_code t code ≡ ok u
    → ExitFits t code
unfolding require_exit_code
exit_fits exited none h = absurd (ground arith)
exit_fits exited (some c) h = tt
exit_fits timed_out none h = tt
exit_fits cancelled none h = tt
exit_fits output_limit none h = tt
exit_fits timed_out (some c) h = absurd (ground arith)
exit_fits cancelled (some c) h = absurd (ground arith)
exit_fits output_limit (some c) h = absurd (ground arith)

-- A result that is constructed is the given one; it has an exit code exactly if it exited, its output
-- is within the request's ceilings, and it ends, in UTC, no earlier than it starts.
pub new_execution_result_sound :
    (x r : ExecutionResult) → new_execution_result x ≡ ok r → IsExecution x × (x ≡ r)
unfolding new_execution_result
new_execution_result_sound x r h =
    let (_, code, h1) = bind_ok (require_exit_code x.termination x.exit_code) _ h in
    let (out, h2) = raise_if_ok (ltb x.request.limits.stdout_max_bytes (length x.stdout)) _ _ h1 in
    let (error, h3) =
      raise_if_ok (ltb x.request.limits.stderr_max_bytes (length x.stderr)) _ _ h2 in
    let (zone, h4) = raise_if_ok (not (is_utc x.started_at) || not (is_utc x.finished_at)) _ _ h3 in
    let (order, h5) = raise_if_ok (before x.finished_at x.started_at) value_error (ok x) h4 in
    (
      record {
        exit = exit_fits x.termination x.exit_code code;
        stdout = ground arith;
        stderr = ground arith;
        started = ground arith;
        finished = ground arith;
        ordered = order;
      },
      ground arith,
    )
