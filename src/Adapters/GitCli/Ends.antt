-- ===== src/Adapters/GitCli/Ends.antt =====
-- The end of the capture of the output of git.
use mathlib.Core.Path.{subst}
use alicerce.Prelude.{ℕ, zero, suc, ◌+◌, ◌≤◌, ◌≡◌, ◌≢◌, refl, sym, ap, ◌∙◌, inl, inr, ◌⊎◌, ℤ, arith}
use alicerce.Errors.{Exn, Result, ok, err, loop_not_ended}
use alicerce.Adapters.Host.{Action, lift, action_ok, ◌>>=◌, ◌>>◌}
use alicerce.Adapters.LinuxSandbox.Bubblewrap.{out_pipe, err_pipe}
use alicerce.Adapters.GitCli.Run.{
  GitHost, GitCli, GitOutput, no_output, total, capture_fuel, take_turn, take_all, ending_with,
  capture_bounded,
}
use alicerce.Adapters.GitCli.Fuel.{
  Ends, NoLoops, bind_ends, then_ends, given_ends, remaining, if_registered-all,
}
use alicerce.Adapters.GitCli.Turns.{take_turn_ends, take_turn-Steps}

module _ ⦃host : GitHost⦄ (safe : NoLoops host) (git : GitCli) (process : host.Process) where
  value_of :
      {A : Type 0} {a c : A} {world last : host.World} → lift (ok a) world ≡ (ok c, last) → a ≡ c
  value_of h = cc h

  take_all_ends :
      (fuel deadline : ℕ) (output : GitOutput)
      → total output ≤ git.max_output_bytes
      → remaining git.max_output_bytes output ≤ fuel
      → Ends (take_all fuel git process deadline output)
  unfolding take_all
  take_all_ends zero deadline output within enough = absurd (omega arith)
  take_all_ends (suc fuel) deadline output within enough =
      if_registered-all Ends output.registered (lift (ok output))
        (do
          longer ← take_turn git process deadline output
          take_all fuel git process deadline longer)
        (given_ends output)
        (bind_ends (take_turn git process deadline output) (take_all fuel git process deadline)
          (take_turn_ends safe git process deadline output)
          (λ world middle longer turned last.
            let step =
              take_turn-Steps safe git process deadline output world middle longer within turned in
            let less = step.less in
            take_all_ends fuel deadline longer step.within (omega arith) middle last))

  abbrev Bounded : Action host.World GitOutput → Type 0
  Bounded action =
      (world last : host.World) (next : GitOutput)
      → action world ≡ (ok next, last)
      → total next ≤ git.max_output_bytes

  take_all-Bounded :
      (fuel deadline : ℕ) (output : GitOutput)
      → total output ≤ git.max_output_bytes
      → Bounded (take_all fuel git process deadline output)
  unfolding take_all
  take_all-Bounded zero deadline output within = λ world last next h. absurd (ground arith)
  take_all-Bounded (suc fuel) deadline output within =
      if_registered-all Bounded output.registered (lift (ok output))
        (do
          longer ← take_turn git process deadline output
          take_all fuel git process deadline longer)
        (λ world last next h.
          subst (λ (x : GitOutput). total x ≤ git.max_output_bytes) (value_of h) within)
        (λ world last next h.
          let (longer, w1, turned, h1) =
            action_ok (take_turn git process deadline output) (take_all fuel git process deadline)
              world h in
          let step =
            take_turn-Steps safe git process deadline output world w1 longer within turned in
          take_all-Bounded fuel deadline longer step.within w1 last next h1)

  abbrev reading : ℕ → Action host.World GitOutput
  reading deadline = do
    host.register process out_pipe
    host.register process err_pipe
    take_all (capture_fuel git) git process deadline no_output

  reading_ends : (deadline : ℕ) → Ends (reading deadline)
  reading_ends deadline =
      then_ends (host.register process out_pipe) _ (safe.register process out_pipe) (λ _.
        then_ends (host.register process err_pipe) _ (safe.register process err_pipe)
          (λ _. take_all_ends (capture_fuel git) deadline no_output (omega arith) (omega arith)))

  closed_ends :
      (result : Result GitOutput)
      → (result ≡ err loop_not_ended → ⊥)
      → Ends (ending_with (host.close_selector process) result)
  unfolding ending_with
  closed_ends result ended =
      then_ends (host.close_selector process) _ (safe.close_selector process)
        (λ _ world last h. ended (ap (λ (x : Result GitOutput × host.World). x.0) h))

  capture_bounded_ends : Ends (capture_bounded git process)
  unfolding capture_bounded
  capture_bounded_ends = then_ends host.monotonic _ safe.monotonic (λ start.
      then_ends
        (λ world.
          let (result, after) = reading (start + git.timeout_ns) world in
          ending_with (host.close_selector process) result after)
        _
        (λ world last h.
          let out = reading (start + git.timeout_ns) world in
          closed_ends out.0
            (λ e. reading_ends (start + git.timeout_ns) world out.1 (
              ap (λ (x : Result GitOutput). let y : Result GitOutput × host.World = (x, out.1) in y)
                e))
            out.1 last h)
        (λ output.
          then_ends (host.wait process) _ (safe.wait process) (λ code. given_ends (output, code))))

  capture_bounded-total :
      (world last : host.World) (output : GitOutput) (code : ℤ)
      → capture_bounded git process world ≡ (ok (output, code), last)
      → total output ≤ git.max_output_bytes
  unfolding capture_bounded ending_with
  capture_bounded-total world last output code h =
      let (start, w1, _, h1) = action_ok host.monotonic _ world h in
      let out = reading (start + git.timeout_ns) w1 in
      let (taken, w2, ended, h2) =
        action_ok (λ _. ending_with (host.close_selector process) out.0 out.1) _ w1 h1 in
      let (_, w3, _, kept) =
        action_ok (host.close_selector process) (λ _. lift out.0) out.1 ended in
      let (_, w4, _, made) = action_ok (host.wait process) _ w2 h2 in
      let same : taken ≡ output = ap (λ (x : GitOutput × ℤ). x.0) (value_of made) in
      let whole : out ≡ (ok taken, out.1) =
        ap
          (λ (x : Result GitOutput × host.World).
            let y : Result GitOutput × host.World = (x.0, out.1) in y)
          kept in
      let (_, w5, _, k1) = action_ok (host.register process out_pipe) _ w1 whole in
      let (_, w6, _, k2) = action_ok (host.register process err_pipe) _ w5 k1 in
      subst (λ (x : GitOutput). total x ≤ git.max_output_bytes) same
        (take_all-Bounded (capture_fuel git) (start + git.timeout_ns) no_output (omega arith) w6
          out.1 taken k2)

  either_way :
      (world : host.World) (out : Result (GitOutput × ℤ) × host.World)
      → out ≡ capture_bounded git process world
      → ((output : GitOutput) × (code : ℤ) × (last : host.World) × (capture_bounded git process
              world
            ≡ (ok (output, code), last))
          × (total output ≤ git.max_output_bytes))
        ⊎ ((e : Exn) × (last : host.World) × (capture_bounded git process world ≡ (err e, last))
            × (e ≢ loop_not_ended))
  either_way world (ok (output, code), last) h =
      inl (output, code, last, sym h, capture_bounded-total world last output code (sym h))
  either_way world (err e, last) h = inr (
    e,
    last,
    sym h,
    λ loops. capture_bounded_ends world last (
        sym h
        ∙ ap (λ (x : Exn). let y : Result (GitOutput × ℤ) × host.World = (err x, last) in y) loops),
  )

  -- On a host whose operations do not stand for a loop of the program, the capture of a run of git ends
  -- on its fuel: with an output within its git.max_output_bytes and a return code, or with an exception.
  pub capture_bounded_returns :
      (world : host.World)
      → ((output : GitOutput) × (code : ℤ) × (last : host.World) × (capture_bounded git process
              world
            ≡ (ok (output, code), last))
          × (total output ≤ git.max_output_bytes))
        ⊎ ((e : Exn) × (last : host.World) × (capture_bounded git process world ≡ (err e, last))
            × (e ≢ loop_not_ended))
  capture_bounded_returns world = either_way world (capture_bounded git process world) refl
