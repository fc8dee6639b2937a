-- ===== src/Adapters/LinuxSandbox/Timely.antt =====
-- The capture loop of the sandbox and its deadline.
use mathlib.Core.Path.{subst}
use alicerce.Prelude.{
  ℕ, zero, suc, ◌+◌, ◌-◌, ◌≤◌, ◌≡◌, refl, ap, inl, inr, true, false, Option, none, some, List, [],
  ◌∷◌, leb, Bool-cases, arith,
}
use alicerce.Errors.{Result, ok, err}
use alicerce.Domain.Command.{CommandLimits}
use alicerce.Adapters.Host.{Action, lift, action_ok}
use alicerce.Adapters.LinuxSandbox.Bubblewrap.{SandboxHost, Channel, out_pipe, err_pipe}
use alicerce.Adapters.LinuxSandbox.Capture.{
  Captured, nothing_captured, is_exited, handle_events, handle_ready, capture_turn, capture_loop,
  enter_capture, closing, with_capture,
}
use alicerce.Adapters.LinuxSandbox.Progress.{is_in, left, Reads, handle_events-less}

-- What the documentation of Python's `time`, `selectors` and `os` says: the clock, in nanoseconds,
-- does not go back; `select` reports pipes that are registered, and none only after its time; and the
-- first pipe that it reports is ready, so that a read of it does not block.
pub record MonotonicClock (host : SandboxHost) : Type 0 where
  pub clock : host.World → ℕ
  pub reads :
      (world : host.World) (now : ℕ) (after : host.World)
      → host.monotonic world ≡ (ok now, after)
      → (now ≡ clock world) × (clock world ≤ clock after)
  pub polls :
      (process : host.Process) (world : host.World)
      → clock world ≤ clock (host.poll process world).1
  pub expires :
      (process : host.Process) (pipes : List Channel) (time : ℕ) (world after : host.World)
      → host.select process pipes time world ≡ (ok [], after)
      → clock world + time ≤ clock after
  pub reports :
      (process : host.Process) (pipes : List Channel) (time : ℕ) (world after : host.World)
      (pipe : Channel) (events : List Channel)
      → host.select process pipes time world ≡ (ok (pipe ∷ events), after)
      → (is_in pipe pipes ≡ true) × Reads host process pipe after

module _ ⦃host : SandboxHost⦄ (c : MonotonicClock host) (process : host.Process)
    (limits : CommandLimits) where
  at_end :
      {A : Type 0} (out : Result A × host.World) {r : Result A} {last : host.World} (n : ℕ)
      → n ≤ c.clock out.1
      → out ≡ (r, last)
      → n ≤ c.clock last
  at_end out n h e = subst (λ (x : Result _ × host.World). n ≤ c.clock x.1) e h

  -- A rest of the loop that does not run out of fuel where `Holds`.
  abbrev Returns :
      (Captured → host.World → Type 0) → (Captured → Action host.World (Option Captured)) → Type 0
  Returns Holds turns =
      (captured : Captured) (world last : host.World)
      → Holds captured world
      → turns captured world ≡ (ok none, last)
      → ⊥

  abbrev Expired : ℕ → Captured → host.World → Type 0
  Expired deadline captured world = deadline ≤ c.clock world

  abbrev IsLeft : ℕ → Captured → host.World → Type 0
  IsLeft n captured world = suc (left limits captured) ≤ n

  is_some :
      {a : Captured} {world last : host.World} → lift (ok (some a)) world ≡ (ok none, last) → ⊥
  is_some h = absurd (ground arith)

  -- Past the deadline, the loop returns at its next turn.
  Expired-turn :
      (deadline : ℕ) (turns : Captured → Action host.World (Option Captured)) (pipes : List Channel)
      → Returns
          (Expired deadline)
          (λ captured. capture_turn process limits deadline captured turns pipes)
  unfolding capture_turn
  Expired-turn deadline turns [] captured world last late done = is_some done
  Expired-turn deadline turns (pipe ∷ pipes) captured world last late done =
      let (now, w1, read, h1) = action_ok host.monotonic _ world done in
      let (now_is, later) = c.reads world now w1 read in
      let over : leb deadline now ≡ true = ground arith in is_some (rw over at h1)

  ready_turn :
      (n deadline time : ℕ) (turns : Captured → Action host.World (Option Captured))
      (captured : Captured) (events : List Channel) (w1 w2 last : host.World)
      → deadline ≤ c.clock w1 + time
      → left limits captured ≤ n
      → host.select process captured.registered time w1 ≡ (ok events, w2)
      → Returns (Expired deadline) turns
      → Returns (IsLeft n) turns
      → handle_ready process limits captured turns events w2 ≡ (ok none, last)
      → ⊥
  unfolding handle_ready
  ready_turn n deadline time turns captured [] w1 w2 last due size selected expired less done =
      let (code, w3, polled, h3) = action_ok (host.poll process) _ w2 done in
      let waited = c.expires process captured.registered time w1 w2 selected in
      let later = at_end (host.poll process w2) (c.clock w2) (c.polls process w2) polled in
      expired captured w3 last (omega arith) h3
  ready_turn n deadline time turns captured (pipe ∷ events) w1 w2 last due size selected expired
        less done =
      let (longer, w3, handled, h3) =
        action_ok (handle_events process limits (pipe ∷ events) captured) _ w2 done in
      let (registered, ready) =
        c.reports process captured.registered time w1 w2 pipe events selected in
      elim (Bool-cases (is_exited longer.termination)) [
        | inl more ↦
            let smaller =
              handle_events-less process limits pipe events captured w2 w3 longer registered ready
                handled more in
            less longer w3 last (omega arith) (rw more at h3)
        | inr over ↦ is_some (rw over at h3)
      ]

  late : (a b : ℕ) → leb a b ≡ false → suc b ≤ a
  late a b h = ground arith

  early_turn :
      (n deadline : ℕ) (turns : Captured → Action host.World (Option Captured))
      (captured : Captured) (pipes : List Channel) (world last : host.World)
      → pipes ≡ captured.registered
      → left limits captured ≤ n
      → Returns (Expired deadline) turns
      → Returns (IsLeft n) turns
      → capture_turn process limits deadline captured turns pipes world ≡ (ok none, last)
      → ⊥
  unfolding capture_turn
  early_turn n deadline turns captured [] world last all size expired less done = is_some done
  early_turn n deadline turns captured (pipe ∷ pipes) world last all size expired less done =
      let (now, w1, read, h1) = action_ok host.monotonic _ world done in
      let (now_is, later) = c.reads world now w1 read in
      elim (Bool-cases (leb deadline now)) [
        | inl over ↦ is_some (rw over at h1)
        | inr early ↦
            let before = late deadline now early in
            let (events, w2, selected, h2) =
              action_ok (host.select process (pipe ∷ pipes) (deadline - now)) _ w1
                (rw early at h1) in
            ready_turn n deadline (deadline - now) turns captured events w1 w2 last (omega arith)
              size
              (subst (λ x. host.select process x (deadline - now) w1 ≡ (ok events, w2)) all
                selected)
              expired less h2
      ]

  Expired-loop :
      (fuel deadline : ℕ)
      → suc zero ≤ fuel
      → Returns (Expired deadline) (capture_loop fuel process limits deadline)
  unfolding capture_loop
  Expired-loop zero deadline enough captured world last late done = absurd (omega arith)
  Expired-loop (suc fuel) deadline enough captured world last late done =
      Expired-turn deadline (capture_loop fuel process limits deadline) captured.registered captured
        world last late done

  capture_loop-Returns :
      (fuel deadline n : ℕ)
      → suc n ≤ fuel
      → Returns (IsLeft n) (capture_loop fuel process limits deadline)
  unfolding capture_loop
  capture_loop-Returns zero deadline n enough captured world last size done = absurd (omega arith)
  capture_loop-Returns (suc fuel) deadline zero enough captured world last size done =
      absurd (omega arith)
  capture_loop-Returns (suc fuel) deadline (suc n) enough captured world last size done =
      early_turn n deadline (capture_loop fuel process limits deadline) captured captured.registered
        world last refl (omega arith) (Expired-loop fuel deadline (omega arith))
        (capture_loop-Returns fuel deadline n (omega arith)) done

  closed_none :
      (tried : Result (Option Captured)) (world last : host.World)
      → closing process tried world ≡ (ok none, last)
      → tried ≡ ok none
  unfolding closing
  closed_none (ok captured) world last done =
      let (_, w1, _, h1) = action_ok (host.close process) _ world done in
      ap (λ (x : Result (Option Captured) × host.World). x.0) h1
  closed_none (err e) world last done =
      let (_, w1, _, h1) = action_ok (host.close process) _ world done in absurd (ground arith)

  pub with_capture-Returns :
      (deadline : ℕ) (world last : host.World)
      → with_capture
          (limits.stdout_max_bytes + limits.stderr_max_bytes + 4)
          process
          limits
          deadline
          world
        ≡ (ok none, last)
      → ⊥
  unfolding with_capture
  with_capture-Returns deadline world last done =
      let fuel = limits.stdout_max_bytes + limits.stderr_max_bytes + 4 in
      let (_, w1, entered, h1) =
        action_ok (enter_capture process (out_pipe ∷ err_pipe ∷ [])) _ world done in
      let looped = capture_loop fuel process limits deadline nothing_captured w1 in
      let same = closed_none looped.0 looped.1 last h1 in
      capture_loop-Returns fuel deadline (limits.stdout_max_bytes + limits.stderr_max_bytes + 3)
        (omega arith) nothing_captured w1 looped.1 (omega arith)
        (ap
          (λ (x : Result (Option Captured)).
            let out : Result (Option Captured) × host.World = (x, looped.1) in out)
          same)
