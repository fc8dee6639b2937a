-- ===== src/Adapters/LinuxSandbox/Bounded.antt =====
-- What the capture keeps, and the ceilings of the request.
use mathlib.Core.Path.{subst}
use alicerce.Prelude.{
  ℕ, zero, suc, ◌-◌, ◌≤◌, ◌≡◌, ap, inl, inr, Option, none, some, List, [], ◌∷◌, ◌++◌, leb, length,
  length-append, Bytes, Bool-cases, arith,
}
use alicerce.Errors.{Result, ok, err}
use alicerce.Domain.Command.{CommandLimits, timed_out}
use alicerce.Adapters.Host.{Action, lift, action_ok}
use alicerce.Adapters.LinuxSandbox.Bubblewrap.{SandboxHost, Channel, out_pipe, err_pipe}
use alicerce.Adapters.LinuxSandbox.Capture.{
  Captured, nothing_captured, first_bytes, unregister, extend, is_exited, handle_chunk,
  handle_ready, capture_turn, handle_events, capture_loop, closing, with_capture, enter_capture,
}

length-first_bytes : (n : ℕ) (b : Bytes) → length (first_bytes n b) ≤ n
unfolding first_bytes
length-first_bytes zero b = omega arith
length-first_bytes (suc n) [] = omega arith
length-first_bytes (suc n) (byte ∷ bytes) = let below = length-first_bytes n bytes in omega arith

length-kept :
    (ceiling : ℕ) (target chunk : Bytes)
    → length target ≤ ceiling
    → length (target ++ first_bytes (ceiling - length target) chunk) ≤ ceiling
length-kept ceiling target chunk h =
    let sum = length-append target (first_bytes (ceiling - length target) chunk) in
    let below = length-first_bytes (ceiling - length target) chunk in omega arith

pub record IsWithin (limits : CommandLimits) (captured : Captured) : Type 0 where
  pub stdout : length captured.stdout ≤ limits.stdout_max_bytes
  pub stderr : length captured.stderr ≤ limits.stderr_max_bytes

extend-IsWithin :
    (limits : CommandLimits) (captured : Captured) (pipe : Channel) (chunk : Bytes)
    → IsWithin limits captured
    → IsWithin limits (extend limits captured pipe chunk)
unfolding extend
extend-IsWithin limits captured out_pipe chunk h = record {
  stdout = length-kept limits.stdout_max_bytes captured.stdout chunk h.stdout;
  stderr = h.stderr;
}
extend-IsWithin limits captured err_pipe chunk h = record {
  stdout = h.stdout;
  stderr = length-kept limits.stderr_max_bytes captured.stderr chunk h.stderr;
}

module _ ⦃host : SandboxHost⦄ (process : host.Process) (limits : CommandLimits) where
  value_of :
      {A : Type 0} {a c : A} {world last : host.World} → lift (ok a) world ≡ (ok c, last) → a ≡ c
  value_of h = cc h

  some_of :
      {A : Type 0} {a c : A} {world last : host.World}
      → lift (ok (some a)) world ≡ (ok (some c), last)
      → a ≡ c
  some_of h = cc h

  -- A rest of the loops that keeps to the ceilings.
  abbrev Keeps : (Captured → Action host.World Captured) → Type 0
  Keeps turns =
      (captured : Captured) (world last : host.World) (next : Captured)
      → IsWithin limits captured
      → turns captured world ≡ (ok next, last)
      → IsWithin limits next

  abbrev KeepsSome : (Captured → Action host.World (Option Captured)) → Type 0
  KeepsSome turns =
      (captured : Captured) (world last : host.World) (next : Captured)
      → IsWithin limits captured
      → turns captured world ≡ (ok (some next), last)
      → IsWithin limits next

  handle_chunk-Keeps :
      (pipe : Channel) (turns : Captured → Action host.World Captured) (chunk : Option Bytes)
      → Keeps turns
      → Keeps (λ captured. handle_chunk limits pipe captured turns chunk)
  unfolding handle_chunk
  handle_chunk-Keeps pipe turns none keeps captured world last next h done =
      keeps captured world last next h done
  handle_chunk-Keeps pipe turns (some []) keeps captured world last next h done =
      keeps (record captured { registered = unregister pipe captured.registered }) world last next
        (record { stdout = h.stdout; stderr = h.stderr }) done
  handle_chunk-Keeps pipe turns (some (byte ∷ bytes)) keeps captured world last next h done =
      let longer = extend limits captured pipe (byte ∷ bytes) in
      let within = extend-IsWithin limits captured pipe (byte ∷ bytes) h in
      elim (Bool-cases (is_exited longer.termination)) [
        | inl more ↦ keeps longer world last next within (rw more at done)
        | inr over ↦ subst (IsWithin limits) (value_of (rw over at done)) within
      ]

  handle_events-Keeps : (events : List Channel) → Keeps (handle_events process limits events)
  unfolding handle_events
  handle_events-Keeps [] captured world last next h done = subst (IsWithin limits) (value_of done) h
  handle_events-Keeps (pipe ∷ events) captured world last next h done =
      let (chunk, w1, read, h1) = action_ok (host.read_chunk process pipe) _ world done in
      handle_chunk-Keeps pipe (handle_events process limits events) chunk
        (handle_events-Keeps events) captured w1 last next h h1

  handle_ready-Keeps :
      (turns : Captured → Action host.World (Option Captured)) (events : List Channel)
      → KeepsSome turns
      → KeepsSome (λ captured. handle_ready process limits captured turns events)
  unfolding handle_ready
  handle_ready-Keeps turns [] keeps captured world last next h done =
      let (code, w1, _, h1) = action_ok (host.poll process) _ world done in
      keeps captured w1 last next h h1
  handle_ready-Keeps turns (event ∷ events) keeps captured world last next h done =
      let (longer, w1, handled, h1) =
        action_ok (handle_events process limits (event ∷ events) captured) _ world done in
      let within = handle_events-Keeps (event ∷ events) captured world w1 longer h handled in
      elim (Bool-cases (is_exited longer.termination)) [
        | inl more ↦ keeps longer w1 last next within (rw more at h1)
        | inr over ↦ subst (IsWithin limits) (some_of (rw over at h1)) within
      ]

  capture_turn-Keeps :
      (deadline : ℕ) (turns : Captured → Action host.World (Option Captured)) (pipes : List Channel)
      → KeepsSome turns
      → KeepsSome (λ captured. capture_turn process limits deadline captured turns pipes)
  unfolding capture_turn
  capture_turn-Keeps deadline turns [] keeps captured world last next h done =
      subst (IsWithin limits) (some_of done) h
  capture_turn-Keeps deadline turns (pipe ∷ pipes) keeps captured world last next h done =
      let (now, w1, _, h1) = action_ok host.monotonic _ world done in
      elim (Bool-cases (leb deadline now)) [
        | inl late ↦
            let ends : record captured { termination = timed_out } ≡ next =
              some_of (rw late at h1) in
            subst (IsWithin limits) ends (record { stdout = h.stdout; stderr = h.stderr })
        | inr early ↦
            let (events, w2, _, h2) =
              action_ok (host.select process (pipe ∷ pipes) (deadline - now)) _ w1
                (rw early at h1) in
            handle_ready-Keeps turns events keeps captured w2 last next h h2
      ]

  capture_loop-Keeps : (fuel deadline : ℕ) → KeepsSome (capture_loop fuel process limits deadline)
  unfolding capture_loop
  capture_loop-Keeps zero deadline captured world last next h done = absurd (ground arith)
  capture_loop-Keeps (suc fuel) deadline captured world last next h done =
      capture_turn-Keeps deadline (capture_loop fuel process limits deadline) captured.registered
        (capture_loop-Keeps fuel deadline) captured world last next h done

  closed_ok :
      (tried : Result (Option Captured)) (world last : host.World) (next : Option Captured)
      → closing process tried world ≡ (ok next, last)
      → tried ≡ ok next
  unfolding closing
  closed_ok (ok captured) world last next done =
      let (_, w1, _, h1) = action_ok (host.close process) _ world done in
      ap (λ (x : Result (Option Captured) × host.World). x.0) h1
  closed_ok (err e) world last next done =
      let (_, w1, _, h1) = action_ok (host.close process) _ world done in absurd (ground arith)

  -- Output that was captured is within the ceilings.
  pub with_capture-IsWithin :
      (fuel deadline : ℕ) (world last : host.World) (next : Captured)
      → with_capture fuel process limits deadline world ≡ (ok (some next), last)
      → IsWithin limits next
  unfolding with_capture
  with_capture-IsWithin fuel deadline world last next done =
      let (_, w1, _, h1) =
        action_ok (enter_capture process (out_pipe ∷ err_pipe ∷ [])) _ world done in
      let looped = capture_loop fuel process limits deadline nothing_captured w1 in
      let same = closed_ok looped.0 looped.1 last (some next) h1 in
      capture_loop-Keeps fuel deadline nothing_captured w1 looped.1 next
        (record { stdout = omega arith; stderr = omega arith })
        (ap
          (λ (x : Result (Option Captured)).
            let out : Result (Option Captured) × host.World = (x, looped.1) in out)
          same)
