-- ===== src/Adapters/LinuxSandbox/Progress.antt =====
-- What each event of the capture loop leaves to be captured.
use alicerce.Prelude.{
  ℕ, zero, suc, ◌+◌, ◌-◌, ◌≤◌, ◌≡◌, refl, inl, inr, Bool, true, false, Option, none, some, List, [],
  ◌∷◌, ◌++◌, ltb, length, length-append, Bytes, Bool-cases, arith,
}
use mathlib.Core.Path.{subst}
use alicerce.Errors.{ok}
use alicerce.Domain.Command.{CommandLimits}
use alicerce.Adapters.Host.{Action, lift, action_ok}
use alicerce.Adapters.LinuxSandbox.Bubblewrap.{SandboxHost, Channel, out_pipe, err_pipe}
use alicerce.Adapters.LinuxSandbox.Capture.{
  Captured, first_bytes, unregister, extend, is_exited, after_chunk, handle_chunk, handle_events,
}

abbrev pub is_in : Channel → List Channel → Bool
is_in pipe [] = false
is_in out_pipe (out_pipe ∷ pipes) = true
is_in out_pipe (err_pipe ∷ pipes) = is_in out_pipe pipes
is_in err_pipe (out_pipe ∷ pipes) = is_in err_pipe pipes
is_in err_pipe (err_pipe ∷ pipes) = true

-- A read of the pipe does not block.
abbrev pub Reads : (host : SandboxHost) → host.Process → Channel → host.World → Type 0
Reads host process pipe world =
    (last : host.World) → host.read_chunk process pipe world ≡ (ok none, last) → ⊥

-- The bytes below the ceilings and the open pipes.
abbrev pub left : CommandLimits → Captured → ℕ
left limits captured =
    (limits.stdout_max_bytes - length captured.stdout)
    + (limits.stderr_max_bytes - length captured.stderr)
    + length captured.registered

unregister_le :
    (pipe : Channel) (pipes : List Channel) → length (unregister pipe pipes) ≤ length pipes
unfolding unregister
unregister_le pipe [] = omega arith
unregister_le out_pipe (out_pipe ∷ pipes) = let rest = unregister_le out_pipe pipes in omega arith
unregister_le out_pipe (err_pipe ∷ pipes) = let rest = unregister_le out_pipe pipes in omega arith
unregister_le err_pipe (out_pipe ∷ pipes) = let rest = unregister_le err_pipe pipes in omega arith
unregister_le err_pipe (err_pipe ∷ pipes) = let rest = unregister_le err_pipe pipes in omega arith

unregister_less :
    (pipe : Channel) (pipes : List Channel)
    → is_in pipe pipes ≡ true
    → suc (length (unregister pipe pipes)) ≤ length pipes
unfolding unregister
unregister_less pipe [] h = absurd (ground arith)
unregister_less out_pipe (out_pipe ∷ pipes) h =
    let rest = unregister_le out_pipe pipes in omega arith
unregister_less out_pipe (err_pipe ∷ pipes) h =
    let rest = unregister_less out_pipe pipes h in omega arith
unregister_less err_pipe (out_pipe ∷ pipes) h =
    let rest = unregister_less err_pipe pipes h in omega arith
unregister_less err_pipe (err_pipe ∷ pipes) h =
    let rest = unregister_le err_pipe pipes in omega arith

first_bytes-all : (n : ℕ) (b : Bytes) → length b ≤ n → length (first_bytes n b) ≡ length b
unfolding first_bytes
first_bytes-all zero [] h = refl
first_bytes-all zero (byte ∷ bytes) h = absurd (omega arith)
first_bytes-all (suc n) [] h = refl
first_bytes-all (suc n) (byte ∷ bytes) h =
    let rest = first_bytes-all n bytes (omega arith) in omega arith

-- A chunk below the ceiling is kept whole.
within_ceiling :
    (ceiling : ℕ) (target chunk : Bytes)
    → is_exited (after_chunk ceiling target chunk) ≡ true
    → length chunk ≤ ceiling - length target
within_ceiling ceiling target chunk h =
    elim (Bool-cases (ltb (ceiling - length target) (length chunk))) [
      | inl over ↦ absurd (let x = rw over at h in ground arith)
      | inr fits ↦ ground arith
    ]

kept_less :
    (ceiling : ℕ) (target : Bytes) (byte : ℕ) (bytes : Bytes)
    → is_exited (after_chunk ceiling target (byte ∷ bytes)) ≡ true
    → suc (ceiling - length (target ++ first_bytes (ceiling - length target) (byte ∷ bytes)))
      ≤ ceiling - length target
kept_less ceiling target byte bytes h =
    let fits = within_ceiling ceiling target (byte ∷ bytes) h in
    let whole = first_bytes-all (ceiling - length target) (byte ∷ bytes) fits in
    let sum = length-append target (first_bytes (ceiling - length target) (byte ∷ bytes)) in
    omega arith

extend_less :
    (limits : CommandLimits) (captured : Captured) (pipe : Channel) (byte : ℕ) (bytes : Bytes)
    → is_exited (extend limits captured pipe (byte ∷ bytes)).termination ≡ true
    → suc (left limits (extend limits captured pipe (byte ∷ bytes))) ≤ left limits captured
unfolding extend
extend_less limits captured out_pipe byte bytes h =
    let less = kept_less limits.stdout_max_bytes captured.stdout byte bytes h in omega arith
extend_less limits captured err_pipe byte bytes h =
    let less = kept_less limits.stderr_max_bytes captured.stderr byte bytes h in omega arith

module _ ⦃host : SandboxHost⦄ (process : host.Process) (limits : CommandLimits) where
  -- A rest of the inner loop that does not leave more, unless it ends the loop.
  abbrev Shrinks : (Captured → Action host.World Captured) → Type 0
  Shrinks turns =
      (captured : Captured) (world last : host.World) (next : Captured)
      → turns captured world ≡ (ok next, last)
      → is_exited next.termination ≡ true
      → left limits next ≤ left limits captured

  value_of : {A : Type 0} {a b : A} {w last : host.World} → lift (ok a) w ≡ (ok b, last) → a ≡ b
  value_of h = cc h

  cut_short :
      (a b : Captured) (world last : host.World)
      → is_exited a.termination ≡ false
      → lift (ok a) world ≡ (ok b, last)
      → is_exited b.termination ≡ true
      → ⊥
  cut_short a b world last over h more =
      let still = subst (λ (x : Captured). is_exited x.termination ≡ false) (value_of h) over in
      ground arith

  handle_chunk-Shrinks :
      (pipe : Channel) (turns : Captured → Action host.World Captured) (chunk : Option Bytes)
      → Shrinks turns
      → Shrinks (λ captured. handle_chunk limits pipe captured turns chunk)
  unfolding handle_chunk
  handle_chunk-Shrinks pipe turns none shrinks captured world last next done more =
      shrinks captured world last next done more
  handle_chunk-Shrinks pipe turns (some []) shrinks captured world last next done more =
      let fewer = unregister_le pipe captured.registered in
      let rest =
        shrinks (record captured { registered = unregister pipe captured.registered }) world last
          next done more in
      omega arith
  handle_chunk-Shrinks pipe turns (some (byte ∷ bytes)) shrinks captured world last next done more =
      let longer = extend limits captured pipe (byte ∷ bytes) in
      elim (Bool-cases (is_exited longer.termination)) [
        | inl goes_on ↦
            let less = extend_less limits captured pipe byte bytes goes_on in
            let rest = shrinks longer world last next (rw goes_on at done) more in omega arith
        | inr over ↦ absurd (cut_short longer next world last over (rw over at done) more)
      ]

  handle_events-Shrinks : (events : List Channel) → Shrinks (handle_events process limits events)
  unfolding handle_events
  handle_events-Shrinks [] captured world last next done more =
      subst (λ x. left limits x ≤ left limits captured) (value_of done) (omega arith)
  handle_events-Shrinks (pipe ∷ events) captured world last next done more =
      let (chunk, w1, read, h1) = action_ok (host.read_chunk process pipe) _ world done in
      handle_chunk-Shrinks pipe (handle_events process limits events) chunk
        (handle_events-Shrinks events) captured w1 last next h1 more

  first_less :
      (pipe : Channel) (turns : Captured → Action host.World Captured) (chunk : Option Bytes)
      (captured : Captured) (world w1 last : host.World) (next : Captured)
      → Shrinks turns
      → is_in pipe captured.registered ≡ true
      → Reads host process pipe world
      → host.read_chunk process pipe world ≡ (ok chunk, w1)
      → handle_chunk limits pipe captured turns chunk w1 ≡ (ok next, last)
      → is_exited next.termination ≡ true
      → suc (left limits next) ≤ left limits captured
  unfolding handle_chunk
  first_less pipe turns none captured world w1 last next shrinks there ready read done more =
      absurd (ready w1 read)
  first_less pipe turns (some []) captured world w1 last next shrinks there ready read done more =
      let fewer = unregister_less pipe captured.registered there in
      let rest =
        shrinks (record captured { registered = unregister pipe captured.registered }) w1 last next
          done more in
      omega arith
  first_less pipe turns (some (byte ∷ bytes)) captured world w1 last next shrinks there ready read
        done more =
      let longer = extend limits captured pipe (byte ∷ bytes) in
      elim (Bool-cases (is_exited longer.termination)) [
        | inl goes_on ↦
            let less = extend_less limits captured pipe byte bytes goes_on in
            let rest = shrinks longer w1 last next (rw goes_on at done) more in omega arith
        | inr over ↦ absurd (cut_short longer next w1 last over (rw over at done) more)
      ]

  -- Events of which the first is of a pipe that is open and ready leave less.
  pub handle_events-less :
      (pipe : Channel) (events : List Channel) (captured : Captured) (world last : host.World)
      (next : Captured)
      → is_in pipe captured.registered ≡ true
      → Reads host process pipe world
      → handle_events process limits (pipe ∷ events) captured world ≡ (ok next, last)
      → is_exited next.termination ≡ true
      → suc (left limits next) ≤ left limits captured
  unfolding handle_events
  handle_events-less pipe events captured world last next there ready done more =
      let (chunk, w1, read, h1) = action_ok (host.read_chunk process pipe) _ world done in
      first_less pipe (handle_events process limits events) chunk captured world w1 last next
        (handle_events-Shrinks events) there ready read h1 more
