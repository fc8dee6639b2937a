-- ===== src/Adapters/GitCli/Turns.antt =====
-- One turn of the capture of git: its end, and what it leaves to read.
use mathlib.Core.Path.{subst}
use alicerce.Prelude.{
  ℕ, ◌-◌, ◌≤◌, ◌≡◌, ap, inl, inr, false, none, some, List, [], ◌∷◌, length, leb, ltb, Bytes,
  Bool-cases, arith,
}
use alicerce.Errors.{Result, ok, GitCliErrorCause}
use alicerce.Adapters.Host.{Action, lift, action_ok, ◌>>◌}
use alicerce.Adapters.LinuxSandbox.Bubblewrap.{Channel}
use alicerce.Adapters.GitCli.Run.{
  GitHost, GitCli, GitOutput, total, append_chunk, drop_pipe, kill_if, terminate, abort, take_chunk,
  take_events, take_ready, take_turn,
}
use alicerce.Adapters.GitCli.Fuel.{
  Ends, NoLoops, then_ends, given_ends, remaining, Steps, drop_pipe-shorter, not_looping,
  total-append_chunk, registered-append_chunk,
}

module _ ⦃host : GitHost⦄ (safe : NoLoops host) (git : GitCli) (process : host.Process) where
  abbrev pub bound : ℕ
  bound = git.max_output_bytes

  dropped :
      (pipe : Channel) (pipes : List Channel)
      → Ends (
          let dropping : Action host.World (List Channel) = lift (drop_pipe pipe pipes) in dropping)
  dropped pipe pipes world last h =
      not_looping pipe pipes (ap (λ (x : Result (List Channel) × host.World). x.0) h)

  pub made_of :
      {A : Type 0} {a c : A} {world last : host.World} → lift (ok a) world ≡ (ok c, last) → a ≡ c
  made_of h = cc h

  not_over : (a b : ℕ) → ltb a b ≡ false → b ≤ a
  not_over a b h = ground arith

  pub terminate_ends : Ends (terminate process)
  unfolding terminate kill_if
  terminate_ends = then_ends (host.poll process) _ (safe.poll process) (λ reply.
      elim reply as (λ x. Ends (do kill_if process x; host.wait process; lift (ok tt))) [
        | some code ↦ then_ends (host.wait process) _ (safe.wait process) (λ _. given_ends tt)
        | none ↦
            then_ends (do host.killpg process; host.kill process; lift (ok tt)) _
              (then_ends (host.killpg process) _ (safe.killpg process)
                (λ _. then_ends (host.kill process) _ (safe.kill process) (λ _. given_ends tt)))
              (λ _. then_ends (host.wait process) _ (safe.wait process) (λ _. given_ends tt))
      ])

  abort_ends :
      {A : Type 0} (cause : GitCliErrorCause)
      → Ends (let aborted : Action host.World A = abort process cause in aborted)
  unfolding abort
  abort_ends cause = then_ends (terminate process) _ terminate_ends (λ _ world last h. ground arith)

  pub aborted :
      {A : Type 0} (cause : GitCliErrorCause) (world last : host.World) {a : A}
      → abort process cause world ≡ (ok a, last)
      → ⊥
  unfolding abort
  aborted cause world last h =
      let (_, w1, _, h1) = action_ok (terminate process) _ world h in ground arith

  take_chunk_ends :
      (pipe : Channel) (output : GitOutput) (chunk : Bytes)
      → Ends (take_chunk git process pipe output chunk)
  unfolding take_chunk
  take_chunk_ends pipe output [] world last h =
      then_ends (lift (drop_pipe pipe output.registered)) _ (dropped pipe output.registered)
        (λ rest. given_ends _) world last h
  take_chunk_ends pipe output (byte ∷ bytes) world last h =
      elim (Bool-cases (ltb bound (total (append_chunk pipe (byte ∷ bytes) output)))) [
        | inl over ↦ abort_ends GitCliErrorCause.output_limit world last (rw over at h)
        | inr within ↦
            given_ends (append_chunk pipe (byte ∷ bytes) output) world last (rw within at h)
      ]

  take_chunk-Steps :
      (pipe : Channel) (output : GitOutput) (chunk : Bytes) (world last : host.World)
      (next : GitOutput)
      → total output ≤ bound
      → take_chunk git process pipe output chunk world ≡ (ok next, last)
      → Steps bound output next
  unfolding take_chunk
  take_chunk-Steps pipe output [] world last next within h =
      let (rest, w1, fewer, h1) = action_ok (lift (drop_pipe pipe output.registered)) _ world h in
      let shorter =
        drop_pipe-shorter pipe output.registered rest
          (ap (λ (x : Result (List Channel) × host.World). x.0) fewer) in
      let made : record output { registered = rest } ≡ next = cc h1 in
      subst (Steps bound output) made (record { within = within; less = omega arith })
  take_chunk-Steps pipe output (byte ∷ bytes) world last next within h =
      elim (Bool-cases (ltb bound (total (append_chunk pipe (byte ∷ bytes) output)))) [
        | inl over ↦ absurd (aborted GitCliErrorCause.output_limit world last (rw over at h))
        | inr fits ↦
            let made : append_chunk pipe (byte ∷ bytes) output ≡ next = made_of (rw fits at h) in
            let grows = total-append_chunk pipe (byte ∷ bytes) output in
            let pipes = ap length (registered-append_chunk pipe (byte ∷ bytes) output) in
            let below = not_over bound (total (append_chunk pipe (byte ∷ bytes) output)) fits in
            subst (Steps bound output) made (record { within = below; less = omega arith })
      ]

  -- The rest of the events leaves no more than there was.
  record Keeps (before after : GitOutput) : Type 0 where
    within : total after ≤ bound
    no_more : remaining bound after ≤ remaining bound before

  take_events_ends :
      (events : List Channel) (output : GitOutput) → Ends (take_events git process events output)
  unfolding take_events
  take_events_ends [] output world last h = given_ends output world last h
  take_events_ends (pipe ∷ events) output world last h =
      then_ends (host.read_chunk process pipe _) _ (safe.read_chunk process pipe _)
        (λ chunk.
          then_ends (take_chunk git process pipe output chunk) _ (take_chunk_ends pipe output chunk)
            (take_events_ends events))
        world last h

  take_events-Keeps :
      (events : List Channel) (output : GitOutput) (world last : host.World) (next : GitOutput)
      → total output ≤ bound
      → take_events git process events output world ≡ (ok next, last)
      → Keeps output next
  unfolding take_events
  take_events-Keeps [] output world last next within h =
      subst (Keeps output) (made_of h) (record { within = within; no_more = omega arith })
  take_events-Keeps (pipe ∷ events) output world last next within h =
      let (chunk, w1, _, h1) = action_ok (host.read_chunk process pipe _) _ world h in
      let (longer, w2, taken, h2) = action_ok (take_chunk git process pipe output chunk) _ w1 h1 in
      let step = take_chunk-Steps pipe output chunk w1 w2 longer within taken in
      let less = step.less in
      let rest = take_events-Keeps events longer w2 last next step.within h2 in
      let fewer = rest.no_more in record { within = rest.within; no_more = omega arith }

  take_ready-Steps :
      (events : List Channel) (output : GitOutput) (world last : host.World) (next : GitOutput)
      → total output ≤ bound
      → take_ready git process output events world ≡ (ok next, last)
      → Steps bound output next
  unfolding take_ready take_events
  take_ready-Steps [] output world last next within h =
      absurd (aborted GitCliErrorCause.timeout world last h)
  take_ready-Steps (pipe ∷ events) output world last next within h =
      let (chunk, w1, _, h1) = action_ok (host.read_chunk process pipe _) _ world h in
      let (longer, w2, taken, h2) = action_ok (take_chunk git process pipe output chunk) _ w1 h1 in
      let step = take_chunk-Steps pipe output chunk w1 w2 longer within taken in
      let less = step.less in
      let rest = take_events-Keeps events longer w2 last next step.within h2 in
      let fewer = rest.no_more in record { within = rest.within; less = omega arith }

  take_ready_ends :
      (events : List Channel) (output : GitOutput) → Ends (take_ready git process output events)
  unfolding take_ready
  take_ready_ends [] output world last h = abort_ends GitCliErrorCause.timeout world last h
  take_ready_ends (event ∷ events) output world last h =
      take_events_ends (event ∷ events) output world last h

  pub take_turn_ends :
      (deadline : ℕ) (output : GitOutput) → Ends (take_turn git process deadline output)
  unfolding take_turn
  take_turn_ends deadline output = then_ends host.monotonic _ safe.monotonic (λ now world last h.
      elim (Bool-cases (leb deadline now)) [
        | inl over ↦ abort_ends GitCliErrorCause.timeout world last (rw over at h)
        | inr early ↦
            then_ends (host.select process output.registered (deadline - now))
              (take_ready git process output)
              (safe.select process output.registered (deadline - now))
              (λ events. take_ready_ends events output) world last (rw early at h)
      ])

  pub take_turn-Steps :
      (deadline : ℕ) (output : GitOutput) (world last : host.World) (next : GitOutput)
      → total output ≤ bound
      → take_turn git process deadline output world ≡ (ok next, last)
      → Steps bound output next
  unfolding take_turn
  take_turn-Steps deadline output world last next within h =
      let (now, w1, _, h1) = action_ok host.monotonic _ world h in
      elim (Bool-cases (leb deadline now)) [
        | inl over ↦ absurd (aborted GitCliErrorCause.timeout w1 last (rw over at h1))
        | inr early ↦
            let (events, w2, _, h2) =
              action_ok (host.select process output.registered (deadline - now))
                (take_ready git process output) w1 (rw early at h1) in
            take_ready-Steps events output w2 last next within h2
      ]
