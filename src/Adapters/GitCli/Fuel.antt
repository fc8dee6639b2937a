-- ===== src/Adapters/GitCli/Fuel.antt =====
-- What it takes for a part of the capture of git to end, and how much is left to read.
use mathlib.Core.Path.{subst}
use alicerce.Prelude.{
  ℕ, suc, ◌+◌, ◌-◌, ◌≤◌, ◌≡◌, refl, ap, List, [], ◌∷◌, length, length-append, Bytes, arith,
}
use alicerce.Errors.{Exn, Result, ok, err, loop_not_ended}
use alicerce.Adapters.Host.{Action, lift, proceed, ◌>>=◌}
use alicerce.Adapters.LinuxSandbox.Bubblewrap.{Channel, out_pipe, err_pipe}
use alicerce.Adapters.GitCli.Run.{GitHost, GitOutput, if_registered, total, append_chunk, drop_pipe}

module _ {World : Type 0} where
  -- An action that does not itself run out of fuel.
  abbrev pub Ends {ℓ} : {A : Type ℓ} → Action World A → Type ℓ
  Ends action = (world last : World) → action world ≡ (err loop_not_ended, last) → ⊥

  proceed_ends :
      {A B : Type 0} (out : Result A × World) (next : A → Action World B)
      → ((last : World) → out ≡ (err loop_not_ended, last) → ⊥)
      → ((middle : World) (a : A)
          → out ≡ (ok a, middle)
          → (last : World) → next a middle ≡ (err loop_not_ended, last)
          → ⊥)
      → (last : World) → proceed out next ≡ (err loop_not_ended, last)
      → ⊥
  proceed_ends (err e, world) next here later last h =
      let raised : e ≡ loop_not_ended = cc h in
      here world (ap (λ (x : Exn). let out : Result _ × World = (err x, world) in out) raised)
  proceed_ends (ok a, world) next here later last h = later world a refl last h

  pub bind_ends :
      {A B : Type 0} (first : Action World A) (next : A → Action World B)
      → Ends first
      → ((world middle : World) (a : A)
          → first world ≡ (ok a, middle)
          → (last : World) → next a middle ≡ (err loop_not_ended, last)
          → ⊥)
      → Ends (first >>= next)
  bind_ends first next here later world last h =
      proceed_ends (first world) next (here world) (λ middle a. later world middle a) last h

  pub then_ends :
      {A B : Type 0} (first : Action World A) (next : A → Action World B)
      → Ends first
      → ((a : A) → Ends (next a))
      → Ends (first >>= next)
  then_ends first next here later =
      bind_ends first next here (λ world middle a _ last. later a middle last)

  pub given_ends : {A : Type 0} (a : A) → Ends (let given : Action World A = lift (ok a) in given)
  given_ends a world last h = ground arith

-- No operation of the host stands for a loop of the program.
pub record NoLoops (host : GitHost) : Type 0 where
  pub monotonic : Ends host.monotonic
  pub register : (process : host.Process) (pipe : Channel) → Ends (host.register process pipe)
  pub select :
      (process : host.Process) (pipes : List Channel) (time : ℕ)
      → Ends (host.select process pipes time)
  pub read_chunk :
      (process : host.Process) (pipe : Channel) (n : ℕ) → Ends (host.read_chunk process pipe n)
  pub close_selector : (process : host.Process) → Ends (host.close_selector process)
  pub poll : (process : host.Process) → Ends (host.poll process)
  pub wait : (process : host.Process) → Ends (host.wait process)
  pub killpg : (process : host.Process) → Ends (host.killpg process)
  pub kill : (process : host.Process) → Ends (host.kill process)

-- What is left to read, at most.
abbrev pub remaining : ℕ → GitOutput → ℕ
remaining bound output = suc bound - total output + length output.registered

-- A step of the capture, which stays within the bound and leaves less.
pub record Steps (bound : ℕ) (before after : GitOutput) : Type 0 where
  pub within : total after ≤ bound
  pub less : suc (remaining bound after) ≤ remaining bound before

pub drop_pipe-shorter :
    (pipe : Channel) (pipes rest : List Channel)
    → drop_pipe pipe pipes ≡ ok rest
    → suc (length rest) ≡ length pipes
unfolding drop_pipe
drop_pipe-shorter pipe [] rest h = absurd (ground arith)
drop_pipe-shorter out_pipe (out_pipe ∷ others) rest h =
    let same : others ≡ rest = cc h in
    subst (λ (x : List Channel). suc (length x) ≡ suc (length others)) same refl
drop_pipe-shorter err_pipe (err_pipe ∷ others) rest h =
    let same : others ≡ rest = cc h in
    subst (λ (x : List Channel). suc (length x) ≡ suc (length others)) same refl
drop_pipe-shorter out_pipe (err_pipe ∷ out_pipe ∷ others) rest h =
    let same : err_pipe ∷ others ≡ rest = cc h in
    subst (λ (x : List Channel). suc (length x) ≡ suc (suc (length others))) same refl
drop_pipe-shorter err_pipe (out_pipe ∷ err_pipe ∷ others) rest h =
    let same : out_pipe ∷ others ≡ rest = cc h in
    subst (λ (x : List Channel). suc (length x) ≡ suc (suc (length others))) same refl
drop_pipe-shorter out_pipe (err_pipe ∷ []) rest h = absurd (ground arith)
drop_pipe-shorter out_pipe (err_pipe ∷ err_pipe ∷ others) rest h = absurd (ground arith)
drop_pipe-shorter err_pipe (out_pipe ∷ []) rest h = absurd (ground arith)
drop_pipe-shorter err_pipe (out_pipe ∷ out_pipe ∷ others) rest h = absurd (ground arith)

pub not_looping :
    (pipe : Channel) (pipes : List Channel) → drop_pipe pipe pipes ≡ err loop_not_ended → ⊥
unfolding drop_pipe
not_looping pipe [] h = ground arith
not_looping out_pipe (out_pipe ∷ others) h = ground arith
not_looping err_pipe (err_pipe ∷ others) h = ground arith
not_looping out_pipe (err_pipe ∷ out_pipe ∷ others) h = ground arith
not_looping err_pipe (out_pipe ∷ err_pipe ∷ others) h = ground arith
not_looping out_pipe (err_pipe ∷ []) h = ground arith
not_looping out_pipe (err_pipe ∷ err_pipe ∷ others) h = ground arith
not_looping err_pipe (out_pipe ∷ []) h = ground arith
not_looping err_pipe (out_pipe ∷ out_pipe ∷ others) h = ground arith

pub if_registered-all {ℓ κ} :
    {A : Type ℓ} (P : A → Type κ) (pipes : List Channel) (done more : A)
    → P done
    → P more
    → P (if_registered pipes done more)
if_registered-all P [] done more d m = d
if_registered-all P (pipe ∷ pipes) done more d m = m

pub total-append_chunk :
    (pipe : Channel) (chunk : Bytes) (output : GitOutput)
    → total (append_chunk pipe chunk output) ≡ total output + length chunk
unfolding append_chunk
total-append_chunk out_pipe chunk output =
    let sum = length-append output.stdout chunk in omega arith
total-append_chunk err_pipe chunk output =
    let sum = length-append output.stderr chunk in omega arith

pub registered-append_chunk :
    (pipe : Channel) (chunk : Bytes) (output : GitOutput)
    → (append_chunk pipe chunk output).registered ≡ output.registered
unfolding append_chunk
registered-append_chunk out_pipe chunk output = refl
registered-append_chunk err_pipe chunk output = refl
