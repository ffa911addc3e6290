-- ===== src/Trap/Freed.antt =====
-- A process that the kernel frees on its way in: env_free, and then the scheduler.
use homework_of_operating_sy.Base.{
  ℕ, ◌≡◌, refl, sym, true, inl, inr, none, some, ◌⊎◌, if◌then◌else◌, arith,
}
use homework_of_operating_sy.Kernel.{Kernel, Run, ok, panic, Cmd, and_then}
use homework_of_operating_sy.Env.{is_cur}
use homework_of_operating_sy.Sched.{sched_yield}
use homework_of_operating_sy.EnvFree.{env_free, env_destroy}
use homework_of_operating_sy.EnvFree.Release.{Freed, env_free_lem}
use homework_of_operating_sy.Pmap.Frame.{After, panics, returns}
use mathlib.Core.Path.{subst}
use homework_of_operating_sy.Trap.{collect}
use homework_of_operating_sy.Trap.Away.{sched_yield_away}

-- A run that frees process `c` in state `s`, and then runs the scheduler with no current process
abbrev pub Ends : {A : Type 0} → ℕ → Kernel → Run A → Type 0
Ends c s r =
    (r ≡ panic) ⊎ ((k' : Kernel) × Freed c s k' × (r ≡ sched_yield (record k' { curenv = none })))

-- What follows env_free in a run, and in env_destroy of process `c`
abbrev to_scheduler : {A : Type 0} → Cmd A
to_scheduler k = sched_yield (record k { curenv = none })

abbrev if_current : ℕ → Cmd (Unit {0})
if_current c k = if is_cur c k then to_scheduler k else ok tt k

Freed-Ends :
    {A : Type 0} (c : ℕ) (s : Kernel) {r : Run (Unit {0})}
    → After (Freed c s) r
    → Ends {A = A} c s (and_then r (λ _. to_scheduler))
Freed-Ends c s panics = inl refl
Freed-Ends c s (returns {k = k'} f) = inr (k', f, refl)

self-Freed-Ends :
    {A : Type 0} (next : Unit {0} → Cmd A) (c : ℕ) (s : Kernel) {r : Run (Unit {0})}
    → s.curenv ≡ some c
    → After (Freed c s) r
    → Ends c s (and_then (and_then r (λ _. if_current c)) next)
self-Freed-Ends next c s at panics = inl refl
self-Freed-Ends next c s at (returns {k = k'} f) =
    let own : is_cur c k' ≡ true = ground (arith, at, f.curenv) in
    inr (k', f, rw own (sched_yield_away next (record k' { curenv = none })))

pub collect_lem : {A : Type 0} (c : ℕ) (s : Kernel) → Ends {A = A} c s (collect c s)
unfolding collect
collect_lem c s = Freed-Ends c s (env_free_lem c s)

-- env_destroy of the current process, with anything behind it
pub destroy_lem :
    {A : Type 0} (next : Unit {0} → Cmd A) (c : ℕ) (s : Kernel)
    → s.curenv ≡ some c
    → Ends c s (and_then (env_destroy c s) next)
unfolding env_destroy
destroy_lem {A} next c s at =
    let own : is_cur c s ≡ true = ground (arith, at) in
    let run : env_destroy c s ≡ and_then (env_free c s) (λ _. if_current c) = ground (arith, own) in
    subst (λ r. Ends {A = A} c s (and_then r next)) (sym run)
      (self-Freed-Ends next c s at (env_free_lem c s))
