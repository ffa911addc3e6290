-- ===== src/Trap/Away.antt =====
-- What leaves the kernel does not come back: nothing runs behind env_run and sched_yield.
use homework_of_operating_sy.Base.{ℕ, ◌≡◌, refl, Bool-cases, inl, inr, Option, some, none}
use homework_of_operating_sy.Kernel.{Kernel, Run, ok, leave, panic, Cmd, and_then}
use homework_of_operating_sy.Env.{nenv, deref}
use homework_of_operating_sy.Sched.{
  chosen, keeps, run_chosen, yield_from, any_active, sched_halt, env_run, popped, env_pop_tf,
  sched_yield,
}

-- The scheduler does not come back, so that nothing runs after it.
module _ {A B : Type 0} (f : A → Cmd B) where
  pop_away : (k : Kernel) → and_then (env_pop_tf k) f ≡ env_pop_tf k
  unfolding env_pop_tf
  pop_away k = go k.curenv
    where
      go : (o : Option ℕ) → and_then (deref o popped k) f ≡ deref o popped k
      go none = refl
      go (some c) = refl

  after_pop :
      (r : Run (Unit {0}))
      → and_then (and_then r (λ _. env_pop_tf)) f ≡ and_then r (λ _. env_pop_tf)
  after_pop panic = refl
  after_pop (leave how k) = refl
  after_pop (ok a k) = pop_away k

  run_away : (e : ℕ) (k : Kernel) → and_then (env_run e k) f ≡ env_run e k
  unfolding env_run
  run_away e k = after_pop _

  halt_away : (k : Kernel) → and_then (sched_halt k) f ≡ sched_halt k
  unfolding sched_halt
  halt_away k = elim (Bool-cases (any_active k.envs nenv 0)) [
    | inl a ↦ rw a refl
    | inr a ↦ rw a refl
  ]

  chosen_away : (k : Kernel) → and_then (run_chosen k) f ≡ run_chosen k
  chosen_away k = go (chosen k)
    where
      go :
          (o : Option ℕ)
          → and_then (elim o [ none ↦ sched_halt k | some b ↦ env_run b k ]) f
            ≡ (elim o [ none ↦ sched_halt k | some b ↦ env_run b k ])
      go none = halt_away k
      go (some b) = run_away b k

  yield_away : (o : Option ℕ) (k : Kernel) → and_then (yield_from o k) f ≡ yield_from o k
  yield_away none k = chosen_away k
  yield_away (some c) k = elim (Bool-cases (keeps k c)) [
    | inl e ↦ rw e (run_away c k)
    | inr e ↦ rw e (chosen_away k)
  ]

  pub sched_yield_away : (k : Kernel) → and_then (sched_yield k) f ≡ sched_yield k
  unfolding sched_yield
  sched_yield_away k = yield_away k.curenv k
