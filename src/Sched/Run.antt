-- ===== src/Sched/Run.antt =====
-- env_run and sched_halt as state transformers.
use homework_of_operating_sy.Base.{
  ℕ, zero, suc, ◌+◌, ◌%◌, ◌<◌, ◌≤◌, ◌≡◌, refl, ◌≢◌, ◌⊎◌, ◌∙◌, ap, ◌==◌, true, false, Bool-cases,
  inl, inr, Option, none, some, arith,
}
use native.Mathlib.Decide.{dec_lt}
use homework_of_operating_sy.Kernel.{
  Kernel, Env, and_then, modify, leave, to_user, to_halt, to_monitor, env_runnable, env_running,
}
use homework_of_operating_sy.Env.{nenv, set_env, is_cur, deref}
use homework_of_operating_sy.Mmu.{word_size}
use homework_of_operating_sy.Sched.{any_active, env_pop_tf, switch_to, env_run, sched_halt}

-- The states in which env_run leaves the kernel: of the current process, or of another one with
-- page directory `d`.
abbrev pub pop_state : ℕ → Kernel → Kernel
pop_state c k = record (set_env c (λ v. record v { env_cpunum = k.cpunum }) k) { locked = false }

abbrev pub run_state : ℕ → ℕ → Kernel → Kernel
run_state e d k = pop_state e (record (switch_to e k) { cr3 = d })

switch-pgdir : (e j : ℕ) (k : Kernel) → ((switch_to e k).envs j).env_pgdir ≡ (k.envs j).env_pgdir
unfolding switch_to
switch-pgdir e j k = ground arith

module _ {A : Type 0} (e : ℕ) (k : Kernel) where
  pub env_run_self : k.curenv ≡ some e → env_run {A = A} e k ≡ leave to_user (pop_state e k)
  unfolding env_run
  env_run_self c = ground arith

  pub env_run_other :
      (d : ℕ)
      → is_cur e k ≡ false
      → (k.envs e).env_pgdir ≡ some d
      → env_run {A = A} e k ≡ leave to_user (run_state e d k)
  unfolding env_run
  env_run_other d o p =
      let q : ((switch_to e k).envs e).env_pgdir ≡ some d = switch-pgdir e e k ∙ p in
      rw o (
        ap
          (λ (x : Option ℕ).
            and_then (deref x (λ pgdir. modify (λ k'. record k' { cr3 = pgdir })) (switch_to e k))
              (λ _. env_pop_tf {A = A}))
          q)

-- What a switch from state `k` to another process `e` leaves behind.
abbrev Switched : ℕ → ℕ → Kernel → Kernel → Type 0
Switched e d k k' =
    (k'.curenv ≡ some e)
    × (k'.cr3 ≡ d)
    × (k'.locked ≡ false)
    × ((k'.envs e).env_status ≡ env_running)
    × ((k'.envs e).env_runs ≡ ((k.envs e).env_runs + 1) % word_size)
    × ((j : ℕ)
        → j ≢ e
        → (k.envs j).env_status ≡ env_running
        → k.curenv ≡ some j
        → (k'.envs j).env_status ≡ env_runnable)
    × ((j : ℕ) → j ≢ e → k.curenv ≢ some j → k'.envs j ≡ k.envs j)

-- env_run of a process that is not the current one: control goes to user mode with the lock
-- released, in that process and its address space; it is RUNNING and has one more run; the process
-- that ran before is RUNNABLE again if it was RUNNING, and no third process changes.
env_run_lem :
    {A : Type 0} (e d : ℕ) (k : Kernel)
    → is_cur e k ≡ false
    → (k.envs e).env_pgdir ≡ some d
    → (k' : Kernel) × (env_run {A = A} e k ≡ leave to_user k') × Switched e d k k'
unfolding switch_to
env_run_lem e d k o p = (
  run_state e d k,
  env_run_other e k d o p,
  (
    ground arith,
    ground arith,
    ground arith,
    ground arith,
    ground arith,
    λ j n r c. ground arith,
    λ j n c. ground arith,
  ),
)

-- Every runnable process has an address space.
abbrev pub HasDirs : Kernel → Type 0
HasDirs k =
    (j : ℕ) → (k.envs j).env_status ≡ env_runnable → (d : ℕ) × ((k.envs j).env_pgdir ≡ some d)

any_active_lem :
    (envs : ℕ → Env) (n i : ℕ)
    → ((any_active envs n i ≡ true)
        × ((j : ℕ) × (i ≤ j)
            × (j < i + n)
            × (((envs j).env_status ≡ env_runnable) ⊎ ((envs j).env_status ≡ env_running))))
      ⊎ ((any_active envs n i ≡ false)
          × ((j : ℕ)
              → i ≤ j
              → j < i + n
              → ((envs j).env_status ≢ env_runnable) × ((envs j).env_status ≢ env_running)))
unfolding any_active
any_active_lem envs zero i = inr (refl, λ j lo hi. absurd (omega arith))
any_active_lem envs (suc n) i = elim (any_active_lem envs n (i + 1)) [
  | inl (e, (j, lo, hi, act)) ↦ inl (ground (arith, e), (j, omega arith, omega arith, act))
  | inr (e, idle) ↦ elim (Bool-cases ((envs i).env_status == env_runnable)) [
    | inl a ↦ inl (ground (arith, a), (i, omega arith, omega arith, inl (ground (arith, a))))
    | inr a ↦ elim (Bool-cases ((envs i).env_status == env_running)) [
      | inl b ↦ inl (ground (arith, b), (i, omega arith, omega arith, inr (ground (arith, b))))
      | inr b ↦ inr (
        ground (arith, a, b, e),
        λ j lo hi. elim (dec_lt i j) [
          | yes later ↦ idle j (omega arith) (omega arith)
          | no here ↦ let q : i ≡ j = omega arith in rw (← q) (ground (arith, a), ground (arith, b))
        ],
      )
    ]
  ]
]

-- sched_halt, in the two states in which it leaves the kernel.
pub halt_outcome :
    {A : Type 0} (k : Kernel)
    → ((k' : Kernel) × (sched_halt {A = A} k ≡ leave to_halt k')
        × (k'.curenv ≡ none)
        × (k'.locked ≡ false)
        × (k'.halted ≡ true)
        × (k'.envs ≡ k.envs))
      ⊎ ((sched_halt {A = A} k ≡ leave to_monitor k)
          × ((j : ℕ) → j < nenv → (k.envs j).env_status ≢ env_running))
unfolding sched_halt
halt_outcome k = elim (any_active_lem k.envs nenv 0) [
  | inl (e, _) ↦ inl (
    record k { curenv = none; cr3 = k.kern_pgdir; halted = true; locked = false },
    rw e,
    refl,
    refl,
    refl,
    refl,
  )
  | inr (e, idle) ↦ inr (rw e, λ j h. (idle j (omega arith) (omega arith)).1)
]
