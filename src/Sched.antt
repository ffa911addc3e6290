-- ===== src/Sched.antt =====
-- The scheduler of OSLab7-Mitjoslab4/kern/sched.c, with env_run and env_pop_tf of kern/env.c, which
-- leave the kernel. A priority is an int32_t bit pattern, compared as a signed number.
pub mod Choice
pub mod Run
pub mod Switch
mod Tests
use homework_of_operating_sy.Base.{
  ℕ, zero, suc, ◌+◌, ◌-◌, ◌*◌, ◌/◌, ◌%◌, ◌^◌, bit_and, bit_or, Bool, true, false, ◌&&◌, ◌||◌, not,
  Option, none, some, ◌∷◌, ltb, leb, ◌==◌, ◌!=◌, if◌then◌else◌, update,
}
use homework_of_operating_sy.Mmu.{
  word_size, pgsize, pgaddr, pdx, pte_p, pte_w, pte_u, pte_addr, rounddown, roundup, uvpt, utop,
  ustacktop,
}
use homework_of_operating_sy.Kernel.{
  Kernel, Env, Trapframe, PushRegs, ok, leave, panic, to_user, to_halt, to_monitor, Cmd, pure,
  abort, ◌>>=◌, ◌>>◌, gets, modify, branch, Ret, ret, fail, e_bad_env, e_no_mem, e_no_free_env,
  env_free_status, env_dying, env_runnable, env_running,
}
use homework_of_operating_sy.Pmap.{
  page2pa, page2kva, pa2page, incref, alloc_zero, page_alloc, page_decref, page_remove, page_insert,
  store_word,
}
use homework_of_operating_sy.Env.{nenv, envx, set_env, is_cur, deref}

-- env_pop_tf: control goes to user mode, with the lock released.
abbrev pub popped : {A : Type 0} → ℕ → Cmd A
popped c k =
    leave to_user
      (record (set_env c (λ v. record v { env_cpunum = k.cpunum }) k) { locked = false })

unfoldable pub env_pop_tf : {A : Type 0} → Cmd A
env_pop_tf k = deref k.curenv popped k

-- Step 1 of env_run
unfoldable pub switch_to : ℕ → Kernel → Kernel
switch_to e k =
    let k1 : Kernel = elim k.curenv [
      | none ↦ k
      | some c ↦
          if (k.envs c).env_status == env_running
          then set_env c (λ v. record v { env_status = env_runnable }) k
          else k
    ] in
    set_env e (λ v. record v { env_status = env_running; env_runs = (v.env_runs + 1) % word_size })
      (record k1 { curenv = some e })

unfoldable pub env_run : {A : Type 0} → ℕ → Cmd A
unfolding switch_to env_pop_tf
env_run e = do
  same ← gets (is_cur e)
  branch same (pure tt) do
    modify (switch_to e)
    d ← gets (λ k. (k.envs e).env_pgdir)
    deref d λ pgdir. modify (λ k. record k { cr3 = pgdir })
  env_pop_tf

-- `a < b` on int
abbrev pub slt : ℕ → ℕ → Bool
slt a b = ltb ((a + 2 ^ 31) % word_size) ((b + 2 ^ 31) % word_size)

-- The body of the search in sched_yield at slot `j`, with the candidate `runenv`
pub better : (ℕ → Env) → ℕ → Option ℕ → Option ℕ
better envs j runenv =
    if (envs j).env_status == env_runnable
    then elim runenv [
      | none ↦ some j
      | some b ↦ if slt (envs j).pr (envs b).pr then some j else some b
    ]
    else runenv

-- The search, with the slots left to visit
pub search_envs : (ℕ → Env) → ℕ → ℕ → ℕ → Option ℕ → Option ℕ
search_envs envs cur zero i runenv = runenv
search_envs envs cur (suc n) i runenv =
    search_envs envs cur n (i + 1) (better envs ((cur + i) % nenv) runenv)

-- The slot at which the search starts
abbrev pub search_start : Kernel → ℕ
search_start k = elim k.curenv [ none ↦ 0 | some c ↦ envx (k.envs c).env_id ]

abbrev pub chosen : Kernel → Option ℕ
chosen k = search_envs k.envs (search_start k) nenv 0 none

-- The first loop of sched_halt, with the slots left: is any process runnable or running?
pub any_active : (ℕ → Env) → ℕ → ℕ → Bool
any_active envs zero i = false
any_active envs (suc n) i =
    (envs i).env_status == env_runnable
    || (envs i).env_status == env_running
    || any_active envs n (i + 1)

unfoldable pub sched_halt : {A : Type 0} → Cmd A
sched_halt k =
    if any_active k.envs nenv 0
    then leave to_halt
        (record k { curenv = none; cr3 = k.kern_pgdir; halted = true; locked = false })
    else leave to_monitor k

-- May the running process go on, given the candidate?
abbrev pub keeps : Kernel → ℕ → Bool
keeps k c =
    (k.envs c).env_status == env_running
    && elim (chosen k) [ none ↦ true | some b ↦ slt (k.envs c).pr (k.envs b).pr ]

-- The second half of sched_yield
abbrev pub run_chosen : {A : Type 0} → Cmd A
run_chosen k = elim (chosen k) [ none ↦ sched_halt k | some b ↦ env_run b k ]

-- sched_yield, given the current process
abbrev pub yield_from : {A : Type 0} → Option ℕ → Cmd A
yield_from none k = run_chosen k
yield_from (some c) k = if keeps k c then env_run c k else run_chosen k

unfoldable pub sched_yield : {A : Type 0} → Cmd A
unfolding env_run sched_halt
sched_yield k = yield_from k.curenv k
