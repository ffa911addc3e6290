-- ===== src/Env.antt =====
-- The table of environments (processes): lookup by id, initialisation and allocation, of
-- OSLab7-Mitjoslab4/kern/env.c. A `struct Env *` is an index below NENV.
pub mod Lookup
pub mod Alloc
mod Tests
use homework_of_operating_sy.Base.{
  ℕ, zero, suc, ◌+◌, ◌-◌, ◌*◌, ◌/◌, ◌%◌, ◌^◌, bit_and, bit_or, Bool, true, false, ◌&&◌, ◌||◌, not,
  Option, none, some, ◌∷◌, ltb, leb, ◌==◌, ◌!=◌, if◌then◌else◌, update,
}
use homework_of_operating_sy.Mmu.{
  word_size, pgsize, pgaddr, pdx, pte_p, pte_w, pte_u, pte_addr, rounddown, roundup, uvpt, utop,
  ustacktop,
}
use homework_of_operating_sy.Kernel.{
  Kernel, Env, Trapframe, PushRegs, ok, leave, panic, to_user, to_halt, to_monitor, Cmd, pure,
  abort, ◌>>=◌, ◌>>◌, gets, modify, branch, Ret, ret, fail, e_bad_env, e_no_mem, e_no_free_env,
  env_free_status, env_dying, env_runnable, env_running,
}
use homework_of_operating_sy.Pmap.{
  page2pa, page2kva, pa2page, incref, alloc_zero, page_alloc, page_decref, page_remove, page_insert,
  store_word,
}

-- NENV and ENVX
abbrev pub nenv : ℕ
nenv = 1024

abbrev pub envx : ℕ → ℕ
envx envid = envid % nenv

abbrev pub set_env : ℕ → (Env → Env) → Kernel → Kernel
set_env e f k = record k { envs = update k.envs e (f (k.envs e)) }

-- Is `e` the environment that runs on this CPU?
abbrev pub is_cur : ℕ → Kernel → Bool
is_cur e k = elim k.curenv [ none ↦ false | some c ↦ c == e ]

-- A command that dereferences a pointer; a null pointer faults in the kernel, which panics.
abbrev pub deref : {A B : Type 0} → Option A → (A → Cmd B) → Cmd B
deref o f = elim o [ none ↦ abort | some a ↦ f a ]

-- envid2env, with what it stores through `env_store` on success
unfoldable pub envid2env : ℕ → Bool → Cmd (Ret (Option ℕ))
envid2env envid checkperm k =
    if envid == 0
    then ok (ret k.curenv) k
    else if (k.envs (envx envid)).env_status == env_free_status
        || (k.envs (envx envid)).env_id != envid
    then ok (fail e_bad_env) k
    else if checkperm && not (is_cur (envx envid) k)
    then deref k.curenv
        (λ c.
          branch ((k.envs (envx envid)).env_parent_id != (k.envs c).env_id) (pure (fail e_bad_env))
            (pure (ret (some (envx envid)))))
        k
    else ok (ret (some (envx envid))) k

-- env_init, with the slots left to visit: they go onto the list from NENV - 1 down to 0
unfoldable pub init_slots : ℕ → Kernel → Kernel
init_slots zero k = k
init_slots (suc i) k =
    init_slots i (record (set_env i (λ e. record e { env_id = 0; env_link = k.env_free_list }) k) {
      env_free_list = some i;
    })

unfoldable pub env_init : Cmd (Unit {0})
unfolding init_slots
env_init = modify (init_slots nenv)

-- `memcpy(dst, src, PGSIZE)` between pages
abbrev pub copy_page : ℕ → ℕ → Kernel → Kernel
copy_page dst src k = record k { word = update k.word dst (k.word src) }

unfoldable pub env_setup_vm : ℕ → Cmd (Ret (Unit {0}))
unfolding page_alloc page2kva
env_setup_vm e = do
  found ← page_alloc alloc_zero
  elim found [
    | none ↦ pure (fail e_no_mem)
    | some p ↦ do
      modify (incref p)
      d ← page2kva p
      modify (set_env e (λ v. record v { env_pgdir = some d }))
      modify (λ k. copy_page d k.kern_pgdir k)
      modify (store_word d (pdx uvpt) (bit_or (bit_or (page2pa d) pte_p) pte_u))
      pure (ret tt)
  ]

-- The id that env_alloc gives to slot `e`, from the slot's last id.
abbrev pub generation : ℕ → ℕ
generation id =
    let g = (id + 2 ^ 12) % word_size - (id + 2 ^ 12) % word_size % nenv in
    if g == 0 || leb (2 ^ 31) g then 2 ^ 12 else g

unfoldable pub next_id : ℕ → ℕ → ℕ
next_id id e = bit_or (generation id) e

-- GD_UD | 3, GD_UT | 3 and FL_IF
abbrev pub user_ds : ℕ
user_ds = 0x23

abbrev pub user_cs : ℕ
user_cs = 0x1b

abbrev pub fl_if : ℕ
fl_if = 0x200

abbrev pub zero_regs : PushRegs
zero_regs = record {
  reg_edi = 0;
  reg_esi = 0;
  reg_ebp = 0;
  reg_oesp = 0;
  reg_ebx = 0;
  reg_edx = 0;
  reg_ecx = 0;
  reg_eax = 0;
}

abbrev pub fresh_tf : Trapframe
fresh_tf = record {
  tf_regs = zero_regs;
  tf_es = user_ds;
  tf_ds = user_ds;
  tf_trapno = 0;
  tf_err = 0;
  tf_eip = 0;
  tf_cs = user_cs;
  tf_eflags = fl_if;
  tf_esp = ustacktop;
  tf_ss = user_ds;
}

-- The fields that env_alloc sets; the others keep what the slot's last environment left there.
abbrev pub fresh_env : ℕ → ℕ → Env → Env
fresh_env e parent_id v = record v {
  env_tf = fresh_tf;
  env_id = next_id v.env_id e;
  env_parent_id = parent_id;
  env_type = 0;
  env_status = env_runnable;
  env_runs = 0;
  env_pgfault_upcall = 0;
  env_ipc_recving = false;
}

-- env_alloc with the first free slot, if there is one
abbrev pub alloc_from : ℕ → Option ℕ → Cmd (Ret ℕ)
alloc_from parent_id none = pure (fail e_no_free_env)
alloc_from parent_id (some e) = do
  r ← env_setup_vm e
  elim r [
    | fail x ↦ pure (fail x)
    | ret _ ↦ do
      modify (set_env e (fresh_env e parent_id))
      modify (λ k. record k { env_free_list = (k.envs e).env_link })
      pure (ret e)
  ]

unfoldable pub env_alloc : ℕ → Cmd (Ret ℕ)
unfolding env_setup_vm
env_alloc parent_id k = alloc_from parent_id k.env_free_list k
