-- ===== src/Kernel.antt =====
-- The state that the kernel keeps while it holds the big kernel lock on one CPU, and the commands
-- over it: `struct Env` (OSLab7-Mitjoslab4/inc/env.h), `struct Trapframe` (inc/trap.h), the page
-- array and the page tables (kern/pmap.c), the globals of kern/env.c and the fields of `thiscpu`.
-- A physical page goes by its number; a kernel pointer into the page array, to a page directory or
-- to an environment is that number or the index. NULL is `none`.
use homework_of_operating_sy.Base.{ℕ, ◌-◌, ◌^◌, Bool, Option, List, if◌then◌else◌}

-- The negative results of inc/error.h.
pub data Errno : Type 0 where
  e_unspecified e_bad_env e_inval e_no_mem e_no_free_env e_fault e_ipc_not_recv e_eof : Errno

abbrev pub errno_code : Errno → ℕ
errno_code e_unspecified = 1
errno_code e_bad_env = 2
errno_code e_inval = 3
errno_code e_no_mem = 4
errno_code e_no_free_env = 5
errno_code e_fault = 6
errno_code e_ipc_not_recv = 7
errno_code e_eof = 8

-- A result that is `-E_...` or a value.
pub data Ret (A : Type 0) : Type 0 where
  ret : A → Ret A
  fail : Errno → Ret A

-- `int32_t` as its bit pattern.
abbrev pub ret_word : Ret ℕ → ℕ
ret_word (ret v) = v
ret_word (fail e) = 2 ^ 32 - errno_code e

-- `struct PushRegs` and `struct Trapframe`
pub record PushRegs : Type 0 where
  pub reg_edi : ℕ
  pub reg_esi : ℕ
  pub reg_ebp : ℕ
  pub reg_oesp : ℕ
  pub reg_ebx : ℕ
  pub reg_edx : ℕ
  pub reg_ecx : ℕ
  pub reg_eax : ℕ

pub record Trapframe : Type 0 where
  pub tf_regs : PushRegs
  pub tf_es : ℕ
  pub tf_ds : ℕ
  pub tf_trapno : ℕ
  pub tf_err : ℕ
  pub tf_eip : ℕ
  pub tf_cs : ℕ
  pub tf_eflags : ℕ
  pub tf_esp : ℕ
  pub tf_ss : ℕ

-- ENV_FREE, ENV_DYING, ENV_RUNNABLE, ENV_RUNNING, ENV_NOT_RUNNABLE
abbrev pub env_free_status : ℕ
env_free_status = 0

abbrev pub env_dying : ℕ
env_dying = 1

abbrev pub env_runnable : ℕ
env_runnable = 2

abbrev pub env_running : ℕ
env_running = 3

abbrev pub env_not_runnable : ℕ
env_not_runnable = 4

-- `struct Env`. Ids and priorities are int32_t bit patterns.
pub record Env : Type 0 where
  pub env_tf : Trapframe
  pub env_link : Option ℕ
  pub env_id : ℕ
  pub env_parent_id : ℕ
  pub env_type : ℕ
  pub env_status : ℕ
  pub env_runs : ℕ
  pub env_cpunum : ℕ
  pub env_pgdir : Option ℕ
  pub env_pgfault_upcall : ℕ
  pub env_ipc_recving : Bool
  pub env_ipc_dstva : ℕ
  pub env_ipc_value : ℕ
  pub env_ipc_from : ℕ
  pub env_ipc_perm : ℕ
  pub pr : ℕ

-- `word f i` is 32-bit word i of physical page f; `pp_ref`, `pp_link` are the fields of the page
-- array. `flushed` logs the addresses given to `invlpg`. `halted`, `cpunum`, `curenv` are of
-- `thiscpu`, `locked` is the big kernel lock, and `cr3` the page whose directory is in use.
pub record Kernel : Type 0 where
  pub npages : ℕ
  pub word : ℕ → ℕ → ℕ
  pub pp_ref : ℕ → ℕ
  pub pp_link : ℕ → Option ℕ
  pub page_free_list : Option ℕ
  pub kern_pgdir : ℕ
  pub envs : ℕ → Env
  pub env_free_list : Option ℕ
  pub curenv : Option ℕ
  pub cpunum : ℕ
  pub halted : Bool
  pub locked : Bool
  pub flushed : List ℕ
  pub cr3 : ℕ

-- How control leaves the kernel: to user mode of `curenv`, by `hlt`, or into the monitor.
pub data Exit : Type 0 where
  to_user to_halt to_monitor : Exit

pub data Run (A : Type 0) : Type 0 where
  ok : A → Kernel → Run A
  leave : Exit → Kernel → Run A
  panic : Run A

abbrev pub Cmd : Type 0 → Type 0
Cmd A = Kernel → Run A

abbrev pub pure : {A : Type 0} → A → Cmd A
pure = ok

abbrev pub abort : {A : Type 0} → Cmd A
abort k = panic

module _ {A B : Type 0} where
  -- What follows a run that has ended: nothing, unless it returned.
  abbrev pub and_then : Run A → (A → Cmd B) → Run B
  and_then panic next = panic
  and_then (leave how k) next = leave how k
  and_then (ok a k) next = next a k

  infixl 5 ◌>>=◌ ◌>>◌
  abbrev pub ◌>>=◌ : Cmd A → (A → Cmd B) → Cmd B
  first >>= next = λ k. and_then (first k) next

  abbrev pub ◌>>◌ : Cmd A → Cmd B → Cmd B
  first >> second = first >>= λ _. second

-- Reads of the state, and writes to it.
abbrev pub gets : {A : Type 0} → (Kernel → A) → Cmd A
gets f k = ok (f k) k

abbrev pub modify : (Kernel → Kernel) → Cmd (Unit {0})
modify f k = ok tt (f k)

-- A branch of the code: the command chosen by a test.
abbrev pub branch : {A : Type 0} → Bool → Cmd A → Cmd A → Cmd A
branch b m n k = if b then m k else n k
