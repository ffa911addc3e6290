-- ===== src/Trap.antt =====
-- The system call dispatcher of OSLab7-Mitjoslab4/kern/syscall.c and the trap handler of
-- kern/trap.c. What the hardware gives is an argument: `getc` is the result of cons_getc, `cr2` the
-- address of a page fault. The checks of panicstr and of the interrupt flag are left out.
mod Away
mod Dispatch
pub mod Freed
pub mod Entry
mod Tests
use homework_of_operating_sy.Base.{
  ℕ, ◌+◌, ◌-◌, ◌*◌, ◌/◌, ◌%◌, ◌^◌, bit_and, Bool, true, false, ◌||◌, ◌&&◌, Option, none, some, List,
  [], ◌∷◌, leb, ◌==◌, ◌!=◌, if◌then◌else◌,
}
use homework_of_operating_sy.Mmu.{word_size, pgsize, pgnum, pdx, ptx, pte_p, pte_w, uxstacktop}
use homework_of_operating_sy.Kernel.{
  Kernel, Env, Trapframe, PushRegs, ok, leave, panic, Cmd, pure, abort, and_then, ◌>>=◌, ◌>>◌, gets,
  modify, branch, Ret, ret, fail, ret_word, e_inval, to_monitor, env_running, env_dying,
}
use homework_of_operating_sy.Pmap.{store_word}
use homework_of_operating_sy.Env.{set_env, deref}
use homework_of_operating_sy.Sched.{sched_yield, env_run}
use homework_of_operating_sy.EnvFree.{env_free, env_destroy}
use homework_of_operating_sy.Syscall.{
  with_cur, user_mem_assert, sys_cputs, sys_getenvid, sys_env_destroy, sys_exofork,
  sys_env_set_status, sys_env_set_pgfault_upcall, sys_page_alloc, sys_page_map, sys_page_unmap,
  sys_ipc_try_send, sys_ipc_recv, sys_change_pr,
}

-- A handler's result as the int32_t that syscall() returns
abbrev pub answer : Cmd (Ret ℕ) → Cmd ℕ
answer m = m >>= λ r. pure (ret_word r)

-- syscall(). The case of SYS_yield does not come back, so that its missing `break` has no effect.
unfoldable pub syscall : ℕ → ℕ → ℕ → ℕ → ℕ → ℕ → ℕ → Cmd ℕ
unfolding sys_cputs sys_getenvid sys_env_destroy sys_exofork sys_page_alloc sys_page_map
    sys_page_unmap sys_env_set_status sys_env_set_pgfault_upcall sys_ipc_try_send sys_ipc_recv
    sys_change_pr sched_yield
syscall getc num a1 a2 a3 a4 a5 = branch (num == 0) (sys_cputs a1 a2 >> pure 0) (
    branch (num == 1) (pure getc) (
      branch (num == 2) sys_getenvid (
        branch (num == 3) (sys_env_destroy a1 >> pure 0) (
          branch (num == 10) sched_yield (
            branch (num == 7) (answer sys_exofork) (
              branch (num == 4) (answer (sys_page_alloc a1 a2 a3)) (
                branch (num == 5) (answer (sys_page_map a1 a2 a3 a4 a5)) (
                  branch (num == 6) (answer (sys_page_unmap a1 a2)) (
                    branch (num == 8) (answer (sys_env_set_status a1 a2)) (
                      branch (num == 9) (answer (sys_env_set_pgfault_upcall a1 a2)) (
                        branch (num == 11) (answer (sys_ipc_try_send a1 a2 a3 a4)) (
                          branch (num == 12) (answer (sys_ipc_recv a1)) (
                            branch (num == 13) (answer (sys_change_pr a1))
                              (pure (ret_word (fail e_inval))))))))))))))))

-- A store of the kernel to a user address, through the page tables in use; a missing or read-only
-- mapping is a page fault in the kernel.
unfoldable pub put_byte : ℕ → ℕ → Cmd (Unit {0})
put_byte va b = do
  d ← gets (λ k. k.word k.cr3 (pdx va))
  branch (bit_and d pte_p == 0) abort do
    let t = pgnum d
    e ← gets (λ k. k.word t (ptx va))
    branch (bit_and e pte_p == 0 || bit_and e pte_w == 0) abort do
      let f = pgnum e
      let i = va % pgsize / 4
      let s = 2 ^ (8 * (va % 4))
      w ← gets (λ k. k.word f i)
      modify (store_word f i (w - w / s % 256 * s + b % 256 * s))

unfoldable pub put_word : ℕ → ℕ → Cmd (Unit {0})
unfolding put_byte
put_word va v = do
  put_byte va v
  put_byte ((va + 1) % word_size) (v / 2 ^ 8)
  put_byte ((va + 2) % word_size) (v / 2 ^ 16)
  put_byte ((va + 3) % word_size) (v / 2 ^ 24)

unfoldable pub put_words : ℕ → List ℕ → Cmd (Unit {0})
unfolding put_word
put_words va [] = pure tt
put_words va (v ∷ vs) = do put_word va v; put_words ((va + 4) % word_size) vs

-- `struct UTrapframe` of inc/trap.h by words, as page_fault_handler fills it
abbrev pub utrapframe : ℕ → Trapframe → List ℕ
utrapframe fault_va tf =
    let r = tf.tf_regs in
    fault_va ∷ tf.tf_err ∷ r.reg_edi ∷ r.reg_esi ∷ r.reg_ebp ∷ r.reg_oesp ∷ r.reg_ebx ∷ r.reg_edx
    ∷ r.reg_ecx ∷ r.reg_eax ∷ tf.tf_eip ∷ tf.tf_eflags ∷ tf.tf_esp ∷ []

abbrev pub utf_size : ℕ
utf_size = 52

-- `utf_addr` of page_fault_handler
unfoldable pub utf_addr : ℕ → ℕ
utf_addr esp =
    if leb (uxstacktop - pgsize) esp && leb esp (uxstacktop - 1)
    then esp - utf_size - 4
    else uxstacktop - utf_size

-- A pointer to a trap frame: the one saved in an environment, or one on the kernel stack.
pub data Frame : Type 0 where
  saved : ℕ → Frame
  on_stack : Trapframe → Frame

abbrev pub load_frame : Frame → Kernel → Trapframe
load_frame (saved e) k = (k.envs e).env_tf
load_frame (on_stack tf) k = tf

-- `tf->tf_regs.reg_eax = v`
abbrev pub with_eax : ℕ → Env → Env
with_eax v w =
    let regs : PushRegs = record (w.env_tf.tf_regs) { reg_eax = v } in
    record w { env_tf = record (w.env_tf) { tf_regs = regs } }

abbrev pub store_eax : Frame → ℕ → Kernel → Kernel
store_eax (saved e) v k = set_env e (with_eax v) k
store_eax (on_stack tf) v k = k

-- The upcall part of page_fault_handler for process `c`
unfoldable pub upcall : {A : Type 0} → ℕ → ℕ → Trapframe → Cmd A
unfolding user_mem_assert put_words env_run
upcall c fault_va tf = do
  let at = utf_addr tf.tf_esp
  user_mem_assert c at utf_size pte_w
  put_words at (utrapframe fault_va tf)
  modify (
      set_env c (λ v. record v {
        env_tf = record (v.env_tf) { tf_eip = v.env_pgfault_upcall; tf_esp = at };
      }))
  env_run c

-- The rest of page_fault_handler in process `c`, by its `env_pgfault_upcall`
abbrev pub fault_in : ℕ → Trapframe → ℕ → Cmd (Unit {0})
fault_in cr2 tf c k =
    if (k.envs c).env_pgfault_upcall != 0 then upcall c cr2 tf k else env_destroy c k

-- page_fault_handler
unfoldable pub page_fault_handler : ℕ → Trapframe → Cmd (Unit {0})
unfolding upcall env_destroy
page_fault_handler cr2 tf = branch (tf.tf_cs % 4 == 0) abort (with_cur (fault_in cr2 tf))

-- The T_SYSCALL case of trap_dispatch
unfoldable pub system_call : ℕ → Frame → Trapframe → Cmd (Unit {0})
unfolding syscall
system_call getc p tf = do
  let r = tf.tf_regs
  v ← syscall getc r.reg_eax r.reg_edx r.reg_ecx r.reg_ebx r.reg_edi r.reg_esi
  modify (store_eax p v)

-- trap_dispatch of the frame `tf` that `p` points to; the breakpoint enters the monitor
unfoldable pub dispatch : ℕ → ℕ → Frame → Trapframe → Cmd (Unit {0})
unfolding page_fault_handler system_call sched_yield env_destroy
dispatch getc cr2 p tf = branch (tf.tf_trapno == 14) (page_fault_handler cr2 tf) (
    branch (tf.tf_trapno == 3) (leave to_monitor) (
      branch (tf.tf_trapno == 48) (system_call getc p tf) (
        branch (tf.tf_trapno == 32 + 7) (pure tt) (
          branch (tf.tf_trapno == 32 + 0) sched_yield
            (branch (tf.tf_cs == 8) abort (with_cur env_destroy))))))

abbrev pub trap_dispatch : ℕ → ℕ → Frame → Cmd (Unit {0})
trap_dispatch getc cr2 p k = dispatch getc cr2 p (load_frame p k) k

-- lock_kernel, at the moment when the lock is got; a lock that this CPU holds is a panic
abbrev pub lock_when : Bool → Cmd (Unit {0})
lock_when true = abort
lock_when false = modify (λ k. record k { locked = true })

abbrev pub lock_kernel : Cmd (Unit {0})
lock_kernel k = lock_when k.locked k

-- A CPU that was halted takes the lock again.
abbrev pub relock : Bool → Cmd (Unit {0})
relock true = lock_kernel
relock false = pure tt

-- The end of trap: back to the current process if it still runs
abbrev pub trap_return : {A : Type 0} → Option ℕ → Cmd A
trap_return none k = sched_yield k
trap_return (some c) k = if (k.envs c).env_status == env_running then env_run c k else sched_yield k

abbrev pub trap_end : {A : Type 0} → ℕ → ℕ → Frame → Cmd A
trap_end getc cr2 p = trap_dispatch getc cr2 p >> (λ k. trap_return k.curenv k)

-- A zombie is freed when its CPU enters the kernel.
unfoldable pub collect : {A : Type 0} → ℕ → Cmd A
unfolding env_free sched_yield
collect c = do env_free c; modify (λ k. record k { curenv = none }); sched_yield

-- trap from user mode, in process `c` and with the lock
abbrev pub trap_user : {A : Type 0} → ℕ → ℕ → Trapframe → ℕ → Cmd A
trap_user getc cr2 tf c = do
  zombie ← gets (λ k. (k.envs c).env_status == env_dying)
  branch zombie (collect c)
      do modify (set_env c (λ v. record v { env_tf = tf })); trap_end getc cr2 (saved c)

-- trap, by the privilege level `ring` of the interrupted code
abbrev pub trap_from : {A : Type 0} → Bool → ℕ → ℕ → Trapframe → Cmd A
trap_from true getc cr2 tf = lock_kernel >> with_cur (trap_user getc cr2 tf)
trap_from false getc cr2 tf = trap_end getc cr2 (on_stack tf)

unfoldable pub trap : {A : Type 0} → ℕ → ℕ → Trapframe → Cmd A
unfolding dispatch collect env_run sched_yield
trap getc cr2 tf k =
    and_then (relock k.halted (record k { halted = false }))
      (λ _. trap_from (tf.tf_cs % 4 == 3) getc cr2 tf)
