-- ===== src/Syscall.antt =====
-- The system calls of OSLab7-Mitjoslab4/kern/syscall.c. Each acts for the current process; a result
-- below zero is `fail`. The output of sys_cputs is not part of the state.
pub mod Isolation
pub mod Ipc
pub mod PageAlloc
pub mod MapRun
pub mod PageMap
mod Tests
use homework_of_operating_sy.Base.{
  ℕ, ◌%◌, bit_and, bit_or, Bool, true, false, ◌&&◌, ◌||◌, not, Option, none, some, ltb, leb, ◌==◌,
  ◌!=◌, if◌then◌else◌,
}
use homework_of_operating_sy.Mmu.{rounddown, utop, pte_p, pte_w, pte_u}
use homework_of_operating_sy.Kernel.{
  Kernel, Env, Trapframe, PushRegs, Cmd, pure, ◌>>=◌, ◌>>◌, gets, modify, branch, Ret, ret, fail,
  Errno, e_inval, e_no_mem, e_ipc_not_recv, env_runnable, env_not_runnable,
}
use homework_of_operating_sy.Pmap.{
  Pte, load_pte, incref, page_alloc, page_free, page_lookup, page_insert, page_remove,
  user_mem_check,
}
use homework_of_operating_sy.Env.{set_env, deref, envid2env, env_alloc}
use homework_of_operating_sy.EnvFree.{env_destroy}
use homework_of_operating_sy.Sched.{sched_yield}

-- `curenv`, and `e->env_pgdir`
abbrev pub with_cur : {B : Type 0} → (ℕ → Cmd B) → Cmd B
with_cur f k = deref k.curenv f k

abbrev pub with_pgdir : {B : Type 0} → ℕ → (ℕ → Cmd B) → Cmd B
with_pgdir e f k = deref (k.envs e).env_pgdir f k

-- `ret = envid2env(envid, &e, checkperm); if (ret) return ret;` and then the rest, with `e`
abbrev pub with_env : {B : Type 0} → ℕ → Bool → (ℕ → Cmd (Ret B)) → Cmd (Ret B)
with_env envid checkperm f = do
  r ← envid2env envid checkperm
  elim r [ fail x ↦ pure (fail x) | ret o ↦ deref o f ]

-- A failed test ends the call with the error code.
abbrev pub refuse : {B : Type 0} → Errno → Cmd (Ret B)
refuse x = pure (fail x)

-- `va != ROUNDDOWN(va, PGSIZE)`
abbrev pub unaligned : ℕ → Bool
unaligned va = va != rounddown va

-- `(perm & (PTE_U|PTE_P)) != (PTE_U|PTE_P)`
abbrev pub lacks_user : ℕ → Bool
lacks_user perm = bit_and perm (bit_or pte_u pte_p) != bit_or pte_u pte_p

unfoldable pub sys_getenvid : Cmd ℕ
sys_getenvid = with_cur λ c. gets (λ k. (k.envs c).env_id)

-- user_mem_assert of kern/pmap.c
unfoldable pub user_mem_assert : ℕ → ℕ → ℕ → ℕ → Cmd (Unit {0})
unfolding user_mem_check env_destroy
user_mem_assert e va len perm = do
  v ← gets (λ k. k.envs e)
  r ← user_mem_check v va len (bit_or perm pte_u)
  elim r [ none ↦ pure tt | some a ↦ env_destroy e ]

unfoldable pub sys_cputs : ℕ → ℕ → Cmd (Unit {0})
unfolding sys_getenvid user_mem_assert envid2env
sys_cputs s len = do
  id ← sys_getenvid
  r ← envid2env id true
  elim r [
    | fail x ↦ deref none (λ (e : ℕ). pure tt)
    | ret o ↦ deref o (λ e. user_mem_assert e s len pte_u)
  ]

unfoldable pub sys_env_destroy : ℕ → Cmd (Ret ℕ)
unfolding envid2env env_destroy
sys_env_destroy envid = with_env envid true λ e. do env_destroy e; pure (ret 0)

-- The new process of sys_exofork: the registers of its parent, but for %eax
abbrev pub forked : Trapframe → Env → Env
forked tf v =
    let regs : PushRegs = record (tf.tf_regs) { reg_eax = 0 } in
    record v { env_tf = record tf { tf_regs = regs }; env_status = env_not_runnable }

unfoldable pub sys_exofork : Cmd (Ret ℕ)
unfolding env_alloc
sys_exofork = with_cur λ c. do
  parent_id ← gets (λ k. (k.envs c).env_id)
  r ← env_alloc parent_id
  elim r [
    | fail x ↦ pure (fail x)
    | ret e ↦ do
      modify (λ k. set_env e (forked (k.envs c).env_tf) k)
      id ← gets (λ k. (k.envs e).env_id)
      pure (ret id)
  ]

unfoldable pub sys_env_set_status : ℕ → ℕ → Cmd (Ret ℕ)
unfolding envid2env
sys_env_set_status envid status =
    branch (status != env_not_runnable && status != env_runnable) (refuse e_inval) (
      with_env envid true
        λ e. do modify (set_env e (λ v. record v { env_status = status })); pure (ret 0))

unfoldable pub sys_env_set_pgfault_upcall : ℕ → ℕ → Cmd (Ret ℕ)
unfolding envid2env
sys_env_set_pgfault_upcall envid func =
    with_env envid true
      λ e. do modify (set_env e (λ v. record v { env_pgfault_upcall = func })); pure (ret 0)

-- The end of sys_page_alloc, by the result of page_insert
abbrev pub page_kept : ℕ → Ret (Unit {0}) → Cmd (Ret ℕ)
unfolding page_free
page_kept i (ret _) = pure (ret 0)
page_kept i (fail x) = do page_free i; pure (fail x)

-- sys_page_alloc, from the page on
unfoldable pub page_into : ℕ → ℕ → ℕ → ℕ → Cmd (Ret ℕ)
unfolding page_insert page_free
page_into e va perm i = do
  modify (incref i)
  r ← with_pgdir e λ pgdir. page_insert pgdir i va perm
  page_kept i r

unfoldable pub sys_page_alloc : ℕ → ℕ → ℕ → Cmd (Ret ℕ)
unfolding envid2env page_alloc page_into
sys_page_alloc envid va perm = with_env envid true λ e. branch (leb utop va) (refuse e_inval) (
    branch (lacks_user perm) (refuse e_inval)
      do pg ← page_alloc 1; elim pg [ none ↦ refuse e_no_mem | some i ↦ page_into e va perm i ])

-- `int ret` from page_insert
abbrev pub status_of : Ret (Unit {0}) → Ret ℕ
status_of (ret _) = ret 0
status_of (fail x) = fail x

-- The end of sys_page_map: page `i` goes into the address space of `de`.
abbrev pub map_into : ℕ → ℕ → ℕ → ℕ → Cmd (Ret ℕ)
map_into de dstva perm i = do
  r ← with_pgdir de λ pgdir. page_insert pgdir i dstva perm
  pure (status_of r)

-- sys_page_map after page_lookup, by its result
abbrev pub map_found : ℕ → ℕ → ℕ → Option (ℕ × Pte) → Cmd (Ret ℕ)
map_found de dstva perm none = refuse e_inval
map_found de dstva perm (some (i, q)) = branch (lacks_user perm) (refuse e_inval) do
  v ← gets (load_pte q)
  branch (bit_and v pte_w == 0 && bit_and perm pte_w != 0) (refuse e_inval)
      (map_into de dstva perm i)

unfoldable pub sys_page_map : ℕ → ℕ → ℕ → ℕ → ℕ → Cmd (Ret ℕ)
unfolding envid2env page_lookup page_insert
sys_page_map srcenvid srcva dstenvid dstva perm = with_env srcenvid true λ se.
    with_env dstenvid true λ de.
      branch (leb utop srcva || leb utop dstva || unaligned srcva || unaligned dstva)
        (refuse e_inval)
        do found ← with_pgdir se λ pgdir. page_lookup pgdir srcva; map_found de dstva perm found

unfoldable pub sys_page_unmap : ℕ → ℕ → Cmd (Ret ℕ)
unfolding envid2env page_remove
sys_page_unmap envid va =
    branch (leb utop va || unaligned va) (refuse e_inval)
      (with_env envid true λ e. do with_pgdir e λ pgdir. page_remove pgdir va; pure (ret 0))

-- The end of sys_ipc_try_send: the message is put into process `e`.
abbrev pub delivered : ℕ → ℕ → Env → Env
delivered from value v =
    let regs : PushRegs = record (v.env_tf.tf_regs) { reg_eax = 0 } in
    let tf : Trapframe = record (v.env_tf) { tf_regs = regs } in
    record v {
      env_ipc_recving = false;
      env_ipc_from = from;
      env_ipc_value = value;
      env_status = env_runnable;
      env_tf = tf;
    }

unfoldable pub deliver : ℕ → ℕ → ℕ → Cmd (Ret ℕ)
deliver e c value = do modify (λ k. set_env e (delivered (k.envs c).env_id value) k); pure (ret 0)

-- sys_ipc_try_send where `srcva` names page `i` with entry `v`: the tests, and the transfer if the
-- receiver takes a page
send_page : ℕ → ℕ → ℕ → ℕ → ℕ → Cmd (Ret ℕ)
unfolding page_insert
send_page e srcva perm i v = branch (bit_and v perm != perm) (refuse e_inval) (
    branch (bit_and perm pte_w != 0 && bit_and v pte_w == 0) (refuse e_inval) (
      branch (unaligned srcva) (refuse e_inval) do
        dstva ← gets (λ k. (k.envs e).env_ipc_dstva)
        branch (ltb dstva utop)
            (do
              r ← with_pgdir e λ pgdir. page_insert pgdir i dstva perm
              elim r [
                | fail x ↦ pure (fail x)
                | ret _ ↦ do
                  modify (set_env e (λ w. record w { env_ipc_perm = perm }))
                  pure (ret 0)
              ])
            (pure (ret 0))))

-- The part of sys_ipc_try_send under `if (srcva < UTOP)`
unfoldable pub send_from : ℕ → ℕ → ℕ → ℕ → Cmd (Ret ℕ)
unfolding page_lookup send_page
send_from c e srcva perm = do
  found ← with_pgdir c λ pgdir. page_lookup pgdir srcva
  elim found [
    | none ↦ refuse e_inval
    | some (i, q) ↦ do v ← gets (load_pte q); send_page e srcva perm i v
  ]

-- sys_ipc_try_send after its test of `env_ipc_recving`, with `curenv` at `c`
abbrev pub send_body : ℕ → ℕ → ℕ → ℕ → ℕ → Cmd (Ret ℕ)
send_body e value srcva perm c = do
  r ← branch (ltb srcva utop) (send_from c e srcva perm) (pure (ret 0))
  elim r [ fail x ↦ pure (fail x) | ret _ ↦ deliver e c value ]

unfoldable pub sys_ipc_try_send : ℕ → ℕ → ℕ → ℕ → Cmd (Ret ℕ)
unfolding envid2env deliver send_from
sys_ipc_try_send envid value srcva perm = with_env envid false λ e. do
  waiting ← gets (λ k. (k.envs e).env_ipc_recving)
  branch (not waiting) (refuse e_ipc_not_recv) (with_cur (send_body e value srcva perm))

-- sys_ipc_recv after its test, with `curenv` at `c`
abbrev pub recv_body : ℕ → ℕ → Cmd (Ret ℕ)
recv_body dstva c = do
  modify (
      set_env c (λ v. record v {
        env_ipc_recving = true;
        env_status = env_not_runnable;
        env_ipc_dstva = dstva;
      }))
  pure (ret 0)

unfoldable pub sys_ipc_recv : ℕ → Cmd (Ret ℕ)
sys_ipc_recv dstva =
    branch (ltb dstva utop && unaligned dstva) (refuse e_inval) (with_cur (recv_body dstva))

unfoldable pub sys_change_pr : ℕ → Cmd (Ret ℕ)
sys_change_pr p = with_cur λ c. do modify (set_env c (λ v. record v { pr = p })); pure (ret 0)
