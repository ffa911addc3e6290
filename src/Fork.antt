-- ===== src/Fork.antt =====
-- User-level copy-on-write fork and message passing: OSLab7-Mitjoslab4/lib/fork.c, lib/pgfault.c and lib/ipc.c, for the
-- current environment, by the system calls of Syscall. panic() of a user program is `abort`. The page of an address is
-- read and written through the page tables that uvpd and uvpt show.
pub mod Share
pub mod Messages
mod Tests
use homework_of_operating_sy.Base.{
  ℕ, zero, suc, ◌+◌, ◌-◌, ◌*◌, ◌/◌, ◌%◌, Bool, true, false, not, ◌&&◌, ◌||◌, Option, none, some,
  ◌==◌, ◌!=◌, leb, if◌then◌else◌, bit_and, bit_or, update,
}
use homework_of_operating_sy.Mmu.{
  pgsize, ptsize, nptentries, pgnum, pdx, pte_p, pte_w, pte_u, rounddown, utop, uxstacktop,
  ustacktop,
}
use homework_of_operating_sy.Kernel.{
  Kernel, Cmd, Ret, Errno, ret, fail, e_ipc_not_recv, pure, abort, gets, modify, branch, and_then,
  ◌>>=◌, ◌>>◌, env_runnable, ret_word,
}
use homework_of_operating_sy.Pmap.Entry.{frame}
use homework_of_operating_sy.Env.{nenv, copy_page}
use homework_of_operating_sy.Syscall.{
  with_cur, with_pgdir, sys_getenvid, sys_exofork, sys_env_set_status, sys_env_set_pgfault_upcall,
  sys_page_alloc, sys_page_map, sys_page_unmap, sys_ipc_try_send, sys_change_pr,
}

abbrev pub pte_cow : ℕ
pte_cow = 2048

abbrev pub fec_wr : ℕ
fec_wr = 2

abbrev pub pftemp : ℕ
pftemp = 2 * ptsize - pgsize

-- uvpd[PDX(addr)] and uvpt[pn]
abbrev pub uvpd_at : ℕ → ℕ → Kernel → ℕ
uvpd_at d addr k = k.word d (pdx addr)

abbrev pub uvpt_at : ℕ → ℕ → Kernel → ℕ
uvpt_at d pn k = k.word (frame (k.word d (pn / nptentries))) (pn % nptentries)

-- `if (call < 0) panic(...)`, and then the rest
abbrev pub checked : Ret ℕ → Cmd (Unit {0})
checked (ret v) = pure tt
checked (fail x) = abort

abbrev pub or_panic : Cmd (Ret ℕ) → Cmd (Unit {0})
or_panic call = do r ← call; checked r

-- `*(d + pn)` is a writable page or a copy-on-write one
abbrev pub writable : ℕ → Bool
writable v = bit_and v pte_w != 0 || bit_and v pte_cow != 0

abbrev pub cow_perm : ℕ
cow_perm = bit_or (bit_or pte_cow pte_u) pte_p

-- The copy-on-write case of duppage
unfoldable pub share_cow : ℕ → ℕ → Cmd (Ret ℕ)
unfolding sys_page_map
share_cow envid addr = do
  or_panic (sys_page_map 0 addr envid addr cow_perm)
  or_panic (sys_page_map 0 addr 0 addr cow_perm)
  pure (ret 0)

-- duppage, once the entry `v` of the page is read
abbrev pub dup_entry : ℕ → ℕ → ℕ → Cmd (Ret ℕ)
dup_entry envid addr v =
    branch (writable v) (share_cow envid addr)
      do sys_page_map 0 addr envid addr (bit_or pte_u pte_p); pure (ret 0)

unfoldable pub duppage : ℕ → ℕ → Cmd (Ret ℕ)
unfolding share_cow sys_page_map
duppage envid pn = do
  v ← with_cur λ c. with_pgdir c λ d. gets (uvpt_at d pn)
  dup_entry envid (pn * pgsize) v

-- memcpy of one page between two mapped addresses
abbrev pub copy_user : ℕ → ℕ → Cmd (Unit {0})
copy_user dst src = with_cur λ c. with_pgdir c λ d.
    modify (λ k. copy_page (frame (uvpt_at d (pgnum dst) k)) (frame (uvpt_at d (pgnum src) k)) k)

-- The test at the start of the page fault handler
abbrev pub is_cow_write : ℕ → ℕ → ℕ → Kernel → Bool
is_cow_write addr err d k =
    bit_and err fec_wr != 0
    && bit_and (uvpd_at d addr k) pte_p != 0
    && bit_and (uvpt_at d (pgnum addr) k) pte_p != 0
    && bit_and (uvpt_at d (pgnum addr) k) pte_cow != 0

abbrev pub private_perm : ℕ
private_perm = bit_or (bit_or pte_w pte_u) pte_p

-- The rest of the handler: a private copy of the page at `addr`
unfoldable pub own_copy : ℕ → Cmd (Unit {0})
unfolding sys_page_alloc sys_page_map sys_page_unmap
own_copy addr = do
  or_panic (sys_page_alloc 0 pftemp private_perm)
  copy_user pftemp addr
  or_panic (sys_page_map 0 pftemp 0 addr private_perm)
  or_panic (sys_page_unmap 0 pftemp)

-- pgfault, with utf_fault_va and utf_err
unfoldable pub pgfault : ℕ → ℕ → Cmd (Unit {0})
unfolding own_copy
pgfault addr err = do
  cow ← with_cur λ c. with_pgdir c λ d. gets (is_cow_write addr err d)
  branch cow (own_copy (rounddown addr)) abort

-- set_pgfault_handler: `registered` is _pgfault_handler != 0, which the call sets; `upcall` is the
-- address of _pgfault_upcall
unfoldable pub set_pgfault_handler : ℕ → Bool → Cmd (Unit {0})
unfolding sys_page_alloc sys_env_set_pgfault_upcall
set_pgfault_handler upcall registered = do
  branch registered (pure tt) (or_panic (sys_page_alloc 0 (uxstacktop - pgsize) private_perm))
  or_panic (sys_env_set_pgfault_upcall 0 upcall)

-- The test of the loop of fork
abbrev pub user_page : ℕ → ℕ → Kernel → Bool
user_page addr d k =
    bit_and (uvpd_at d addr k) pte_p != 0
    && bit_and (uvpt_at d (pgnum addr) k) pte_p != 0
    && bit_and (uvpt_at d (pgnum addr) k) pte_u != 0

-- The loop of fork, for `n` pages from `addr` on
unfoldable pub dup_pages : ℕ → ℕ → ℕ → Cmd (Unit {0})
unfolding duppage
dup_pages envid addr zero = pure tt
dup_pages envid addr (suc n) = do
  mapped ← with_cur λ c. with_pgdir c λ d. gets (user_page addr d)
  branch mapped (do duppage envid (pgnum addr); pure tt) (pure tt)
  dup_pages envid (addr + pgsize) n

-- What the parent does once the child is made
unfoldable pub set_up_child : ℕ → ℕ → Cmd (Ret ℕ)
unfolding dup_pages sys_page_alloc sys_env_set_pgfault_upcall sys_env_set_status
set_up_child upcall envid = do
  dup_pages envid 0 (ustacktop / pgsize)
  or_panic (sys_page_alloc envid (uxstacktop - pgsize) private_perm)
  sys_env_set_pgfault_upcall envid upcall
  or_panic (sys_env_set_status envid env_runnable)
  pure (ret envid)

-- fork and pfork, which differ in what the child does; `thisenv` is the program's own
abbrev pub fork_with : Cmd (Unit {0}) → ℕ → Bool → Cmd (Ret ℕ)
fork_with in_child upcall registered = do
  set_pgfault_handler upcall registered
  r ← sys_exofork
  elim r [
    | fail x ↦ abort
    | ret envid ↦ branch (envid == 0) (do in_child; pure (ret 0)) (set_up_child upcall envid)
  ]

unfoldable pub fork : ℕ → Bool → Cmd (Ret ℕ)
unfolding set_pgfault_handler sys_exofork set_up_child sys_getenvid
fork = fork_with (do sys_getenvid; pure tt)

unfoldable pub pfork : ℕ → ℕ → Bool → Cmd (Ret ℕ)
unfolding set_pgfault_handler sys_exofork set_up_child sys_getenvid sys_change_pr
pfork pr = fork_with (do sys_getenvid; sys_change_pr pr; pure tt)
