-- ===== src/Syscall/Tests.antt =====
-- The system call theorems on the sample machine.
use homework_of_operating_sy.Base.{[], ◌∷◌, ℕ, ◌≡◌, refl, inl, inr, true, some, arith}
use homework_of_operating_sy.Kernel.{Kernel, ok, ret, fail, e_bad_env}
use homework_of_operating_sy.Sample.{machine, free_pages}
use homework_of_operating_sy.Pmap.Example.{machine-DirOk}
use homework_of_operating_sy.Env.{envid2env}
use homework_of_operating_sy.Env.Lookup.{Access}
use homework_of_operating_sy.Syscall.{
  sys_env_destroy, sys_env_set_status, sys_env_set_pgfault_upcall, sys_page_alloc, sys_page_map,
  sys_page_unmap, sys_ipc_recv, sys_ipc_try_send,
}
use homework_of_operating_sy.Syscall.Isolation.{syscall_denied}
use homework_of_operating_sy.Syscall.Ipc.{
  recv_state, SendAnswer, sys_ipc_try_send_lem, Exchanged, sys_ipc_recv-sys_ipc_try_send,
}
use homework_of_operating_sy.Syscall.PageMap.{MapOutcome, sys_page_map_lem}
use homework_of_operating_sy.Syscall.PageAlloc.{PageAlloced, sys_page_alloc-pp_ref}

-- Slot 2 is free, so that no id of it gives access.
no_third : (e : ℕ) → ¬ Access machine 0 0x1002 true e
no_third e (inl (z, _)) = omega (arith, z)
no_third e (inr (_, slot, live, _, _)) = ground (arith, slot, live)

syscall_denied_example :
    (sys_env_destroy 0x1002 machine ≡ ok (fail e_bad_env) machine)
    × (sys_env_set_pgfault_upcall 0x1002 4 machine ≡ ok (fail e_bad_env) machine)
    × (sys_page_alloc 0x1002 0x1000 7 machine ≡ ok (fail e_bad_env) machine)
    × (sys_page_map 0x1002 0x1000 0x1001 0x2000 7 machine ≡ ok (fail e_bad_env) machine)
    × (sys_page_map 0x1001 0x1000 0x1002 0x2000 7 machine ≡ ok (fail e_bad_env) machine)
    × (sys_env_set_status 0x1002 2 machine ≡ ok (fail e_bad_env) machine)
    × (sys_page_unmap 0x1002 0x1000 machine ≡ ok (fail e_bad_env) machine)
unfolding envid2env
syscall_denied_example =
    syscall_denied {k = machine} {c = 0} refl 0x1002 no_third 2 4 0x1000 0x2000 7 0x1001 1 refl

-- The child waits, and gets a value.
sys_ipc_try_send_lem_example :
    SendAnswer 0x1001 42 0 machine (sys_ipc_try_send 0x1001 42 0xEEC00000 0 machine)
sys_ipc_try_send_lem_example =
    sys_ipc_try_send_lem 0x1001 42 0xEEC00000 0 0 machine refl (omega arith)

-- Process 0 receives, and then its child sends to it.
abbrev later : Kernel
later = record (recv_state 0 0xEEC00000 machine) { curenv = some 1 }

sys_ipc_recv-sys_ipc_try_send_example :
    (sys_ipc_recv 0xEEC00000 machine ≡ ok (ret 0) (recv_state 0 0xEEC00000 machine))
    × Exchanged 0 1 0x1000 42 0xEEC00000 0 later
sys_ipc_recv-sys_ipc_try_send_example =
    sys_ipc_recv-sys_ipc_try_send 0 0xEEC00000 1 0x1000 42 0xEEC00000 0 machine later refl refl refl
      refl (omega arith) refl refl (omega arith)

-- A page at 0x2000
sys_page_alloc-pp_ref_example : PageAlloced 8 11 0 0x2000 7 machine
unfolding envid2env
sys_page_alloc-pp_ref_example =
    sys_page_alloc-pp_ref 0 0x2000 7 0 8 11 (12 ∷ []) machine refl refl machine-DirOk (omega arith)
      (omega arith) refl (ground arith)

-- Process 0 shares its page at 0x1000 with its child at 0x2000, read-only.
sys_page_map_lem_example :
    MapOutcome 8 0x1000 8 0x2000 5 free_pages machine
      (sys_page_map 0 0x1000 0x1001 0x2000 5 machine)
unfolding envid2env
sys_page_map_lem_example =
    sys_page_map_lem 0 0x1000 0x1001 0x2000 5 0 1 8 8 free_pages machine refl refl refl refl
      machine-DirOk machine-DirOk refl (omega arith)
