-- ===== src/Syscall/Isolation.antt =====
-- A process changes no process but itself and its children.
use homework_of_operating_sy.Base.{
  ℕ, ◌≡◌, inl, inr, true, Bool-cases, some, ◌||◌, ◌&&◌, ◌!=◌, if◌then◌else◌, leb,
}
use homework_of_operating_sy.Mmu.{utop}
use homework_of_operating_sy.Kernel.{
  Kernel, ok, ret, fail, e_bad_env, e_inval, env_runnable, env_not_runnable,
}
use homework_of_operating_sy.Env.{envid2env}
use homework_of_operating_sy.Env.Lookup.{Access, envid2env_lem}
use homework_of_operating_sy.Syscall.{
  unaligned, sys_env_destroy, sys_env_set_status, sys_env_set_pgfault_upcall, sys_page_alloc,
  sys_page_map, sys_page_unmap,
}

module _ {k : Kernel} {c : ℕ} (at : k.curenv ≡ some c) (envid : ℕ)
    (denied : (e : ℕ) → ¬ Access k c envid true e) where
  lookup_denied : envid2env envid true k ≡ ok (fail e_bad_env) k
  lookup_denied = elim (envid2env_lem envid true c k at) [
    | inl (e, a, _) ↦ absurd (denied e a)
    | inr (_, e) ↦ e
  ]

  -- With an id that gives the caller no access, sys_env_destroy, sys_env_set_pgfault_upcall,
  -- sys_page_alloc and sys_page_map (at either end, the source being accessible for the second)
  -- return -E_BAD_ENV, whatever the other arguments, and so do sys_env_set_status
  -- and sys_page_unmap, but with -E_INVAL for a bad status or address. None of them changes the state.
  pub syscall_denied :
      (status func va va' perm envid' e' : ℕ)
      → envid2env envid' true k ≡ ok (ret (some e')) k
      → (sys_env_destroy envid k ≡ ok (fail e_bad_env) k)
        × (sys_env_set_pgfault_upcall envid func k ≡ ok (fail e_bad_env) k)
        × (sys_page_alloc envid va perm k ≡ ok (fail e_bad_env) k)
        × (sys_page_map envid va envid' va' perm k ≡ ok (fail e_bad_env) k)
        × (sys_page_map envid' va envid va' perm k ≡ ok (fail e_bad_env) k)
        × (sys_env_set_status envid status k
            ≡ ok
                (fail (
                  if status != env_not_runnable && status != env_runnable
                  then e_inval
                  else e_bad_env))
                k)
        × (sys_page_unmap envid va k
            ≡ ok (fail (if leb utop va || unaligned va then e_inval else e_bad_env)) k)
  unfolding sys_env_destroy sys_env_set_pgfault_upcall sys_page_alloc sys_page_map
      sys_env_set_status sys_page_unmap
  syscall_denied status func va va' perm envid' e' src = (
    rw lookup_denied,
    rw lookup_denied,
    rw lookup_denied,
    rw lookup_denied,
    rw (src, lookup_denied),
    elim (Bool-cases (status != env_not_runnable && status != env_runnable)) [
      | inl bad ↦ rw bad
      | inr fine ↦ rw (fine, lookup_denied)
    ],
    elim (Bool-cases (leb utop va || unaligned va)) [
      | inl bad ↦ rw bad
      | inr fine ↦ rw (fine, lookup_denied)
    ],
  )
