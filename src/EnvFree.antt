-- ===== src/EnvFree.antt =====
-- Giving a process memory and taking it back: region_alloc, env_free and env_destroy of
-- OSLab7-Mitjoslab4/kern/env.c.
pub mod Release
mod Tests
use homework_of_operating_sy.Base.{
  ℕ, zero, suc, ◌+◌, ◌-◌, ◌/◌, ◌%◌, bit_and, bit_or, ◌&&◌, not, none, some, ◌==◌, if◌then◌else◌,
}
use homework_of_operating_sy.Mmu.{
  word_size, pgsize, pgaddr, pdx, pte_p, pte_w, pte_u, pte_addr, rounddown, roundup, utop,
}
use homework_of_operating_sy.Kernel.{
  Cmd, pure, abort, ◌>>=◌, ◌>>◌, gets, modify, branch, env_free_status, env_dying, env_running,
}
use homework_of_operating_sy.Pmap.{
  page2pa, pa2page, page_alloc, page_decref, page_remove, page_insert, store_word,
}
use homework_of_operating_sy.Env.{set_env, is_cur, deref}
use homework_of_operating_sy.Sched.{sched_yield}

-- The page loop of region_alloc, with the pages left
unfoldable pub alloc_pages : ℕ → ℕ → ℕ → Cmd (Unit {0})
unfolding page_alloc page_insert
alloc_pages pgdir zero begin = pure tt
alloc_pages pgdir (suc n) begin = do
  pg ← page_alloc 0
  elim pg [
    | none ↦ abort
    | some i ↦ do
      _ ← page_insert pgdir i begin (bit_or pte_w pte_u)
      alloc_pages pgdir n (begin + pgsize)
  ]

unfoldable pub region_alloc : ℕ → ℕ → ℕ → Cmd (Unit {0})
unfolding alloc_pages
region_alloc e va len = do
  d ← gets (λ k. (k.envs e).env_pgdir)
  let n = (roundup ((va + len) % word_size) - rounddown va) / pgsize
  deref d λ pgdir. alloc_pages pgdir n (rounddown va)

-- The inner loop of env_free over the entries of a table, with the entries left. `pt` is the table.
unfoldable pub free_entries : ℕ → ℕ → ℕ → ℕ → ℕ → Cmd (Unit {0})
unfolding page_remove
free_entries pgdir pt pdeno zero pteno = pure tt
free_entries pgdir pt pdeno (suc n) pteno = do
  v ← gets (λ k. k.word pt pteno)
  branch (bit_and v pte_p == 0) (pure tt) (page_remove pgdir (pgaddr pdeno pteno 0))
  free_entries pgdir pt pdeno n (pteno + 1)

-- The outer loop, over the directory entries below PDX(UTOP)
unfoldable pub free_tables : ℕ → ℕ → ℕ → Cmd (Unit {0})
unfolding free_entries pa2page page_decref
free_tables pgdir zero pdeno = pure tt
free_tables pgdir (suc n) pdeno = do
  v ← gets (λ k. k.word pgdir pdeno)
  branch (bit_and v pte_p == 0) (pure tt) do
    pt ← pa2page (pte_addr v)
    free_entries pgdir pt pdeno 1024 0
    modify (store_word pgdir pdeno 0)
    page_decref pt
  free_tables pgdir n (pdeno + 1)

unfoldable pub env_free : ℕ → Cmd (Unit {0})
unfolding free_tables page_decref pa2page
env_free e = do
  modify (λ k. if is_cur e k then record k { cr3 = k.kern_pgdir } else k)
  d ← gets (λ k. (k.envs e).env_pgdir)
  deref d λ pgdir. do
    free_tables pgdir (pdx utop) 0
    modify (set_env e (λ v. record v { env_pgdir = none }))
    p ← pa2page (page2pa pgdir)
    page_decref p
    modify (λ k.
        record (set_env e
          (λ v. record v { env_status = env_free_status; env_link = k.env_free_list }) k) {
            env_free_list = some e;
          })

-- env_destroy: a process that runs on another CPU becomes a zombie; the others are freed, and the
-- caller does not come back if it destroyed itself.
unfoldable pub env_destroy : ℕ → Cmd (Unit {0})
unfolding env_free sched_yield
env_destroy e = do
  zombie ← gets (λ k. (k.envs e).env_status == env_running && not (is_cur e k))
  branch zombie (modify (set_env e (λ v. record v { env_status = env_dying }))) do
    env_free e
    self ← gets (is_cur e)
    branch self (modify (λ k. record k { curenv = none }) >> sched_yield) (pure tt)
