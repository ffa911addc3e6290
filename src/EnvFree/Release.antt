-- ===== src/EnvFree/Release.antt =====
-- What region_alloc and env_free do to the records of the processes.
use homework_of_operating_sy.Base.{
  ℕ, zero, suc, ◌+◌, ◌-◌, ◌/◌, ◌%◌, ◌≡◌, ◌≢◌, refl, ap, ◌∙◌, bit_and, bit_or, Option, none, some,
  ◌==◌, if◌then◌else◌, update, arith,
}
use homework_of_operating_sy.Mmu.{
  word_size, pgsize, pgaddr, pdx, pte_p, pte_w, pte_u, pte_addr, rounddown, roundup, utop,
}
use homework_of_operating_sy.Kernel.{Kernel, Env, env_free_status}
use homework_of_operating_sy.Pmap.{page2pa}
use homework_of_operating_sy.Pmap.Frame.{
  Stays, Stays-refl, Stays-trans, Stays-store, After, panics, returns, Memory, chained, preceded,
  onward, either, cases, pa2page-Memory, page_alloc-Memory, page_decref-Memory, page_remove-Memory,
  page_insert-Memory,
}
use homework_of_operating_sy.Env.{set_env, is_cur}
use homework_of_operating_sy.EnvFree.{
  alloc_pages, region_alloc, free_entries, free_tables, env_free,
}

alloc_pages-Memory : (pgdir n begin : ℕ) → Memory (alloc_pages pgdir n begin)
unfolding alloc_pages
alloc_pages-Memory pgdir zero begin k = returns (Stays-refl k)
alloc_pages-Memory pgdir (suc n) begin k = onward (page_alloc-Memory 0 k) (λ pg k'.
    cases pg _ _ panics (λ i.
      onward (page_insert-Memory pgdir i begin (bit_or pte_w pte_u) k')
        (λ _. alloc_pages-Memory pgdir n (begin + pgsize))))

pub region_alloc-Memory : (e va len : ℕ) → Memory (region_alloc e va len)
unfolding region_alloc
region_alloc-Memory e va len k = cases (k.envs e).env_pgdir _ _ panics (λ pgdir.
    alloc_pages-Memory pgdir ((roundup ((va + len) % word_size) - rounddown va) / pgsize)
      (rounddown va) k)

free_entries-Memory : (pgdir pt pdeno n pteno : ℕ) → Memory (free_entries pgdir pt pdeno n pteno)
unfolding free_entries
free_entries-Memory pgdir pt pdeno zero pteno k = returns (Stays-refl k)
free_entries-Memory pgdir pt pdeno (suc n) pteno k =
    onward
      (either (bit_and (k.word pt pteno) pte_p == 0) (returns (Stays-refl k))
        (page_remove-Memory pgdir (pgaddr pdeno pteno 0) k))
      (λ _. free_entries-Memory pgdir pt pdeno n (pteno + 1))

free_tables-Memory : (pgdir n pdeno : ℕ) → Memory (free_tables pgdir n pdeno)
unfolding free_tables
free_tables-Memory pgdir zero pdeno k = returns (Stays-refl k)
free_tables-Memory pgdir (suc n) pdeno k =
    onward
      (either (bit_and (k.word pgdir pdeno) pte_p == 0) (returns (Stays-refl k)) (
        onward (pa2page-Memory (pte_addr (k.word pgdir pdeno)) k) (λ pt k'.
          onward (free_entries-Memory pgdir pt pdeno 1024 0 k')
            (λ _ k''. preceded (Stays-store pgdir pdeno 0 k'') (page_decref-Memory pt _)))))
      (λ _. free_tables-Memory pgdir n (pdeno + 1))

-- The state after env_free of `e`, in terms of the one before
pub record Freed (e : ℕ) (k k' : Kernel) : Type 0 where
  pub others : (j : ℕ) → j ≢ e → k'.envs j ≡ k.envs j
  pub slot : k'.envs e ≡ record (k.envs e) {
    env_pgdir = none;
    env_status = env_free_status;
    env_link = k.env_free_list;
  }
  pub first : k'.env_free_list ≡ some e
  pub space : k'.cr3 ≡ (if is_cur e k then k.kern_pgdir else k.cr3)
  pub curenv : k'.curenv ≡ k.curenv
  pub kern_pgdir : k'.kern_pgdir ≡ k.kern_pgdir

-- The state once the kernel's own directory is in use where `e` runs, and the records that env_free writes
abbrev leave_space : ℕ → Kernel → Kernel
leave_space e k = if is_cur e k then record k { cr3 = k.kern_pgdir } else k

abbrev no_space : Env → Env
no_space v = record v { env_pgdir = none }

abbrev released : Option ℕ → Env → Env
released o v = record v { env_status = env_free_status; env_link = o }

record Left (e : ℕ) (k k' : Kernel) : Type 0 where
  envs : k'.envs ≡ k.envs
  env_free_list : k'.env_free_list ≡ k.env_free_list
  space : k'.cr3 ≡ (if is_cur e k then k.kern_pgdir else k.cr3)
  curenv : k'.curenv ≡ k.curenv
  kern_pgdir : k'.kern_pgdir ≡ k.kern_pgdir

leave_space-Left : (e : ℕ) (k : Kernel) → Left e k (leave_space e k)
leave_space-Left e k = record {
  envs = ground arith;
  env_free_list = ground arith;
  space = ground arith;
  curenv = ground arith;
  kern_pgdir = ground arith;
}

pub update_other : (f : ℕ → Env) (e j : ℕ) (v : Env) → j ≢ e → update f e v j ≡ f j
update_other f e j v h = ground (arith, h)

pub update_same : (f : ℕ → Env) (e : ℕ) (v : Env) → update f e v e ≡ v
update_same f e v = ground arith

freed :
    (e : ℕ) (k k2 k4 : Kernel)
    → Stays (leave_space e k) k2
    → Stays (set_env e no_space k2) k4
    → Freed e k (record (set_env e (released k4.env_free_list) k4) { env_free_list = some e })
freed e k k2 k4 s t =
    let l = leave_space-Left e k in
    let before : k2.envs ≡ k.envs = s.envs ∙ l.envs in
    let old : k4.env_free_list ≡ k.env_free_list =
      t.env_free_list ∙ s.env_free_list ∙ l.env_free_list in
    let here : k4.envs e ≡ no_space (k.envs e) =
      ap (λ (f : ℕ → Env). f e) t.envs
      ∙ update_same k2.envs e (no_space (k2.envs e))
      ∙ ap (λ (f : ℕ → Env). no_space (f e)) before in
    record {
      others = λ j h.
          update_other k4.envs e j _ h
          ∙ ap (λ (f : ℕ → Env). f j) t.envs
          ∙ update_other k2.envs e j _ h
          ∙ ap (λ (f : ℕ → Env). f j) before;
      slot =
          update_same k4.envs e _
          ∙ ap (λ (o : Option ℕ). released o (k4.envs e)) old
          ∙ ap (released k.env_free_list) here;
      first = refl;
      space = t.cr3 ∙ s.cr3 ∙ l.space;
      curenv = t.curenv ∙ s.curenv ∙ l.curenv;
      kern_pgdir = t.kern_pgdir ∙ s.kern_pgdir ∙ l.kern_pgdir;
    }

-- env_free panics or returns. Where it returns, the process has the status ENV_FREE and no directory and is first in the list of the free ones, before the ones
-- that were free; its record is otherwise as before, as are the others, and the kernel's own directory is in use where the
-- process was the current one.
pub env_free_lem : (e : ℕ) (k : Kernel) → After (Freed e k) (env_free e k)
unfolding env_free
env_free_lem e k = cases ((leave_space e k).envs e).env_pgdir _ _ panics (λ pgdir.
    chained (Freed e k) (free_tables-Memory pgdir (pdx utop) 0 (leave_space e k)) (λ _ k2 s.
      chained (Freed e k) (pa2page-Memory (page2pa pgdir) (set_env e no_space k2)) (λ p k3 t.
        chained (Freed e k) (page_decref-Memory p k3)
          (λ _ k4 u. returns (freed e k k2 k4 s (Stays-trans t u))))))
