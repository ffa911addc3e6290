-- ===== src/Env/Alloc.antt =====
-- env_alloc: the id that it gives, and the state that it leaves.
use homework_of_operating_sy.Base.{
  ℕ, ◌+◌, ◌%◌, ◌^◌, ◌<◌, ◌≤◌, ◌≡◌, refl, ◌≢◌, ◌⊎◌, inl, inr, ◌∙◌, ap, Option-cases, false, Option,
  none, some, bit_or, arith,
}
use homework_of_operating_sy.Base.Bits.{bit_or_index, frame-bit_or}
use homework_of_operating_sy.Mmu.{word_size, pdx, uvpt, pte_p, pte_u}
use homework_of_operating_sy.Kernel.{Kernel, ok, ret, fail, e_no_mem, e_no_free_env, env_runnable}
use homework_of_operating_sy.Pmap.{page2pa, incref, alloc_zero, store_word}
use homework_of_operating_sy.Pmap.Entry.{frame}
use homework_of_operating_sy.Pmap.FreeList.{
  allocated, page_alloc-some, page_alloc-none, page2kva_lem,
}
use homework_of_operating_sy.Env.{
  nenv, envx, generation, next_id, set_env, copy_page, fresh_env, alloc_from, env_setup_vm,
  env_alloc,
}

generation-index : (id : ℕ) → generation id % 1024 ≡ 0
generation-index id = ground arith

-- The id that env_alloc makes for slot `e` names that slot, is positive as an int32_t, and differs
-- from the slot's last id, whatever that was.
next_id_lem :
    (id e : ℕ)
    → id < word_size
    → e < nenv
    → (envx (next_id id e) ≡ e) × (0 < next_id id e) × (next_id id e < 2 ^ 31) × (next_id id e ≢ id)
unfolding next_id
next_id_lem id e h l =
    let sum = bit_or_index (generation id) e (generation-index id) l in
    (ground (arith, sum), ground (arith, sum), ground (arith, sum), ground (arith, sum))

-- The state after env_alloc has made process `e` with page directory `x` for `parent_id`.
abbrev pub vm_state : ℕ → ℕ → Kernel → Kernel
vm_state e x k =
    let k1 =
      set_env e (λ v. record v { env_pgdir = some x }) (incref x (allocated alloc_zero x k)) in
    store_word x (pdx uvpt) (bit_or (bit_or (page2pa x) pte_p) pte_u) (copy_page x k1.kern_pgdir k1)

abbrev pub alloc_state : ℕ → ℕ → ℕ → Kernel → Kernel
alloc_state e x parent_id k =
    let k2 = set_env e (fresh_env e parent_id) (vm_state e x k) in
    record k2 { env_free_list = (k2.envs e).env_link }

env_setup_vm-some :
    (e x : ℕ) (k : Kernel)
    → k.page_free_list ≡ some x
    → x < k.npages
    → k.npages ≤ 2 ^ 20
    → env_setup_vm e k ≡ ok (ret tt) (vm_state e x k)
unfolding env_setup_vm
env_setup_vm-some e x k h lt few = rw (
  page_alloc-some alloc_zero x k h lt few,
  page2kva_lem x (incref x (allocated alloc_zero x k)) lt few,
)

env_setup_vm-none :
    (e : ℕ) (k : Kernel) → k.page_free_list ≡ none → env_setup_vm e k ≡ ok (fail e_no_mem) k
unfolding env_setup_vm
env_setup_vm-none e k h = rw (page_alloc-none alloc_zero k h)

module _ (e parent_id : ℕ) (k : Kernel) (slot : k.env_free_list ≡ some e) where
  env_alloc_slot : env_alloc parent_id k ≡ alloc_from parent_id (some e) k
  unfolding env_alloc
  env_alloc_slot = ap (λ (o : Option ℕ). alloc_from parent_id o k) slot

  env_alloc-some :
      (x : ℕ)
      → k.page_free_list ≡ some x
      → x < k.npages
      → k.npages ≤ 2 ^ 20
      → env_alloc parent_id k ≡ ok (ret e) (alloc_state e x parent_id k)
  env_alloc-some x h lt few = env_alloc_slot ∙ rw (env_setup_vm-some e x k h lt few) refl

  env_alloc_no_mem : k.page_free_list ≡ none → env_alloc parent_id k ≡ ok (fail e_no_mem) k
  env_alloc_no_mem h = env_alloc_slot ∙ rw (env_setup_vm-none e k h) refl

env_alloc_no_slot :
    (parent_id : ℕ) (k : Kernel)
    → k.env_free_list ≡ none
    → env_alloc parent_id k ≡ ok (fail e_no_free_env) k
unfolding env_alloc
env_alloc_no_slot parent_id k h = ap (λ (o : Option ℕ). alloc_from parent_id o k) h

-- A new process in slot `e`, with its address space in page `x`.
abbrev pub Created : ℕ → ℕ → ℕ → Kernel → Kernel → Type 0
Created e x parent_id k k' =
    ((k'.envs e).env_id ≡ next_id (k.envs e).env_id e)
    × ((k'.envs e).env_parent_id ≡ parent_id)
    × ((k'.envs e).env_status ≡ env_runnable)
    × ((k'.envs e).env_pgdir ≡ some x)
    × ((k'.envs e).env_ipc_recving ≡ false)
    × (k'.env_free_list ≡ (k.envs e).env_link)
    × ((j : ℕ) → j ≢ e → k'.envs j ≡ k.envs j)
    × ((d : ℕ) → d ≢ pdx uvpt → k'.word x d ≡ k.word k.kern_pgdir d)
    × (frame (k'.word x (pdx uvpt)) ≡ x)
    × ((f d : ℕ) → f ≢ x → k'.word f d ≡ k.word f d)
    × (k'.pp_ref x ≡ (k.pp_ref x + 1) % 2 ^ 16)

-- The directory entry that maps a directory into itself points to it.
frame_self : (x : ℕ) → x < 2 ^ 20 → frame (bit_or (bit_or (page2pa x) pte_p) pte_u) ≡ x
frame_self x h = omega (
  arith,
  frame-bit_or (bit_or (page2pa x) pte_p) pte_u (omega arith),
  frame-bit_or (page2pa x) pte_p (omega arith),
)

alloc_state-Created :
    (e x parent_id : ℕ) (k : Kernel)
    → x ≢ k.kern_pgdir
    → x < 2 ^ 20
    → Created e x parent_id k (alloc_state e x parent_id k)
alloc_state-Created e x parent_id k apart small = (
  ground arith,
  ground arith,
  ground arith,
  ground arith,
  ground arith,
  ground arith,
  λ j n. ground arith,
  λ d n. ground arith,
  ground (arith, frame_self x small),
  λ f d n. ground arith,
  ground arith,
)

-- env_alloc on every branch: without a free slot it fails with -E_NO_FREE_ENV, without a free page
-- with -E_NO_MEM, and changes nothing in both cases. Otherwise it takes the first free slot and the
-- first free page: the slot gets the next id, the parent, RUNNABLE and a directory that is the
-- kernel's but for the entry at UVPT, which points to the directory itself; no other process and no
-- other page changes.
pub env_alloc_lem :
    (parent_id : ℕ) (k : Kernel)
    → ((x : ℕ) → k.page_free_list ≡ some x → (x < k.npages) × (x ≢ k.kern_pgdir))
    → k.npages ≤ 2 ^ 20
    → ((k.env_free_list ≡ none) × (env_alloc parent_id k ≡ ok (fail e_no_free_env) k))
      ⊎ ((k.page_free_list ≡ none) × (env_alloc parent_id k ≡ ok (fail e_no_mem) k))
      ⊎ ((e x : ℕ) × (k' : Kernel) × (k.env_free_list ≡ some e)
          × (k.page_free_list ≡ some x)
          × (env_alloc parent_id k ≡ ok (ret e) k')
          × Created e x parent_id k k')
env_alloc_lem parent_id k inside few = elim (Option-cases k.env_free_list) [
  | inl none_free ↦ inl (none_free, env_alloc_no_slot parent_id k none_free)
  | inr (e, slot) ↦ elim (Option-cases k.page_free_list) [
    | inl none_left ↦ inr (inl (none_left, env_alloc_no_mem e parent_id k slot none_left))
    | inr (x, page) ↦
        let (lt, apart) = inside x page in
        inr (
          inr (
            e,
            x,
            alloc_state e x parent_id k,
            slot,
            page,
            env_alloc-some e parent_id k slot x page lt few,
            alloc_state-Created e x parent_id k apart (omega arith),
          ))
  ]
]
