-- ===== src/Pmap.antt =====
-- The physical page allocator and the two-level page tables of OSLab7-Mitjoslab4/kern/pmap.c and
-- kern/pmap.h. A pointer to a page table entry is the physical page that holds it and its index.
pub mod Entry
pub mod FreeList
pub mod Init
pub mod Insert
pub mod Space
pub mod Translate
pub mod Isolation
pub mod Fresh
pub mod Example
pub mod UserMem
pub mod Refs
pub mod Frame
mod Tests
pub mod Walk
use homework_of_operating_sy.Base.{
  ℕ, zero, suc, ◌+◌, ◌-◌, ◌*◌, ◌/◌, ◌%◌, ◌^◌, bit_and, bit_or, Bool, true, false, ◌||◌, not, Option,
  none, some, ◌∷◌, ltb, leb, ◌==◌, ◌!=◌, if◌then◌else◌, update,
}
use homework_of_operating_sy.Mmu.{
  word_size, pgsize, pgnum, pdx, ptx, pte_p, pte_w, pte_u, pte_pwt, pte_pcd, pte_addr, rounddown,
  roundup, mmiolim, ulim,
}
use homework_of_operating_sy.Kernel.{
  Kernel, Env, ok, panic, Cmd, pure, abort, ◌>>=◌, ◌>>◌, gets, modify, branch, Ret, ret, fail,
  e_no_mem,
}

-- page2pa: `(pp - pages) << PGSHIFT`
abbrev pub page2pa : ℕ → ℕ
page2pa i = i * 2 ^ 12 % word_size

-- KADDR and pa2page check the same bound, and both give the page that the address is in.
unfoldable pub kaddr : ℕ → Cmd ℕ
kaddr pa k = if ltb (pgnum pa) k.npages then ok (pgnum pa) k else panic

unfoldable pub pa2page : ℕ → Cmd ℕ
pa2page pa k = if ltb (pgnum pa) k.npages then ok (pgnum pa) k else panic

-- page2kva
unfoldable pub page2kva : ℕ → Cmd ℕ
unfolding kaddr
page2kva i = kaddr (page2pa i)

-- `memset(p, 0, PGSIZE)` on the page that `p` points to
abbrev pub zero_page : ℕ → Kernel → Kernel
zero_page f k = record k { word = update k.word f (λ _. 0) }

pub data Pte : Type 0 where
  pte : ℕ → ℕ → Pte

abbrev pub load_pte : Pte → Kernel → ℕ
load_pte (pte f i) k = k.word f i

abbrev pub store_word : ℕ → ℕ → ℕ → Kernel → Kernel
store_word f i v k = record k { word = update k.word f (update (k.word f) i v) }

abbrev pub store_pte : Pte → ℕ → Kernel → Kernel
store_pte (pte f i) v k = store_word f i v k

-- `pp->pp_ref++` and `--pp->pp_ref` on a uint16_t
abbrev pub incref : ℕ → Kernel → Kernel
incref i k = record k { pp_ref = update k.pp_ref i ((k.pp_ref i + 1) % 2 ^ 16) }

abbrev pub drop_ref : ℕ → Kernel → Kernel
drop_ref i k = record k { pp_ref = update k.pp_ref i ((k.pp_ref i + 2 ^ 16 - 1) % 2 ^ 16) }

abbrev pub alloc_zero : ℕ
alloc_zero = 1

-- page_alloc, with the page taken off the list
take_page : ℕ → ℕ → Cmd (Option ℕ)
unfolding page2kva
take_page flags i = do
  modify (λ k. record k { page_free_list = k.pp_link i })
  branch (bit_and flags alloc_zero != 0) (page2kva i >>= λ f. modify (zero_page f)) (pure tt)
  pure (some i)

unfoldable pub page_alloc : ℕ → Cmd (Option ℕ)
unfolding take_page
page_alloc flags k = elim k.page_free_list [ none ↦ ok none k | some i ↦ take_page flags i k ]

unfoldable pub page_free : ℕ → Cmd (Unit {0})
page_free i =
    modify λ k. record k { pp_link = update k.pp_link i k.page_free_list; page_free_list = some i }

unfoldable pub page_decref : ℕ → Cmd (Unit {0})
unfolding page_free
page_decref i = do
  modify (drop_ref i)
  r ← gets (λ k. k.pp_ref i)
  branch (r == 0) (page_free i) (pure tt)

-- pgdir_walk where the directory entry is present
walk_present : ℕ → ℕ → Cmd (Option Pte)
unfolding kaddr
walk_present pgdir va = do
  e ← gets (λ k. k.word pgdir (pdx va))
  f ← kaddr (pte_addr e)
  pure (some (pte f (ptx va)))

-- pgdir_walk where it is not, and `create` is set
walk_create : ℕ → ℕ → Cmd (Option Pte)
unfolding walk_present page_alloc
walk_create pgdir va = do
  pg ← page_alloc alloc_zero
  elim pg [
    | none ↦ pure none
    | some i ↦ do
      modify (incref i)
      modify (store_word pgdir (pdx va) (bit_or (bit_or (bit_or (page2pa i) pte_p) pte_u) pte_w))
      walk_present pgdir va
  ]

unfoldable pub pgdir_walk : ℕ → ℕ → Bool → Cmd (Option Pte)
unfolding walk_present walk_create
pgdir_walk pgdir va create k =
    if bit_and (k.word pgdir (pdx va)) pte_p == 0
    then (if create then walk_create pgdir va k else ok none k)
    else walk_present pgdir va k

-- page_lookup, with what it stores through `pte_store`
unfoldable pub page_lookup : ℕ → ℕ → Cmd (Option (ℕ × Pte))
unfolding pgdir_walk pa2page
page_lookup pgdir va = do
  p ← pgdir_walk pgdir va false
  elim p [
    | none ↦ pure none
    | some q ↦ do
      v ← gets (load_pte q)
      branch (bit_and v pte_p == 0) (pure none) (pa2page (pte_addr v) >>= λ i. pure (some (i, q)))
  ]

-- Is `pgdir` the address space in use (or is there none)?
abbrev pub in_use : ℕ → Kernel → Bool
in_use pgdir k = elim k.curenv [
  | none ↦ true
  | some e ↦ elim (k.envs e).env_pgdir [ none ↦ false | some d ↦ d == pgdir ]
]

unfoldable pub tlb_invalidate : ℕ → ℕ → Cmd (Unit {0})
tlb_invalidate pgdir va =
    modify λ k. if in_use pgdir k then record k { flushed = va ∷ k.flushed } else k

unfoldable pub page_remove : ℕ → ℕ → Cmd (Unit {0})
unfolding page_lookup page_decref tlb_invalidate
page_remove pgdir va = do
  found ← page_lookup pgdir va
  elim found [
    | none ↦ pure tt
    | some (i, q) ↦ do
      v ← gets (load_pte q)
      branch (bit_and v pte_p == 0) (pure tt)
          do page_decref i; modify (store_pte q 0); tlb_invalidate pgdir va
  ]

unfoldable pub page_insert : ℕ → ℕ → ℕ → ℕ → Cmd (Ret (Unit {0}))
unfolding pgdir_walk page_remove
page_insert pgdir i va perm = do
  p ← pgdir_walk pgdir va true
  elim p [
    | none ↦ pure (fail e_no_mem)
    | some q ↦ do
      modify (incref i)
      v ← gets (load_pte q)
      branch (bit_and v pte_p == 0) (pure tt) (page_remove pgdir va)
      modify (store_pte q (bit_or (bit_or (page2pa i) perm) pte_p))
      pure (ret tt)
  ]

-- boot_map_region, with `size / PGSIZE` rounds left
unfoldable pub map_pages : ℕ → ℕ → ℕ → ℕ → ℕ → Cmd (Unit {0})
unfolding pgdir_walk
map_pages pgdir va zero pa perm = pure tt
map_pages pgdir va (suc n) pa perm = do
  p ← pgdir_walk pgdir va true
  elim p [
    | none ↦ abort
    | some q ↦ do
      modify (store_pte q (bit_or (bit_or pa perm) pte_p))
      map_pages pgdir ((va + pgsize) % word_size) n ((pa + pgsize) % word_size) perm
  ]

unfoldable pub boot_map_region : ℕ → ℕ → ℕ → ℕ → ℕ → Cmd (Unit {0})
unfolding map_pages
boot_map_region pgdir va size pa perm = map_pages pgdir va (size / pgsize) pa perm

-- The size that mmio_map_region maps: whole pages round `[pa, pa + size)`.
abbrev pub mmio_size : ℕ → ℕ → ℕ
mmio_size pa size = (roundup ((pa + size) % word_size) + word_size - rounddown pa) % word_size

-- mmio_map_region; its static `base` goes in and comes out beside the result
unfoldable pub mmio_map_region : ℕ → ℕ → ℕ → Cmd (ℕ × ℕ)
unfolding boot_map_region
mmio_map_region base pa size = do
  let n = mmio_size pa size
  branch (leb mmiolim ((base + n) % word_size)) abort do
    d ← gets (λ k. k.kern_pgdir)
    boot_map_region d base n (rounddown pa) (bit_or (bit_or pte_pcd pte_pwt) pte_w)
    pure ((base + n) % word_size, base)

-- The loop of user_mem_check with the rounds left: `none` is 0, and `some a` is -E_FAULT with
-- user_mem_check_addr set to `a`.
unfoldable pub check_pages : ℕ → ℕ → ℕ → ℕ → ℕ → Cmd (Option ℕ)
unfolding pgdir_walk
check_pages pgdir va zero i perm = pure none
check_pages pgdir va (suc n) i perm = do
  let bad : Cmd (Option ℕ) = pure (some (if ltb i va then va else i))
  p ← pgdir_walk pgdir i false
  elim p [
    | none ↦ bad
    | some q ↦ do
      v ← gets (load_pte q)
      branch (leb ulim i || bit_and v pte_p == 0 || not (bit_and v perm == perm)) bad
          (check_pages pgdir va n (i + pgsize) perm)
  ]

unfoldable pub user_mem_check : Env → ℕ → ℕ → ℕ → Cmd (Option ℕ)
unfolding check_pages
user_mem_check e va len perm =
    let begin = rounddown va in
    let end = roundup ((va + len) % word_size) in
    elim e.env_pgdir [
      | none ↦ abort
      | some pgdir ↦ check_pages pgdir va ((end - begin) / pgsize) begin perm
    ]
