-- ===== src/Pmap/Tests.antt =====
-- The page table theorems on the sample machine.
use homework_of_operating_sy.Base.{
  ℕ, ◌+◌, ◌%◌, ◌^◌, ◌<◌, ◌≤◌, ◌≡◌, refl, ◌⊎◌, bit_and, true, false, none, some, [], ◌∷◌, ◌==◌,
  if◌then◌else◌, arith,
}
use homework_of_operating_sy.Mmu.{pgnum, pte_p, utop, ulim}
use homework_of_operating_sy.Kernel.{Ret, Kernel, ok, ret, fail, e_no_mem}
use homework_of_operating_sy.Pmap.{
  pte, alloc_zero, page_insert, page_remove, page_lookup, user_mem_check,
}
use homework_of_operating_sy.Pmap.Init.{page_init, page_init_lem}
use homework_of_operating_sy.Sample.{process, machine, free_pages}
use homework_of_operating_sy.Pmap.FreeList.{FreeList, Alloc, page_alloc_lem}
use homework_of_operating_sy.Pmap.Example.{machine-DirOk, empty-DirOk, empty-Apart}
use homework_of_operating_sy.Pmap.Isolation.{Untouched, page_insert_isolated}
use homework_of_operating_sy.Pmap.Space.{translate}
use homework_of_operating_sy.Pmap.Translate.{Inserted, page_insert_lem, page_remove_lem}
use homework_of_operating_sy.Pmap.Refs.{page_insert-pp_ref, page_insert_again, page_lookup_lem}
use homework_of_operating_sy.Pmap.UserMem.{
  TablesIn, user_ok, user_mem_check_lem, user_mem_check_wraps,
}

page_alloc_lem_example : Alloc alloc_zero machine free_pages
page_alloc_lem_example =
    page_alloc_lem alloc_zero machine free_pages (refl, (refl, refl)) (omega arith) (omega arith)

-- A second page is mapped at 0x2000, beside the one at 0x1000.
page_insert_lem_example :
    ((bit_and (machine.word 8 0) pte_p ≡ 0)
      × (free_pages ≡ [])
      × (page_insert 8 20 0x2000 7 machine ≡ ok (fail e_no_mem) machine))
    ⊎ Inserted 8 20 0x2000 7 machine
page_insert_lem_example =
    page_insert_lem 8 20 0x2000 7 free_pages machine machine-DirOk (omega arith)

page_remove_lem_example :
    (k' : Kernel) × (page_remove 8 0x1000 machine ≡ ok tt k')
    × ((la : ℕ)
        → la < utop
        → translate 8 la k' ≡ (if pgnum la == pgnum 0x1000 then none else translate 8 la machine))
page_remove_lem_example =
    page_remove_lem 8 0x1000 free_pages machine machine-DirOk (omega arith) (ground arith)

page_lookup_lem_example : page_lookup 8 0x1000 machine ≡ ok (some (10, pte 9 1)) machine
page_lookup_lem_example = page_lookup_lem 8 0x1000 free_pages machine machine-DirOk (omega arith)

-- Page 20 takes the place of page 10.
page_insert-pp_ref_example :
    (k' : Kernel) × (page_insert 8 20 0x1000 7 machine ≡ ok (ret tt) k')
    × ((j : ℕ)
        → (k'.pp_ref j + (if 10 == j then 1 else 0)) % 2 ^ 16
          ≡ (machine.pp_ref j + (if 20 == j then 1 else 0)) % 2 ^ 16)
page_insert-pp_ref_example =
    page_insert-pp_ref 8 20 0x1000 7 free_pages machine machine-DirOk (omega arith) (omega arith)

page_insert_again_example :
    (k' : Kernel) × (page_insert 8 10 0x1000 5 machine ≡ ok (ret tt) k')
    × ((j : ℕ) → k'.pp_ref j ≡ machine.pp_ref j)
    × (k'.page_free_list ≡ machine.page_free_list)
page_insert_again_example =
    page_insert_again 8 0x1000 5 free_pages machine machine-DirOk (omega arith) (omega arith)
      (omega arith) (λ j. ground arith) (omega arith)

machine-TablesIn : TablesIn 8 machine
machine-TablesIn d p = ground arith

-- The range starts in the mapped page and runs into the one after it.
user_mem_check_lem_example :
    ((user_mem_check process 0x1800 0x1000 5 machine ≡ ok none machine)
      × ((a : ℕ) → 0x1800 ≤ a → a < 0x2800 → user_ok 8 5 a machine ≡ true))
    ⊎ ((b : ℕ) × (0x1800 ≤ b)
        × (b < 0x2800)
        × (user_mem_check process 0x1800 0x1000 5 machine ≡ ok (some b) machine)
        × (user_ok 8 5 b machine ≡ false)
        × ((a : ℕ) → 0x1800 ≤ a → a < b → user_ok 8 5 a machine ≡ true))
user_mem_check_lem_example =
    user_mem_check_lem process 8 0x1800 0x1000 5 machine refl machine-TablesIn (omega arith)
      (omega arith)

user_mem_check_wraps_example :
    (user_mem_check process 0xFFFFF000 0x1000 5 machine ≡ ok none machine)
    × ((a : ℕ) → 0xFFFFF000 ≤ a → ulim ≤ a → user_ok 8 5 a machine ≡ false)
user_mem_check_wraps_example =
    user_mem_check_wraps process 8 0xFFFFF000 0x1000 5 machine refl (omega arith) (omega arith)

-- The reported address is the start of the unmapped page.
user_mem_check_runs : user_mem_check process 0x1800 0x1000 5 machine ≡ ok (some 0x2000) machine
unfolding user_mem_check
user_mem_check_runs = refl

-- Twelve pages, of which the last two lie behind the kernel
abbrev bare : Kernel
bare = record machine { npages = 12; page_free_list = none }

page_init_lem_example : FreeList (page_init 10 bare) (11 ∷ 10 ∷ 6 ∷ 5 ∷ 4 ∷ 3 ∷ 2 ∷ 1 ∷ [])
page_init_lem_example = page_init_lem 10 bare (omega arith) refl

-- A page for the empty address space
page_insert_isolated_example :
    (k' : Kernel) × (r : Ret (Unit {0})) × (page_insert 20 10 0x1000 5 machine ≡ ok r k')
    × Untouched 8 machine k'
page_insert_isolated_example =
    page_insert_isolated 8 20 10 0x1000 5 free_pages machine machine-DirOk empty-DirOk empty-Apart
      (omega arith)
