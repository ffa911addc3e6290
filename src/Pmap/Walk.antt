-- ===== src/Pmap/Walk.antt =====
-- pgdir_walk, page_lookup and page_remove as state transformers, given what the directory entry and
-- the table entry of the address hold.
use homework_of_operating_sy.Base.{
  ℕ, ◌^◌, ◌<◌, ◌≤◌, ◌≡◌, ap, ◌∙◌, bit_and, Bool, true, false, Bool-cases, inl, inr, none, some, ◌∷◌,
  ◌==◌, ==_of_ne, if◌then◌else◌, update, arith,
}
use homework_of_operating_sy.Mmu.{pdx, ptx, pte_p}
use homework_of_operating_sy.Kernel.{Kernel, ok}
use homework_of_operating_sy.Pmap.{
  kaddr, pa2page, Pte, pte, load_pte, store_pte, store_word, incref, drop_ref, alloc_zero,
  page_decref, walk_present, walk_create, pgdir_walk, page_lookup, page_remove, in_use,
}
use homework_of_operating_sy.Pmap.Entry.{frame, Present, new_pde, frame-new_pde}
use homework_of_operating_sy.Pmap.FreeList.{allocated, page_alloc-some, page_alloc-none}

-- The entry of the table that the directory entry for `va` points to.
abbrev pub slot : ℕ → ℕ → Kernel → Pte
slot pgdir va k = pte (frame (k.word pgdir (pdx va))) (ptx va)

walk_present_lem :
    (pgdir va : ℕ) (k : Kernel)
    → frame (k.word pgdir (pdx va)) < k.npages
    → walk_present pgdir va k ≡ ok (some (slot pgdir va k)) k
unfolding walk_present kaddr
walk_present_lem pgdir va k h = ground arith

-- Where the table exists, pgdir_walk finds the entry and changes nothing.
pub walk_old :
    (pgdir va : ℕ) (create : Bool) (k : Kernel)
    → Present (k.word pgdir (pdx va))
    → frame (k.word pgdir (pdx va)) < k.npages
    → pgdir_walk pgdir va create k ≡ ok (some (slot pgdir va k)) k
unfolding pgdir_walk
walk_old pgdir va create k p h =
    rw (==_of_ne (bit_and (k.word pgdir (pdx va)) pte_p) 0 p) (walk_present_lem pgdir va k h)

-- The state after pgdir_walk has put page `x` into the directory as the table for `va`.
abbrev pub with_table : ℕ → ℕ → ℕ → Kernel → Kernel
with_table pgdir va x k =
    store_word pgdir (pdx va) (new_pde x) (incref x (allocated alloc_zero x k))

pub with_table-entry :
    (pgdir va x : ℕ) (k : Kernel) → (with_table pgdir va x k).word pgdir (pdx va) ≡ new_pde x
with_table-entry pgdir va x k = ground arith

pub with_table-frame :
    (pgdir va x : ℕ) (k : Kernel)
    → x < 2 ^ 20
    → frame ((with_table pgdir va x k).word pgdir (pdx va)) ≡ x
with_table-frame pgdir va x k h = rw (with_table-entry pgdir va x k) (frame-new_pde x h)

module _ (pgdir va : ℕ) (k : Kernel) (absent : bit_and (k.word pgdir (pdx va)) pte_p ≡ 0) where
  pub walk_absent : pgdir_walk pgdir va false k ≡ ok none k
  unfolding pgdir_walk
  walk_absent = rw absent

  pub walk_full : k.page_free_list ≡ none → pgdir_walk pgdir va true k ≡ ok none k
  unfolding pgdir_walk walk_create
  walk_full e = rw (absent, page_alloc-none alloc_zero k e)

  pub walk_new :
      (x : ℕ)
      → k.page_free_list ≡ some x
      → x < k.npages
      → k.npages ≤ 2 ^ 20
      → pgdir_walk pgdir va true k ≡ ok (some (pte x (ptx va))) (with_table pgdir va x k)
  unfolding pgdir_walk walk_create
  walk_new x e h few =
      let k' = with_table pgdir va x k in
      let f : frame (k'.word pgdir (pdx va)) ≡ x = with_table-frame pgdir va x k (omega arith) in
      rw (absent, page_alloc-some alloc_zero x k e h few)
        (walk_present_lem pgdir va k' (omega (arith, f))
          ∙ ap (λ t. ok (some (pte t (ptx va))) k') f)

-- The state after page_decref.
abbrev pub decref_state : ℕ → Kernel → Kernel
decref_state j k =
    let k1 = drop_ref j k in
    if k1.pp_ref j == 0
    then record k1 { pp_link = update k1.pp_link j k1.page_free_list; page_free_list = some j }
    else k1

pub page_decref_lem : (j : ℕ) (k : Kernel) → page_decref j k ≡ ok tt (decref_state j k)
unfolding page_decref
page_decref_lem j k = elim (Bool-cases ((drop_ref j k).pp_ref j == 0)) [
  | inl z ↦ rw z
  | inr z ↦ rw z
]

abbrev pub flush_state : ℕ → ℕ → Kernel → Kernel
flush_state pgdir va k = if in_use pgdir k then record k { flushed = va ∷ k.flushed } else k

-- The state after page_remove has unmapped page `j` at entry `q`.
abbrev pub remove_state : ℕ → ℕ → ℕ → Pte → Kernel → Kernel
remove_state pgdir va j q k = flush_state pgdir va (store_pte q 0 (decref_state j k))

module _ (pgdir va : ℕ) (k : Kernel) where
  abbrev pub entry : ℕ
  entry = load_pte (slot pgdir va k) k

  module _ (p : Present (k.word pgdir (pdx va)))
      (h : frame (k.word pgdir (pdx va)) < k.npages) where
    pub lookup_unmapped : bit_and entry pte_p ≡ 0 → page_lookup pgdir va k ≡ ok none k
    unfolding page_lookup
    lookup_unmapped e = rw (walk_old pgdir va false k p h, e)

    pub lookup_mapped :
        Present entry
        → frame entry < k.npages
        → page_lookup pgdir va k ≡ ok (some (frame entry, slot pgdir va k)) k
    unfolding page_lookup pa2page
    lookup_mapped e f =
        rw (walk_old pgdir va false k p h, ==_of_ne (bit_and entry pte_p) 0 e) (ground arith)

    pub remove_unmapped : bit_and entry pte_p ≡ 0 → page_remove pgdir va k ≡ ok tt k
    unfolding page_remove
    remove_unmapped e = rw (lookup_unmapped e)

    pub remove_mapped :
        Present entry
        → frame entry < k.npages
        → page_remove pgdir va k ≡ ok tt (remove_state pgdir va (frame entry) (slot pgdir va k) k)
    unfolding page_remove
    remove_mapped e f =
        rw (lookup_mapped e f, ==_of_ne (bit_and entry pte_p) 0 e, page_decref_lem (frame entry) k)
