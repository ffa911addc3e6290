-- ===== src/Pmap/Insert.antt =====
-- page_insert and page_lookup over a user address: what is mapped, what is counted, what stays.
use homework_of_operating_sy.Base.{
  ℕ, ◌+◌, ◌-◌, ◌%◌, ◌^◌, ◌<◌, ◌≡◌, bit_and, true, Bool-cases, inl, inr, none, ◌==◌, if◌then◌else◌,
  arith,
}
use homework_of_operating_sy.Mmu.{pdx, ptx, pte_p}
use homework_of_operating_sy.Kernel.{Kernel, ok, ret, fail, e_no_mem}
use homework_of_operating_sy.Pmap.{Pte, pte, load_pte, store_pte, incref, page_insert, in_use}
use homework_of_operating_sy.Pmap.Entry.{frame, Present, new_pte}
use homework_of_operating_sy.Pmap.Walk.{
  slot, entry, walk_old, walk_full, remove_mapped, remove_state, decref_state, flush_state,
}

-- The state after page_insert where the table exists and the entry was free, or was in use.
abbrev pub insert_state : ℕ → ℕ → ℕ → ℕ → Kernel → Kernel
insert_state pgdir i va perm k =
    let q = slot pgdir va k in
    let k1 = incref i k in
    let k2 =
      if bit_and (load_pte q k) pte_p == 0
      then k1
      else remove_state pgdir va (frame (load_pte q k)) q k1 in
    store_pte q (new_pte i perm) k2

module _ (pgdir i va perm : ℕ) (k : Kernel) where
  pub insert_old :
      Present (k.word pgdir (pdx va))
      → frame (k.word pgdir (pdx va)) < k.npages
      → (Present (entry pgdir va k) → frame (entry pgdir va k) < k.npages)
      → page_insert pgdir i va perm k ≡ ok (ret tt) (insert_state pgdir i va perm k)
  unfolding page_insert
  insert_old p h f = elim (Bool-cases (bit_and (entry pgdir va k) pte_p == 0)) [
    | inl free ↦ rw (walk_old pgdir va true k p h, free)
    | inr used ↦
        let e : Present (entry pgdir va k) = ground (arith, used) in
        rw (walk_old pgdir va true k p h, used, remove_mapped pgdir va (incref i k) p h e (f e))
  ]

  pub insert_full :
      bit_and (k.word pgdir (pdx va)) pte_p ≡ 0
      → k.page_free_list ≡ none
      → page_insert pgdir i va perm k ≡ ok (fail e_no_mem) k
  unfolding page_insert
  insert_full absent e = rw (walk_full pgdir va k absent e)

flush-word : (pgdir va : ℕ) (k : Kernel) → (flush_state pgdir va k).word ≡ k.word
flush-word pgdir va k = elim (Bool-cases (in_use pgdir k)) [ inl u ↦ rw u | inr u ↦ rw u ]

flush-pp_ref : (pgdir va : ℕ) (k : Kernel) → (flush_state pgdir va k).pp_ref ≡ k.pp_ref
flush-pp_ref pgdir va k = elim (Bool-cases (in_use pgdir k)) [ inl u ↦ rw u | inr u ↦ rw u ]

decref-word : (j : ℕ) (k : Kernel) → (decref_state j k).word ≡ k.word
decref-word j k = elim (Bool-cases ((k.pp_ref j + 2 ^ 16 - 1) % 2 ^ 16 == 0)) [
  | inl u ↦ ground arith
  | inr u ↦ ground arith
]

-- A word written at entry `q`.
abbrev pub word_with : Pte → ℕ → Kernel → ℕ → ℕ → ℕ
word_with (pte t s) v k f j = if f == t then (if j == s then v else k.word f j) else k.word f j

pub remove-word :
    (pgdir va o t s : ℕ) (k : Kernel) (f j : ℕ)
    → (remove_state pgdir va o (pte t s) k).word f j ≡ word_with (pte t s) 0 k f j
remove-word pgdir va o t s k f j =
    rw (flush-word pgdir va (store_pte (pte t s) 0 (decref_state o k)), decref-word o k)
      (ground arith)

pub insert-word :
    (pgdir i va perm : ℕ) (k : Kernel) (f j : ℕ)
    → (insert_state pgdir i va perm k).word f j ≡ word_with (slot pgdir va k) (new_pte i perm) k f j
insert-word pgdir i va perm k f j =
    let t = frame (k.word pgdir (pdx va)) in
    ground (
      arith,
      remove-word pgdir va (frame (entry pgdir va k)) t (ptx va) (incref i k) f j,
      remove-word pgdir va (frame (entry pgdir va k)) t (ptx va) (incref i k) t j,
    )
