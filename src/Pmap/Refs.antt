-- ===== src/Pmap/Refs.antt =====
-- Reference counts under page_insert, and page_lookup against the translation.
use homework_of_operating_sy.Base.{
  ℕ, ◌+◌, ◌%◌, ◌^◌, ◌<◌, ◌≡◌, bit_and, Bool-cases, inl, inr, none, some, List, ◌==◌, if◌then◌else◌,
  arith, ap, ◌∙◌,
}
use homework_of_operating_sy.Mmu.{pdx, ptx, pte_p, utop}
use homework_of_operating_sy.Kernel.{Kernel, ok, ret}
use homework_of_operating_sy.Pmap.{store_pte, incref, drop_ref, page_insert, page_lookup, in_use}
use homework_of_operating_sy.Pmap.Entry.{frame, Present}
use homework_of_operating_sy.Pmap.Walk.{
  slot, entry, walk_absent, lookup_mapped, lookup_unmapped, decref_state, flush_state,
}
use homework_of_operating_sy.Pmap.Insert.{insert_state, insert_old}
use homework_of_operating_sy.Pmap.Space.{translate, DirOk}

flush-pp_ref : (pgdir va : ℕ) (k : Kernel) → (flush_state pgdir va k).pp_ref ≡ k.pp_ref
flush-pp_ref pgdir va k = elim (Bool-cases (in_use pgdir k)) [ inl u ↦ rw u | inr u ↦ rw u ]

flush-free :
    (pgdir va : ℕ) (k : Kernel) → (flush_state pgdir va k).page_free_list ≡ k.page_free_list
flush-free pgdir va k = elim (Bool-cases (in_use pgdir k)) [ inl u ↦ rw u | inr u ↦ rw u ]

decref-pp_ref : (o : ℕ) (k : Kernel) (j : ℕ) → (decref_state o k).pp_ref j ≡ (drop_ref o k).pp_ref j
decref-pp_ref o k j = ground arith

-- One is added for the page put in, and one is taken off for the page that was there.
abbrev pub Counts : ℕ → ℕ → ℕ → Kernel → (ℕ → ℕ) → Type 0
Counts pgdir i va k refs =
    (j : ℕ)
    → (refs j
          + (if bit_and (entry pgdir va k) pte_p == 0
              then 0
              else (if frame (entry pgdir va k) == j then 1 else 0)))
        % 2 ^ 16
      ≡ (k.pp_ref j + (if i == j then 1 else 0)) % 2 ^ 16

pub insert-Counts :
    (pgdir i va perm : ℕ) (k : Kernel) → Counts pgdir i va k (insert_state pgdir i va perm k).pp_ref
insert-Counts pgdir i va perm k j =
    let o = frame (entry pgdir va k) in
    let q = slot pgdir va k in
    ground (
      arith,
      decref-pp_ref o (incref i k) j,
      ap (λ (r : ℕ → ℕ). r j) (flush-pp_ref pgdir va (store_pte q 0 (decref_state o (incref i k)))),
    )

-- page_insert at a user address whose table exists: modulo the 16 bits of pp_ref, the count of the
-- inserted page grows by one and that of the page it replaces falls by one; all other counts stay.
pub page_insert-pp_ref :
    (pgdir i va perm : ℕ) (xs : List ℕ) (k : Kernel)
    → DirOk pgdir xs k
    → va < utop
    → Present (k.word pgdir (pdx va))
    → (k' : Kernel) × (page_insert pgdir i va perm k ≡ ok (ret tt) k')
      × ((j : ℕ)
          → (k'.pp_ref j
                + (if bit_and (entry pgdir va k) pte_p == 0
                    then 0
                    else (if frame (entry pgdir va k) == j then 1 else 0)))
              % 2 ^ 16
            ≡ (k.pp_ref j + (if i == j then 1 else 0)) % 2 ^ 16)
page_insert-pp_ref pgdir i va perm xs k o h p = (
  insert_state pgdir i va perm k,
  insert_old pgdir i va perm k p (o.tables (pdx va) (omega arith) p).0
      (o.pages (pdx va) (ptx va) (omega arith) p),
  insert-Counts pgdir i va perm k,
)

-- The corner case that page_insert's comment names: inserting a page again at the address where it
-- is mapped leaves every reference count as it was and does not put the page on the free list.
pub page_insert_again :
    (pgdir va perm : ℕ) (xs : List ℕ) (k : Kernel)
    → DirOk pgdir xs k
    → va < utop
    → Present (k.word pgdir (pdx va))
    → Present (entry pgdir va k)
    → ((j : ℕ) → k.pp_ref j < 2 ^ 16)
    → 0 < k.pp_ref (frame (entry pgdir va k))
    → (k' : Kernel) × (page_insert pgdir (frame (entry pgdir va k)) va perm k ≡ ok (ret tt) k')
      × ((j : ℕ) → k'.pp_ref j ≡ k.pp_ref j)
      × (k'.page_free_list ≡ k.page_free_list)
page_insert_again pgdir va perm xs k o h p e small pos =
    let i = frame (entry pgdir va k) in
    let q = slot pgdir va k in
    (
      insert_state pgdir i va perm k,
      insert_old pgdir i va perm k p (o.tables (pdx va) (omega arith) p).0
          (o.pages (pdx va) (ptx va) (omega arith) p),
      λ j. ground (
        arith,
        small j,
        decref-pp_ref i (incref i k) j,
        ap (λ (r : ℕ → ℕ). r j)
            (flush-pp_ref pgdir va (store_pte q 0 (decref_state i (incref i k)))),
      ),
      ground (arith, small i, flush-free pgdir va (store_pte q 0 (decref_state i (incref i k)))),
    )

lookup_absent :
    (pgdir va : ℕ) (k : Kernel)
    → bit_and (k.word pgdir (pdx va)) pte_p ≡ 0
    → page_lookup pgdir va k ≡ ok none k
unfolding page_lookup
lookup_absent pgdir va k a = rw (walk_absent pgdir va k a)

-- page_lookup at a user address is the translation: NULL when there is none, and otherwise the page
-- that the entry points to, with the place of the entry. It changes nothing.
pub page_lookup_lem :
    (pgdir va : ℕ) (xs : List ℕ) (k : Kernel)
    → DirOk pgdir xs k
    → va < utop
    → page_lookup pgdir va k ≡ (elim (translate pgdir va k) [
      | none ↦ ok none k
      | some v ↦ ok (some (frame v, slot pgdir va k)) k
    ])
page_lookup_lem pgdir va xs k o h = elim (Bool-cases (bit_and (k.word pgdir (pdx va)) pte_p == 0)) [
  | inl gone ↦ lookup_absent pgdir va k (ground (arith, gone)) ∙ ground (arith, gone)
  | inr there ↦
      let p : Present (k.word pgdir (pdx va)) = ground (arith, there) in
      let t = (o.tables (pdx va) (omega arith) p).0 in
      elim (Bool-cases (bit_and (entry pgdir va k) pte_p == 0)) [
        | inl free ↦
            lookup_unmapped pgdir va k p t (ground (arith, free)) ∙ ground (arith, there, free)
        | inr used ↦
            let e : Present (entry pgdir va k) = ground (arith, used) in
            lookup_mapped pgdir va k p t e (o.pages (pdx va) (ptx va) (omega arith) p e)
            ∙ ground (arith, there, used)
      ]
]
