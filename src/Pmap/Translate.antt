-- ===== src/Pmap/Translate.antt =====
-- The refinement of page_insert and page_remove to an insertion and a removal of the map of an address space.
use homework_of_operating_sy.Base.{
  ℕ, ◌<◌, ◌≡◌, refl, ◌≢◌, ◌⊎◌, bit_and, true, Bool-cases, inl, inr, none, some, List, [], ◌∷◌, ◌==◌,
  if◌then◌else◌, arith, ap, ◌∙◌,
}
use homework_of_operating_sy.Mmu.{pdx, ptx, pgnum, pte_p, utop}
use homework_of_operating_sy.Kernel.{Kernel, ok, ret, fail, e_no_mem}
use homework_of_operating_sy.Pmap.{page_insert, page_remove}
use homework_of_operating_sy.Pmap.Entry.{
  frame, Present, new_pte, new_pte-Present, new_pde, new_pde-Present,
}
use homework_of_operating_sy.Pmap.Walk.{
  slot, entry, walk_old, walk_new, with_table, with_table-entry, with_table-frame, remove_mapped,
  remove_state,
}
use homework_of_operating_sy.Pmap.Insert.{
  insert_state, insert_old, insert_full, insert-word, remove-word,
}
use homework_of_operating_sy.Pmap.Space.{translate, Table, DirOk, DirOk-Table, translate_written}

-- What page_insert does: it fails and changes nothing, or the page is mapped at `va` and every other
-- user address is translated as before.
abbrev pub Inserted : ℕ → ℕ → ℕ → ℕ → Kernel → Type 0
Inserted pgdir i va perm k =
    (k' : Kernel) × (page_insert pgdir i va perm k ≡ ok (ret tt) k')
    × ((la : ℕ)
        → la < utop
        → translate pgdir la k'
          ≡ (if pgnum la == pgnum va then some (new_pte i perm) else translate pgdir la k))

pub insert-translate :
    (pgdir i va perm la : ℕ) (k : Kernel)
    → Table pgdir va k
    → va < utop
    → la < utop
    → translate pgdir la (insert_state pgdir i va perm k)
      ≡ (if pgnum la == pgnum va then some (new_pte i perm) else translate pgdir la k)
insert-translate pgdir i va perm la k t h g = ground (
  arith,
  new_pte-Present i perm,
  translate_written pgdir va (new_pte i perm) la k (insert_state pgdir i va perm k) t
      (insert-word pgdir i va perm k) g h,
)

Table-Inserted :
    (pgdir i va perm : ℕ) (k : Kernel)
    → Table pgdir va k
    → (Present (entry pgdir va k) → frame (entry pgdir va k) < k.npages)
    → va < utop
    → Inserted pgdir i va perm k
Table-Inserted pgdir i va perm k t f h = (
  insert_state pgdir i va perm k,
  insert_old pgdir i va perm k t.here t.inside f,
  λ la g. insert-translate pgdir i va perm la k t h g,
)

-- Where the table is missing and page `x` is free: what pgdir_walk has made of it.
module _ {pgdir : ℕ} {xs : List ℕ} {k : Kernel} (x va : ℕ) (o : DirOk pgdir (x ∷ xs) k)
    (h : va < utop) (absent : bit_and (k.word pgdir (pdx va)) pte_p ≡ 0) where
  abbrev tabled : Kernel
  tabled = with_table pgdir va x k

  pub tabled-word :
      (f j : ℕ)
      → tabled.word f j ≡ (
          if f == pgdir
          then (if j == pdx va then new_pde x else k.word f j)
          else (if f == x then 0 else k.word f j))
  tabled-word f j = ground (arith, o.spare)

  pub tabled-entry : entry pgdir va tabled ≡ 0
  tabled-entry = ground (
    arith,
    o.spare,
    with_table-frame pgdir va x k,
    tabled-word (frame (tabled.word pgdir (pdx va))) (ptx va),
    o.few,
  )

  pub tabled-Table : Table pgdir va tabled
  tabled-Table = record {
    here = rw (with_table-entry pgdir va x k) (new_pde-Present x);
    inside = ground (arith, o.spare, o.few, with_table-frame pgdir va x k);
    away = ground (arith, o.spare, o.few, with_table-frame pgdir va x k);
    apart = λ d m n q. ground (
      arith,
      o.few,
      o.spare,
      o.spare.0.2 d m,
      with_table-frame pgdir va x k,
      tabled-word pgdir d,
    );
  }

  pub tabled-translate : (la : ℕ) → la < utop → translate pgdir la tabled ≡ translate pgdir la k
  tabled-translate la g = ground (
    arith,
    o.few,
    o.spare,
    o.spare.0.2 (pdx la),
    o.tables (pdx la),
    with_table-frame pgdir va x k,
    tabled-word pgdir (pdx la),
    tabled-word (frame (tabled.word pgdir (pdx la))) (ptx la),
  )

  pub tabled-insert :
      (i perm : ℕ)
      → k.page_free_list ≡ some x
      → page_insert pgdir i va perm k ≡ page_insert pgdir i va perm tabled
  unfolding page_insert
  tabled-insert i perm e =
      let t = tabled-Table in
      let f : frame (tabled.word pgdir (pdx va)) ≡ x =
        with_table-frame pgdir va x k (omega (arith, o.spare, o.few)) in
      rw
        (
          walk_new pgdir va k absent x e o.spare.0.0 o.few,
          walk_old pgdir va true tabled t.here t.inside,
        )
        (rw f)

  tabled-Inserted : (i perm : ℕ) → Inserted pgdir i va perm k
  tabled-Inserted i perm =
      let unused = λ (p : Present (entry pgdir va tabled)).
        absurd (p (ap (λ (v : ℕ). bit_and v pte_p) tabled-entry)) in
      let (k', e, seen) = Table-Inserted pgdir i va perm tabled tabled-Table unused h in
      (
        k',
        tabled-insert i perm o.free.0 ∙ e,
        λ la g. ground (arith, seen la g, tabled-translate la g),
      )

-- page_insert on every branch, in a well-formed directory and at a user address: either the table is
-- missing, no page is free, and it fails with -E_NO_MEM and changes nothing; or it returns 0, `va`'s page is mapped to page `i` with the permissions, and every other user address
-- keeps its translation, also where a table was allocated or an old mapping was replaced.
pub page_insert_lem :
    (pgdir i va perm : ℕ) (xs : List ℕ) (k : Kernel)
    → DirOk pgdir xs k
    → va < utop
    → ((bit_and (k.word pgdir (pdx va)) pte_p ≡ 0)
        × (xs ≡ [])
        × (page_insert pgdir i va perm k ≡ ok (fail e_no_mem) k))
      ⊎ Inserted pgdir i va perm k
page_insert_lem pgdir i va perm xs k o h =
    elim (Bool-cases (bit_and (k.word pgdir (pdx va)) pte_p == 0)) [
      | inr there ↦
          let p : Present (k.word pgdir (pdx va)) = ground (arith, there) in
          inr (
            Table-Inserted pgdir i va perm k (DirOk-Table va o h p)
              (o.pages (pdx va) (ptx va) (omega arith) p) h)
      | inl gone ↦ missing xs o (ground (arith, gone))
    ]
  where
    missing :
        (ys : List ℕ)
        → DirOk pgdir ys k
        → bit_and (k.word pgdir (pdx va)) pte_p ≡ 0
        → ((bit_and (k.word pgdir (pdx va)) pte_p ≡ 0)
            × (ys ≡ [])
            × (page_insert pgdir i va perm k ≡ ok (fail e_no_mem) k))
          ⊎ Inserted pgdir i va perm k
    missing [] o' a = inl (a, refl, insert_full pgdir i va perm k a o'.free)
    missing (x ∷ ys) o' a = inr (tabled-Inserted x va o' h a i perm)

-- page_remove of a mapped page: `va` is unmapped, and every other user address keeps its
-- translation.
pub page_remove_lem :
    (pgdir va : ℕ) (xs : List ℕ) (k : Kernel)
    → DirOk pgdir xs k
    → va < utop
    → translate pgdir va k ≢ none
    → (k' : Kernel) × (page_remove pgdir va k ≡ ok tt k')
      × ((la : ℕ)
          → la < utop
          → translate pgdir la k' ≡ (if pgnum la == pgnum va then none else translate pgdir la k))
page_remove_lem pgdir va xs k o h m =
    let p : Present (k.word pgdir (pdx va)) = ground arith in
    let e : Present (entry pgdir va k) = ground arith in
    let t = DirOk-Table va o h p in
    let k' = remove_state pgdir va (frame (entry pgdir va k)) (slot pgdir va k) k in
    (
      k',
      remove_mapped pgdir va k p t.inside e (o.pages (pdx va) (ptx va) (omega arith) p e),
      λ la g. ground (
        arith,
        translate_written pgdir va 0 la k k' t
            (remove-word pgdir va (frame (entry pgdir va k)) (frame (k.word pgdir (pdx va)))
              (ptx va) k)
            g h,
      ),
    )
