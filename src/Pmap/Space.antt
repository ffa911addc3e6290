-- ===== src/Pmap/Space.antt =====
-- The abstract view of an address space, a partial map from user pages to table entries, and the well-formedness of a directory.
use homework_of_operating_sy.Base.{
  ℕ, ◌^◌, ◌<◌, ◌≤◌, ◌≡◌, ◌≢◌, bit_and, Option, none, some, List, All, ◌==◌, if◌then◌else◌, arith,
}
use homework_of_operating_sy.Mmu.{pdx, ptx, pgnum, pte_p, utop}
use homework_of_operating_sy.Kernel.{Kernel}
use homework_of_operating_sy.Pmap.Entry.{frame, Present}
use homework_of_operating_sy.Pmap.FreeList.{FreeList}
use homework_of_operating_sy.Pmap.Walk.{slot}
use homework_of_operating_sy.Pmap.Insert.{word_with}

-- The table entry for an address, where both levels are present: what the hardware would use.
abbrev pub translate : ℕ → ℕ → Kernel → Option ℕ
translate pgdir la k =
    if bit_and (k.word pgdir (pdx la)) pte_p == 0
    then none
    else if bit_and (k.word (frame (k.word pgdir (pdx la))) (ptx la)) pte_p == 0
    then none
    else some (k.word (frame (k.word pgdir (pdx la))) (ptx la))

-- What the operations on `va` rely on in a directory: the table for `va` exists, and is neither the
-- directory nor the table of another user address.
pub record Table (pgdir va : ℕ) (k : Kernel) : Type 0 where
  pub here : Present (k.word pgdir (pdx va))
  pub inside : frame (k.word pgdir (pdx va)) < k.npages
  pub away : frame (k.word pgdir (pdx va)) ≢ pgdir
  pub apart :
      (d : ℕ)
      → d < pdx utop
      → d ≢ pdx va
      → Present (k.word pgdir d)
      → frame (k.word pgdir d) ≢ frame (k.word pgdir (pdx va))

same_page :
    (la va : ℕ) → la < utop → va < utop → pdx la ≡ pdx va → ptx la ≡ ptx va → pgnum la ≡ pgnum va
same_page la va h g p q = omega arith

-- A write at the entry for `va` is seen at the addresses of that page and nowhere else.
pub translate_written :
    (pgdir va v la : ℕ) (k k' : Kernel)
    → Table pgdir va k
    → ((f j : ℕ) → k'.word f j ≡ word_with (slot pgdir va k) v k f j)
    → la < utop
    → va < utop
    → translate pgdir la k' ≡ (
        if pgnum la == pgnum va
        then (if bit_and v pte_p == 0 then none else some v)
        else translate pgdir la k)
translate_written pgdir va v la k k' t w h g = ground (
  arith,
  t.apart (pdx la),
  w pgdir (pdx la),
  w (frame (k.word pgdir (pdx la))) (ptx la),
  same_page la va h g,
)

-- The well-formedness of a directory beside a free list `xs`: user tables lie in memory, are not the
-- directory and are not shared; present entries point into memory; free pages are none of these.
pub record DirOk (pgdir : ℕ) (xs : List ℕ) (k : Kernel) : Type 0 where
  pub few : k.npages ≤ 2 ^ 20
  pub free : FreeList k xs
  pub spare :
      All
        (λ x.
          (x < k.npages)
          × (x ≢ pgdir)
          × ((d : ℕ) → d < pdx utop → Present (k.word pgdir d) → frame (k.word pgdir d) ≢ x))
        xs
  pub tables :
      (d : ℕ)
      → d < pdx utop
      → Present (k.word pgdir d)
      → (frame (k.word pgdir d) < k.npages) × (frame (k.word pgdir d) ≢ pgdir)
  pub distinct :
      (d e : ℕ)
      → d < pdx utop
      → e < pdx utop
      → d ≢ e
      → Present (k.word pgdir d)
      → Present (k.word pgdir e)
      → frame (k.word pgdir d) ≢ frame (k.word pgdir e)
  pub pages :
      (d t : ℕ)
      → d < pdx utop
      → Present (k.word pgdir d)
      → Present (k.word (frame (k.word pgdir d)) t)
      → frame (k.word (frame (k.word pgdir d)) t) < k.npages

pub DirOk-Table :
    {pgdir : ℕ} {xs : List ℕ} {k : Kernel} (va : ℕ)
    → DirOk pgdir xs k
    → va < utop
    → Present (k.word pgdir (pdx va))
    → Table pgdir va k
DirOk-Table va o h p = record {
  here = p;
  inside = (o.tables (pdx va) (omega arith) p).0;
  away = (o.tables (pdx va) (omega arith) p).1;
  apart = λ d m n q. o.distinct d (pdx va) m (omega arith) n q p;
}
