-- ===== src/EntryPgdir/Tests.antt =====
-- The directory in page 0x115 and the table in page 0x116: an address of the kernel.
use homework_of_operating_sy.Base.{
  ◌+◌, ◌-◌, ◌≡◌, refl, some, none, ltb, leb, ◌==◌, ◌&&◌, if◌then◌else◌, arith,
}
use homework_of_operating_sy.Mmu.{pgnum, kernbase, ptsize}
use homework_of_operating_sy.Kernel.{Kernel}
use homework_of_operating_sy.Sample.{machine}
use homework_of_operating_sy.Pmap.Space.{translate}
use homework_of_operating_sy.EntryPgdir.{entry_pgtable, entry_pgdir}
use homework_of_operating_sy.EntryPgdir.Maps.{page_at, entry_pgdir_lem}

abbrev early : Kernel
early = record machine {
  word = λ f j.
      if f == 0x115 then entry_pgdir 0xF0116000 j else if f == 0x116 then entry_pgtable j else 0;
}

entry_pgdir_lem_example : page_at (translate 0x115 0xF0012345 early) ≡ (
    if ltb 0xF0012345 ptsize
    then some (pgnum 0xF0012345)
    else if leb kernbase 0xF0012345 && ltb 0xF0012345 (kernbase + ptsize)
    then some (pgnum (0xF0012345 - kernbase))
    else none)
entry_pgdir_lem_example =
    entry_pgdir_lem early 0xF0116000 0x115 0xF0012345 (omega arith) (omega arith) (omega arith)
      (omega arith) (λ d h. refl) (λ i h. refl)

-- The last page of both ranges, and the first address behind them.
ends :
    (page_at (translate 0x115 0x3FFFFF early) ≡ some 0x3FF)
    × (page_at (translate 0x115 0xF03FFFFF early) ≡ some 0x3FF)
    × (page_at (translate 0x115 0x400000 early) ≡ none)
unfolding entry_pgdir entry_pgtable
ends = (refl, refl, refl)
