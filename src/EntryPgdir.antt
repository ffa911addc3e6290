-- ===== src/EntryPgdir.antt =====
-- The page directory and the page table that entry.S starts paging with, OSLab7-Mitjoslab4/kern/entrypgdir.c.
-- `table` is the address that the linker gives to entry_pgtable.
pub mod Maps
mod Tests
use homework_of_operating_sy.Base.{ℕ, ◌+◌, ◌-◌, ◌*◌, ◌/◌, ◌%◌, ◌^◌, bit_or, ◌==◌, if◌then◌else◌}
use homework_of_operating_sy.Mmu.{kernbase, pte_p, pte_w}

-- The 1024 rows of the source, of which row i has the constant i * 0x1000
unfoldable pub entry_pgtable : ℕ → ℕ
entry_pgtable i = bit_or (bit_or (i * 0x1000) pte_p) pte_w

-- Words that have no initializer are 0.
unfoldable pub entry_pgdir : ℕ → ℕ → ℕ
entry_pgdir table d =
    if d == 0
    then (table + 2 ^ 32 - kernbase + pte_p) % 2 ^ 32
    else if d == kernbase / 2 ^ 22
    then (table + 2 ^ 32 - kernbase + pte_p + pte_w) % 2 ^ 32
    else 0
