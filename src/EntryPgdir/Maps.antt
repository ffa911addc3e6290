-- ===== src/EntryPgdir/Maps.antt =====
-- What the hardware reads through the tables of entrypgdir.c.
use homework_of_operating_sy.Base.{
  ℕ, ◌+◌, ◌-◌, ◌*◌, ◌/◌, ◌%◌, ◌^◌, ◌<◌, ◌≤◌, ◌≡◌, ◌≢◌, ◌⊎◌, inl, inr, ap, sym, ◌∙◌, Option, none,
  some, bit_and, bit_or, ltb, leb, ◌&&◌, if◌then◌else◌, arith,
}
use mathlib.Core.Path.{subst}
use homework_of_operating_sy.Base.Bits.{digit, digit-bit_or, bit_and-one, frame-bit_or}
use homework_of_operating_sy.Mmu.{pdx, ptx, pgnum, kernbase, ptsize, pte_p, pte_w}
use homework_of_operating_sy.Kernel.{Kernel}
use homework_of_operating_sy.Pmap.Entry.{frame, Present}
use homework_of_operating_sy.Pmap.Space.{translate}
use homework_of_operating_sy.EntryPgdir.{entry_pgtable, entry_pgdir}

entry_pgtable-Present : (i : ℕ) → Present (entry_pgtable i)
unfolding entry_pgtable digit
entry_pgtable-Present i = omega (
  arith,
  bit_and-one (entry_pgtable i),
  digit-bit_or 0 (bit_or (i * 0x1000) pte_p) pte_w,
  digit-bit_or 0 (i * 0x1000) pte_p,
)

frame-entry_pgtable : (i : ℕ) → frame (entry_pgtable i) ≡ i
unfolding entry_pgtable
frame-entry_pgtable i = omega (
  arith,
  frame-bit_or (bit_or (i * 0x1000) pte_p) pte_w (omega arith),
  frame-bit_or (i * 0x1000) pte_p (omega arith),
)

-- The physical page that an address is read from.
abbrev pub page_at : Option ℕ → Option ℕ
page_at none = none
page_at (some e) = some (frame e)

-- An entry of the directory that points to the page of the table.
through :
    (k : Kernel) (dir la t : ℕ)
    → Present (k.word dir (pdx la))
    → frame (k.word dir (pdx la)) ≡ t
    → k.word t (ptx la) ≡ entry_pgtable (ptx la)
    → page_at (translate dir la k) ≡ some (ptx la)
through k dir la t here points holds =
    let entry : k.word (frame (k.word dir (pdx la))) (ptx la) ≡ entry_pgtable (ptx la) =
      ap (λ (f : ℕ). k.word f (ptx la)) points ∙ holds in
    ground (
      arith,
      here,
      entry,
      entry_pgtable-Present (ptx la),
      ap frame entry,
      frame-entry_pgtable (ptx la),
    )

-- The entries of the directory: two that point to the page of the table, and none elsewhere.
entry_pgdir-Present :
    (table d : ℕ)
    → kernbase ≤ table
    → table < 2 ^ 32
    → table % 4096 ≡ 0
    → (d ≡ 0) ⊎ (d ≡ 960)
    → Present (entry_pgdir table d) × (frame (entry_pgdir table d) ≡ (table - kernbase) / 4096)
unfolding entry_pgdir digit
entry_pgdir-Present table d low small aligned two =
    let value : (entry_pgdir table d ≡ table - kernbase + 1)
        ⊎ (entry_pgdir table d ≡ table - kernbase + 3) =
      ground (arith, low, small, two) in
    (
      ground (arith, value, bit_and-one (entry_pgdir table d), low, aligned),
      ground (arith, value, low, aligned),
    )

two_of : (d : ℕ) → ((d ≡ 0) ⊎ (d ≡ 960)) ⊎ ((d ≢ 0) × (d ≢ 960))
two_of d = ground arith

no_entry : (table d : ℕ) → d ≢ 0 → d ≢ 960 → bit_and (entry_pgdir table d) pte_p ≡ 0
unfolding entry_pgdir digit
no_entry table d p q = ground (arith, bit_and-one (entry_pgdir table d), p, q)

-- Where memory holds the directory in page `dir`, and in its own page the table, which the linker has placed on a page
-- boundary at or above KERNBASE: every address below 4 MB is read from itself, every address in the 4 MB from KERNBASE on
-- from the address less KERNBASE, and no other address is mapped.
pub entry_pgdir_lem :
    (k : Kernel) (table dir la : ℕ)
    → kernbase ≤ table
    → table < 2 ^ 32
    → table % 4096 ≡ 0
    → la < 2 ^ 32
    → ((d : ℕ) → d < 1024 → k.word dir d ≡ entry_pgdir table d)
    → ((i : ℕ) → i < 1024 → k.word ((table - kernbase) / 4096) i ≡ entry_pgtable i)
    → page_at (translate dir la k) ≡ (
        if ltb la ptsize
        then some (pgnum la)
        else if leb kernbase la && ltb la (kernbase + ptsize)
        then some (pgnum (la - kernbase))
        else none)
entry_pgdir_lem k table dir la low small aligned h directory pages =
    let entry = directory (pdx la) (omega arith) in
    elim (two_of (pdx la)) [
      | inl two ↦
          let (here, points) = entry_pgdir-Present table (pdx la) low small aligned two in
          let read : page_at (translate dir la k) ≡ some (ptx la) =
            through k dir la ((table - kernbase) / 4096) (subst Present (sym entry) here)
              (ap frame entry ∙ points) (pages (ptx la) (omega arith)) in
          ground (arith, read, two, h)
      | inr (p, q) ↦ ground (arith, entry, no_entry table (pdx la) p q, p, q, h)
    ]
