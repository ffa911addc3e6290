-- ===== src/Pmap/Entry.antt =====
-- What a page table entry built by pgdir_walk or page_insert says: present, and of which page.
use homework_of_operating_sy.Base.{ℕ, ◌^◌, ◌<◌, ◌≡◌, ◌≢◌, bit_and, bit_or, arith}
use homework_of_operating_sy.Base.Bits.{digit, digit-bit_or, bit_and-one, frame-bit_or}
use homework_of_operating_sy.Mmu.{pte_p, pte_w, pte_u, pte_addr, pgnum}
use homework_of_operating_sy.Pmap.{page2pa}

-- The page that an entry points to.
abbrev pub frame : ℕ → ℕ
frame e = pgnum (pte_addr e)

abbrev pub Present : ℕ → Type 0
Present e = bit_and e pte_p ≢ 0

-- The entry that page_insert stores, and the one that pgdir_walk stores in the directory.
abbrev pub new_pte : ℕ → ℕ → ℕ
new_pte i perm = bit_or (bit_or (page2pa i) perm) pte_p

abbrev pub new_pde : ℕ → ℕ
new_pde i = bit_or (bit_or (bit_or (page2pa i) pte_p) pte_u) pte_w

pub new_pte-Present : (i perm : ℕ) → Present (new_pte i perm)
unfolding digit
new_pte-Present i perm =
    omega (arith, bit_and-one (new_pte i perm), digit-bit_or 0 (bit_or (page2pa i) perm) pte_p)

pub new_pde-Present : (i : ℕ) → Present (new_pde i)
unfolding digit
new_pde-Present i = omega (
  arith,
  bit_and-one (new_pde i),
  digit-bit_or 0 (bit_or (bit_or (page2pa i) pte_p) pte_u) pte_w,
  digit-bit_or 0 (bit_or (page2pa i) pte_p) pte_u,
  digit-bit_or 0 (page2pa i) pte_p,
)

pub frame-new_pte : (i perm : ℕ) → i < 2 ^ 20 → perm < 4096 → frame (new_pte i perm) ≡ i
frame-new_pte i perm h p = omega (
  arith,
  frame-bit_or (bit_or (page2pa i) perm) pte_p (omega arith),
  frame-bit_or (page2pa i) perm p,
)

pub frame-new_pde : (i : ℕ) → i < 2 ^ 20 → frame (new_pde i) ≡ i
frame-new_pde i h = omega (
  arith,
  frame-bit_or (bit_or (bit_or (page2pa i) pte_p) pte_u) pte_w (omega arith),
  frame-bit_or (bit_or (page2pa i) pte_p) pte_u (omega arith),
  frame-bit_or (page2pa i) pte_p (omega arith),
)
