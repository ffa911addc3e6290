-- ===== src/Mmu.antt =====
-- Page sizes, address fields, page table flags and the layout of the address space:
-- OSLab7-Mitjoslab4/inc/mmu.h, inc/memlayout.h, inc/types.h (ROUNDDOWN, ROUNDUP).
-- An address, a page table entry and a physical address are 32-bit words: numbers below 2 ^ 32.
use homework_of_operating_sy.Base.{ℕ, ◌+◌, ◌-◌, ◌*◌, ◌/◌, ◌%◌, ◌^◌, ◌<◌, ◌≡◌, arith}

abbrev pub word_size : ℕ
word_size = 2 ^ 32

-- PGSIZE, NPTENTRIES, PTSIZE
abbrev pub pgsize : ℕ
pgsize = 4096

abbrev pub nptentries : ℕ
nptentries = 1024

abbrev pub ptsize : ℕ
ptsize = 4194304

-- PGNUM, PDX, PTX, PGADDR
abbrev pub pgnum : ℕ → ℕ
pgnum la = la / 2 ^ 12

abbrev pub pdx : ℕ → ℕ
pdx la = la / 2 ^ 22 % 1024

abbrev pub ptx : ℕ → ℕ
ptx la = la / 2 ^ 12 % 1024

abbrev pub pgaddr : ℕ → ℕ → ℕ → ℕ
pgaddr d t o = d * 2 ^ 22 + t * 2 ^ 12 + o

-- PTE_P, PTE_W, PTE_U, PTE_PWT, PTE_PCD and PTE_ADDR
abbrev pub pte_p : ℕ
pte_p = 0x001

abbrev pub pte_w : ℕ
pte_w = 0x002

abbrev pub pte_u : ℕ
pte_u = 0x004

abbrev pub pte_pwt : ℕ
pte_pwt = 0x008

abbrev pub pte_pcd : ℕ
pte_pcd = 0x010

-- `pte & ~0xFFF`
abbrev pub pte_addr : ℕ → ℕ
pte_addr pte = pte - pte % 4096

-- ROUNDDOWN(a, PGSIZE) and ROUNDUP(a, PGSIZE), whose sum wraps at 2 ^ 32.
abbrev pub rounddown : ℕ → ℕ
rounddown a = a - a % pgsize

abbrev pub roundup : ℕ → ℕ
roundup a = rounddown ((a + pgsize - 1) % word_size)

-- KERNBASE, IOPHYSMEM, EXTPHYSMEM, KSTKSIZE, MMIOLIM, MMIOBASE, ULIM, UVPT, UENVS, UTOP
abbrev pub kernbase : ℕ
kernbase = 0xF0000000

abbrev pub mmiolim : ℕ
mmiolim = kernbase - ptsize

abbrev pub mmiobase : ℕ
mmiobase = mmiolim - ptsize

abbrev pub ulim : ℕ
ulim = mmiobase

abbrev pub uvpt : ℕ
uvpt = ulim - ptsize

abbrev pub utop : ℕ
utop = uvpt - ptsize - ptsize

-- UXSTACKTOP, USTACKTOP, MPENTRY_PADDR
abbrev pub uxstacktop : ℕ
uxstacktop = utop

abbrev pub ustacktop : ℕ
ustacktop = utop - 2 * pgsize

abbrev pub mpentry_paddr : ℕ
mpentry_paddr = 0x7000

-- The three fields of a linear address make it up again.
pub pgaddr_fields : (la : ℕ) → la < word_size → pgaddr (pdx la) (ptx la) (la % 4096) ≡ la
pgaddr_fields la h = omega arith
