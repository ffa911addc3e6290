-- ===== src/Elf.antt =====
-- The fields of an ELF image that the loaders read, OSLab7-Mitjoslab4/inc/elf.h, as bytes in memory.
use homework_of_operating_sy.Base.{ℕ, ◌+◌, ◌*◌, ◌^◌}

-- A little-endian number of two or of four bytes
abbrev pub half_at : (ℕ → ℕ) → ℕ → ℕ
half_at m a = m a + 2 ^ 8 * m (a + 1)

abbrev pub word_at : (ℕ → ℕ) → ℕ → ℕ
word_at m a = half_at m a + 2 ^ 16 * half_at m (a + 2)

abbrev pub elf_magic : ℕ
elf_magic = 0x464C457F

-- `struct Elf` at `a`
module _ (m : ℕ → ℕ) (a : ℕ) where
  abbrev pub e_magic : ℕ
  e_magic = word_at m a

  abbrev pub e_entry : ℕ
  e_entry = word_at m (a + 24)

  abbrev pub e_phoff : ℕ
  e_phoff = word_at m (a + 28)

  abbrev pub e_phnum : ℕ
  e_phnum = half_at m (a + 44)

-- `struct Proghdr` at `a`
module _ (m : ℕ → ℕ) (a : ℕ) where
  abbrev pub p_type : ℕ
  p_type = word_at m a

  abbrev pub p_offset : ℕ
  p_offset = word_at m (a + 4)

  abbrev pub p_va : ℕ
  p_va = word_at m (a + 8)

  abbrev pub p_pa : ℕ
  p_pa = word_at m (a + 12)

  abbrev pub p_filesz : ℕ
  p_filesz = word_at m (a + 16)

  abbrev pub p_memsz : ℕ
  p_memsz = word_at m (a + 20)

abbrev pub proghdr_size : ℕ
proghdr_size = 32

abbrev pub elf_prog_load : ℕ
elf_prog_load = 1
