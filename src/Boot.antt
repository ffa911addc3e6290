-- ===== src/Boot.antt =====
-- The boot loader, OSLab7-Mitjoslab4/boot/main.c. `drive` is the disk: what it gives once the four bytes of a sector number
-- are in its registers. The waits for the disk are not modelled.
pub mod Load
pub mod File
pub mod Image
mod Tests
use homework_of_operating_sy.Base.{
  ℕ, zero, suc, ◌+◌, ◌-◌, ◌*◌, ◌/◌, ◌%◌, ◌^◌, Bool, true, false, ◌&&◌, bit_or, Option, none, some,
  ltb, leb, ◌==◌, if◌then◌else◌,
}
use homework_of_operating_sy.Strings.{Bytes}
use homework_of_operating_sy.Elf.{
  elf_magic, e_magic, e_entry, e_phoff, e_phnum, p_pa, p_memsz, p_offset, proghdr_size,
}

abbrev pub sectsize : ℕ
sectsize = 512

-- ELFHDR
abbrev pub elfhdr : ℕ
elfhdr = 0x10000

abbrev pub Drive : Type 0
Drive = ℕ → ℕ → ℕ → ℕ → Bytes

module _ (drive : Drive) where
  -- The sector that the ports are told to read, by the bytes that outb takes
  abbrev pub sector : ℕ → Bytes
  sector offset =
      drive (offset % 2 ^ 8) (offset / 2 ^ 8 % 2 ^ 8) (offset / 2 ^ 16 % 2 ^ 8)
        (bit_or (offset / 2 ^ 24) 0xE0 % 2 ^ 8)

  -- readsect: insl puts the sector at `dst`
  unfoldable pub readsect : Bytes → ℕ → ℕ → Bytes
  readsect m dst offset j =
      if leb dst j && ltb j (dst + sectsize) then sector offset (j - dst) else m j

  -- The loop of readseg, with a bound on its rounds
  unfoldable pub read_loop : ℕ → Bytes → ℕ → ℕ → ℕ → Option Bytes
  unfolding readsect
  read_loop zero m pa end_pa offset = none
  read_loop (suc fuel) m pa end_pa offset = elim (ltb pa end_pa) [
    | true ↦
        read_loop fuel (readsect m pa offset) ((pa + sectsize) % 2 ^ 32) end_pa
          ((offset + 1) % 2 ^ 32)
    | false ↦ some m
  ]

  unfoldable pub readseg : ℕ → Bytes → ℕ → ℕ → ℕ → Option Bytes
  unfolding read_loop
  readseg fuel m pa count offset =
      read_loop fuel m (pa - pa % sectsize) ((pa + count) % 2 ^ 32) (offset / sectsize + 1)

  -- The loop over the program headers, of which `n` are left
  unfoldable pub load_segments : ℕ → Bytes → ℕ → ℕ → Option Bytes
  unfolding readseg
  load_segments fuel m ph zero = some m
  load_segments fuel m ph (suc n) =
      elim (readseg fuel m (p_pa m ph) (p_memsz m ph) (p_offset m ph)) [
        | none ↦ none
        | some m' ↦ load_segments fuel m' ((ph + proghdr_size) % 2 ^ 32) n
      ]

  -- The rounds of that loop, whose end `ph + n` may wrap
  abbrev pub header_count : ℕ → ℕ → ℕ
  header_count ph n = ((ph + proghdr_size * n) % 2 ^ 32 - ph) / proghdr_size

  -- How bootmain ends: at the entry point of the kernel, or in the loop behind `bad`
  pub data Booted : Type 0 where
    entered : ℕ → Bytes → Booted
    bad : Booted

  abbrev pub enter : Option Bytes → Option Booted
  enter none = none
  enter (some m) = some (entered (e_entry m elfhdr) m)

  unfoldable pub bootmain : ℕ → Bytes → Option Booted
  unfolding readseg load_segments
  bootmain fuel m = elim (readseg fuel m elfhdr (sectsize * 8) 0) [
    | none ↦ none
    | some h ↦ elim (e_magic h elfhdr == elf_magic) [
      | false ↦ some bad
      | true ↦
          let ph = (elfhdr + e_phoff h elfhdr) % 2 ^ 32 in
          enter (load_segments fuel h ph (header_count ph (e_phnum h elfhdr)))
    ]
  ]
