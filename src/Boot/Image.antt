-- ===== src/Boot/Image.antt =====
-- What bootmain loads, where the disk holds a kernel image.
use homework_of_operating_sy.Base.{
  ℕ, zero, suc, ◌+◌, ◌*◌, ◌%◌, ◌^◌, ◌<◌, ◌≤◌, ◌≡◌, refl, ap, ◌∙◌, true, some, ◌==◌, arith,
}
use homework_of_operating_sy.Strings.{Bytes}
use homework_of_operating_sy.Elf.{
  elf_magic, e_magic, e_entry, e_phoff, e_phnum, p_pa, p_memsz, p_offset, proghdr_size,
}
use homework_of_operating_sy.Boot.{
  sectsize, elfhdr, Drive, readseg, load_segments, header_count, bootmain, entered,
}
use homework_of_operating_sy.Boot.Load.{Holds, readseg_lem}
use homework_of_operating_sy.Boot.File.{
  file, Outside, Fits, Apart, InMemory, Header, header_at, word_same, field_same, away, half_same,
  at_headers, behind_first, at_first, at_first_pair, behind_first_pair,
}

module _ (drive : Drive) (image : Bytes) (disk : Holds drive image) (fuel : ℕ) where
  -- One segment: it is in memory, and nothing outside its sectors is changed.
  one_segment :
      (m : Bytes) (o : ℕ)
      → o + proghdr_size ≤ 4096
      → Header m (file image)
      → Fits (file image) fuel o
      → (m' : Bytes) × (readseg drive fuel m
            (p_pa m (elfhdr + o))
            (p_memsz m (elfhdr + o))
            (p_offset m (elfhdr + o))
          ≡ some m')
        × InMemory m' (file image) o
        × ((x : ℕ) → Outside (file image) o x → m' x ≡ m x)
  one_segment m o h same fits =
      let pa = field_same m (file image) o 12 same (omega (arith, h)) in
      let memsz = field_same m (file image) o 20 same (omega (arith, h)) in
      let offset = field_same m (file image) o 4 same (omega (arith, h)) in
      let (m', e, inside, outside) =
        readseg_lem drive image fuel m (p_pa (file image) o) (p_memsz (file image) o)
          (p_offset (file image) o) disk fits.inside fits.in_file fits.aligned fits.rounds in
      (m', rw (pa, memsz, offset) e, λ i h. inside i h ∙ ap image (omega arith), outside)

  image_kept :
      (m m' : Bytes) (o : ℕ)
      → Fits (file image) fuel o
      → Header m (file image)
      → ((x : ℕ) → Outside (file image) o x → m' x ≡ m x)
      → Header m' (file image)
  image_kept m m' o fits same outside x h =
      outside (elfhdr + x) (away (file image) fuel o x fits h) ∙ same x h

  load_segments_lem :
      (n : ℕ) (m : Bytes) (o : ℕ)
      → header_at o n ≤ 4096
      → Header m (file image)
      → ((i : ℕ) → i < n → Fits (file image) fuel (header_at o i))
      → ((i j : ℕ) → i < j → j < n → Apart (file image) (header_at o i) (header_at o j))
      → (m' : Bytes) × (load_segments drive fuel m (elfhdr + o) n ≡ some m')
        × ((i : ℕ) → i < n → InMemory m' (file image) (header_at o i))
        × ((x : ℕ) → ((i : ℕ) → i < n → Outside (file image) (header_at o i) x) → m' x ≡ m x)
  unfolding load_segments
  load_segments_lem zero m o h same fits apart =
      (m, refl, λ i l. absurd (omega (arith, l)), λ x out. refl)
  load_segments_lem (suc n) m o h same fits apart =
      let fits_first = at_first (Fits (file image) fuel) o n fits in
      let (m1, e, loaded, outside) = one_segment m o (omega (arith, h)) same fits_first in
      let (m', e', all, rest) =
        load_segments_lem n m1 (o + proghdr_size) (omega (arith, h))
          (image_kept m m1 o fits_first same outside)
          (behind_first (Fits (file image) fuel) o n fits)
          (behind_first_pair (Apart (file image)) o n apart) in
      let next : (elfhdr + o + proghdr_size) % 2 ^ 32 ≡ elfhdr + (o + proghdr_size) =
        omega (arith, h) in
      (
        m',
        rw (load_segments, e, next) e',
        at_headers (InMemory m' (file image)) o n
            (λ i l.
              rest (p_pa (file image) o + i)
                (λ k g. at_first_pair (Apart (file image)) o n apart k g i l)
              ∙ loaded i l)
            all,
        λ x out.
            rest x (behind_first (λ (a : ℕ). Outside (file image) a x) o n out)
            ∙ outside x (at_first (λ (a : ℕ). Outside (file image) a x) o n out),
      )

-- Where the disk holds, from its second sector on, a file with the ELF magic number, whose program headers lie in its first 4096 bytes, and the
-- bound on the rounds is above 10 and enough for each of its segments, which fit and of which none is loaded over the bytes of one before it: bootmain enters the kernel at
-- the file's entry point, with every segment in memory as it is in the file.
pub bootmain_lem :
    (drive : Drive) (image : Bytes) (fuel : ℕ) (m : Bytes)
    → Holds drive image
    → 10 < fuel
    → e_magic (file image) 0 ≡ elf_magic
    → header_at (e_phoff (file image) 0) (e_phnum (file image) 0) ≤ 4096
    → ((i : ℕ)
        → i < e_phnum (file image) 0
        → Fits (file image) fuel (header_at (e_phoff (file image) 0) i))
    → ((i j : ℕ)
        → i < j
        → j < e_phnum (file image) 0
        → Apart
            (file image)
            (header_at (e_phoff (file image) 0) i)
            (header_at (e_phoff (file image) 0) j))
    → (m' : Bytes) × (bootmain drive fuel m ≡ some (entered (e_entry (file image) 0) m'))
      × ((i : ℕ)
          → i < e_phnum (file image) 0
          → InMemory m' (file image) (header_at (e_phoff (file image) 0) i))
unfolding bootmain
bootmain_lem drive image fuel m disk enough magic few fits apart =
    let (h, e, inside, outside) =
      readseg_lem drive image fuel m elfhdr (sectsize * 8) 0 disk (omega arith) (omega arith) refl
        (omega (arith, enough)) in
    let same : Header h (file image) = λ x l. inside x l ∙ ap image (omega arith) in
    let is_elf : (e_magic h elfhdr == elf_magic) ≡ true =
      ground (arith, word_same h (file image) 0 same (omega arith), magic) in
    let phoff : e_phoff h elfhdr ≡ e_phoff (file image) 0 =
      word_same h (file image) 28 same (omega arith) in
    let phnum : e_phnum h elfhdr ≡ e_phnum (file image) 0 = half_same h (file image) same in
    let (m', e', all, rest) =
      load_segments_lem drive image disk fuel (e_phnum (file image) 0) h (e_phoff (file image) 0)
        few same fits apart in
    let kept : Header m' (file image) = λ x l.
      rest (elfhdr + x)
        (λ i g. away (file image) fuel (header_at (e_phoff (file image) 0) i) x (fits i g) l)
      ∙ same x l in
    let place : (elfhdr + e_phoff h elfhdr) % 2 ^ 32 ≡ elfhdr + e_phoff (file image) 0 =
      omega (arith, phoff, few) in
    let rounds : header_count drive (elfhdr + e_phoff (file image) 0) (e_phnum h elfhdr)
        ≡ e_phnum (file image) 0 =
      omega (arith, phnum, few) in
    let ended : load_segments drive fuel h ((elfhdr + e_phoff h elfhdr) % 2 ^ 32)
          (header_count drive ((elfhdr + e_phoff h elfhdr) % 2 ^ 32) (e_phnum h elfhdr))
        ≡ some m' =
      rw (place, rounds) e' in
    (m', rw (bootmain, e, is_elf, ended, word_same m' (file image) 24 kept (omega arith)) refl, all)
