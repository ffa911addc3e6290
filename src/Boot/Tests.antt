-- ===== src/Boot/Tests.antt =====
-- A disk whose bytes name their place, and a segment of it that crosses the end of a sector.
use homework_of_operating_sy.Base.{
  ℕ, zero, suc, ◌+◌, ◌-◌, ◌*◌, ◌/◌, ◌%◌, ◌^◌, ◌<◌, ◌≤◌, ◌≡◌, ◌⊎◌, inl, inr, refl, ap, some, ltb,
  ◌==◌, if◌then◌else◌, arith,
}
use homework_of_operating_sy.Strings.{Bytes}
use homework_of_operating_sy.Elf.{e_entry, e_phoff, e_phnum, p_pa, p_memsz, p_offset}
use homework_of_operating_sy.Boot.{Drive, sectsize, readseg, bootmain, entered}
use homework_of_operating_sy.Boot.Load.{Holds, readseg_lem}
use homework_of_operating_sy.Boot.File.{file, Fits, Apart, InMemory, header_at}
use homework_of_operating_sy.Boot.Image.{bootmain_lem}

abbrev numbered : Bytes
numbered x = (x / 512 + x) % 2 ^ 8

abbrev low_byte : Drive
low_byte a b c d j = (a + j) % 2 ^ 8

low_byte-Holds : Holds low_byte numbered
low_byte-Holds n j h g = omega (arith, g)

abbrev empty : Bytes
empty a = 0

readseg_lem_example :
    (m' : Bytes) × (readseg low_byte 5 empty 0x100300 700 0x1300 ≡ some m')
    × ((i : ℕ) → i < 700 → m' (0x100300 + i) ≡ numbered (sectsize + 0x1300 + i))
    × ((j : ℕ)
        → (j < 0x100300 - 0x100300 % sectsize) ⊎ (0x100300 + 700 + sectsize ≤ j)
        → m' j ≡ empty j)
readseg_lem_example =
    readseg_lem low_byte numbered 5 empty 0x100300 700 0x1300 low_byte-Holds (omega arith)
      (omega arith) (omega arith) (omega arith)

-- A disk of 256 sectors, over and over, with a file of two segments behind the first sector.
abbrev kernel_disk : Bytes
kernel_disk x =
    if x == 512
    then 0x7F
    else if x == 513
    then 0x45
    else if x == 514
    then 0x4C
    else if x == 515
    then 0x46
    else if x == 536
    then 0x0C
    else if x == 538
    then 0x10
    else if x == 540
    then 52
    else if x == 556
    then 2
    else if x == 569
    then 0x10
    else if x == 578
    then 0x10
    else if x == 585
    then 3
    else if x == 601
    then 0x14
    else if x == 609
    then 0x14
    else if x == 610
    then 0x10
    else if x == 616
    then 100
    else if ltb x 1024
    then 0
    else x % 251

abbrev kernel_image : Bytes
kernel_image x = kernel_disk (x % 131072)

abbrev kernel_drive : Drive
kernel_drive a b c d j = kernel_disk (512 * a + j)

kernel_drive-Holds : Holds kernel_drive kernel_image
kernel_drive-Holds n j h g =
    let place : 512 * (n % 2 ^ 8) + j ≡ (512 * n + j) % 131072 = omega (arith, g) in
    ap kernel_disk place

abbrev kernel_file : Bytes
kernel_file = file kernel_image

segments :
    (e_phoff kernel_file 0 ≡ 52)
    × (e_phnum kernel_file 0 ≡ 2)
    × (p_pa kernel_file 52 ≡ 0x100000)
    × (p_memsz kernel_file 52 ≡ 0x300)
    × (p_offset kernel_file 52 ≡ 0x1000)
    × (p_pa kernel_file 84 ≡ 0x101400)
    × (p_memsz kernel_file 84 ≡ 100)
    × (p_offset kernel_file 84 ≡ 0x1400)
segments = (refl, refl, refl, refl, refl, refl, refl, refl)

all-Fits :
    (i : ℕ) → i < e_phnum kernel_file 0 → Fits kernel_file 11 (header_at (e_phoff kernel_file 0) i)
all-Fits zero h = record {
  inside = omega arith;
  in_file = omega arith;
  aligned = refl;
  rounds = omega arith;
  clear = inr (omega arith);
}
all-Fits (suc zero) h = record {
  inside = omega arith;
  in_file = omega arith;
  aligned = refl;
  rounds = omega arith;
  clear = inr (omega arith);
}
all-Fits (suc (suc i)) h = absurd (omega (arith, h))

all-Apart :
    (i j : ℕ)
    → i < j
    → j < e_phnum kernel_file 0
    → Apart kernel_file (header_at (e_phoff kernel_file 0) i) (header_at (e_phoff kernel_file 0) j)
all-Apart zero (suc zero) l h = λ i g. inl (omega (arith, g))
all-Apart zero zero l h = absurd (omega (arith, l))
all-Apart zero (suc (suc j)) l h = absurd (omega (arith, h))
all-Apart (suc i) zero l h = absurd (omega (arith, l))
all-Apart (suc i) (suc j) l h = absurd (omega (arith, l, h))

bootmain_lem_example :
    (m' : Bytes) × (bootmain kernel_drive 11 empty ≡ some (entered (e_entry kernel_file 0) m'))
    × ((i : ℕ)
        → i < e_phnum kernel_file 0
        → InMemory m' kernel_file (header_at (e_phoff kernel_file 0) i))
bootmain_lem_example =
    bootmain_lem kernel_drive kernel_image 11 empty kernel_drive-Holds (omega arith) refl
      (omega arith) all-Fits all-Apart
