-- ===== src/MpConfig/Tests.antt =====
-- A table with two processors, of which the second boots, and a bus, found through the extended data area of the BIOS.
use homework_of_operating_sy.Base.{
  ℕ, ◌+◌, ◌-◌, ◌%◌, ◌^◌, ◌<◌, ◌≡◌, refl, true, false, Option, some, List, [], ◌∷◌, ◌&&◌, ltb, leb,
  ◌==◌, if◌then◌else◌, arith,
}
use Prim.Native.Nat.{min}
use homework_of_operating_sy.Strings.{Bytes, memcmp}
use homework_of_operating_sy.Conversion.{chars_of}
use homework_of_operating_sy.MpConfig.{
  Cpus, ncpu_max, set_at, cpu_started, sum, add_bytes, conf_lapicaddr, search_slots, mpsearch1,
  mpsearch, mpconfig, mp_init,
}
use homework_of_operating_sy.MpConfig.Search.{First, mpsearch1_lem}
use homework_of_operating_sy.MpConfig.Init.{
  Entry, Lies, processor, device, nothing, a_processor, a_device, all_known, processors, boot_place,
  mp_init_lem,
}

-- The texts at 0x1000, the structure at 0x9FC00, and the table at 0x9F000 with its entries
abbrev texts : Bytes
texts = chars_of (95 ∷ 77 ∷ 80 ∷ 95 ∷ 80 ∷ 67 ∷ 77 ∷ 80 ∷ [])

abbrev structure : Bytes
structure = chars_of (95 ∷ 77 ∷ 80 ∷ 95 ∷ 0 ∷ 0xF0 ∷ 9 ∷ 0 ∷ 1 ∷ 4 ∷ 167 ∷ [])

abbrev header : Bytes
header = chars_of (80 ∷ 67 ∷ 77 ∷ 80 ∷ 92 ∷ 0 ∷ 4 ∷ 97 ∷ [])

abbrev footer : Bytes
footer = chars_of (3 ∷ 0 ∷ 0 ∷ 0 ∷ 0xE0 ∷ 0xFE ∷ [])

abbrev body : Bytes
body a =
    if a == 2
    then 20
    else if a == 3
    then 1
    else if a == 20
    then 1
    else if a == 29
    then 1
    else if a == 30
    then 20
    else if a == 31
    then 3
    else 0

abbrev bios : Bytes
bios a =
    (if leb 0x1000 a && ltb a 0x1008
      then texts (a - 0x1000)
      else if leb 0x9FC00 a && ltb a 0x9FC0B
      then structure (a - 0x9FC00)
      else if leb 0x9F000 a && ltb a 0x9F008
      then header (a - 0x9F000)
      else if leb 0x9F022 a && ltb a 0x9F028
      then footer (a - 0x9F022)
      else if leb 0x9F02C a && ltb a 0x9F05C
      then body (a - 0x9F02C)
      else if a == 0x40E
      then 0xC0
      else if a == 0x40F
      then 0x9F
      else 0)
    % 2 ^ 8

bios_found : mpconfig 0x1000 0x1000 0x1004 bios ≡ some (some (0x9FC00, 0x9F000))
unfolding mpconfig mpsearch mpsearch1 search_slots memcmp sum add_bytes
bios_found = refl

mpsearch1_lem_example :
    (r : Option ℕ) × (mpsearch1 0x1000 0x1000 0x1004 bios 0x9FBE0 64 ≡ some r)
    × First bios 0x9FBE0 (0x9FBE0 + 64) r
mpsearch1_lem_example =
    mpsearch1_lem bios 0x1000 0x1000 0x1004 0x9FBE0 64 (λ a. omega arith) (refl, refl, refl, refl)
      (omega arith) (omega arith)

third_slot : mpsearch1 0x1000 0x1000 0x1004 bios 0x9FBE0 64 ≡ some (some 0x9FC00)
unfolding mpsearch1 search_slots memcmp sum add_bytes
third_slot = refl

abbrev cleared : Cpus
cleared = record {
  cpu_id = λ i. 0;
  cpu_status = λ i. 0;
  bootcpu = 0;
  ismp = false;
  ncpu = 0;
  lapicaddr = 0;
  imcr = false;
}

abbrev found_entries : List Entry
found_entries = processor false ∷ device ∷ processor true ∷ []

found_entries-Lies : Lies bios 0x9F02C found_entries
found_entries-Lies =
    a_processor refl refl (a_device (omega arith) (omega arith) (a_processor refl refl nothing))

mp_init_lem_example :
    (t : Cpus) × (mp_init 0x1000 0x1000 0x1004 bios cleared ≡ some t)
    × (t.ncpu ≡ (if all_known found_entries then min (processors found_entries) ncpu_max else 1))
    × (t.bootcpu ≡ min (boot_place found_entries 0 0) ncpu_max)
    × ((i : ℕ) → i < min (processors found_entries) ncpu_max → t.cpu_id i ≡ i)
    × (t.cpu_status ≡ set_at cleared.cpu_status t.bootcpu cpu_started)
    × (t.ismp ≡ all_known found_entries)
    × (t.lapicaddr ≡ (if all_known found_entries then conf_lapicaddr bios 0x9F000 else 0))
mp_init_lem_example =
    mp_init_lem 0x1000 0x1000 0x1004 bios cleared 0x9FC00 0x9F000 found_entries bios_found refl
      found_entries-Lies refl

-- Behind the last CPU of the array: nine processors, of which the last boots.
abbrev nine : List Entry
nine =
    processor false
    ∷ processor false
    ∷ processor false
    ∷ processor false
    ∷ processor false
    ∷ processor false
    ∷ processor false
    ∷ processor false
    ∷ processor true
    ∷ []

nine_boot : min (boot_place nine 0 0) ncpu_max ≡ 8
nine_boot = refl
