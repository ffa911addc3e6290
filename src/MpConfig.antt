-- ===== src/MpConfig.antt =====
-- The multiprocessor configuration table of the BIOS, OSLab7-Mitjoslab4/kern/mpconfig.c. `m` is physical memory by
-- bytes, and a pointer is its address less KERNBASE. The text that the code prints is left out.
pub mod Search
pub mod Init
mod Tests
use homework_of_operating_sy.Base.{
  ℕ, zero, suc, ◌+◌, ◌-◌, ◌*◌, ◌%◌, ◌^◌, Bool, true, false, ◌&&◌, ◌||◌, bit_and, Option, none, some,
  ltb, leb, ◌==◌, ◌!=◌, if◌then◌else◌,
}
use homework_of_operating_sy.Mmu.{pgnum}
use homework_of_operating_sy.Strings.{Bytes, memcmp}
use homework_of_operating_sy.Elf.{half_at, word_at}

abbrev pub ncpu_max : ℕ
ncpu_max = 8

-- `struct mp`, `struct mpconf` and `struct mpproc` at `a`
module _ (m : Bytes) (a : ℕ) where
  abbrev pub mp_physaddr : ℕ
  mp_physaddr = word_at m (a + 4)

  abbrev pub mp_type : ℕ
  mp_type = m (a + 11)

  abbrev pub mp_imcrp : ℕ
  mp_imcrp = m (a + 12)

  abbrev pub conf_length : ℕ
  conf_length = half_at m (a + 4)

  abbrev pub conf_version : ℕ
  conf_version = m (a + 6)

  abbrev pub conf_entry : ℕ
  conf_entry = half_at m (a + 34)

  abbrev pub conf_lapicaddr : ℕ
  conf_lapicaddr = word_at m (a + 36)

  abbrev pub conf_xlength : ℕ
  conf_xlength = half_at m (a + 40)

  abbrev pub conf_xchecksum : ℕ
  conf_xchecksum = m (a + 42)

  abbrev pub conf_entries : ℕ
  conf_entries = a + 44

  abbrev pub proc_flags : ℕ
  proc_flags = m (a + 3)

abbrev pub mp_size : ℕ
mp_size = 16

abbrev pub mpproc_size : ℕ
mpproc_size = 20

abbrev pub mpproc_boot : ℕ
mpproc_boot = 0x02

-- The loop of sum
unfoldable pub add_bytes : Bytes → ℕ → ℕ → ℕ → ℕ
add_bytes m a zero total = total
add_bytes m a (suc n) total = add_bytes m (a + 1) n ((total + m a) % 2 ^ 32)

unfoldable pub sum : Bytes → ℕ → ℕ → ℕ
unfolding add_bytes
sum m addr len = add_bytes m addr len 0 % 2 ^ 8

-- The state that mp_init sets, with `cpus` by the fields of its elements; `imcr` is the switch of the interrupts.
pub record Cpus : Type 0 where
  pub cpu_id : ℕ → ℕ
  pub cpu_status : ℕ → ℕ
  pub bootcpu : ℕ
  pub ismp : Bool
  pub ncpu : ℕ
  pub lapicaddr : ℕ
  pub imcr : Bool

abbrev pub cpu_started : ℕ
cpu_started = 1

abbrev pub set_at : (ℕ → ℕ) → ℕ → ℕ → ℕ → ℕ
set_at f i v j = if j == i then v else f j

-- `npages` bounds the memory that KADDR takes, beyond which it panics (`none`); the texts "_MP_" and "PCMP" lie at
-- `mp_text` and `pcmp_text`.
module _ (npages mp_text pcmp_text : ℕ) where
  abbrev pub checked_kaddr : ℕ → Option ℕ
  checked_kaddr pa = if leb npages (pgnum pa) then none else some pa

  abbrev pub is_mp : Bytes → ℕ → Bool
  is_mp m mp = memcmp m mp mp_text 4 == 0 && sum m mp mp_size == 0

  -- The loop of mpsearch1, with a bound on its rounds
  unfoldable pub search_slots : ℕ → Bytes → ℕ → ℕ → Option ℕ
  search_slots zero m mp end_ = none
  search_slots (suc rounds) m mp end_ =
      let rest = search_slots rounds m (mp + mp_size) end_ in
      if ltb mp end_ then (if is_mp m mp then some mp else rest) else none

  unfoldable pub mpsearch1 : Bytes → ℕ → ℕ → Option (Option ℕ)
  unfolding search_slots
  mpsearch1 m a len = elim (checked_kaddr a) [
    | none ↦ none
    | some mp ↦ elim (checked_kaddr ((a + len) % 2 ^ 32)) [
      | none ↦ none
      | some end_ ↦ some (search_slots len m mp end_)
    ]
  ]

  -- What a search has found, or else what the next one finds
  abbrev pub or_else : Option (Option ℕ) → Option (Option ℕ) → Option (Option ℕ)
  or_else none next = none
  or_else (some none) next = next
  or_else (some (some mp)) next = some (some mp)

  unfoldable pub mpsearch : Bytes → Option (Option ℕ)
  unfolding mpsearch1
  mpsearch m = elim (checked_kaddr 0x400) [
    | none ↦ none
    | some bda ↦
        let p = half_at m (bda + 0x0E) in
        or_else
          (if p != 0
            then mpsearch1 m (p * 16) 1024
            else mpsearch1 m ((half_at m (bda + 0x13) * 1024 + 2 ^ 32 - 1024) % 2 ^ 32) 1024)
          (mpsearch1 m 0xF0000 0x10000)
  ]

  -- The tests of mpconfig on a table at `conf`
  abbrev pub good_table : Bytes → ℕ → Bool
  good_table m conf =
      memcmp m conf pcmp_text 4 == 0
      && sum m conf (conf_length m conf) == 0
      && (conf_version m conf == 1 || conf_version m conf == 4)
      && sum m (conf + conf_length m conf) (conf_xlength m conf) == conf_xchecksum m conf

  -- The structure and the table, where both are found
  unfoldable pub mpconfig : Bytes → Option (Option (ℕ × ℕ))
  unfolding mpsearch
  mpconfig m = elim (mpsearch m) [
    | none ↦ none
    | some none ↦ some none
    | some (some mp) ↦
        if mp_physaddr m mp == 0 || mp_type m mp != 0
        then some none
        else elim (checked_kaddr (mp_physaddr m mp)) [
          | none ↦ none
          | some conf ↦ some (if good_table m conf then some (mp, conf) else none)
        ]
  ]

abbrev pub boots : Bytes → ℕ → Bool
boots m p = bit_and (proc_flags m p) mpproc_boot != 0

-- The case of a processor
abbrev pub add_cpu : Bytes → ℕ → Cpus → Cpus
add_cpu m p s = record s {
  bootcpu = if boots m p then s.ncpu else s.bootcpu;
  cpu_id = if ltb s.ncpu ncpu_max then set_at s.cpu_id s.ncpu s.ncpu else s.cpu_id;
  ncpu = if ltb s.ncpu ncpu_max then s.ncpu + 1 else s.ncpu;
}

-- The loop of mp_init, over the `n` entries that are left
unfoldable pub read_entries : Bytes → ℕ → ℕ → Cpus → Cpus
read_entries m p zero s = s
read_entries m p (suc n) s =
    let next_cpu = read_entries m (p + mpproc_size) n (add_cpu m p s) in
    let next = read_entries m (p + 8) n s in
    if m p == 0 then next_cpu else if leb (m p) 4 then next else record s { ismp = false }

-- What follows the loop
abbrev pub settle : Bytes → ℕ → Cpus → Cpus
settle m mp s = record s {
  cpu_status = set_at s.cpu_status s.bootcpu cpu_started;
  ncpu = if s.ismp then s.ncpu else 1;
  lapicaddr = if s.ismp then s.lapicaddr else 0;
  imcr = s.imcr || (s.ismp && mp_imcrp m mp != 0);
}

unfoldable pub mp_init : ℕ → ℕ → ℕ → Bytes → Cpus → Option Cpus
unfolding mpconfig read_entries
mp_init npages mp_text pcmp_text m s = elim (mpconfig npages mp_text pcmp_text m) [
  | none ↦ none
  | some none ↦ some (record s { bootcpu = 0 })
  | some (some (mp, conf)) ↦ some (
      settle m mp (
        read_entries m (conf_entries m conf) (conf_entry m conf)
          (record s { bootcpu = 0; ismp = true; lapicaddr = conf_lapicaddr m conf })))
]
