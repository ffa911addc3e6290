-- ===== src/MpConfig/Init.antt =====
-- What mp_init makes of the entries of a table.
use homework_of_operating_sy.Base.{
  ℕ, suc, ◌+◌, ◌≤◌, ◌<◌, ◌≡◌, refl, ap, Bool, true, false, some, List, [], ◌∷◌, leb, ◌==◌,
  if◌then◌else◌, arith, length,
}
use Prim.Native.Nat.{min}
use mathlib.Core.Path.{subst}
use homework_of_operating_sy.Strings.{Bytes}
use homework_of_operating_sy.MpConfig.{
  Cpus, ncpu_max, mpproc_size, boots, set_at, add_cpu, read_entries, settle, cpu_started,
  conf_entries, conf_entry, conf_lapicaddr, mpconfig, mp_init,
}

-- The entries of a table: a processor, with its flag for the one that boots, a bus, an interrupt controller or a line, or one
-- of a type that the code does not know.
pub data Entry : Type 0 where
  processor : Bool → Entry
  device strange : Entry

-- The entries that lie at `p` in memory, one behind the other; behind a strange one there may be any.
pub data Lies (m : Bytes) : ℕ → List Entry → Type 0 where
  nothing : {p : ℕ} → Lies m p []
  a_processor :
      {p : ℕ} {f : Bool} {es : List Entry}
      → m p ≡ 0
      → boots m p ≡ f
      → Lies m (p + mpproc_size) es
      → Lies m p (processor f ∷ es)
  a_device :
      {p : ℕ} {es : List Entry} → 1 ≤ m p → m p ≤ 4 → Lies m (p + 8) es → Lies m p (device ∷ es)
  a_strange : {p : ℕ} {es : List Entry} → 4 < m p → Lies m p (strange ∷ es)

-- No entry is strange.
abbrev pub all_known : List Entry → Bool
all_known [] = true
all_known (processor b ∷ es) = all_known es
all_known (device ∷ es) = all_known es
all_known (strange ∷ es) = false

-- The number of processors, as far as the entries are known.

abbrev pub processors : List Entry → ℕ
processors [] = 0
processors (processor b ∷ es) = suc (processors es)
processors (device ∷ es) = processors es
processors (strange ∷ es) = 0

-- The place among those of the last one with the flag, where `n` processors have been before and `b` is the place so far.
abbrev pub boot_place : List Entry → ℕ → ℕ → ℕ
boot_place [] n b = b
boot_place (processor true ∷ es) n b = boot_place es (n + 1) n
boot_place (processor false ∷ es) n b = boot_place es (n + 1) b
boot_place (device ∷ es) n b = boot_place es n b
boot_place (strange ∷ es) n b = b

-- After `n` processors, the last of which with the flag had place `b`, beside the fields of `s` that the loop does not set;
-- `g` says that no entry was strange.
record Counted (s : Cpus) (n b : ℕ) (g : Bool) (t : Cpus) : Type 0 where
  number : t.ncpu ≡ min n ncpu_max
  boot : t.bootcpu ≡ min b ncpu_max
  ids : (i : ℕ) → i < t.ncpu → t.cpu_id i ≡ i
  status : t.cpu_status ≡ s.cpu_status
  lapic : t.lapicaddr ≡ s.lapicaddr
  found : t.ismp ≡ g

count_cpu :
    (m : Bytes) (p n b : ℕ) (s t : Cpus) (f : Bool)
    → boots m p ≡ f
    → b ≤ n
    → Counted s n b true t
    → Counted s (n + 1) (if f then n else b) true (add_cpu m p t)
count_cpu m p n b s t f e h c = record {
  number = ground (arith, c.number);
  boot = ground (arith, e, c.number, c.boot);
  ids = λ i g. ground (arith, c.number, c.ids i, g);
  status = c.status;
  lapic = c.lapic;
  found = c.found;
}

boot_place-processor :
    (f : Bool) (es : List Entry) (n b : ℕ)
    → boot_place (processor f ∷ es) n b ≡ boot_place es (n + 1) (if f then n else b)
boot_place-processor true es n b = refl
boot_place-processor false es n b = refl

-- The loop, up to an entry that the code does not know.
counted :
    (m : Bytes) (p n b : ℕ) (s t : Cpus) (es : List Entry)
    → b ≤ n
    → Lies m p es
    → Counted s n b true t
    → Counted s
        (n + processors es)
        (boot_place es n b)
        (all_known es)
        (read_entries m p (length es) t)
unfolding read_entries
counted m p n b s t [] h nothing c =
    let same : n ≡ n + 0 = omega arith in subst (λ (x : ℕ). Counted s x b true t) same c
counted m p n b s t (processor f ∷ es) h (a_processor e flag l) c =
    let zeroth : (m p == 0) ≡ true = ground (arith, e) in
    let place : (if f then n else b) ≤ n + 1 = ground (arith, h) in
    let rest =
      counted m (p + mpproc_size) (n + 1) (if f then n else b) s (add_cpu m p t) es place l
        (count_cpu m p n b s t f flag h c) in
    let more : n + 1 + processors es ≡ n + suc (processors es) = omega arith in
    rw (read_entries, zeroth, ← more, boot_place-processor f es n b) rest
counted m p n b s t (device ∷ es) h (a_device e g l) c =
    let not_zero : (m p == 0) ≡ false = ground (arith, e) in
    let known : leb (m p) 4 ≡ true = ground (arith, g) in
    rw (read_entries, not_zero, known) (counted m (p + 8) n b s t es h l c)
counted m p n b s t (strange ∷ es) h (a_strange e) c =
    let not_zero : (m p == 0) ≡ false = ground (arith, e) in
    let unknown : leb (m p) 4 ≡ false = ground (arith, e) in
    let same : n ≡ n + 0 = omega arith in
    rw (read_entries, not_zero, unknown)
      (subst (λ (x : ℕ). Counted s x b false (record t { ismp = false })) same
        (record {
          number = c.number;
          boot = c.boot;
          ids = c.ids;
          status = c.status;
          lapic = c.lapic;
          found = refl;
        }))

-- Where mpconfig finds a table and `es` are its entries: mp_init starts the boot CPU, whose index is the place of the last
-- processor with the boot flag before any strange entry, but NCPU where that place is NCPU or more, and gives each processor
-- before any strange entry its own number. If no entry is strange, there are as many CPUs as
-- processors, but NCPU at most; otherwise there is one CPU, and no local APIC.
pub mp_init_lem :
    (npages mp_text pcmp_text : ℕ) (m : Bytes) (s : Cpus) (mp conf : ℕ) (es : List Entry)
    → mpconfig npages mp_text pcmp_text m ≡ some (some (mp, conf))
    → conf_entry m conf ≡ length es
    → Lies m (conf_entries m conf) es
    → s.ncpu ≡ 0
    → (t : Cpus) × (mp_init npages mp_text pcmp_text m s ≡ some t)
      × (t.ncpu ≡ (if all_known es then min (processors es) ncpu_max else 1))
      × (t.bootcpu ≡ min (boot_place es 0 0) ncpu_max)
      × ((i : ℕ) → i < min (processors es) ncpu_max → t.cpu_id i ≡ i)
      × (t.cpu_status ≡ set_at s.cpu_status t.bootcpu cpu_started)
      × (t.ismp ≡ all_known es)
      × (t.lapicaddr ≡ (if all_known es then conf_lapicaddr m conf else 0))
unfolding mp_init
mp_init_lem npages mp_text pcmp_text m s mp conf es found count lies start =
    let s' : Cpus = record s { bootcpu = 0; ismp = true; lapicaddr = conf_lapicaddr m conf } in
    let begin : Counted s' 0 0 true s' = record {
      number = start;
      boot = refl;
      ids = λ i g. absurd (omega (arith, start, g));
      status = refl;
      lapic = refl;
      found = refl;
    } in
    let r = read_entries m (conf_entries m conf) (length es) s' in
    let c : Counted s' (0 + processors es) (boot_place es 0 0) (all_known es) r =
      counted m (conf_entries m conf) 0 0 s' s' es (omega arith) lies begin in
    (
      settle m mp r,
      rw (mp_init, found, count) refl,
      ground (arith, c.number, c.found),
      c.boot,
      (λ i h. c.ids i (omega (arith, c.number, h))),
      ap (λ (f : ℕ → ℕ). set_at f r.bootcpu cpu_started) c.status,
      c.found,
      ground (arith, c.lapic, c.found),
    )
