-- ===== src/Boot/File.antt =====
-- The kernel's file on the disk: its header, and the segments that bootmain loads from it.
use homework_of_operating_sy.Base.{
  ℕ, zero, suc, ◌+◌, ◌-◌, ◌*◌, ◌/◌, ◌%◌, ◌^◌, ◌<◌, ◌≤◌, ◌≡◌, ◌⊎◌, inl, inr, ap, sym, ◌∙◌, arith,
}
use mathlib.Core.Path.{subst}
use homework_of_operating_sy.Strings.{Bytes}
use homework_of_operating_sy.Elf.{half_at, word_at, p_pa, p_memsz, p_offset, proghdr_size}
use homework_of_operating_sy.Boot.{sectsize, elfhdr}

-- The kernel's file, which starts in sector 1 of the disk.
abbrev pub file : Bytes → Bytes
file image x = image (sectsize + x)

-- Outside the sectors that readseg fills for the segment whose header is at `a` in the file
abbrev pub Outside : Bytes → ℕ → ℕ → Type 0
Outside f a x = (x < p_pa f a - p_pa f a % sectsize) ⊎ (p_pa f a + p_memsz f a + sectsize ≤ x)

-- A segment that readseg can load: below 4 GB, with the same place in its sector in memory and in the file, and away
-- from the 4096 bytes at ELFHDR.
pub record Fits (f : Bytes) (fuel a : ℕ) : Type 0 where
  pub inside : p_pa f a + p_memsz f a + sectsize < 2 ^ 32
  pub in_file : p_offset f a + p_memsz f a + 3 * sectsize < 2 ^ 32
  pub aligned : p_pa f a % sectsize ≡ p_offset f a % sectsize
  pub rounds : p_memsz f a / sectsize + 2 < fuel
  pub clear :
      (p_pa f a + p_memsz f a + sectsize ≤ elfhdr)
      ⊎ (elfhdr + 4096 ≤ p_pa f a - p_pa f a % sectsize)

-- The bytes of the segment at `a` keep their values when the one at `b` is loaded behind it.
abbrev pub Apart : Bytes → ℕ → ℕ → Type 0
Apart f a b = (i : ℕ) → i < p_memsz f a → Outside f b (p_pa f a + i)

-- The segment at `a` is in memory as it is in the file.
abbrev pub InMemory : Bytes → Bytes → ℕ → Type 0
InMemory m f a = (i : ℕ) → i < p_memsz f a → m (p_pa f a + i) ≡ f (p_offset f a + i)

abbrev pub Header : Bytes → Bytes → Type 0
Header m f = (x : ℕ) → x < 4096 → m (elfhdr + x) ≡ f x

pub word_same :
    (m f : Bytes) (x : ℕ) → Header m f → x + 4 ≤ 4096 → word_at m (elfhdr + x) ≡ word_at f x
word_same m f x h g =
    let third : elfhdr + x + 2 + 1 ≡ elfhdr + x + 3 = omega arith in
    let third_f : x + 2 + 1 ≡ x + 3 = omega arith in
    omega (
      arith,
      h x (omega (arith, g)),
      next 1 (omega arith),
      next 2 (omega arith),
      next 3 (omega arith),
      ap m third,
      ap f third_f,
    )
  where
    next : (i : ℕ) → i < 4 → m (elfhdr + x + i) ≡ f (x + i)
    next i l =
        let e : elfhdr + x + i ≡ elfhdr + (x + i) = omega arith in
        ap m e ∙ h (x + i) (omega (arith, l, g))

-- A field at `c` of the record at `o`.
pub field_same :
    (m f : Bytes) (o c : ℕ)
    → Header m f
    → o + c + 4 ≤ 4096
    → word_at m (elfhdr + o + c) ≡ word_at f (o + c)
field_same m f o c h g =
    let e : elfhdr + o + c ≡ elfhdr + (o + c) = omega arith in
    ap (word_at m) e ∙ word_same m f (o + c) h g

-- The header of the file lies outside the sectors of a segment that fits.
pub away : (f : Bytes) (fuel a x : ℕ) → Fits f fuel a → x < 4096 → Outside f a (elfhdr + x)
away f fuel a x fits h = elim fits.clear [
  | inl below ↦ inr (omega (arith, below))
  | inr above ↦ inl (omega (arith, above, h))
]

pub half_same : (m f : Bytes) → Header m f → half_at m (elfhdr + 44) ≡ half_at f 44
half_same m f h = omega (arith, h 44 (omega arith), h 45 (omega arith))

-- Segment `i` of those behind the header at `o`.
abbrev pub header_at : ℕ → ℕ → ℕ
header_at o i = o + proghdr_size * i

first_header : (o : ℕ) → header_at o 0 ≡ o
first_header o = omega arith

next_header : (o i : ℕ) → header_at (o + proghdr_size) i ≡ header_at o (suc i)
next_header o i = omega arith

-- What holds at the first header and at the ones behind it, and back.
pub at_headers :
    (P : ℕ → Type 0) (o n : ℕ)
    → P o
    → ((i : ℕ) → i < n → P (header_at (o + proghdr_size) i))
    → (i : ℕ) → i < suc n
    → P (header_at o i)
at_headers P o n p next zero h = subst P (sym (first_header o)) p
at_headers P o n p next (suc i) h = subst P (next_header o i) (next i (omega (arith, h)))

pub behind_first :
    (P : ℕ → Type 0) (o n : ℕ)
    → ((i : ℕ) → i < suc n → P (header_at o i))
    → (i : ℕ) → i < n
    → P (header_at (o + proghdr_size) i)
behind_first P o n p i h = subst P (sym (next_header o i)) (p (suc i) (omega (arith, h)))

pub at_first : (P : ℕ → Type 0) (o n : ℕ) → ((i : ℕ) → i < suc n → P (header_at o i)) → P o
at_first P o n p = subst P (first_header o) (p 0 (omega arith))

-- What holds of every two headers, at the first one and one behind it, and at two behind it.
pub at_first_pair :
    (R : ℕ → ℕ → Type 0) (o n : ℕ)
    → ((i j : ℕ) → i < j → j < suc n → R (header_at o i) (header_at o j))
    → (i : ℕ) → i < n
    → R o (header_at (o + proghdr_size) i)
at_first_pair R o n r i h =
    let pair = r 0 (suc i) (omega arith) (omega (arith, h)) in
    subst (R o) (sym (next_header o i))
      (subst (λ (a : ℕ). R a (header_at o (suc i))) (first_header o) pair)

pub behind_first_pair :
    (R : ℕ → ℕ → Type 0) (o n : ℕ)
    → ((i j : ℕ) → i < j → j < suc n → R (header_at o i) (header_at o j))
    → (i j : ℕ) → i < j
    → j < n
    → R (header_at (o + proghdr_size) i) (header_at (o + proghdr_size) j)
behind_first_pair R o n r i j l h =
    let pair = r (suc i) (suc j) (omega (arith, l)) (omega (arith, h)) in
    subst (R (header_at (o + proghdr_size) i)) (sym (next_header o j))
      (subst (λ (a : ℕ). R a (header_at o (suc j))) (sym (next_header o i)) pair)
