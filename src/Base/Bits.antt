-- ===== src/Base/Bits.antt =====
-- Laws of `bit_and` and `bit_or` at variables, from the digits that the native operations stand for.
-- `digit k a` is bit k of a, `shift k a` is a >> k; both halve k times, so they compute at a numeral.
use Prim.Native.Nat.{
  ℕ, zero, suc, ◌+◌, ◌*◌, ◌/◌, ◌%◌, ◌≤◌, ◌<◌, min, max, bit_and, bit_or, digits, bit_and-bitwise,
  bit_or-bitwise,
}
use mathlib.Core.Path.{◌≡◌, refl, ap}
use native.Mathlib.Omega.{arith}

-- Rounds beyond the number's own size change nothing.
spare_rounds :
    (c d rounds more : ℕ) (on_zero : ℕ → ℕ) (merge : ℕ → ℕ → ℕ)
    → c ≤ rounds
    → rounds ≤ more
    → digits on_zero merge more c d ≡ digits on_zero merge rounds c d
spare_rounds zero d zero zero on_zero merge h g = refl
spare_rounds zero d zero (suc more) on_zero merge h g = refl
spare_rounds zero d (suc rounds) zero on_zero merge h g = refl
spare_rounds zero d (suc rounds) (suc more) on_zero merge h g = refl
spare_rounds (suc c) d zero more on_zero merge h g = absurd (omega arith)
spare_rounds (suc c) d (suc rounds) zero on_zero merge h g = absurd (omega arith)
spare_rounds (suc c) d (suc rounds) (suc more) on_zero merge h g =
    let e =
      spare_rounds (suc c / 2) (d / 2) rounds more on_zero merge (omega arith) (omega arith) in
    omega (arith, e)

bit_and-left_zero : (b : ℕ) → bit_and 0 b ≡ 0
bit_and-left_zero b = bit_and-bitwise 0 b

pub bit_or-left_zero : (b : ℕ) → bit_or 0 b ≡ b
bit_or-left_zero b = bit_or-bitwise 0 b

-- The lowest digit, and the halves.
pub bit_and-halves : (c d : ℕ) → min (c % 2) (d % 2) + 2 * bit_and (c / 2) (d / 2) ≡ bit_and c d
bit_and-halves zero d = omega (arith, bit_and-left_zero (d / 2), bit_and-left_zero d)
bit_and-halves (suc c) d =
    let whole = bit_and-bitwise (suc c) d in
    let upper = bit_and-bitwise (suc c / 2) (d / 2) in
    omega (
      arith,
      whole,
      upper,
      spare_rounds (suc c / 2) (d / 2) (suc c / 2) c (λ y. 0) min (omega arith) (omega arith),
    )

pub bit_or-halves : (c d : ℕ) → max (c % 2) (d % 2) + 2 * bit_or (c / 2) (d / 2) ≡ bit_or c d
bit_or-halves zero d = omega (arith, bit_or-left_zero (d / 2), bit_or-left_zero d)
bit_or-halves (suc c) d =
    let whole = bit_or-bitwise (suc c) d in
    let upper = bit_or-bitwise (suc c / 2) (d / 2) in
    omega (
      arith,
      whole,
      upper,
      spare_rounds (suc c / 2) (d / 2) (suc c / 2) c (λ y. y) max (omega arith) (omega arith),
    )

pub bit_and-half : (a b : ℕ) → bit_and a b / 2 ≡ bit_and (a / 2) (b / 2)
bit_and-half a b = omega (arith, bit_and-halves a b)

pub bit_or-half : (a b : ℕ) → bit_or a b / 2 ≡ bit_or (a / 2) (b / 2)
bit_or-half a b = omega (arith, bit_or-halves a b)

-- A mask of zero, by recursion on a bound on the number.
masked_out : (c bound : ℕ) → c ≤ bound → bit_and c 0 ≡ 0
masked_out zero bound h = bit_and-left_zero 0
masked_out (suc c) zero h = absurd (omega arith)
masked_out (suc c) (suc bound) h =
    let upper = masked_out (suc c / 2) bound (omega arith) in
    omega (arith, upper, bit_and-halves (suc c) 0)

pub bit_and-zero : (c : ℕ) → bit_and c 0 ≡ 0
bit_and-zero c = masked_out c c (omega arith)

nothing_set : (c bound : ℕ) → c ≤ bound → bit_or c 0 ≡ c
nothing_set zero bound h = bit_or-left_zero 0
nothing_set (suc c) zero h = absurd (omega arith)
nothing_set (suc c) (suc bound) h =
    let upper = nothing_set (suc c / 2) bound (omega arith) in
    omega (arith, upper, bit_or-halves (suc c) 0)

pub bit_or-zero : (c : ℕ) → bit_or c 0 ≡ c
bit_or-zero c = nothing_set c c (omega arith)

unfoldable pub digit : ℕ → ℕ → ℕ
digit zero a = a % 2
digit (suc k) a = digit k (a / 2)

unfoldable pub shift : ℕ → ℕ → ℕ
shift zero a = a
shift (suc k) a = shift k (a / 2)

-- Bit k of `a & b` is set when both are.
pub digit-bit_and : (k a b : ℕ) → digit k (bit_and a b) ≡ min (digit k a) (digit k b)
unfolding digit
digit-bit_and zero a b = omega (arith, bit_and-halves a b)
digit-bit_and (suc k) a b = rw (bit_and-half a b) (digit-bit_and k (a / 2) (b / 2))

-- Bit k of `a | b` is set when one is.
pub digit-bit_or : (k a b : ℕ) → digit k (bit_or a b) ≡ max (digit k a) (digit k b)
unfolding digit
digit-bit_or zero a b = omega (arith, bit_or-halves a b)
digit-bit_or (suc k) a b = rw (bit_or-half a b) (digit-bit_or k (a / 2) (b / 2))

pub shift-bit_or : (k a b : ℕ) → shift k (bit_or a b) ≡ bit_or (shift k a) (shift k b)
unfolding shift
shift-bit_or zero a b = refl
shift-bit_or (suc k) a b = rw (bit_or-half a b) (shift-bit_or k (a / 2) (b / 2))

pub digit-le : (k a : ℕ) → digit k a ≤ 1
unfolding digit
digit-le zero a = omega arith
digit-le (suc k) a = digit-le k (a / 2)

-- The masks of one bit that the page table code tests.
pub bit_and-one : (a : ℕ) → bit_and a 1 ≡ digit 0 a
unfolding digit
bit_and-one a = omega (arith, bit_and-halves a 1, bit_and-zero (a / 2))

pub bit_and_two : (a : ℕ) → bit_and a 2 ≡ 2 * digit 1 a
unfolding digit
bit_and_two a =
    omega (arith, bit_and-halves a 2, bit_and-halves (a / 2) 1, bit_and-zero (a / 2 / 2))

pub bit_and_four : (a : ℕ) → bit_and a 4 ≡ 4 * digit 2 a
unfolding digit
bit_and_four a = omega (
  arith,
  bit_and-halves a 4,
  bit_and-halves (a / 2) 2,
  bit_and-halves (a / 2 / 2) 1,
  bit_and-zero (a / 2 / 2 / 2),
)

pub bit_and_five : (a : ℕ) → bit_and a 5 ≡ 4 * digit 2 a + digit 0 a
unfolding digit
bit_and_five a = omega (
  arith,
  bit_and-halves a 5,
  bit_and-halves (a / 2) 2,
  bit_and-halves (a / 2 / 2) 1,
  bit_and-zero (a / 2 / 2 / 2),
)

-- A page address has no bit among the low twelve, and a permission none above them.
pub shift-mul : (f : ℕ) → shift 12 (f * 4096) ≡ f
unfolding shift
shift-mul f = omega arith

pub shift-small : (p : ℕ) → p < 4096 → shift 12 p ≡ 0
unfolding shift
shift-small p h = omega arith

pub shift-div : (a : ℕ) → shift 12 a ≡ a / 4096
unfolding shift
shift-div a = omega arith

-- The frame number of `page2pa(f) | p` is f.
pub frame-bit_or : (a p : ℕ) → p < 4096 → bit_or a p / 4096 ≡ a / 4096
frame-bit_or a p h =
    let e : bit_or (shift 12 a) (shift 12 p) ≡ shift 12 a =
      rw (shift-small p h) (bit_or-zero (shift 12 a)) in
    omega (arith, shift-bit_or 12 a p, shift-div (bit_or a p), shift-div a, e)

pub shl : ℕ → ℕ → ℕ
shl zero q = q
shl (suc k) q = 2 * shl k q

bit_or_fields : (k q r : ℕ) → shift k r ≡ 0 → bit_or (shl k q) r ≡ shl k q + r
unfolding shl shift
bit_or_fields zero q r h = omega (arith, bit_or-zero q, ap (λ (t : ℕ). bit_or q t) h)
bit_or_fields (suc k) q r h = omega (
  arith,
  bit_or-halves (2 * shl k q) r,
  bit_or_fields k q (r / 2) h,
  ap (λ (t : ℕ). bit_or t (r / 2)) (half (shl k q)),
)
  where
    half : (s : ℕ) → 2 * s / 2 ≡ s
    half s = omega arith

-- `|` of a number below 1024 and a multiple of 1024 is their sum.
pub bit_or_index : (g j : ℕ) → g % 1024 ≡ 0 → j < 1024 → bit_or g j ≡ g + j
unfolding shl shift
bit_or_index g j h l =
    let e : shl 10 (g / 1024) ≡ g = omega arith in
    let z : shift 10 j ≡ 0 = omega arith in rw (← e) (bit_or_fields 10 (g / 1024) j z)
