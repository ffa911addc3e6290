-- ===== src/Console/Screen.antt =====
-- The text screen stays in its bounds.
use homework_of_operating_sy.Base.{
  ℕ, zero, suc, ◌%◌, ◌^◌, ◌<◌, ◌≤◌, ◌≡◌, Bool-cases, inl, inr, ◌==◌, arith,
}
use homework_of_operating_sy.Console.{
  Crt, crt_size, scroll, put_plain, put_one, blanks, cga_putc, with_csa, coloured,
}

-- The position is on the screen, and the memory behind the screen is as in `b`.
abbrev pub Bounded : (ℕ → ℕ) → Crt → Type 0
Bounded b s = (s.crt_pos < crt_size) × ((i : ℕ) → crt_size ≤ i → s.crt_buf i ≡ b i)

plain_lem : (b : ℕ → ℕ) (c : ℕ) (s : Crt) → Bounded b s → Bounded b (scroll (put_plain c s))
unfolding scroll put_plain
plain_lem b c s (p, m) = (ground arith, λ i h. ground (arith, m i h))

with_csa-Bounded : (b : ℕ → ℕ) (s : Crt) → Bounded b s → Bounded b (with_csa s)
with_csa-Bounded b s h = elim (Bool-cases (s.csa == 0)) [ inl e ↦ rw e h | inr e ↦ rw e h ]

one_lem : (b : ℕ → ℕ) (c : ℕ) (s : Crt) → Bounded b s → Bounded b (put_one c s)
unfolding put_one
one_lem b c s h = plain_lem b (coloured c (with_csa s)) (with_csa s) (with_csa-Bounded b s h)

blanks_lem : (b : ℕ → ℕ) (n : ℕ) (s : Crt) → Bounded b s → Bounded b (blanks n s)
unfolding blanks
blanks_lem b zero s h = h
blanks_lem b (suc n) s h = blanks_lem b n (put_one 32 s) (one_lem b 32 s h)

scroll_lem : (b : ℕ → ℕ) (s : Crt) → Bounded b s → Bounded b (scroll s)
unfolding scroll
scroll_lem b s (p, m) = (ground arith, λ i h. ground (arith, m i h))

-- cga_putc of any character keeps the position on the screen and writes nothing behind the screen.
pub cga_putc-Bounded : (b : ℕ → ℕ) (c : ℕ) (s : Crt) → Bounded b s → Bounded b (cga_putc c s)
unfolding cga_putc
cga_putc-Bounded b c s h = elim (Bool-cases (c % 2 ^ 8 == 9)) [
  | inr other ↦ rw other (one_lem b c s h)
  | inl tab ↦
      rw tab (
        scroll_lem b (blanks 5 (with_csa s)) (blanks_lem b 5 (with_csa s) (with_csa-Bounded b s h)))
]
