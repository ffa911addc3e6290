-- ===== src/Strings/Length.antt =====
-- strlen and strcat on strings: where the null byte is decides both.
use homework_of_operating_sy.Base.{ℕ, zero, suc, ◌+◌, ◌<◌, ◌≡◌, ◌≢◌, some, ◌==◌, false, arith}
use homework_of_operating_sy.Strings.{Bytes, strlen}

-- A string of length `n` at `s`
abbrev pub StringAt : Bytes → ℕ → ℕ → Type 0
StringAt m s n = (m (s + n) ≡ 0) × ((i : ℕ) → i < n → m (s + i) ≢ 0)

-- The string less its first byte
StringAt-tail : (m : Bytes) (s n : ℕ) → StringAt m s (suc n) → StringAt m (s + 1) n
StringAt-tail m s n (z, nz) =
    let e : s + 1 + n ≡ s + suc n = omega arith in
    (
      rw e z,
      λ i h.
          (let e' : s + 1 + i ≡ s + (i + 1) = omega arith in rw e' (nz (i + 1) (omega (arith, h)))),
    )

-- strlen of a string terminates, in as many rounds as the string has bytes with its null byte, and
-- returns the number of bytes before the null byte.
strlen_lem : (n fuel s : ℕ) (m : Bytes) → StringAt m s n → n < fuel → strlen fuel m s ≡ some n
unfolding strlen
strlen_lem n zero s m h l = absurd (omega arith)
strlen_lem zero (suc fuel) s m h l = ground (arith, h.0)
strlen_lem (suc n) (suc fuel) s m h l =
    let rest = strlen_lem n fuel (s + 1) m (StringAt-tail m s n h) (omega arith) in
    let first : (m s == 0) ≡ false = ground (arith, h.1 0) in rw (first, rest) (ground arith)
