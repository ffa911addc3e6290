-- ===== src/MpConfig/Search.antt =====
-- The search for the floating pointer structure.
use homework_of_operating_sy.Base.{
  ℕ, zero, suc, ◌+◌, ◌*◌, ◌%◌, ◌^◌, ◌<◌, ◌≤◌, ◌≡◌, ◌⊎◌, inl, inr, refl, true, false, leb,
  Bool-cases, Option, none, some, ltb, arith,
}
use mathlib.Core.Path.{subst}
use homework_of_operating_sy.Mmu.{pgnum}
use homework_of_operating_sy.Strings.{Bytes, memcmp}
use homework_of_operating_sy.Strings.Copy.{memcmp_lem}
use homework_of_operating_sy.MpConfig.{mp_size, add_bytes, sum, is_mp, search_slots, mpsearch1}

-- The sum of `n` bytes, without a wrap.
unfoldable pub total : Bytes → ℕ → ℕ → ℕ
total m a zero = 0
total m a (suc n) = m a + total m (a + 1) n

-- "_MP_" at `a`
abbrev pub Signed : Bytes → ℕ → Type 0
Signed m a = (m a ≡ 95) × (m (a + 1) ≡ 77) × (m (a + 2) ≡ 80) × (m (a + 3) ≡ 95)

-- A floating pointer structure: its signature, and 16 bytes that add up to 0.
abbrev pub Pointer : Bytes → ℕ → Type 0
Pointer m a = Signed m a × (total m a 16 % 2 ^ 8 ≡ 0)

-- What a search of the slots from `a` to `end_` gives: the first one with a structure, or NULL where there is none.
abbrev pub First : Bytes → ℕ → ℕ → Option ℕ → Type 0
First m a end_ none = (i : ℕ) → a + mp_size * i < end_ → ¬ Pointer m (a + mp_size * i)
First m a end_ (some mp) =
    (i : ℕ) × (mp ≡ a + mp_size * i)
    × (mp < end_)
    × Pointer m mp
    × ((j : ℕ) → j < i → ¬ Pointer m (a + mp_size * j))

add_bytes_lem : (m : Bytes) (a n t : ℕ) → add_bytes m a n t % 2 ^ 8 ≡ (t + total m a n) % 2 ^ 8
unfolding add_bytes total
add_bytes_lem m a zero t = omega arith
add_bytes_lem m a (suc n) t = omega (arith, add_bytes_lem m (a + 1) n ((t + m a) % 2 ^ 32))

pub sum_lem : (m : Bytes) (a n : ℕ) → sum m a n ≡ total m a n % 2 ^ 8
unfolding sum
sum_lem m a n = omega (arith, add_bytes_lem m a n 0)

module _ (m : Bytes) (npages mp_text pcmp_text : ℕ) (small : (a : ℕ) → m a < 256)
    (text : Signed m mp_text) where
  signature : (a : ℕ) → memcmp m a mp_text 4 ≡ 0 → Signed m a
  signature a e =
      let alike = (memcmp_lem m a mp_text 4 small).0 e in
      ground (
        arith,
        alike 0 (omega arith),
        alike 1 (omega arith),
        alike 2 (omega arith),
        alike 3 (omega arith),
        text,
      )

  alike_at : (a i : ℕ) → i < 4 → Signed m a → m (a + i) ≡ m (mp_text + i)
  alike_at a zero h s = ground (arith, s, text)
  alike_at a (suc zero) h s = ground (arith, s, text)
  alike_at a (suc (suc zero)) h s = ground (arith, s, text)
  alike_at a (suc (suc (suc zero))) h s = ground (arith, s, text)
  alike_at a (suc (suc (suc (suc i)))) h s = absurd (omega (arith, h))

  is_mp_lem :
      (a : ℕ)
      → ((is_mp npages mp_text pcmp_text m a ≡ true) × Pointer m a)
        ⊎ ((is_mp npages mp_text pcmp_text m a ≡ false) × (¬ Pointer m a))
  is_mp_lem a =
      let same : Signed m a → memcmp m a mp_text 4 ≡ 0 =
        λ s. (memcmp_lem m a mp_text 4 small).1 (λ i h. alike_at a i h s) in
      ground (arith, signature a, same, sum_lem m a 16)

  -- A slot that holds none, before slots that hold none.
  one_before :
      (a n : ℕ)
      → (¬ Pointer m a)
      → ((j : ℕ) → j < n → ¬ Pointer m (a + mp_size + mp_size * j))
      → (j : ℕ) → j < n + 1
      → ¬ Pointer m (a + mp_size * j)
  one_before a n free f zero h =
      let here : a ≡ a + mp_size * 0 = omega arith in subst (λ (x : ℕ). ¬ Pointer m x) here free
  one_before a n free f (suc j) h =
      let here : a + mp_size + mp_size * j ≡ a + mp_size * suc j = omega arith in
      subst (λ (x : ℕ). ¬ Pointer m x) here (f j (omega (arith, h)))

  after_one :
      (a end_ : ℕ) (r : Option ℕ)
      → a < end_
      → (¬ Pointer m a)
      → First m (a + mp_size) end_ r
      → First m a end_ r
  after_one a end_ none h free f =
      λ i g. one_before a i free (λ j l. f j (omega (arith, l, g))) i (omega arith)
  after_one a end_ (some mp) h free (i, e, g, q, before) =
      (i + 1, omega (arith, e), g, q, one_before a i free before)

  search_slots_lem :
      (rounds a end_ : ℕ)
      → end_ ≤ a + mp_size * rounds
      → First m a end_ (search_slots npages mp_text pcmp_text rounds m a end_)
  unfolding search_slots
  search_slots_lem zero a end_ h = λ i g p. absurd (omega (arith, h, g))
  search_slots_lem (suc n) a end_ h =
      let rest = search_slots_lem n (a + mp_size) end_ (omega (arith, h)) in
      elim (Bool-cases (ltb a end_)) [
        | inr done ↦ rw done (λ i g p. absurd (ground (arith, done, g)))
        | inl more ↦ elim (is_mp_lem a) [
          | inl (yes_, q) ↦
              rw (more, yes_)
                (0, omega arith, ground (arith, more), q, λ j g. absurd (omega (arith, g)))
          | inr (no_, q) ↦
              rw (more, no_)
                (after_one a end_ (search_slots npages mp_text pcmp_text n m (a + mp_size) end_)
                  (ground (arith, more)) q rest)
        ]
      ]

-- In memory that holds the bytes of "_MP_" where the code has that text, and for a range that KADDR takes: mpsearch1
-- returns the first of its slots of 16 bytes with the signature and a sum of 0, and NULL exactly where no slot is such.
pub mpsearch1_lem :
    (m : Bytes) (npages mp_text pcmp_text a len : ℕ)
    → ((a : ℕ) → m a < 256)
    → Signed m mp_text
    → a + len < 2 ^ 32
    → pgnum (a + len) < npages
    → (r : Option ℕ) × (mpsearch1 npages mp_text pcmp_text m a len ≡ some r) × First m a (a + len) r
unfolding mpsearch1
mpsearch1_lem m npages mp_text pcmp_text a len small text h g =
    let whole : (a + len) % 2 ^ 32 ≡ a + len = omega (arith, h) in
    let start : leb npages (pgnum a) ≡ false = ground (arith, g) in
    let stop : leb npages (pgnum (a + len)) ≡ false = ground (arith, g) in
    (
      search_slots npages mp_text pcmp_text len m a (a + len),
      rw (mpsearch1, start, whole, stop) refl,
      search_slots_lem m npages mp_text pcmp_text small text len a (a + len) (omega arith),
    )
