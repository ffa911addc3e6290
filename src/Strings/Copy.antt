-- ===== src/Strings/Copy.antt =====
-- memmove and memcmp: copying, also between regions that overlap, and comparing.
use homework_of_operating_sy.Base.{
  ℕ, zero, suc, ◌+◌, ◌-◌, ◌^◌, ◌<◌, ◌≤◌, ◌≡◌, ◌↔◌, refl, ◌⊎◌, inl, inr, ◌&&◌, ltb, leb, Bool-cases,
  ◌==◌, ◌!=◌, if◌then◌else◌, update, arith,
}
use homework_of_operating_sy.Strings.{Bytes, copy_up, copy_down, memmove, memcmp}

-- The memory after `n` bytes at `src` have been copied to `dst` at one stroke.
abbrev pub moved : Bytes → ℕ → ℕ → ℕ → Bytes
moved m dst src n a = if leb dst a && ltb a (dst + n) then m (src + (a - dst)) else m a

up_lem :
    (n : ℕ) (m : Bytes) (d s a : ℕ) → (d ≤ s) ⊎ (s + n ≤ d) → copy_up m d s n a ≡ moved m d s n a
unfolding copy_up
up_lem zero m d s a o = ground arith
up_lem (suc n) m d s a o = ground (arith, up_lem n (update m d (m s)) (d + 1) (s + 1) a)

down_lem :
    (n : ℕ) (m : Bytes) (d s a : ℕ) → s ≤ d → copy_down m (d + n) (s + n) n a ≡ moved m d s n a
unfolding copy_down
down_lem zero m d s a o = ground arith
down_lem (suc n) m d s a o =
    let e : d + suc n - 1 ≡ d + n = omega arith in
    let e' : s + suc n - 1 ≡ s + n = omega arith in
    rw (e, e') (ground (arith, down_lem n (update m (d + n) (m (s + n))) d s a o))

-- memmove copies `n` bytes as if at one stroke, however the two regions overlap: afterwards byte i of the
-- destination is what byte i of the source was, and every byte outside of the destination is as before.
memmove_lem :
    (m : Bytes) (dst src n a : ℕ)
    → memmove m dst src n a ≡ (if leb dst a && ltb a (dst + n) then m (src + (a - dst)) else m a)
unfolding memmove
memmove_lem m dst src n a = elim (Bool-cases (ltb src dst && ltb dst (src + n))) [
  | inl over ↦ rw over (down_lem n m dst src a (ground (arith, over)))
  | inr apart ↦ rw apart (up_lem n m dst src a (ground (arith, apart)))
]

-- memcmp of two regions of bytes returns 0 exactly when they agree in each of their `n` bytes.
pub memcmp_lem :
    (m : Bytes) (v1 v2 n : ℕ)
    → ((a : ℕ) → m a < 2 ^ 8)
    → (memcmp m v1 v2 n ≡ 0) ↔ ((i : ℕ) → i < n → m (v1 + i) ≡ m (v2 + i))
unfolding memcmp
memcmp_lem m v1 v2 zero small = (λ e i h. absurd (omega arith), λ e. refl)
memcmp_lem m v1 v2 (suc n) small =
    let (same, alike) = memcmp_lem m (v1 + 1) (v2 + 1) n small in
    elim (Bool-cases (m v1 != m v2)) [
      | inl differ ↦ rw differ (
        λ e. absurd (ground (arith, differ, e, small v1, small v2)),
        λ e. absurd (ground (arith, differ, e 0 (omega arith))),
      )
      | inr agree ↦ rw agree (
        λ e i h. elim (Bool-cases (i == 0)) [
          | inl z ↦ ground (arith, agree, z)
          | inr p ↦
              let f : v1 + i ≡ v1 + 1 + (i - 1) = ground (arith, p) in
              let g : v2 + i ≡ v2 + 1 + (i - 1) = ground (arith, p) in
              rw (f, g) (same e (i - 1) (ground (arith, p)))
        ],
        λ e. alike (λ i h. ground (arith, e (i + 1) (omega arith))),
      )
    ]
