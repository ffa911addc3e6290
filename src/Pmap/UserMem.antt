-- ===== src/Pmap/UserMem.antt =====
-- user_mem_check against the translation of each byte of the range.
use homework_of_operating_sy.Base.{
  ℕ, zero, suc, ◌+◌, ◌-◌, ◌*◌, ◌/◌, ◌%◌, ◌<◌, ◌≤◌, ◌≡◌, refl, ◌⊎◌, bit_and, Bool, true, false,
  Bool-cases, inl, inr, none, some, ◌&&◌, ltb, ◌==◌, if◌then◌else◌, arith, ◌∙◌,
}
use native.Mathlib.Decide.{dec_lt}
use homework_of_operating_sy.Mmu.{pdx, ptx, pte_p, ulim, pgsize, word_size, rounddown, roundup}
use homework_of_operating_sy.Kernel.{Kernel, Env, ok}
use homework_of_operating_sy.Pmap.{check_pages, user_mem_check}
use homework_of_operating_sy.Pmap.Entry.{frame, Present}
use homework_of_operating_sy.Pmap.Walk.{walk_old, walk_absent}
use homework_of_operating_sy.Pmap.Space.{translate}

-- May a user program use address `a` with the permissions?
pub user_ok : ℕ → ℕ → ℕ → Kernel → Bool
user_ok pgdir perm a k = elim (translate pgdir a k) [
  | none ↦ false
  | some v ↦ ltb a ulim && bit_and v perm == perm
]

user_ok-page :
    (pgdir perm i a : ℕ) (k : Kernel)
    → i % pgsize ≡ 0
    → i ≤ a
    → a < i + pgsize
    → user_ok pgdir perm a k ≡ user_ok pgdir perm i k
unfolding user_ok
user_ok-page pgdir perm i a k al lo hi =
    let d : pdx a ≡ pdx i = omega arith in
    let t : ptx a ≡ ptx i = omega arith in
    let u : ltb a ulim ≡ ltb i ulim = ground arith in ground (arith, d, t, u)

-- Every table that the directory names lies in memory.
abbrev pub TablesIn : ℕ → Kernel → Type 0
TablesIn pgdir k = (d : ℕ) → Present (k.word pgdir d) → frame (k.word pgdir d) < k.npages

-- The address that is reported for a bad page at `i`.
abbrev bad_addr : ℕ → ℕ → ℕ
bad_addr va i = if ltb i va then va else i

check_pages-nil :
    (pgdir va perm : ℕ) (k : Kernel) (i : ℕ) → check_pages pgdir va zero i perm k ≡ ok none k
unfolding check_pages
check_pages-nil pgdir va perm k i = refl

module _ (pgdir va perm : ℕ) (k : Kernel) (t : TablesIn pgdir k) where
  check_pages_step :
      (n i : ℕ)
      → check_pages pgdir va (suc n) i perm k ≡ (
          if user_ok pgdir perm i k
          then check_pages pgdir va n (i + pgsize) perm k
          else ok (some (bad_addr va i)) k)
  unfolding check_pages user_ok
  check_pages_step n i = elim (Bool-cases (bit_and (k.word pgdir (pdx i)) pte_p == 0)) [
    | inl gone ↦ rw (walk_absent pgdir i k (ground (arith, gone))) (ground (arith, gone))
    | inr there ↦
        let p : Present (k.word pgdir (pdx i)) = ground (arith, there) in
        rw (walk_old pgdir i false k p (t (pdx i) p)) (ground (arith, there))
  ]

  -- All pages pass, or the page at `b` is the first that does not.
  abbrev Checked : ℕ → ℕ → Type 0
  Checked n i =
      ((check_pages pgdir va n i perm k ≡ ok none k)
        × ((a : ℕ) → i ≤ a → a < i + n * pgsize → user_ok pgdir perm a k ≡ true))
      ⊎ ((b : ℕ) × (i ≤ b)
          × (b < i + n * pgsize)
          × (b % pgsize ≡ 0)
          × (check_pages pgdir va n i perm k ≡ ok (some (bad_addr va b)) k)
          × (user_ok pgdir perm b k ≡ false)
          × ((a : ℕ) → i ≤ a → a < b → user_ok pgdir perm a k ≡ true))

  check_pages_lem : (n i : ℕ) → i % pgsize ≡ 0 → Checked n i
  check_pages_lem zero i al =
      inl (check_pages-nil pgdir va perm k i, λ a lo hi. absurd (omega arith))
  check_pages_lem (suc n) i al = elim (Bool-cases (user_ok pgdir perm i k)) [
    | inr bad ↦ inr (
      i,
      omega arith,
      omega arith,
      al,
      check_pages_step n i ∙ rw bad,
      bad,
      λ a lo hi. absurd (omega arith),
    )
    | inl good ↦
        let here = λ (a : ℕ) (lo : i ≤ a) (hi : a < i + pgsize).
          user_ok-page pgdir perm i a k al lo hi ∙ good in
        elim (check_pages_lem n (i + pgsize) (omega arith)) [
          | inl (e, all) ↦ inl (
            check_pages_step n i ∙ rw good e,
            λ a lo hi. elim (dec_lt a (i + pgsize)) [
              | yes early ↦ here a lo early
              | no late ↦ all a (omega arith) (omega arith)
            ],
          )
          | inr (b, lob, hib, alb, e, bad, all) ↦ inr (
            b,
            omega arith,
            omega arith,
            alb,
            check_pages_step n i ∙ rw good e,
            bad,
            λ a lo hi. elim (dec_lt a (i + pgsize)) [
              | yes early ↦ here a lo early
              | no late ↦ all a (omega arith) (omega arith)
            ],
          )
        ]
  ]

-- The rounds of the loop.
abbrev rounds : ℕ → ℕ → ℕ
rounds va len = (roundup ((va + len) % word_size) - rounddown va) / pgsize

user_mem_check_run :
    (e : Env) (pgdir va len perm : ℕ) (k : Kernel)
    → e.env_pgdir ≡ some pgdir
    → user_mem_check e va len perm k ≡ check_pages pgdir va (rounds va len) (rounddown va) perm k
unfolding user_mem_check
user_mem_check_run e pgdir va len perm k d = rw (d, user_mem_check)

-- user_mem_check on a range that does not end in the last page of the address space: it returns 0
-- only if every byte of `[va, va + len)` may be used with the permissions. When it fails, the address stored in user_mem_check_addr is the first byte
-- at or above `va` that may not be used; it panics in no case and changes nothing.
pub user_mem_check_lem :
    (e : Env) (pgdir va len perm : ℕ) (k : Kernel)
    → e.env_pgdir ≡ some pgdir
    → TablesIn pgdir k
    → va + len + pgsize ≤ word_size
    → 0 < len
    → ((user_mem_check e va len perm k ≡ ok none k)
        × ((a : ℕ) → va ≤ a → a < va + len → user_ok pgdir perm a k ≡ true))
      ⊎ ((b : ℕ) × (va ≤ b)
          × (b < va + len)
          × (user_mem_check e va len perm k ≡ ok (some b) k)
          × (user_ok pgdir perm b k ≡ false)
          × ((a : ℕ) → va ≤ a → a < b → user_ok pgdir perm a k ≡ true))
user_mem_check_lem e pgdir va len perm k d t fits pos =
    let run = user_mem_check_run e pgdir va len perm k d in
    elim (check_pages_lem pgdir va perm k t (rounds va len) (rounddown va) (omega arith)) [
      | inl (c, all) ↦ inl (run ∙ c, λ a lo hi. all a (omega arith) (omega arith))
      | inr (b, lo, hi, al, c, bad, all) ↦ elim (dec_lt b va) [
        | yes under ↦ inr (
          va,
          omega arith,
          omega arith,
          run ∙ c ∙ ground arith,
          user_ok-page pgdir perm b va k al (omega arith) (omega arith) ∙ bad,
          λ a l h. absurd (omega arith),
        )
        | no within ↦ inr (
          b,
          omega arith,
          omega arith,
          run ∙ c ∙ ground arith,
          bad,
          λ a l h. all a (omega arith) h,
        )
      ]
    ]

-- A range that ends in the last page of the address space makes ROUNDUP wrap to 0: user_mem_check
-- tests no page and returns 0 whatever the permissions, although from ULIM on no byte of the range
-- may be used by a user program.
pub user_mem_check_wraps :
    (e : Env) (pgdir va len perm : ℕ) (k : Kernel)
    → e.env_pgdir ≡ some pgdir
    → word_size < va + len + pgsize
    → va + len ≤ word_size
    → (user_mem_check e va len perm k ≡ ok none k)
      × ((a : ℕ) → va ≤ a → ulim ≤ a → user_ok pgdir perm a k ≡ false)
unfolding user_ok
user_mem_check_wraps e pgdir va len perm k d over fits =
    let none_left : rounds va len ≡ 0 = omega arith in
    (
      user_mem_check_run e pgdir va len perm k d
          ∙ rw none_left (check_pages-nil pgdir va perm k (rounddown va)),
      λ a lo hi. ground arith,
    )
