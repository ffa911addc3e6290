-- ===== src/Debug/Described.antt =====
-- What debuginfo_eip says of an address in a function with line numbers.
mod Sample
mod Tests
use homework_of_operating_sy.Base.{
  ℕ, zero, suc, ◌+◌, ◌-◌, ◌%◌, ◌^◌, ◌<◌, ◌≤◌, ◌≡◌, inl, inr, refl, ap, ◌∙◌, true, false, Bool-cases,
  Option, none, some, ltb, leb, ◌==◌, ◌!=◌, ◌||◌, if◌then◌else◌, arith,
}
use homework_of_operating_sy.Mmu.{ulim}
use homework_of_operating_sy.Kernel.{Kernel, ok}
use homework_of_operating_sy.Strings.{Bytes, strfind}
use homework_of_operating_sy.Debug.{Stab, typed, value, stab_binsearch}
use homework_of_operating_sy.Debug.Search.{by_cases, Table}
use homework_of_operating_sy.Debug.Result.{Found, stab_binsearch_lem}
use homework_of_operating_sy.Debug.Info.{
  EipDebugInfo, described, n_so, n_fun, n_sline, string_of, name_length, filled, with_function,
  with_file, describe, Tables, stab_at, stab_count, debuginfo_in, debuginfo_eip,
}

-- A null byte `n` places on ends strfind.
strfind_ends :
    (m : Bytes) (c n fuel s : ℕ)
    → m (s + n) ≡ 0
    → n < fuel
    → (e : ℕ) × (strfind fuel m s c ≡ some e)
unfolding strfind
strfind_ends m c n zero s h enough = absurd (omega (arith, enough))
strfind_ends m c zero (suc fuel) s h enough =
    let here : s + 0 ≡ s = omega arith in
    let null : (m s == 0) ≡ true = ground (arith, h, ap m here) in (s, rw (null) refl)
strfind_ends m c (suc n) (suc fuel) s h enough =
    let next : s + 1 + n ≡ s + suc n = omega arith in
    let (e, q) = strfind_ends m c n fuel (s + 1) (ap m next ∙ h) (omega (arith, enough)) in
    elim (Bool-cases (m s == 0)) [
      | inl null ↦ (s, rw (null) refl)
      | inr more ↦ elim (Bool-cases (m s == c)) [
        | inl hit ↦ (s, rw (more, hit) refl)
        | inr miss ↦ (e, rw (more, miss, q) refl)
      ]
    ]

module _ (stabs : ℕ → Stab) where
  -- A stab of the type at or before `a` in a region whose stabs of the type are in order.
  pub record Covered (type first last a : ℕ) : Type 0 where
    pub table : Table (typed stabs type) (value stabs type) first last a
    pub stab : ℕ
    pub from : first ≤ stab
    pub to : stab ≤ last
    pub hit : typed stabs type stab ≡ true
    pub low : value stabs type stab ≤ a

  -- The tables know the file, the function and the line of `a`, and the file is not the one of the first stab.
  pub record Known (count a : ℕ) : Type 0 where
    pub file : Covered n_so 1 count a
    pub behind_first : 2 ≤ file.stab
    pub function : (k r : ℕ) → Found stabs n_so 1 count a k r → Covered n_fun k r a
    pub line :
        (k r f g : ℕ)
        → Found stabs n_so 1 count a k r
        → Found stabs n_fun k r a f g
        → Covered n_sline f g (a - value stabs n_fun f)

  covered_Found :
      (type first last a fuel : ℕ)
      → Covered type first last a
      → last + 2 - first < fuel
      → (k : ℕ) × (r : ℕ) × (stab_binsearch stabs type fuel first last a ≡ some (k, r))
        × Found stabs type first last a k r
  covered_Found type first last a fuel c enough =
      stab_binsearch_lem stabs type c.table c.stab c.from c.to c.hit c.low fuel enough

  not_first : (count a k r : ℕ) → Known count a → Found stabs n_so 1 count a k r → 2 ≤ k
  not_first count a k r known found = ground (
    arith,
    known.behind_first,
    known.file.to,
    known.file.hit,
    known.file.low,
    found.only known.file.stab,
    found.next,
    found.from_first,
    known.file.table.ordered (r + 1) known.file.stab,
  )

  -- What is said of `a`, by the stabs of its function and of its line.
  pub record Says (stabstr size a f l : ℕ) (i : EipDebugInfo) : Type 0 where
    pub name : i.eip_fn_name ≡ (
        if ltb (stabs (f - 1)).n_strx size then some (stabstr + (stabs (f - 1)).n_strx) else none)
    pub start : i.eip_fn_addr ≡ value stabs n_fun f
    pub number : i.eip_line ≡ (stabs (l - 1)).n_desc

  module _ (m : Bytes) (fuel stabstr size : ℕ) (null : m (stabstr + size - 1) ≡ 0)
      (long : size < fuel) where
    name_length_ends :
        (j : ℕ)
        → (len : ℕ) × (name_length fuel m stabs stabstr size (string_of fuel m stabs stabstr size j)
            ≡ some len)
    name_length_ends j =
        by_cases
          (λ (x : Option ℕ). (len : ℕ) × (name_length fuel m stabs stabstr size x ≡ some len))
          (ltb (stabs (j - 1)).n_strx size)
          (λ e.
            let inside : (stabs (j - 1)).n_strx < size = ground (arith, e) in
            let last : stabstr + (stabs (j - 1)).n_strx + (size - 1 - (stabs (j - 1)).n_strx)
                ≡ stabstr + size - 1 =
              omega (arith, inside) in
            let (end_, q) =
              strfind_ends m 58 (size - 1 - (stabs (j - 1)).n_strx) fuel
                (stabstr + (stabs (j - 1)).n_strx) (ap m last ∙ null) (omega (arith, long)) in
            (end_ - (stabstr + (stabs (j - 1)).n_strx), rw (name_length, q) refl))
          (λ e. (9, refl))

    filled-Says :
        (k f g len l a : ℕ)
        → Says stabstr size a f l (
            filled fuel m stabs stabstr size k f g
              (string_of fuel m stabs stabstr size f)
              (value stabs n_fun f)
              len
              l)
    filled-Says k f g len l a = record { name = refl; start = refl; number = refl }

    describe_lem :
        (count a : ℕ)
        → Known count a
        → count + 2 < fuel
        → a < 2 ^ 32
        → (i : EipDebugInfo) × (k r f g l h : ℕ) × (describe fuel m stabs stabstr size count a
            ≡ some (described i))
          × Found stabs n_so 1 count a k r
          × Found stabs n_fun k r a f g
          × Found stabs n_sline f g (a - value stabs n_fun f) l h
          × Says stabstr size a f l i
    unfolding describe with_file with_function
    describe_lem count a known enough low =
        let (k, r, e, file) =
          covered_Found n_so 1 count a fuel known.file (omega (arith, enough)) in
        let (f, g, e', fun) =
          covered_Found n_fun k r a fuel (known.function k r file)
            (omega (arith, enough, file.to_last, file.from_first)) in
        let (l, h, e'', line) =
          covered_Found n_sline f g (a - value stabs n_fun f) fuel (known.line k r f g file fun)
            (omega (arith, enough, fun.to_last, fun.from_first, file.to_last, file.from_first)) in
        let (len, q) = name_length_ends f in
        let second = not_first count a k r known file in
        let one : (k == 1) ≡ false = ground (arith, second) in
        let zeroth : (k == 0) ≡ false = ground (arith, second) in
        let ordered : leb f g ≡ true = ground (arith, fun.in_order) in
        let offset : (a + 2 ^ 32 - value stabs n_fun f) % 2 ^ 32 ≡ a - value stabs n_fun f =
          omega (arith, low, fun.not_behind) in
        (
          filled fuel m stabs stabstr size k f g (string_of fuel m stabs stabstr size f)
              (value stabs n_fun f) len l,
          k,
          r,
          f,
          g,
          l,
          h,
          rw (describe, e, with_file, one, zeroth, e', with_function, ordered, offset, e'', q) refl,
          file,
          fun,
          line,
          filled-Says k f g len l a,
        )

-- debuginfo_eip for a kernel address other than the last one, where the kernel's string table is not empty and ends in a
-- null byte and the bound on the rounds is above its size and above the number of stabs plus two; where the
-- files in the whole table, the functions in the region of each file that is found and the lines in the region of each
-- function that is found meet three conditions: the stabs of the type are in the order of their values, one is at
-- or before the address, and none is at the address plus one (for the lines, the address less the start of the
-- function); and where a stab of a file at or before the address is not the first stab of the table. It
-- returns 0 and leaves the state, with the start and the name (none, where its place is behind the string
-- table) of the last function at or before the address in its file, and the number of the last line in it at or before
-- the address less that start.
pub debuginfo_eip_lem :
    (fuel : ℕ) (m : Bytes) (t : Tables) (a : ℕ) (s : Kernel)
    → ulim ≤ a
    → a < 2 ^ 32
    → t.stabstr < t.stabstr_end
    → m (t.stabstr_end - 1) ≡ 0
    → t.stabstr_end - t.stabstr < fuel
    → stab_count t + 2 < fuel
    → Known (stab_at m t.stab_begin) (stab_count t) a
    → (i : EipDebugInfo) × (k r f g l h : ℕ) × (debuginfo_eip fuel m t a s
        ≡ ok (some (described i)) s)
      × Found (stab_at m t.stab_begin) n_so 1 (stab_count t) a k r
      × Found (stab_at m t.stab_begin) n_fun k r a f g
      × Found (stab_at m t.stab_begin) n_sline f g (a - value (stab_at m t.stab_begin) n_fun f) l h
      × Says (stab_at m t.stab_begin) t.stabstr (t.stabstr_end - t.stabstr) a f l i
unfolding debuginfo_eip debuginfo_in
debuginfo_eip_lem fuel m t a s kernel low longer null long enough known =
    let last : t.stabstr + (t.stabstr_end - t.stabstr) - 1 ≡ t.stabstr_end - 1 =
      omega (arith, longer) in
    let (i, k, r, f, g, l, h, e, file, fun, line, says) =
      describe_lem (stab_at m t.stab_begin) m fuel t.stabstr (t.stabstr_end - t.stabstr)
        (ap m last ∙ null) long (stab_count t) a known enough low in
    let above : leb ulim a ≡ true = ground (arith, kernel) in
    let good : (leb t.stabstr_end t.stabstr || m (t.stabstr_end - 1) != 0) ≡ false =
      ground (arith, longer, null) in
    (
      i,
      k,
      r,
      f,
      g,
      l,
      h,
      rw (debuginfo_eip, above, debuginfo_in, good, e) refl,
      file,
      fun,
      line,
      says,
    )
