-- ===== src/Debug/Described/Sample.antt =====
-- The tables of a kernel with one file, one function and two lines.
use homework_of_operating_sy.Base.{
  ℕ, zero, suc, ◌+◌, ◌-◌, ◌*◌, ◌/◌, ◌%◌, ◌^◌, ◌<◌, ◌≤◌, ◌≡◌, ◌⊎◌, inl, inr, refl, ap, ◌≢◌, true, [],
  ◌∷◌, ltb, leb, ◌==◌, if◌then◌else◌, arith,
}
use mathlib.Core.Path.{subst}
use homework_of_operating_sy.Strings.{Bytes}
use homework_of_operating_sy.Conversion.{chars_of}
use homework_of_operating_sy.Debug.{Stab, typed, value}
use homework_of_operating_sy.Debug.Search.{Table}
use homework_of_operating_sy.Debug.Result.{Found}
use homework_of_operating_sy.Debug.Info.{Tables, stab_at, n_so, n_fun, n_sline}
use homework_of_operating_sy.Debug.Described.{Covered}

abbrev values : ℕ → ℕ
values j =
    if j == 1
    then 0xF0100000
    else if j == 2
    then 0xF0100040
    else if j == 4
    then 16
    else if j == 5
    then 0xF0200000
    else 0

abbrev stab_byte : ℕ → ℕ → ℕ
stab_byte j o =
    if o == 0
    then chars_of (0 ∷ 1 ∷ 5 ∷ 0 ∷ 0 ∷ 1 ∷ []) j
    else if o == 4
    then chars_of (0 ∷ 100 ∷ 36 ∷ 68 ∷ 68 ∷ 100 ∷ []) j
    else if o == 6
    then chars_of (0 ∷ 0 ∷ 0 ∷ 10 ∷ 11 ∷ 0 ∷ []) j
    else if leb 8 o
    then values j / 2 ^ (8 * (o - 8)) % 2 ^ 8
    else 0

-- Six stabs at 0x1000 and the string table at 0x2000, with "a.c" and "main:F"
abbrev pub kernel_memory : Bytes
kernel_memory a =
    if ltb a 0x2000
    then stab_byte ((a - 0x1000) / 12) ((a - 0x1000) % 12)
    else chars_of (0 ∷ 97 ∷ 46 ∷ 99 ∷ 0 ∷ 109 ∷ 97 ∷ 105 ∷ 110 ∷ 58 ∷ 70 ∷ []) (a - 0x2000)

abbrev pub kernel_tables : Tables
kernel_tables = record {
  stab_begin = 0x1000;
  stab_end = 0x1048;
  stabstr = 0x2000;
  stabstr_end = 0x200C;
}

abbrev pub kernel_stabs : ℕ → Stab
kernel_stabs = stab_at kernel_memory 0x1000

so_at : (j : ℕ) → 1 ≤ j → j ≤ 6 → typed kernel_stabs n_so j ≡ true → (j ≡ 2) ⊎ (j ≡ 6)
so_at zero p q e = absurd (omega (arith, p))
so_at (suc zero) p q e = cc
so_at (suc (suc zero)) p q e = inl refl
so_at (suc (suc (suc zero))) p q e = cc
so_at (suc (suc (suc (suc zero)))) p q e = cc
so_at (suc (suc (suc (suc (suc zero))))) p q e = cc
so_at (suc (suc (suc (suc (suc (suc zero)))))) p q e = inr refl
so_at (suc (suc (suc (suc (suc (suc (suc j))))))) p q e = absurd (omega (arith, q))

fun_at : (j : ℕ) → 1 ≤ j → j ≤ 6 → typed kernel_stabs n_fun j ≡ true → (j ≡ 3)
fun_at zero p q e = absurd (omega (arith, p))
fun_at (suc zero) p q e = cc
fun_at (suc (suc zero)) p q e = cc
fun_at (suc (suc (suc zero))) p q e = refl
fun_at (suc (suc (suc (suc zero)))) p q e = cc
fun_at (suc (suc (suc (suc (suc zero))))) p q e = cc
fun_at (suc (suc (suc (suc (suc (suc zero)))))) p q e = cc
fun_at (suc (suc (suc (suc (suc (suc (suc j))))))) p q e = absurd (omega (arith, q))

sline_at : (j : ℕ) → 1 ≤ j → j ≤ 6 → typed kernel_stabs n_sline j ≡ true → (j ≡ 4) ⊎ (j ≡ 5)
sline_at zero p q e = absurd (omega (arith, p))
sline_at (suc zero) p q e = cc
sline_at (suc (suc zero)) p q e = cc
sline_at (suc (suc (suc zero))) p q e = cc
sline_at (suc (suc (suc (suc zero)))) p q e = inl refl
sline_at (suc (suc (suc (suc (suc zero))))) p q e = inr refl
sline_at (suc (suc (suc (suc (suc (suc zero)))))) p q e = cc
sline_at (suc (suc (suc (suc (suc (suc (suc j))))))) p q e = absurd (omega (arith, q))

abbrev pub inside : ℕ
inside = 0xF0100055

-- Two stabs of a type in order, away from the address behind the one that is searched.
pair_order :
    (V : ℕ → ℕ) (x y i j : ℕ)
    → V x ≤ V y
    → x < y
    → (i ≡ x) ⊎ (i ≡ y)
    → (j ≡ x) ⊎ (j ≡ y)
    → i < j
    → V i ≤ V j
pair_order V x y i j h g (inl c) (inl d) q = absurd (omega (arith, c, d, q))
pair_order V x y i j h g (inr c) (inl d) q = absurd (omega (arith, c, d, q, g))
pair_order V x y i j h g (inr c) (inr d) q = absurd (omega (arith, c, d, q))
pair_order V x y i j h g (inl c) (inr d) q = omega (arith, ap V c, ap V d, h)

pair_gap : (V : ℕ → ℕ) (x y a j : ℕ) → V x ≢ a → V y ≢ a → (j ≡ x) ⊎ (j ≡ y) → V j ≢ a
pair_gap V x y a j p q (inl c) = omega (arith, ap V c, p)
pair_gap V x y a j p q (inr c) = omega (arith, ap V c, q)

pub so_Table : Table (typed kernel_stabs n_so) (value kernel_stabs n_so) 1 6 inside
so_Table = record {
  positive = omega arith;
  room = omega arith;
  ordered = λ i j p q r e f.
      pair_order (value kernel_stabs n_so) 2 6 i j (omega arith) (omega arith)
        (so_at i p (omega (arith, q, r)) e) (so_at j (omega (arith, p, q)) r f) q;
  gap = λ j p q e.
      pair_gap (value kernel_stabs n_so) 2 6 (inside + 1) j (omega arith) (omega arith)
        (so_at j p q e);
}

pub the_file : (k r : ℕ) → Found kernel_stabs n_so 1 6 inside k r → (k ≡ 2) × (r ≡ 5)
the_file k r f = elim (so_at k f.from_first (omega (arith, f.in_order, f.to_last)) f.of_type) [
  | inr c ↦
      absurd (omega (arith, subst (λ (x : ℕ). value kernel_stabs n_so x ≤ inside) c f.not_behind))
  | inl c ↦
      let six : typed kernel_stabs n_so 6 ≡ true = refl in
      let under : r < 6 = ground (arith, f.only 6 (omega (arith, c)), six, f.to_last) in
      elim f.next [
        | inl d ↦ absurd (omega (arith, d, under))
        | inr d ↦ elim (so_at (r + 1) (omega arith) (omega (arith, under)) d.0) [
          | inl x ↦ absurd (omega (arith, x, c, f.in_order))
          | inr x ↦ (c, omega (arith, x))
        ]
      ]
]

fun_Table : Table (typed kernel_stabs n_fun) (value kernel_stabs n_fun) 2 5 inside
fun_Table = record {
  positive = omega arith;
  room = omega arith;
  ordered = λ i j p q r e f. absurd (
      omega (
        arith,
        fun_at i (omega (arith, p)) (omega (arith, q, r)) e,
        fun_at j (omega (arith, p, q)) (omega (arith, r)) f,
        q,
      ));
  gap = λ j p q e.
      pair_gap (value kernel_stabs n_fun) 3 3 (inside + 1) j (omega arith) (omega arith)
        (inl (fun_at j (omega (arith, p)) (omega (arith, q)) e));
}

pub the_function : (f g : ℕ) → Found kernel_stabs n_fun 2 5 inside f g → (f ≡ 3) × (g ≡ 5)
the_function f g h =
    let third =
      fun_at f (omega (arith, h.from_first)) (omega (arith, h.in_order, h.to_last)) h.of_type in
    elim h.next [
      | inl d ↦ (third, d)
      | inr d ↦ absurd (
          omega
            (arith, fun_at (g + 1) (omega arith) (omega (arith, h.to_last)) d.0, third, h.in_order))
    ]

sline_Table : Table (typed kernel_stabs n_sline) (value kernel_stabs n_sline) 3 5 0x15
sline_Table = record {
  positive = omega arith;
  room = omega arith;
  ordered = λ i j p q r e f.
      pair_order (value kernel_stabs n_sline) 4 5 i j (omega arith) (omega arith)
        (sline_at i (omega (arith, p)) (omega (arith, q, r)) e)
        (sline_at j (omega (arith, p, q)) (omega (arith, r)) f) q;
  gap = λ j p q e.
      pair_gap (value kernel_stabs n_sline) 4 5 0x16 j (omega arith) (omega arith)
        (sline_at j (omega (arith, p)) (omega (arith, q)) e);
}

abbrev pub file_Covered : Covered kernel_stabs n_so 1 6 inside
file_Covered = record {
  table = so_Table;
  stab = 2;
  from = omega arith;
  to = omega arith;
  hit = refl;
  low = omega arith;
}

pub function_Covered : Covered kernel_stabs n_fun 2 5 inside
function_Covered = record {
  table = fun_Table;
  stab = 3;
  from = omega arith;
  to = omega arith;
  hit = refl;
  low = omega arith;
}

pub line_Covered : Covered kernel_stabs n_sline 3 5 0x15
line_Covered = record {
  table = sline_Table;
  stab = 5;
  from = omega arith;
  to = omega arith;
  hit = refl;
  low = omega arith;
}
