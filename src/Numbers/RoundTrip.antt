-- ===== src/Numbers/RoundTrip.antt =====
-- strtol reads what printnum has printed.
use homework_of_operating_sy.Base.{
  ℕ, zero, suc, ◌+◌, ◌*◌, ◌/◌, ◌%◌, ◌^◌, ◌<◌, ◌≤◌, ◌≡◌, refl, ap, ◌∙◌, inl, inr, false, Bool-cases,
  some, List, [], ◌∷◌, ◌++◌, All, All-map, length, length-append, update, leb, ◌==◌, arith,
}
use native.Mathlib.Nat.{mul-le-mul_left, mod-eq_of_lt, mod-lt, div-add-mod', div-lt_self}
use homework_of_operating_sy.Numbers.{
  digit_char, printnum, digit_of, skip_blanks, sign_at, radix, read_digits, apply_sign, from_digits,
  from_radix, from_sign, strtol,
}

-- The value of digits read from the left, from `val` on
abbrev pub horner : ℕ → ℕ → List ℕ → ℕ
horner base val [] = val
horner base val (d ∷ ds) = horner base (val * base + d) ds

-- Digits `ds` of the base
abbrev pub Digits : ℕ → List ℕ → Type 0
Digits base ds = All (λ d. d < base) ds

-- A string with the characters `cs`, at address `s`
abbrev pub place : (ℕ → ℕ) → ℕ → List ℕ → ℕ → ℕ
place m s [] = update m s 0
place m s (c ∷ cs) = update (place m (s + 1) cs) s c

-- The characters of `ds` and a null byte, from address `s` on
abbrev Written : (ℕ → ℕ) → ℕ → List ℕ → Type 0
Written m s [] = m s ≡ 0
Written m s (d ∷ ds) = (m s ≡ digit_char d) × Written m (s + 1) ds

horner-append :
    (base val d : ℕ) (ds : List ℕ) → horner base val (ds ++ d ∷ []) ≡ horner base val ds * base + d
horner-append base val d [] = refl
horner-append base val d (x ∷ ds) = horner-append base (val * base + x) d ds

horner-ge : (base val : ℕ) (ds : List ℕ) → 1 ≤ base → val ≤ horner base val ds
horner-ge base val [] h = omega arith
horner-ge base val (d ∷ ds) h =
    let grown : val * 1 ≤ val * base = mul-le-mul_left val h in
    omega (arith, grown, horner-ge base (val * base + d) ds h)

Digits-append : (base d : ℕ) (ds : List ℕ) → Digits base ds → d < base → Digits base (ds ++ d ∷ [])
Digits-append base d [] h l = (l, tt)
Digits-append base d (x ∷ ds) h l = (h.0, Digits-append base d ds h.1 l)

chars : List ℕ → List ℕ
chars [] = []
chars (d ∷ ds) = digit_char d ∷ chars ds

chars-append : (ds : List ℕ) (d : ℕ) → chars (ds ++ d ∷ []) ≡ chars ds ++ digit_char d ∷ []
unfolding chars
chars-append [] d = refl
chars-append (x ∷ ds) d = ap (λ (cs : List ℕ). digit_char x ∷ cs) (chars-append ds d)

-- What printnum prints without padding: the digits of the number.
record Printed (fuel num base : ℕ) (ds : List ℕ) : Type 0 where
  output : printnum fuel num base 0 0 ≡ some (chars ds)
  digits : Digits base ds
  total : horner base 0 ds ≡ num
  some_digit : 0 < length ds

less : (num base fuel : ℕ) → 2 ≤ base → base ≤ num → num < suc fuel → num / base < fuel
less num base fuel h g l =
    let smaller : num / base < num = div-lt_self (omega (arith, h, g)) h in
    omega (arith, smaller, l)

printnum_lem :
    (fuel num base : ℕ) → 2 ≤ base → num < fuel → (ds : List ℕ) × Printed fuel num base ds
unfolding printnum chars
printnum_lem zero num base h l = absurd (omega arith)
printnum_lem (suc fuel) num base h l = elim (Bool-cases (leb base num)) [
  | inr last ↦ (
    num ∷ [],
    record {
      output = rw (last, mod-eq_of_lt {n = num} {m = base} (ground (arith, last))) refl;
      digits = (ground (arith, last), tt);
      total = omega arith;
      some_digit = omega arith;
    },
  )
  | inl more ↦
      let (ds, p) =
        printnum_lem fuel (num / base) base h (less num base fuel h (ground (arith, more)) l) in
      (
        ds ++ (num % base) ∷ [],
        record {
          output = rw (more, p.output, chars-append ds (num % base)) refl;
          digits = Digits-append base (num % base) ds p.digits (mod-lt num (omega arith));
          total =
              horner-append base 0 (num % base) ds
              ∙ (ap (λ (t : ℕ). t * base + num % base) p.total ∙ div-add-mod' num base);
          some_digit = omega (arith, length-append ds ((num % base) ∷ []));
        },
      )
]

digit_of-digit_char : (d : ℕ) → d < 16 → digit_of (digit_char d) ≡ some d
digit_of-digit_char d h = ground arith

read_lem :
    (ds : List ℕ) (fuel : ℕ) (m : ℕ → ℕ) (base s val : ℕ)
    → 1 ≤ base
    → base ≤ 16
    → Written m s ds
    → Digits base ds
    → horner base val ds < 2 ^ 32
    → length ds < fuel
    → read_digits fuel m base s val ≡ some (horner base val ds, s + length ds)
unfolding read_digits
read_lem ds zero m base s val h g w d b l = absurd (omega arith)
read_lem [] (suc fuel) m base s val h g w d b l = rw (w, read_digits) (ground arith)
read_lem (x ∷ ds) (suc fuel) m base s val h g w d b l =
    let here : digit_of (m s) ≡ some x = rw w.0 (digit_of-digit_char x (omega (arith, d.0, g))) in
    let low : leb base x ≡ false = ground (arith, d.0) in
    let fits : (val * base + x) % 2 ^ 32 ≡ val * base + x =
      mod-eq_of_lt (omega (arith, b, horner-ge base (val * base + x) ds h)) in
    let rest = read_lem ds fuel m base (s + 1) (val * base + x) h g w.1 d.1 b (omega (arith, l)) in
    rw (here, low, fits, read_digits) (rest ∙ ground arith)

-- The character after the first one is not the x of a prefix.
not_x : (m : ℕ → ℕ) (s : ℕ) (ds : List ℕ) → Written m s ds → Digits 16 ds → (m s == 120) ≡ false
not_x m s [] w d = ground (arith, w)
not_x m s (x ∷ ds) w d = ground (arith, w.0, d.0)

radix_lem :
    (m : ℕ → ℕ) (s base : ℕ)
    → 2 ≤ base
    → (base ≡ 16 → (m (s + 1) == 120) ≡ false)
    → radix m s base ≡ (s, base)
radix_lem m s base h e = ground (arith, e)

skip_lem :
    (fuel : ℕ) (m : ℕ → ℕ) (s d : ℕ)
    → m s ≡ digit_char d
    → d < 16
    → skip_blanks (suc fuel) m s ≡ some s
unfolding skip_blanks
skip_lem fuel m s d e h = ground (arith, e)

sign_lem : (m : ℕ → ℕ) (s d : ℕ) → m s ≡ digit_char d → d < 16 → sign_at m s ≡ (false, s)
sign_lem m s d e h = ground (arith, e)

-- The base of digits can be raised.
Digits-mono : (base base' : ℕ) (ds : List ℕ) → base ≤ base' → Digits base ds → Digits base' ds
Digits-mono base base' ds h d = All-map (λ x l. omega (arith, l, h)) ds d

strtol_lem :
    (ds : List ℕ) (fuel : ℕ) (m : ℕ → ℕ) (base s : ℕ)
    → 2 ≤ base
    → base ≤ 16
    → Written m s ds
    → Digits base ds
    → 0 < length ds
    → horner base 0 ds < 2 ^ 32
    → length ds < fuel
    → strtol fuel m s base ≡ some (horner base 0 ds, s + length ds)
unfolding strtol
strtol_lem ds zero m base s h g w d n b l = absurd (omega arith)
strtol_lem [] (suc fuel) m base s h g w d n b l = absurd (omega (arith, n))
strtol_lem (x ∷ ds) (suc fuel) m base s h g w d n b l =
    let small : x < 16 = omega (arith, d.0, g) in
    let x_free : (m (s + 1) == 120) ≡ false =
      not_x m (s + 1) ds w.1 (Digits-mono base 16 ds g d.1) in
    ap (from_sign (suc fuel) m base) (skip_lem fuel m s x w.0 small)
    ∙ ap (from_radix (suc fuel) m base) (sign_lem m s x w.0 small)
    ∙ ap (from_digits (suc fuel) m false) (radix_lem m s base h (λ _. x_free))
    ∙ ap (apply_sign false) (read_lem (x ∷ ds) (suc fuel) m base s 0 (omega (arith, h)) g w d b l)

Written-update :
    (m : ℕ → ℕ) (s t c : ℕ) (ds : List ℕ) → s < t → Written m t ds → Written (update m s c) t ds
Written-update m s t c [] h w = ground (arith, w)
Written-update m s t c (x ∷ ds) h w =
    (ground (arith, w.0), Written-update m s (t + 1) c ds (omega (arith, h)) w.1)

place-Written : (m : ℕ → ℕ) (s : ℕ) (ds : List ℕ) → Written (place m s (chars ds)) s ds
unfolding chars
place-Written m s [] = ground arith
place-Written m s (x ∷ ds) = (
  ground arith,
  Written-update (place m (s + 1) (chars ds)) s (s + 1) (digit_char x) ds (omega arith)
      (place-Written m (s + 1) ds),
)

length-chars : (ds : List ℕ) → length (chars ds) ≡ length ds
unfolding chars
length-chars [] = refl
length-chars (x ∷ ds) = omega (arith, length-chars ds)

-- What printnum prints without padding for a number below 2^32 in a base from 2 to 16, put anywhere in memory
-- with a null byte behind it, strtol reads back in that base: the same number, and the
-- address of the null byte through `endptr`. Both return within the stated bounds on their rounds.
pub strtol-printnum :
    (num base s : ℕ) (m : ℕ → ℕ)
    → 2 ≤ base
    → base ≤ 16
    → num < 2 ^ 32
    → (cs : List ℕ) × (printnum (suc num) num base 0 0 ≡ some cs)
      × (strtol (length cs + 1) (place m s cs) s base ≡ some (num, s + length cs))
strtol-printnum num base s m h g small =
    let (ds, p) = printnum_lem (suc num) num base h (omega arith) in
    (
      chars ds,
      p.output,
      rw (length-chars ds) (
          strtol_lem ds (length ds + 1) (place m s (chars ds)) base s h g (place-Written m s ds)
            p.digits p.some_digit (omega (arith, p.total, small)) (omega arith)
          ∙ ap (λ (v : ℕ). some (v, s + length ds)) p.total),
    )
