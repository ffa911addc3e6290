-- ===== src/Numbers.antt =====
-- Printing and reading numbers: printnum of OSLab7-Mitjoslab4/lib/printfmt.c, as the characters
-- given to `putch`, xtoi of kern/monitor.c,
-- which changes the string that it reads, and strtol of lib/string.c.
pub mod RoundTrip
mod Tests
use homework_of_operating_sy.Base.{
  ℕ, Bool, true, false, ◌&&◌, ◌||◌, zero, suc, ◌+◌, ◌-◌, ◌*◌, ◌/◌, ◌%◌, ◌^◌, Option, none, some,
  List, [], ◌∷◌, ◌++◌, ltb, leb, ◌==◌, if◌then◌else◌, update,
}

-- `"0123456789abcdef"[d]`
abbrev pub digit_char : ℕ → ℕ
digit_char d = if ltb d 10 then 48 + d else 87 + d

abbrev pub padding : ℕ → ℕ → List ℕ
padding zero c = []
padding (suc n) c = c ∷ padding n c

-- printnum with a bound on its depth; `none` is a number with more digits than that. From 0 on, a
-- width has no effect, so that it stops there.
unfoldable pub printnum : ℕ → ℕ → ℕ → ℕ → ℕ → Option (List ℕ)
printnum zero num base width padc = none
printnum (suc fuel) num base width padc =
    let before = printnum fuel (num / base) base (width - 1) padc in
    let last = digit_char (num % base) ∷ [] in
    if leb base num
    then (elim before [ none ↦ none | some cs ↦ some (cs ++ last) ])
    else some (padding (width - 1) padc ++ last)

-- The byte of xtoi, where a letter has been replaced
abbrev pub hex_byte : ℕ → ℕ
hex_byte c = if leb 97 c then (c - 97 + 48 + 10) % 2 ^ 8 else c

-- The loop of xtoi on chars below 128, with a bound on its rounds
unfoldable pub xtoi_from : ℕ → (ℕ → ℕ) → ℕ → ℕ → Option (ℕ × (ℕ → ℕ))
xtoi_from zero m buf res = none
xtoi_from (suc fuel) m buf res =
    let c = hex_byte (m buf) in
    let rest = xtoi_from fuel (update m buf c) (buf + 1) ((res * 16 + c + 2 ^ 32 - 48) % 2 ^ 32) in
    if m buf == 0 then some (res, m) else rest

unfoldable pub xtoi : ℕ → (ℕ → ℕ) → ℕ → Option (ℕ × (ℕ → ℕ))
unfolding xtoi_from
xtoi fuel m buf = xtoi_from fuel m (buf + 2) 0

-- strtol of lib/string.c. The value of a digit in any base up to 36
abbrev pub digit_of : ℕ → Option ℕ
digit_of c =
    if leb 48 c && leb c 57
    then some (c - 48)
    else (if leb 97 c && leb c 122
        then some (c - 97 + 10)
        else (if leb 65 c && leb c 90 then some (c - 65 + 10) else none))

unfoldable pub skip_blanks : ℕ → (ℕ → ℕ) → ℕ → Option ℕ
skip_blanks zero m s = none
skip_blanks (suc fuel) m s =
    let rest = skip_blanks fuel m (s + 1) in if m s == 32 || m s == 9 then rest else some s

-- The sign, with the place after it
abbrev pub sign_at : (ℕ → ℕ) → ℕ → Bool × ℕ
sign_at m s =
    if m s == 43 then (false, s + 1) else (if m s == 45 then (true, s + 1) else (false, s))

-- The prefix of the base: the place after it, and the base
abbrev pub radix : (ℕ → ℕ) → ℕ → ℕ → ℕ × ℕ
radix m s base =
    if (base == 0 || base == 16) && m s == 48 && m (s + 1) == 120
    then (s + 2, 16)
    else (if base == 0 && m s == 48 then (s + 1, 8) else (if base == 0 then (s, 10) else (s, base)))

-- The loop over the digits; the value is a 32-bit `long`.
unfoldable pub read_digits : ℕ → (ℕ → ℕ) → ℕ → ℕ → ℕ → Option (ℕ × ℕ)
read_digits zero m base s val = none
read_digits (suc fuel) m base s val = elim (digit_of (m s)) [
  | none ↦ some (val, s)
  | some d ↦ elim (leb base d) [
    | true ↦ some (val, s)
    | false ↦ read_digits fuel m base (s + 1) ((val * base + d) % 2 ^ 32)
  ]
]

-- The end of strtol, after the digits
abbrev pub apply_sign : Bool → Option (ℕ × ℕ) → Option (ℕ × ℕ)
apply_sign neg none = none
apply_sign neg (some (val, s)) = some (if neg then (2 ^ 32 - val) % 2 ^ 32 else val, s)

-- strtol after the prefix, after the sign, and after the blanks
abbrev pub from_digits : ℕ → (ℕ → ℕ) → Bool → ℕ × ℕ → Option (ℕ × ℕ)
from_digits fuel m neg (s, base) = apply_sign neg (read_digits fuel m base s 0)

abbrev pub from_radix : ℕ → (ℕ → ℕ) → ℕ → Bool × ℕ → Option (ℕ × ℕ)
from_radix fuel m base (neg, s) = from_digits fuel m neg (radix m s base)

abbrev pub from_sign : ℕ → (ℕ → ℕ) → ℕ → Option ℕ → Option (ℕ × ℕ)
from_sign fuel m base none = none
from_sign fuel m base (some s) = from_radix fuel m base (sign_at m s)

-- strtol, with what it stores through `endptr`. Both loops have the bound on their rounds.
unfoldable pub strtol : ℕ → (ℕ → ℕ) → ℕ → ℕ → Option (ℕ × ℕ)
unfolding skip_blanks read_digits
strtol fuel m s base = from_sign fuel m base (skip_blanks fuel m s)
