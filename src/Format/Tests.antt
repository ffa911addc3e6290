-- ===== src/Format/Tests.antt =====
-- Formats with their output, and a buffer that is too small.
use homework_of_operating_sy.Base.{
  ℕ, ◌+◌, ◌-◌, ◌%◌, ◌^◌, ◌<◌, ◌≤◌, ◌≡◌, ◌⊎◌, refl, Option, none, some, List, [], ◌∷◌, length,
  get_elem?, ltb, if◌then◌else◌, arith,
}
use homework_of_operating_sy.Strings.{Bytes, strnlen}
use homework_of_operating_sy.Numbers.{printnum}
use homework_of_operating_sy.Conversion.{
  Event, put, set_csa, read_width, put_string, put_text, put_error, chars_of,
}
use homework_of_operating_sy.Format.{vprintfmt, format_loop, convert, rewind}
use homework_of_operating_sy.Format.Buffer.{print_buffer, chars, print_buffer_lem}

abbrev output : Option (List Event) → Option (List ℕ)
output none = none
output (some xs) = some (chars_in xs)
  where
    chars_in : List Event → List ℕ
    chars_in [] = []
    chars_in (put c ∷ ys) = c ∷ chars_in ys
    chars_in (set_csa v ∷ ys) = chars_in ys

-- "%-4d|%05x%%%q"
abbrev mixed : Bytes
mixed = chars_of (37 ∷ 45 ∷ 52 ∷ 100 ∷ 124 ∷ 37 ∷ 48 ∷ 53 ∷ 120 ∷ 37 ∷ 37 ∷ 37 ∷ 113 ∷ [])

mixed_text :
    output (vprintfmt 20 mixed 0 (4294967254 ∷ 48879 ∷ []))
    ≡ some (45 ∷ 45 ∷ 45 ∷ 52 ∷ 50 ∷ 124 ∷ 48 ∷ 98 ∷ 101 ∷ 101 ∷ 102 ∷ 37 ∷ 37 ∷ 113 ∷ [])
unfolding vprintfmt format_loop convert read_width put_string put_text put_error printnum strnlen
    rewind
mixed_text = refl

-- "%s!%e", with a string behind the format
abbrev texts : Bytes
texts = chars_of (37 ∷ 115 ∷ 33 ∷ 37 ∷ 101 ∷ 0 ∷ 104 ∷ 105 ∷ 0 ∷ [])

texts_text :
    output (vprintfmt 40 texts 0 (6 ∷ 4294967292 ∷ []))
    ≡ some (
        104 ∷ 105 ∷ 33 ∷ 111 ∷ 117 ∷ 116 ∷ 32 ∷ 111 ∷ 102 ∷ 32 ∷ 109 ∷ 101 ∷ 109 ∷ 111 ∷ 114 ∷ 121
        ∷ [])
unfolding vprintfmt format_loop convert read_width put_string put_text put_error printnum strnlen
    rewind
texts_text = refl

abbrev four : List Event
four = put 97 ∷ put 98 ∷ set_csa 7 ∷ put 99 ∷ put 100 ∷ []

print_buffer_lem_example :
    ((print_buffer four (λ j. 1) 8 3).0 ≡ length (chars four) % 2 ^ 32)
    × ((j : ℕ) → (j < 8) ⊎ (8 + 3 ≤ j) → (print_buffer four (λ j. 1) 8 3).1 j ≡ 1)
    × ((i c : ℕ)
        → get_elem? (chars four) i ≡ some c
        → i < 3 - 1
        → (print_buffer four (λ j. 1) 8 3).1 (8 + i) ≡ c % 2 ^ 8)
    × ((print_buffer four (λ j. 1) 8 3).1
          (8 + (if ltb (length (chars four)) 3 then length (chars four) else 3 - 1))
        ≡ 0)
print_buffer_lem_example = print_buffer_lem four (λ j. 1) 8 3 (omega arith)
