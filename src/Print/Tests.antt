-- ===== src/Print/Tests.antt =====
-- "%d!" text_of by a program and by the kernel.
use homework_of_operating_sy.Base.{ℕ, ◌≡◌, ◌<◌, ◌%◌, ◌^◌, refl, some, List, [], ◌∷◌, length, All}
use homework_of_operating_sy.Strings.{Bytes}
use homework_of_operating_sy.Numbers.{printnum}
use homework_of_operating_sy.Conversion.{Event, put, set_csa, chars_of}
use homework_of_operating_sy.Format.{vprintfmt, format_loop, convert}
use homework_of_operating_sy.Format.Buffer.{chars}
use homework_of_operating_sy.Print.Chunks.{concat, bytes, print_out_lem}
use homework_of_operating_sy.Print.{
  vcprintf, kernel_vcprintf, kernel_chars, print_out, put_all, putch, text_of,
}

abbrev number_format : Bytes
number_format = chars_of (37 ∷ 100 ∷ 33 ∷ [])

by_program : vcprintf 9 number_format 0 (42 ∷ []) ≡ some ((52 ∷ 50 ∷ 33 ∷ []) ∷ [], 3)
unfolding vcprintf vprintfmt format_loop convert printnum print_out put_all putch text_of
by_program = refl

-- The kernel's result is not the number of chars.
by_kernel : kernel_vcprintf 9 number_format 0 (42 ∷ []) ≡ some (52 ∷ 50 ∷ 33 ∷ [], 0)
unfolding kernel_vcprintf vprintfmt format_loop convert printnum kernel_chars
by_kernel = refl

abbrev two : List Event
two = put 97 ∷ set_csa 7 ∷ put 353 ∷ []

print_out_lem_example :
    (concat (print_out two).0 ≡ bytes (chars two))
    × All (λ (x : List ℕ). length x < 256) (print_out two).0
    × ((print_out two).1 ≡ length (chars two) % 2 ^ 32)
print_out_lem_example = print_out_lem two
