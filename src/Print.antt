-- ===== src/Print.antt =====
-- cprintf for user programs, OSLab7-Mitjoslab4/lib/printf.c, as the texts given to sys_cputs, and for the kernel,
-- kern/printf.c, as the chars given to cputchar.
pub mod Chunks
mod Tests
use homework_of_operating_sy.Base.{
  ℕ, zero, suc, ◌+◌, ◌-◌, ◌%◌, ◌^◌, Option, none, some, List, [], ◌∷◌, ◌++◌, ◌==◌, if◌then◌else◌,
  update,
}
use homework_of_operating_sy.Strings.{Bytes}
use homework_of_operating_sy.Conversion.{Event, put, set_csa}
use homework_of_operating_sy.Format.{vprintfmt}

-- `struct printbuf`
pub record Printbuf : Type 0 where
  pub idx : ℕ
  pub cnt : ℕ
  pub buf : ℕ → ℕ

-- The text that sys_cputs(b->buf, n) prints
unfoldable pub text_of : (ℕ → ℕ) → ℕ → List ℕ
text_of buf zero = []
text_of buf (suc n) = text_of buf n ++ (buf n ∷ [])

-- The texts of the system calls so far, and the buffer
abbrev pub Printing : Type 0
Printing = List (List ℕ) × Printbuf

-- `b->buf[b->idx++] = ch`, and `b->cnt++`
abbrev pub with_char : ℕ → Printbuf → Printbuf
with_char ch b = record b {
  idx = b.idx + 1;
  cnt = (b.cnt + 1) % 2 ^ 32;
  buf = update b.buf b.idx (ch % 2 ^ 8);
}

unfoldable pub putch : ℕ → Printing → Printing
unfolding text_of
putch ch (out, b) =
    if b.idx + 1 == 256 - 1
    then (
      out ++ (text_of (with_char ch b).buf (b.idx + 1) ∷ []),
      record (with_char ch b) { idx = 0 },
    )
    else (out, with_char ch b)

-- The calls of putch
unfoldable pub put_all : List Event → Printing → Printing
unfolding putch
put_all [] p = p
put_all (put c ∷ xs) p = put_all xs (putch c p)
put_all (set_csa v ∷ xs) p = put_all xs p

abbrev pub empty_buffer : Printbuf
empty_buffer = record { idx = 0; cnt = 0; buf = λ i. 0 }

-- vcprintf once the output is known: the texts of all system calls, and the result
unfoldable pub print_out : List Event → List (List ℕ) × ℕ
unfolding put_all text_of
print_out xs =
    let p = put_all xs ([], empty_buffer) in (p.0 ++ (text_of p.1.buf p.1.idx ∷ []), p.1.cnt)

abbrev pub printed_out : Option (List Event) → Option (List (List ℕ) × ℕ)
printed_out none = none
printed_out (some xs) = some (print_out xs)

unfoldable pub vcprintf : ℕ → Bytes → ℕ → List ℕ → Option (List (List ℕ) × ℕ)
unfolding vprintfmt print_out
vcprintf fuel m fmt ap = printed_out (vprintfmt fuel m fmt ap)

-- The kernel's putch: the char, and the pointer `cnt`, which `*cnt++` moves on; what it points to stays
abbrev pub kernel_putch : ℕ → List ℕ × ℕ → List ℕ × ℕ
kernel_putch ch (out, cnt) = (out ++ (ch ∷ []), cnt + 1)

-- The chars of the kernel's vcprintf, and its result, the `cnt` that no call has changed
unfoldable pub kernel_chars : List Event → List ℕ × ℕ → List ℕ
kernel_chars [] s = s.0
kernel_chars (put c ∷ xs) s = kernel_chars xs (kernel_putch c s)
kernel_chars (set_csa v ∷ xs) s = kernel_chars xs s

abbrev pub kernel_out : Option (List Event) → Option (List ℕ × ℕ)
kernel_out none = none
kernel_out (some xs) = some (kernel_chars xs ([], 0), 0)

unfoldable pub kernel_vcprintf : ℕ → Bytes → ℕ → List ℕ → Option (List ℕ × ℕ)
unfolding vprintfmt kernel_chars
kernel_vcprintf fuel m fmt ap = kernel_out (vprintfmt fuel m fmt ap)
