-- ===== src/Format.antt =====
-- Formatted output, vprintfmt and vsnprintf of OSLab7-Mitjoslab4/lib/printfmt.c. What `putch` gets and what `csa` is set to
-- is a list of events; an int is its bit pattern. An argument is a number, of which va_arg takes the size that it
-- asks for; there is no result where an argument is missing.
pub mod Buffer
mod Tests
use homework_of_operating_sy.Base.{
  ℕ, zero, suc, ◌+◌, ◌-◌, ◌*◌, ◌%◌, ◌^◌, Bool, true, false, not, ◌&&◌, ◌||◌, Option, none, some,
  List, [], ◌∷◌, ◌++◌, map, get_elem?, leb, ltb, ◌==◌, if◌then◌else◌,
}
use homework_of_operating_sy.Strings.{Bytes, strnlen}
use homework_of_operating_sy.Numbers.{printnum, padding}
use homework_of_operating_sy.Conversion.{
  Event, Conv, conv, error_string, maxerror, error_text, null_text, Spec, int_max, minus_one,
  negative, rounds, new_spec, process_precision, read_width, getuint, getint, chars_at,
  byte_or_null, chars_of, char_code, shown, with_first, put_text, with_spaces, behind, put_string,
  put_chars, number, signed_number, reset_csa, closed, put_error, put, set_csa, minus, zero_pad,
  digit, star, dot, sharp, long, char, error, string, decimal, unsigned, octal, pointer,
  hexadecimal, percent, colour, other,
}

-- The loop reads text, or an escape sequence.
pub data Mode : Type 0 where
  text : Mode
  escape : Spec → Mode

-- What one char leads to: the end, the next place and arguments with what was put, or no result
pub data Next : Type 0 where
  finish stuck : Next
  go : List Event → Mode → ℕ → List ℕ → Next

-- The end of an escape sequence, by what it puts
abbrev pub shows : ℕ → List ℕ → Option (List Event) → Next
shows fmt ap none = stuck
shows fmt ap (some xs) = go xs text fmt ap

-- va_arg
abbrev pub with_arg : List ℕ → (ℕ → List ℕ → Next) → Next
with_arg [] f = stuck
with_arg (v ∷ ap) f = f v ap

-- The precision or width that read_width has read
abbrev pub with_width : Spec → List ℕ → Option (ℕ × ℕ) → Next
with_width s ap none = stuck
with_width s ap (some (v, fmt)) = go [] (escape (process_precision v s)) fmt ap

-- The loop of the default case, back to just behind the %
unfoldable pub rewind : Bytes → ℕ → ℕ
rewind m zero = 0
rewind m (suc fmt) = let rest = rewind m fmt in if m fmt == 37 then suc fmt else rest

-- The switch, for char `ch`, which is in front of `fmt`
unfoldable pub convert : ℕ → Bytes → Spec → ℕ → ℕ → List ℕ → Conv → Next
unfolding read_width put_string put_error printnum rewind
convert fuel m s ch fmt ap minus = go [] (escape (record s { padc = 45 })) fmt ap
convert fuel m s ch fmt ap zero_pad = go [] (escape (record s { padc = 48 })) fmt ap
convert fuel m s ch fmt ap digit = with_width s ap (read_width fuel m ch 0 fmt)
convert fuel m s ch fmt ap star =
    with_arg ap λ v rest. go [] (escape (process_precision (v % 2 ^ 32) s)) fmt rest
convert fuel m s ch fmt ap dot =
    go [] (escape (record s { width = if negative s.width then 0 else s.width })) fmt ap
convert fuel m s ch fmt ap sharp = go [] (escape (record s { altflag = true })) fmt ap
convert fuel m s ch fmt ap long = go [] (escape (record s { lflag = s.lflag + 1 })) fmt ap
convert fuel m s ch fmt ap char = with_arg ap λ v rest. go (put (v % 2 ^ 32) ∷ []) text fmt rest
convert fuel m s ch fmt ap error =
    with_arg ap λ v rest. shows fmt rest (put_error fuel (v % 2 ^ 32))
convert fuel m s ch fmt ap string = with_arg ap λ p rest.
    shows fmt rest (put_string fuel s (if p == 0 then chars_of null_text else chars_at m p))
convert fuel m s ch fmt ap decimal =
    with_arg ap λ v rest. shows fmt rest (signed_number s (getint s.lflag v))
convert fuel m s ch fmt ap unsigned =
    with_arg ap λ v rest. shows fmt rest (number s 10 (getuint s.lflag v))
convert fuel m s ch fmt ap octal =
    with_arg ap λ v rest. shows fmt rest (number s 8 (getuint s.lflag v))
convert fuel m s ch fmt ap pointer =
    with_arg ap λ v rest. shows fmt rest (behind (put 48 ∷ put 120 ∷ []) (number s 16 (v % 2 ^ 32)))
convert fuel m s ch fmt ap hexadecimal =
    with_arg ap λ v rest. shows fmt rest (number s 16 (getuint s.lflag v))
convert fuel m s ch fmt ap percent = go (put ch ∷ []) text fmt ap
convert fuel m s ch fmt ap colour =
    with_arg ap λ v rest. go (set_csa (getint s.lflag v % 2 ^ 32) ∷ []) text fmt rest
convert fuel m s ch fmt ap other = go (put 37 ∷ []) text (rewind m (fmt - 1)) ap

-- One char of the format
abbrev pub next : ℕ → Bytes → Mode → ℕ → List ℕ → Next
next fuel m text fmt ap =
    if m fmt == 37
    then go [] (escape new_spec) (fmt + 1) ap
    else (if m fmt == 0 then finish else go (put (m fmt) ∷ []) text (fmt + 1) ap)
next fuel m (escape s) fmt ap = convert fuel m s (m fmt) (fmt + 1) ap (conv (m fmt))

-- The loop, with a bound on the chars that it reads
unfoldable pub format_loop : ℕ → Bytes → Mode → ℕ → List ℕ → Option (List Event)
unfolding convert
format_loop zero m mode fmt ap = none
format_loop (suc fuel) m mode fmt ap = elim (next (suc fuel) m mode fmt ap) [
  | finish ↦ some (reset_csa ∷ [])
  | stuck ↦ none
  | go xs mode' fmt' ap' ↦ behind xs (format_loop fuel m mode' fmt' ap')
]

unfoldable pub vprintfmt : ℕ → Bytes → ℕ → List ℕ → Option (List Event)
unfolding format_loop
vprintfmt fuel m fmt ap = format_loop fuel m text fmt ap
