-- ===== src/Console.antt =====
-- The input buffer and the text screen of OSLab7-Mitjoslab4/kern/console.c. The characters that a device
-- routine returns until it returns -1 are a list; the output ports are not modelled.
pub mod Queue
pub mod Screen
mod Tests
use homework_of_operating_sy.Base.{
  ℕ, zero, suc, ◌+◌, ◌-◌, ◌*◌, ◌/◌, ◌%◌, ◌^◌, bit_or, List, [], ◌∷◌, leb, ltb, ◌==◌, if◌then◌else◌,
  update,
}

abbrev pub consbufsize : ℕ
consbufsize = 512

-- `cons`
pub record Cons : Type 0 where
  pub buf : ℕ → ℕ
  pub rpos : ℕ
  pub wpos : ℕ

-- A position moved on by one, with its reset at the end of the buffer
abbrev pub advance : ℕ → ℕ
advance p = if p + 1 == consbufsize then 0 else p + 1

-- The body of the loop of cons_intr for a character that is not -1
unfoldable pub feed : ℕ → Cons → Cons
feed c s =
    if c == 0 then s else record s { buf = update s.buf s.wpos (c % 2 ^ 8); wpos = advance s.wpos }

unfoldable pub cons_intr : List ℕ → Cons → Cons
unfolding feed
cons_intr [] s = s
cons_intr (c ∷ cs) s = cons_intr cs (feed c s)

-- cons_getc after its polls
unfoldable pub next_char : Cons → ℕ × Cons
next_char s =
    if s.rpos == s.wpos then (0, s) else (s.buf s.rpos, record s { rpos = advance s.rpos })

-- cons_getc, with what the serial port and the keyboard have to give
unfoldable pub cons_getc : List ℕ → List ℕ → Cons → ℕ × Cons
unfolding cons_intr next_char
cons_getc serial keyboard s = next_char (cons_intr keyboard (cons_intr serial s))

abbrev pub crt_cols : ℕ
crt_cols = 80

abbrev pub crt_size : ℕ
crt_size = 25 * 80

-- crt_buf, crt_pos and csa
pub record Crt : Type 0 where
  pub crt_buf : ℕ → ℕ
  pub crt_pos : ℕ
  pub csa : ℕ

-- The end of cga_putc: the screen moves up by a line when the position has left it.
unfoldable pub scroll : Crt → Crt
scroll s =
    if leb crt_size s.crt_pos
    then record s {
      crt_buf = λ i.
          if ltb i (crt_size - crt_cols)
          then s.crt_buf (i + crt_cols)
          else (if ltb i crt_size then 0x0700 + 32 else s.crt_buf i);
      crt_pos = s.crt_pos - crt_cols;
    }
    else s

-- The cases of the switch in cga_putc but for the tab
unfoldable pub put_plain : ℕ → Crt → Crt
put_plain c s =
    if c % 2 ^ 8 == 8
    then (if s.crt_pos == 0 then s else record s {
      crt_buf = update s.crt_buf (s.crt_pos - 1) ((c - c % 2 ^ 8 + 32) % 2 ^ 16);
      crt_pos = s.crt_pos - 1;
    })
    else (if c % 2 ^ 8 == 10
        then (let p = (s.crt_pos + crt_cols) % 2 ^ 16 in record s { crt_pos = p - p % crt_cols })
        else (if c % 2 ^ 8 == 13
            then record s { crt_pos = s.crt_pos - s.crt_pos % crt_cols }
            else record s {
              crt_buf = update s.crt_buf s.crt_pos (c % 2 ^ 16);
              crt_pos = (s.crt_pos + 1) % 2 ^ 16;
            }))

-- The default attribute, and the character with its attribute
abbrev pub with_csa : Crt → Crt
with_csa s = if s.csa == 0 then record s { csa = 0x0700 } else s

abbrev pub coloured : ℕ → Crt → ℕ
coloured c s = if c / 2 ^ 8 == 0 then bit_or c s.csa else c

-- cga_putc of a character that is not a tab
unfoldable pub put_one : ℕ → Crt → Crt
unfolding scroll put_plain
put_one c s = scroll (put_plain (coloured c (with_csa s)) (with_csa s))

unfoldable pub blanks : ℕ → Crt → Crt
unfolding put_one
blanks zero s = s
blanks (suc n) s = blanks n (put_one 32 s)

-- cga_putc; a tab is five blanks
unfoldable pub cga_putc : ℕ → Crt → Crt
unfolding put_one blanks scroll
cga_putc c s = if c % 2 ^ 8 == 9 then scroll (blanks 5 (with_csa s)) else put_one c s
