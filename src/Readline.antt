-- ===== src/Readline.antt =====
-- The line input of OSLab7-Mitjoslab4/lib/readline.c. What getchar returns is a list, in which a negative
-- result is an error; the echo is not modelled.
mod Tests
use homework_of_operating_sy.Base.{
  ℕ, ◌+◌, ◌-◌, ◌%◌, ◌^◌, ◌<◌, ◌≤◌, ◌≡◌, refl, Bool-cases, inl, inr, ◌&&◌, ◌||◌, Option, none, some,
  List, [], ◌∷◌, leb, ltb, ◌==◌, ◌!=◌, if◌then◌else◌, update, arith,
}

abbrev pub buflen : ℕ
buflen = 1024

-- `buf` and `i`
pub record Line : Type 0 where
  pub buf : ℕ → ℕ
  pub i : ℕ

-- How readline stands: still reading, NULL after an error, or the line.
pub data Reading : Type 0 where
  more : Line → Reading
  null : Line → Reading
  done : Line → Reading

-- The loop body of readline, for the result `c` of getchar
unfoldable pub key : Option ℕ → Line → Reading
key none s = null s
key (some c) s =
    if (c == 8 || c == 127) && s.i != 0
    then more (record s { i = s.i - 1 })
    else (if leb 32 c && ltb s.i (buflen - 1)
        then more (record s { buf = update s.buf s.i (c % 2 ^ 8); i = s.i + 1 })
        else (if c == 10 || c == 13 then done (record s { buf = update s.buf s.i 0 }) else more s))

unfoldable pub read_keys : List (Option ℕ) → Reading → Reading
unfolding key
read_keys [] r = r
read_keys (c ∷ cs) (more s) = read_keys cs (key c s)
read_keys (c ∷ cs) (null s) = null s
read_keys (c ∷ cs) (done s) = done s

unfoldable pub readline : List (Option ℕ) → (ℕ → ℕ) → Reading
unfolding read_keys
readline cs buf = read_keys cs (more (record { buf = buf; i = 0 }))

-- Nothing behind the buffer is changed, and the index is inside; a finished line ends in a null byte.
abbrev pub Safe : (ℕ → ℕ) → Line → Type 0
Safe b s = (s.i < buflen) × ((j : ℕ) → buflen ≤ j → s.buf j ≡ b j)

abbrev pub InBuffer : (ℕ → ℕ) → Reading → Type 0
InBuffer b (more s) = Safe b s
InBuffer b (null s) = Safe b s
InBuffer b (done s) = Safe b s × (s.buf s.i ≡ 0)

key_lem : (b : ℕ → ℕ) (c : Option ℕ) (s : Line) → Safe b s → InBuffer b (key c s)
unfolding key
key_lem b none s h = h
key_lem b (some c) s (p, m) = elim (Bool-cases ((c == 8 || c == 127) && s.i != 0)) [
  | inl back ↦ rw back (omega (arith, p), m)
  | inr e ↦ elim (Bool-cases (leb 32 c && ltb s.i (buflen - 1))) [
    | inl put ↦ rw (e, put) (ground (arith, put), λ j h. ground (arith, m j h, put))
    | inr f ↦ elim (Bool-cases (c == 10 || c == 13)) [
      | inl end ↦ rw (e, f, end) ((p, λ j h. ground (arith, m j h, p)), ground arith)
      | inr g ↦ rw (e, f, g) (p, m)
    ]
  ]
]

keys_lem :
    (b : ℕ → ℕ) (cs : List (Option ℕ)) (r : Reading) → InBuffer b r → InBuffer b (read_keys cs r)
unfolding read_keys
keys_lem b [] r h = h
keys_lem b (c ∷ cs) (more s) h = keys_lem b cs (key c s) (key_lem b c s h)
keys_lem b (c ∷ cs) (null s) h = h
keys_lem b (c ∷ cs) (done s) h = h

-- readline on any input writes nothing behind its buffer of 1024 bytes and keeps its index inside;
-- a line that it returns ends in a null byte in the buffer.
pub readline-InBuffer : (cs : List (Option ℕ)) (buf : ℕ → ℕ) → InBuffer buf (readline cs buf)
unfolding readline
readline-InBuffer cs buf =
    keys_lem buf cs (more (record { buf = buf; i = 0 })) (omega arith, λ j h. refl)
