-- ===== src/Format/Buffer.antt =====
-- vsnprintf and sprintputch: the buffer that the output goes into.
use homework_of_operating_sy.Base.{
  ℕ, zero, suc, ◌+◌, ◌-◌, ◌%◌, ◌^◌, ◌<◌, ◌≤◌, ◌≡◌, ◌⊎◌, inl, inr, refl, ◌∙◌, ap, ◌||◌, Option, none,
  some, List, [], ◌∷◌, length, get_elem?, update, ltb, leb, ◌==◌, if◌then◌else◌, Bool-cases, arith,
}
use homework_of_operating_sy.Kernel.{Ret, ret, fail, e_inval}
use homework_of_operating_sy.Strings.{Bytes}
use homework_of_operating_sy.Conversion.{Event, put, set_csa, negative}
use homework_of_operating_sy.Format.{vprintfmt}

-- `struct sprintbuf`, with the memory
pub record Sprintbuf : Type 0 where
  pub memory : Bytes
  pub buf : ℕ
  pub ebuf : ℕ
  pub cnt : ℕ

unfoldable pub sprintputch : ℕ → Sprintbuf → Sprintbuf
sprintputch ch b =
    let counted = (b.cnt + 1) % 2 ^ 32 in
    if ltb b.buf b.ebuf
    then record b { cnt = counted; memory = update b.memory b.buf (ch % 2 ^ 8); buf = b.buf + 1 }
    else record b { cnt = counted }

-- The calls of sprintputch; `csa` is no part of the buffer.
unfoldable pub print_all : List Event → Sprintbuf → Sprintbuf
unfolding sprintputch
print_all [] b = b
print_all (put c ∷ xs) b = print_all xs (sprintputch c b)
print_all (set_csa v ∷ xs) b = print_all xs b

-- The printing of a list of events by vsnprintf, with the null byte
unfoldable pub print_buffer : List Event → Bytes → ℕ → ℕ → ℕ × Bytes
unfolding print_all
print_buffer xs m buf n =
    let b = print_all xs (record { memory = m; buf = buf; ebuf = buf + n - 1; cnt = 0 }) in
    (b.cnt, update b.memory b.buf 0)

abbrev pub printed : Option (List Event) → Bytes → ℕ → ℕ → Option (Ret ℕ × Bytes)
printed none m buf n = none
printed (some xs) m buf n = let r = print_buffer xs m buf n in some (ret r.0, r.1)

-- vsnprintf, whose buffer is apart from what the format reads
unfoldable pub vsnprintf : ℕ → Bytes → ℕ → ℕ → ℕ → List ℕ → Option (Ret ℕ × Bytes)
unfolding vprintfmt
vsnprintf fuel m buf n fmt ap =
    if buf == 0 || n == 0 || negative n
    then some (fail e_inval, m)
    else printed (vprintfmt fuel m fmt ap) m buf n

-- The chars of the output
unfoldable pub chars : List Event → List ℕ
chars [] = []
chars (put c ∷ xs) = c ∷ chars xs
chars (set_csa v ∷ xs) = chars xs

-- What the calls do to a buffer
record Printed (cs : List ℕ) (b b' : Sprintbuf) : Type 0 where
  same_end : b'.ebuf ≡ b.ebuf
  counted : b'.cnt ≡ (b.cnt + length cs) % 2 ^ 32
  place : b'.buf ≡ (if leb (b.buf + length cs) b.ebuf then b.buf + length cs else b.ebuf)
  kept : (j : ℕ) → (j < b.buf) ⊎ (b.ebuf ≤ j) → b'.memory j ≡ b.memory j
  written :
      (i c : ℕ) → get_elem? cs i ≡ some c → b.buf + i < b.ebuf → b'.memory (b.buf + i) ≡ c % 2 ^ 8

-- A char that has room, and one that has not
abbrev into : ℕ → Sprintbuf → Sprintbuf
into ch b = record b {
  cnt = (b.cnt + 1) % 2 ^ 32;
  memory = update b.memory b.buf (ch % 2 ^ 8);
  buf = b.buf + 1;
}

abbrev over : Sprintbuf → Sprintbuf
over b = record b { cnt = (b.cnt + 1) % 2 ^ 32 }

room_Printed :
    (c : ℕ) (cs : List ℕ) {b b' : Sprintbuf}
    → b.buf < b.ebuf
    → Printed cs (into c b) b'
    → Printed (c ∷ cs) b b'
room_Printed c cs {b} {b'} room p = record {
  same_end = p.same_end;
  counted = omega (arith, p.counted);
  place = ground (arith, p.place, room);
  kept = λ j h. ground (arith, p.kept j, h);
  written = at_place;
}
  where
    at_place :
        (i d : ℕ)
        → get_elem? (c ∷ cs) i ≡ some d
        → b.buf + i < b.ebuf
        → b'.memory (b.buf + i) ≡ d % 2 ^ 8
    at_place zero d e h =
        let first : b'.memory b.buf ≡ c % 2 ^ 8 = p.kept b.buf (inl (omega arith)) ∙ ground arith in
        ground (arith, first, e)
    at_place (suc i) d e h =
        let same : b.buf + suc i ≡ b.buf + 1 + i = omega arith in
        ap b'.memory same ∙ p.written i d e (omega (arith, h))

full_Printed :
    (c : ℕ) (cs : List ℕ) {b b' : Sprintbuf}
    → b.buf ≡ b.ebuf
    → Printed cs (over b) b'
    → Printed (c ∷ cs) b b'
full_Printed c cs {b} {b'} full p = record {
  same_end = p.same_end;
  counted = omega (arith, p.counted);
  place = ground (arith, p.place, full);
  kept = p.kept;
  written = λ i d e h. absurd (omega (arith, full, h));
}

print_all_lem :
    (xs : List Event) (b : Sprintbuf)
    → b.cnt < 2 ^ 32
    → b.buf ≤ b.ebuf
    → Printed (chars xs) b (print_all xs b)
unfolding print_all chars
print_all_lem [] b small le = record {
  same_end = refl;
  counted = omega (arith, small);
  place = ground (arith, le);
  kept = λ j h. refl;
  written = λ i c e h. ground (arith, e);
}
print_all_lem (set_csa v ∷ xs) b small le = print_all_lem xs b small le
print_all_lem (put c ∷ xs) b small le = elim (Bool-cases (ltb b.buf b.ebuf)) [
  | inl room ↦
      rw (room, sprintputch)
        (room_Printed c (chars xs) (ground (arith, room))
          (print_all_lem xs (into c b) (omega arith) (ground (arith, room))))
  | inr full ↦
      rw (full, sprintputch)
        (full_Printed c (chars xs) (ground (arith, full, le))
          (print_all_lem xs (over b) (omega arith) le))
]

-- An index with an element is below the length.
within : (cs : List ℕ) (i c : ℕ) → get_elem? cs i ≡ some c → i < length cs
within [] i c e = ground (arith, e)
within (d ∷ cs) zero c e = omega arith
within (d ∷ cs) (suc i) c e = omega (arith, within cs i c e)

-- For every output, a buffer of at least one byte: the result is the number of chars modulo 2 ^ 32; nothing outside the `n` bytes of the buffer is changed;
-- the chars that fit, all but the last byte, are in the buffer in order; and a null byte ends them.
pub print_buffer_lem :
    (xs : List Event) (m : Bytes) (buf n : ℕ)
    → 1 ≤ n
    → ((print_buffer xs m buf n).0 ≡ length (chars xs) % 2 ^ 32)
      × ((j : ℕ) → (j < buf) ⊎ (buf + n ≤ j) → (print_buffer xs m buf n).1 j ≡ m j)
      × ((i c : ℕ)
          → get_elem? (chars xs) i ≡ some c
          → i < n - 1
          → (print_buffer xs m buf n).1 (buf + i) ≡ c % 2 ^ 8)
      × ((print_buffer xs m buf n).1
            (buf + (if ltb (length (chars xs)) n then length (chars xs) else n - 1))
          ≡ 0)
unfolding print_buffer
print_buffer_lem xs m buf n some_room =
    let p =
      print_all_lem xs (record { memory = m; buf = buf; ebuf = buf + n - 1; cnt = 0 }) (omega arith)
        (omega (arith, some_room)) in
    (
      omega (arith, p.counted),
      λ j h.
          let before = p.kept j (ground (arith, h, some_room)) in
          ground (arith, before, p.place, h, some_room),
      λ i c e h.
          let there = p.written i c e (omega (arith, h)) in
          ground (arith, there, p.place, h, within (chars xs) i c e),
      ground (arith, p.place, some_room),
    )
