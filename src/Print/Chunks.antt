-- ===== src/Print/Chunks.antt =====
-- The texts that vcprintf gives to sys_cputs, against the output as a whole.
use homework_of_operating_sy.Base.{
  ℕ, zero, suc, ◌+◌, ◌%◌, ◌^◌, ◌<◌, ◌≤◌, ◌≡◌, refl, ap, sym, ◌∙◌, inl, inr, Bool-cases, List, [],
  ◌∷◌, ◌++◌, map, All, length, length-append, ◌==◌, update, arith,
}
use mathlib.Core.List.{append-nil, append_assoc}
use homework_of_operating_sy.Conversion.{Event, put, set_csa}
use homework_of_operating_sy.Format.Buffer.{chars}
use homework_of_operating_sy.Print.{
  Printbuf, Printing, text_of, with_char, putch, put_all, empty_buffer, print_out,
}

unfoldable pub concat : List (List ℕ) → List ℕ
concat [] = []
concat (x ∷ xs) = x ++ concat xs

concat-append : (xs ys : List (List ℕ)) → concat (xs ++ ys) ≡ concat xs ++ concat ys
unfolding concat
concat-append [] ys = refl
concat-append (x ∷ xs) ys =
    ap (λ (zs : List ℕ). x ++ zs) (concat-append xs ys)
    ∙ sym (append_assoc x (concat xs) (concat ys))

concat_last : (xs : List (List ℕ)) (y : List ℕ) → concat (xs ++ (y ∷ [])) ≡ concat xs ++ y
unfolding concat
concat_last xs y = concat-append xs (y ∷ []) ∙ ap (λ (zs : List ℕ). concat xs ++ zs) (append-nil y)

-- The chars as bytes
abbrev pub bytes : List ℕ → List ℕ
bytes = map (λ c. c % 2 ^ 8)

-- A write behind the text leaves it.
text_of-update : (buf : ℕ → ℕ) (at v n : ℕ) → n ≤ at → text_of (update buf at v) n ≡ text_of buf n
unfolding text_of
text_of-update buf at v zero h = refl
text_of-update buf at v (suc n) h =
    let before = text_of-update buf at v n (omega (arith, h)) in
    let same : update buf at v n ≡ buf n = ground (arith, h) in rw (before, same) refl

length-text_of : (buf : ℕ → ℕ) (n : ℕ) → length (text_of buf n) ≡ n
unfolding text_of
length-text_of buf zero = refl
length-text_of buf (suc n) =
    omega (arith, length-append (text_of buf n) (buf n ∷ []), length-text_of buf n)

-- The text that a state stands for: what is text_of, and what is in the buffer
abbrev whole : Printing → List ℕ
whole (out, b) = concat out ++ text_of b.buf b.idx

abbrev Short : List (List ℕ) → Type 0
Short = All (λ (x : List ℕ). length x < 256)

record Inv (p : Printing) : Type 0 where
  room : p.1.idx < 255
  short : Short p.0

All-append : (P : List ℕ → Type 0) (xs ys : List (List ℕ)) → All P xs → All P ys → All P (xs ++ ys)
All-append P [] ys a b = b
All-append P (x ∷ xs) ys a b = (a.0, All-append P xs ys a.1 b)

stored_text :
    (ch : ℕ) (b : Printbuf)
    → text_of (with_char ch b).buf (b.idx + 1) ≡ text_of b.buf b.idx ++ (ch % 2 ^ 8 ∷ [])
unfolding text_of
stored_text ch b =
    let next : b.idx + 1 ≡ suc b.idx = omega arith in
    let last : (with_char ch b).buf b.idx ≡ ch % 2 ^ 8 = ground arith in
    ap (text_of (with_char ch b).buf) next
    ∙ rw (text_of-update b.buf b.idx (ch % 2 ^ 8) b.idx (omega arith), last) refl

-- What one call keeps and adds
record Adds (ch : ℕ) (p p' : Printing) : Type 0 where
  inv : Inv p'
  text : whole p' ≡ whole p ++ (ch % 2 ^ 8 ∷ [])
  count : p'.1.cnt ≡ (p.1.cnt + 1) % 2 ^ 32

putch-Adds : (ch : ℕ) (p : Printing) → Inv p → Adds ch p (putch ch p)
unfolding putch
putch-Adds ch (out, b) v = elim (Bool-cases (b.idx + 1 == 255)) [
  | inl full ↦ rw full record {
    inv = record {
      room = omega arith;
      short =
          All-append (λ (x : List ℕ). length x < 256) out _ v.short
            (omega (arith, length-text_of (with_char ch b).buf (b.idx + 1), v.room), tt);
    };
    text = append-nil _ ∙ concat_last out _ ∙ longer;
    count = refl;
  }
  | inr more ↦ rw more record {
    inv = record { room = ground (arith, more, v.room); short = v.short };
    text = longer;
    count = refl;
  }
]
  where
    longer :
        concat out ++ text_of (with_char ch b).buf (b.idx + 1) ≡ whole (out, b) ++ (ch % 2 ^ 8 ∷ [])
    longer =
        ap (λ (t : List ℕ). concat out ++ t) (stored_text ch b)
        ∙ sym (append_assoc (concat out) (text_of b.buf b.idx) (ch % 2 ^ 8 ∷ []))

record Printed (cs : List ℕ) (p p' : Printing) : Type 0 where
  inv : Inv p'
  text : whole p' ≡ whole p ++ bytes cs
  count : p'.1.cnt ≡ (p.1.cnt + length cs) % 2 ^ 32

put_all-Printed :
    (xs : List Event) (p : Printing)
    → Inv p
    → p.1.cnt < 2 ^ 32
    → Printed (chars xs) p (put_all xs p)
unfolding put_all chars
put_all-Printed [] p v small = record {
  inv = v;
  text = sym (append-nil (whole p));
  count = omega (arith, small);
}
put_all-Printed (set_csa c ∷ xs) p v small = put_all-Printed xs p v small
put_all-Printed (put c ∷ xs) p v small =
    let a : Adds c p (putch c p) = putch-Adds c p v in
    let r : Printed (chars xs) (putch c p) (put_all xs (putch c p)) =
      put_all-Printed xs (putch c p) a.inv (omega (arith, a.count)) in
    record {
      inv = r.inv;
      text =
          r.text
          ∙ ap (λ (t : List ℕ). t ++ bytes (chars xs)) a.text
          ∙ append_assoc (whole p) (c % 2 ^ 8 ∷ []) (bytes (chars xs));
      count = omega (arith, r.count, a.count);
    }

-- For every output, the texts that vcprintf of the user library gives to sys_cputs, one after the other, are the chars of the output as bytes, each text
-- fits into the buffer of 256 bytes, and the result is the number of chars modulo 2 ^ 32.
pub print_out_lem :
    (xs : List Event)
    → (concat (print_out xs).0 ≡ bytes (chars xs))
      × All (λ (x : List ℕ). length x < 256) (print_out xs).0
      × ((print_out xs).1 ≡ length (chars xs) % 2 ^ 32)
unfolding print_out concat text_of
print_out_lem xs =
    let r : Printed (chars xs) ([], empty_buffer) (put_all xs ([], empty_buffer)) =
      put_all-Printed xs ([], empty_buffer) (record { room = omega arith; short = tt })
        (omega arith) in
    let b = (put_all xs ([], empty_buffer)).1 in
    (
      concat_last (put_all xs ([], empty_buffer)).0 (text_of b.buf b.idx) ∙ r.text,
      All-append (λ (x : List ℕ). length x < 256) _ _ r.inv.short
          (omega (arith, length-text_of b.buf b.idx, r.inv.room), tt),
      omega (arith, r.count),
    )
