-- ===== src/Console/Queue.antt =====
-- The input buffer is a queue.
use homework_of_operating_sy.Base.{ℕ, ◌+◌, ◌%◌, ◌^◌, ◌<◌, ◌≡◌, ◌≢◌, update, arith}
use homework_of_operating_sy.Console.{Cons, consbufsize, feed, next_char}

-- The buffer holds `n` characters, of which `q i` comes in i-th place.
pub record Holds (n : ℕ) (q : ℕ → ℕ) (s : Cons) : Type 0 where
  pub start : s.rpos < consbufsize
  pub room : n < consbufsize
  pub end : s.wpos ≡ (s.rpos + n) % consbufsize
  pub each : (i : ℕ) → i < n → s.buf ((s.rpos + i) % consbufsize) ≡ q i

-- While fewer than 511 characters wait, a character that a device gives is put in the last place.
feed_lem :
    (n : ℕ) (q : ℕ → ℕ) (s : Cons) (c : ℕ)
    → Holds n q s
    → n + 1 < consbufsize
    → c ≢ 0
    → Holds (n + 1) (update q n (c % 2 ^ 8)) (feed c s)
unfolding feed
feed_lem n q s c h r nz = record {
  start = ground (arith, h.start, nz);
  room = r;
  end = ground (arith, h.end, h.start, nz);
  each = λ i l. ground (arith, h.each i, h.end, h.start, nz);
}

-- cons_getc takes the first of the waiting characters and leaves the others in their order.
next_char_lem :
    (n : ℕ) (q : ℕ → ℕ) (s : Cons)
    → Holds (n + 1) q s
    → ((next_char s).0 ≡ q 0) × Holds n (λ i. q (i + 1)) (next_char s).1
unfolding next_char
next_char_lem n q s h = (
  ground (arith, h.each 0, h.end, h.start, h.room),
  record {
    start = ground (arith, h.start);
    room = ground (arith, h.room);
    end = ground (arith, h.end, h.start, h.room);
    each = λ i l. ground (arith, h.each (i + 1), h.end, h.start, h.room);
  },
)

-- A character other than the null byte is put behind the waiting ones, where there is room; cons_getc then takes
-- the first of them, and leaves the others in their order.
pub next_char-feed :
    (n : ℕ) (q : ℕ → ℕ) (s : Cons) (c : ℕ)
    → Holds n q s
    → n + 1 < consbufsize
    → c ≢ 0
    → Holds (n + 1) (update q n (c % 2 ^ 8)) (feed c s)
      × ((next_char (feed c s)).0 ≡ update q n (c % 2 ^ 8) 0)
      × Holds n (λ i. update q n (c % 2 ^ 8) (i + 1)) (next_char (feed c s)).1
next_char-feed n q s c h room char =
    let put = feed_lem n q s c h room char in
    let (first, rest) = next_char_lem n (update q n (c % 2 ^ 8)) (feed c s) put in
    (put, first, rest)
