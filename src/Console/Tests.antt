-- ===== src/Console/Tests.antt =====
-- The console theorems on a small buffer and a blank screen.
use homework_of_operating_sy.Base.{ℕ, ◌+◌, ◌≡◌, refl, update, ◌==◌, if◌then◌else◌, arith}
use homework_of_operating_sy.Console.{Cons, Crt, feed, next_char, cga_putc}
use homework_of_operating_sy.Console.Queue.{Holds, next_char-feed}
use homework_of_operating_sy.Console.Screen.{Bounded, cga_putc-Bounded}

abbrev typed : ℕ → ℕ
typed i = 97 + i

-- Two characters, the second after the wrap
abbrev waiting : Cons
waiting = record { buf = λ p. if p == 511 then 97 else 98; rpos = 511; wpos = 1 }

waiting-Holds : Holds 2 typed waiting
waiting-Holds = record {
  start = omega arith;
  room = omega arith;
  end = refl;
  each = λ i l. ground arith;
}

-- A character in the last cell
abbrev screen : Crt
screen = record { crt_buf = λ i. 0x0720; crt_pos = 1999; csa = 0 }

cga_putc-Bounded_example : Bounded (λ i. 0x0720) (cga_putc 65 screen)
cga_putc-Bounded_example = cga_putc-Bounded (λ i. 0x0720) 65 screen (omega arith, λ i h. refl)

next_char-feed_example :
    Holds 3 (update typed 2 99) (feed 99 waiting)
    × ((next_char (feed 99 waiting)).0 ≡ update typed 2 99 0)
    × Holds 2 (λ i. update typed 2 99 (i + 1)) (next_char (feed 99 waiting)).1
next_char-feed_example = next_char-feed 2 typed waiting 99 waiting-Holds (omega arith) (omega arith)
