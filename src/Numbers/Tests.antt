-- ===== src/Numbers/Tests.antt =====
-- The round trip at a hexadecimal number.
use homework_of_operating_sy.Base.{ℕ, ◌+◌, ◌≡◌, some, List, length, arith}
use homework_of_operating_sy.Numbers.{printnum, strtol}
use homework_of_operating_sy.Numbers.RoundTrip.{place, strtol-printnum}

strtol-printnum_example :
    (cs : List ℕ) × (printnum 0xBEF0 0xBEEF 16 0 0 ≡ some cs)
    × (strtol (length cs + 1) (place (λ a. 0) 100 cs) 100 16 ≡ some (0xBEEF, 100 + length cs))
strtol-printnum_example =
    strtol-printnum 0xBEEF 16 100 (λ a. 0) (omega arith) (omega arith) (omega arith)
