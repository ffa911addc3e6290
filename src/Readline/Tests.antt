-- ===== src/Readline/Tests.antt =====
-- A line with a correction.
use homework_of_operating_sy.Base.{ℕ, Option, some, List, [], ◌∷◌}
use homework_of_operating_sy.Readline.{InBuffer, readline, readline-InBuffer}

abbrev keys : List (Option ℕ)
keys = some 97 ∷ some 98 ∷ some 8 ∷ some 99 ∷ some 10 ∷ []

readline-InBuffer_example : InBuffer (λ j. 0) (readline keys (λ j. 0))
readline-InBuffer_example = readline-InBuffer keys (λ j. 0)
