-- ===== src/Shell.antt =====
-- The line handling of the mini shell, OSLab3-MiniShell/main.c: merge, which leaves one of several blanks that follow
-- each other, and splitCommand. strtok is the C library's: its state is St.
pub mod Blanks
mod Tests
use homework_of_operating_sy.Base.{
  ℕ, zero, suc, ◌+◌, Bool, true, false, ◌&&◌, ◌==◌, update, Option, none, some,
}
use homework_of_operating_sy.Strings.{Bytes}

abbrev pub blank : ℕ
blank = 32

-- The inner loop: to the last of the blanks at `s`
unfoldable pub skip_double : ℕ → Bytes → ℕ → Option ℕ
skip_double zero m s = none
skip_double (suc fuel) m s = elim (m s == blank && m (s + 1) == blank) [
  | true ↦ skip_double fuel m (s + 1)
  | false ↦ some s
]

-- The outer loop at the reading position `s` and the writing position `p`
unfoldable pub merge_loop : ℕ → Bytes → ℕ → ℕ → Option Bytes
unfolding skip_double
merge_loop zero m s p = none
merge_loop (suc fuel) m s p = elim (m s == 0) [
  | true ↦ some (update m p 0)
  | false ↦ elim (skip_double (suc fuel) m s) [
    | none ↦ none
    | some s' ↦ merge_loop fuel (update m p (m s')) (s' + 1) (p + 1)
  ]
]

unfoldable pub merge : ℕ → Bytes → ℕ → Option Bytes
unfolding merge_loop
merge fuel m s = merge_loop fuel m s s

module _ {St : Type 0} (strtok : St → Option ℕ → Option ℕ × St) where
  -- The loop of splitCommand on the token that the last call has given
  unfoldable pub split_loop :
      ℕ → Option ℕ × St → ℕ → (ℕ → Option ℕ) → Option ((ℕ → Option ℕ) × ℕ × St)
  split_loop zero t count result = none
  split_loop (suc fuel) (none, st) count result = some (result, count, st)
  split_loop (suc fuel) (some token, st) count result =
      split_loop fuel (strtok st none) (count + 1) (update result count (some token))

  unfoldable pub split_command :
      ℕ → St → Option ℕ → (ℕ → Option ℕ) → Option ((ℕ → Option ℕ) × ℕ × St)
  unfolding split_loop
  split_command fuel st str result = split_loop fuel (strtok st str) 0 result
