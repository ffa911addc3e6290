-- ===== src/Monitor/Tests.antt =====
-- The line " a b" with the names "b" and "a" of two commands behind it, and showmappings on a sample machine.
use homework_of_operating_sy.Base.{
  ℕ, ◌+◌, ◌≤◌, ◌<◌, ◌≢◌, ◌≡◌, ◌⊎◌, inl, inr, refl, true, arith, ◌==◌, if◌then◌else◌, Option, none,
  some, List, [], ◌∷◌,
}
use homework_of_operating_sy.Strings.{Bytes, strcmp}
use homework_of_operating_sy.Conversion.{chars_of}
use homework_of_operating_sy.Shell.Blanks.{Text}
use homework_of_operating_sy.Mmu.{pgsize, word_size}
use homework_of_operating_sy.Kernel.{Kernel, ok}
use homework_of_operating_sy.Sample.{machine}
use homework_of_operating_sy.Pmap.{pgdir_walk}
use homework_of_operating_sy.Numbers.{xtoi, xtoi_from}
use homework_of_operating_sy.Monitor.Commands.{MappingLine, entry_line, show_loop, showmappings}
use homework_of_operating_sy.Monitor.Ends.{show_loop_ends}
use homework_of_operating_sy.Monitor.Scan.{starts}
use homework_of_operating_sy.Monitor.Words.{ArgsOutcome, runcmd_args}
use homework_of_operating_sy.Monitor.{
  Command, call, no_command, too_many_arguments, unknown_command, runcmd, arg_loop, gobble,
  skip_arg, invoke, find_command,
}

abbrev line : Bytes
line = chars_of (32 ∷ 97 ∷ 32 ∷ 98 ∷ 0 ∷ 98 ∷ 0 ∷ 97 ∷ 0 ∷ [])

-- The index of the command, argc and the place of the last argument
abbrev summary : Option Command → List (Option ℕ)
summary none = []
summary (some no_command) = []
summary (some too_many_arguments) = []
summary (some unknown_command) = none ∷ []
summary (some (call i m argc argv)) = some i ∷ some argc ∷ argv 1 ∷ []

second : summary (runcmd 9 line 0 (5 ∷ 7 ∷ [])) ≡ some 1 ∷ some 2 ∷ some 3 ∷ []
unfolding runcmd arg_loop gobble skip_arg invoke find_command strcmp
second = refl

unknown : summary (runcmd 9 line 0 (5 ∷ [])) ≡ none ∷ []
unfolding runcmd arg_loop gobble skip_arg invoke find_command strcmp
unknown = refl

-- The text of the line, up to the null byte
line-Text : Text line 0 (32 ∷ 97 ∷ 32 ∷ 98 ∷ [])
line-Text = (
  refl,
  (λ e. omega (arith, e)),
  (
    refl,
    (λ e. omega (arith, e)),
    (refl, (λ e. omega (arith, e)), (refl, (λ e. omega (arith, e)), refl)),
  ),
)

runcmd_args_example :
    ArgsOutcome
      (starts 0 true (32 ∷ 97 ∷ 32 ∷ 98 ∷ []))
      0
      (λ i. none)
      (arg_loop 5 line 0 0 (λ i. none))
runcmd_args_example = runcmd_args 5 (32 ∷ 97 ∷ 32 ∷ 98 ∷ []) line 0 line-Text (omega arith)

words : starts 0 true (32 ∷ 97 ∷ 32 ∷ 98 ∷ []) ≡ 1 ∷ 3 ∷ []
words = refl

abbrev user_space : Kernel
user_space = record machine { kern_pgdir = 8 }

-- Two pages, below the last page of the address space
two_pages_end : show_loop 3 0x1000 0x2FFF user_space ≢ ok none user_space
two_pages_end =
    elim (show_loop_ends 3 0x1000 0x2FFF refl (omega arith) (λ h. omega arith) user_space
      user_space) [ inl (_, ends) ↦ ends | inr (top, _) ↦ absurd (omega (arith, top)) ]

-- The last page of the address space
show_loop_ends_example :
    ((0xFFFFFFFF + pgsize < word_size)
      × (show_loop 3 0xFFFFF000 0xFFFFFFFF user_space ≢ ok none user_space))
    ⊎ ((word_size ≤ 0xFFFFFFFF + pgsize)
        × ((ls : List MappingLine)
            → show_loop 3 0xFFFFF000 0xFFFFFFFF user_space ≢ ok (some ls) user_space))
show_loop_ends_example =
    show_loop_ends 3 0xFFFFF000 0xFFFFFFFF refl (omega arith) (λ h. absurd (omega (arith, h)))
      user_space user_space

-- "0x1000" and "0x1FFF", one page
abbrev addresses : Bytes
addresses = chars_of (48 ∷ 120 ∷ 49 ∷ 48 ∷ 48 ∷ 48 ∷ 0 ∷ 48 ∷ 120 ∷ 49 ∷ 102 ∷ 102 ∷ 102 ∷ 0 ∷ [])

abbrev three_args : ℕ → Option ℕ
three_args i = if i == 1 then some 0 else if i == 2 then some 7 else none

one_page :
    showmappings 6 addresses 3 three_args user_space
    ≡ ok (some (entry_line 0x1000 0xA007 ∷ [])) user_space
unfolding showmappings show_loop xtoi xtoi_from pgdir_walk
one_page = refl
