-- ===== src/Monitor.antt =====
-- The command lines of the kernel monitor: runcmd of OSLab7-Mitjoslab4/kern/monitor.c. The names of the commands are
-- addresses of strings; what a command does is not modelled.
pub mod Scan
pub mod Words
pub mod Commands
pub mod Ends
mod Tests
use homework_of_operating_sy.Base.{
  ℕ, zero, suc, ◌+◌, ◌-◌, Bool, true, false, not, ◌&&◌, ◌||◌, Option, none, some, List, [], ◌∷◌,
  ◌==◌, ◌!=◌, if◌then◌else◌, update,
}
use homework_of_operating_sy.Strings.{Bytes, strcmp}

abbrev pub maxargs : ℕ
maxargs = 16

-- `strchr(WHITESPACE, c)` for a char other than the null byte
abbrev pub is_white : ℕ → Bool
is_white c = c == 9 || c == 13 || c == 10 || c == 32

-- The loop that overwrites white space with null bytes
unfoldable pub gobble : ℕ → Bytes → ℕ → Option (Bytes × ℕ)
gobble zero m s = none
gobble (suc fuel) m s = elim (m s != 0 && is_white (m s)) [
  | true ↦ gobble fuel (update m s 0) (s + 1)
  | false ↦ some (m, s)
]

-- The loop to the end of an argument
unfoldable pub skip_arg : ℕ → Bytes → ℕ → Option ℕ
skip_arg zero m s = none
skip_arg (suc fuel) m s = elim (m s != 0 && not (is_white (m s))) [
  | true ↦ skip_arg fuel m (s + 1)
  | false ↦ some s
]

-- The arguments of a line: too many, or the memory with argc and argv
pub data Args : Type 0 where
  too_many : Args
  args : Bytes → ℕ → (ℕ → Option ℕ) → Args

-- The loop over the arguments
unfoldable pub arg_loop : ℕ → Bytes → ℕ → ℕ → (ℕ → Option ℕ) → Option Args
unfolding gobble skip_arg
arg_loop zero m s argc argv = none
arg_loop (suc fuel) m s argc argv = elim (gobble (suc fuel) m s) [
  | none ↦ none
  | some p ↦ elim (p.0 p.1 == 0) [
    | true ↦ some (args p.0 argc (update argv argc none))
    | false ↦ elim (argc == maxargs - 1) [
      | true ↦ some too_many
      | false ↦ elim (skip_arg (suc fuel) p.0 p.1) [
        | none ↦ none
        | some e ↦ arg_loop fuel p.0 e (argc + 1) (update argv argc (some p.1))
      ]
    ]
  ]
]

-- The loop over the commands: the index of the first one with the name, from `i` on
unfoldable pub find_command : ℕ → Bytes → ℕ → List ℕ → ℕ → Option (Option ℕ)
unfolding strcmp
find_command fuel m name [] i = some none
find_command fuel m name (c ∷ cs) i = elim (strcmp fuel m name c) [
  | none ↦ none
  | some d ↦ elim (d == 0) [ true ↦ some (some i) | false ↦ find_command fuel m name cs (i + 1) ]
]

-- What runcmd does with a line: it returns 0 with a message or without one, or calls a command
pub data Command : Type 0 where
  no_command too_many_arguments unknown_command : Command
  call : ℕ → Bytes → ℕ → (ℕ → Option ℕ) → Command

-- The call of the command that is found
abbrev pub called : Bytes → ℕ → (ℕ → Option ℕ) → Option (Option ℕ) → Option Command
called m argc argv none = none
called m argc argv (some none) = some unknown_command
called m argc argv (some (some i)) = some (call i m argc argv)

-- The end of runcmd, with the arguments
unfoldable pub invoke : ℕ → List ℕ → Option Args → Option Command
unfolding find_command
invoke fuel commands none = none
invoke fuel commands (some too_many) = some too_many_arguments
invoke fuel commands (some (args m argc argv)) = elim (argc == 0) [
  | true ↦ some no_command
  | false ↦ elim (argv 0) [
    | none ↦ none
    | some name ↦ called m argc argv (find_command fuel m name commands 0)
  ]
]

unfoldable pub runcmd : ℕ → Bytes → ℕ → List ℕ → Option Command
unfolding arg_loop invoke
runcmd fuel m buf commands = invoke fuel commands (arg_loop fuel m buf 0 (λ i. none))
