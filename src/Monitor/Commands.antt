-- ===== src/Monitor/Commands.antt =====
-- The commands showmappings and setm of kern/monitor.c, on the kernel's own page directory.
use homework_of_operating_sy.Base.{
  ℕ, zero, suc, ◌+◌, ◌-◌, ◌%◌, ◌^◌, true, bit_and, bit_or, Option, none, some, List, [], ◌∷◌, leb,
  ◌==◌, if◌then◌else◌,
}
use homework_of_operating_sy.Mmu.{pgsize, word_size, pte_p, pte_w, pte_u}
use homework_of_operating_sy.Kernel.{Cmd, ◌>>=◌, ◌>>◌, pure, abort, gets, modify, branch}
use homework_of_operating_sy.Pmap.{Pte, load_pte, store_pte, pgdir_walk}
use homework_of_operating_sy.Strings.{Bytes}
use homework_of_operating_sy.Numbers.{xtoi}

-- A line that showmappings prints: an address with the entry for it, whose flags are shown where it is present
pub data MappingLine : Type 0 where
  entry_line : ℕ → ℕ → MappingLine

abbrev pub add_line : ℕ → ℕ → Option (List MappingLine) → Option (List MappingLine)
add_line begin v none = none
add_line begin v (some ls) = some (entry_line begin v ∷ ls)

-- One round, with the rest of the loop
abbrev pub show_entry :
    ℕ → Cmd (Option (List MappingLine)) → Option Pte → Cmd (Option (List MappingLine))
show_entry begin rest none = abort
show_entry begin rest (some q) =
    gets (load_pte q) >>= λ v. rest >>= λ ls. pure (add_line begin v ls)

-- The loop, with a bound on its rounds
unfoldable pub show_loop : ℕ → ℕ → ℕ → Cmd (Option (List MappingLine))
unfolding pgdir_walk
show_loop zero begin end_ = pure none
show_loop (suc fuel) begin end_ =
    branch (leb begin end_)
      (gets (λ k. k.kern_pgdir) >>= λ d.
        pgdir_walk d begin true
        >>= show_entry begin (show_loop fuel ((begin + pgsize) % word_size) end_))
      (pure (some []))

-- The numbers of two arguments; a read through a missing one faults in the kernel
abbrev pub show_range : ℕ → Option (ℕ × Bytes) → Option ℕ → Cmd (Option (List MappingLine))
unfolding show_loop
show_range fuel none b = pure none
show_range fuel (some _) none = abort
show_range fuel (some (begin, m)) (some b) = elim (xtoi fuel m b) [
  | none ↦ pure none
  | some (end_, m') ↦ show_loop fuel begin end_
]

unfoldable pub showmappings : ℕ → Bytes → ℕ → (ℕ → Option ℕ) → Cmd (Option (List MappingLine))
unfolding show_range xtoi
showmappings fuel m argc argv =
    branch (argc == 1) (pure (some []))
      (elim (argv 1) [ none ↦ abort | some a ↦ show_range fuel (xtoi fuel m a) (argv 2) ])

-- The flag that a letter names
abbrev pub flag_of : ℕ → ℕ
flag_of c = if c == 80 then pte_p else if c == 87 then pte_w else if c == 85 then pte_u else 0

abbrev pub with_flag : ℕ → ℕ → ℕ → ℕ
with_flag op perm v = if op == 48 then bit_and v (2 ^ 32 - 1 - perm) else bit_or v perm

-- setm on an address, by the first chars of its other arguments; pgdir_walk's NULL is read through, which faults
unfoldable pub setm : ℕ → ℕ → ℕ → Cmd (Option (ℕ × ℕ))
unfolding pgdir_walk
setm addr op letter = gets (λ k. k.kern_pgdir) >>= λ d. pgdir_walk d addr true >>= λ p. elim p [
  | none ↦ abort
  | some q ↦ gets (load_pte q) >>= λ v.
      modify (store_pte q (with_flag op (flag_of letter) v))
      >> pure (some (v, with_flag op (flag_of letter) v))
]
