-- ===== src/Debug/Tests.antt =====
-- Searches in tables of stabs: one where every second stab is a source file, and one where the entry behind the address
-- is taken.
use homework_of_operating_sy.Base.{ℕ, ◌+◌, ◌*◌, ◌%◌, ◌≡◌, refl, some, ◌==◌, if◌then◌else◌}
use homework_of_operating_sy.Debug.{
  Stab, stab_binsearch, search_loop, round, scan, finish, rightmost,
}
use homework_of_operating_sy.Debug.Info.{n_so}

abbrev files : ℕ → Stab
files j = record {
  n_strx = 0;
  n_type = if j % 2 == 0 then n_so else 36;
  n_other = 0;
  n_desc = 0;
  n_value = 16 * j;
}

found : stab_binsearch files n_so 12 1 9 70 ≡ some (5, 6)
unfolding stab_binsearch search_loop round scan finish rightmost
found = refl

abbrev close : ℕ → Stab
close j = record { n_strx = 0; n_type = n_so; n_other = 0; n_desc = 0; n_value = 10 + j }

-- Stabs for 10 and 11: address 10 is taken to be in the second.
next_taken : stab_binsearch close n_so 12 1 2 10 ≡ some (2, 2)
unfolding stab_binsearch search_loop round scan finish rightmost
next_taken = refl

-- Both stabs are behind address 5, and the result is not an empty region.
none_before : stab_binsearch close n_so 12 1 2 5 ≡ some (0, 0)
unfolding stab_binsearch search_loop round scan finish rightmost
none_before = refl
