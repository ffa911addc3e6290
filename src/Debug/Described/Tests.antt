-- ===== src/Debug/Described/Tests.antt =====
-- An address in the function of the sample tables, and one before it.
use homework_of_operating_sy.Base.{ℕ, ◌-◌, ◌≡◌, refl, sym, some, arith}
use mathlib.Core.Path.{subst}
use homework_of_operating_sy.Kernel.{ok}
use homework_of_operating_sy.Sample.{machine}
use homework_of_operating_sy.Debug.{
  stab_binsearch, search_loop, round, scan, finish, rightmost, value,
}
use homework_of_operating_sy.Debug.Result.{Found}
use homework_of_operating_sy.Debug.Info.{
  EipDebugInfo, described, stab_count, debuginfo_eip, n_so, n_fun, n_sline,
}
use homework_of_operating_sy.Debug.Described.{Covered, Known, Says, debuginfo_eip_lem}
use homework_of_operating_sy.Debug.Described.Sample.{
  kernel_memory, kernel_tables, kernel_stabs, inside, the_file, the_function, file_Covered,
  function_Covered, line_Covered,
}

inside-Known : Known kernel_stabs 6 inside
inside-Known = record {
  file = file_Covered;
  behind_first = omega arith;
  function = λ k r f. function_in k r (the_file k r f);
  line = λ k r f g file fun. line_in k r f g (the_file k r file) fun;
}
  where
    function_in : (k r : ℕ) → (k ≡ 2) × (r ≡ 5) → Covered kernel_stabs n_fun k r inside
    function_in k r (c, d) =
        subst (λ (x : ℕ). Covered kernel_stabs n_fun x r inside) (sym c)
          (subst (λ (x : ℕ). Covered kernel_stabs n_fun 2 x inside) (sym d) function_Covered)

    line_at :
        (f g : ℕ)
        → (f ≡ 3) × (g ≡ 5)
        → Covered kernel_stabs n_sline f g (inside - value kernel_stabs n_fun f)
    line_at f g (c, d) =
        subst (λ (x : ℕ). Covered kernel_stabs n_sline x g (inside - value kernel_stabs n_fun x))
          (sym c) (subst (λ (x : ℕ). Covered kernel_stabs n_sline 3 x 0x15) (sym d) line_Covered)

    line_in :
        (k r f g : ℕ)
        → (k ≡ 2) × (r ≡ 5)
        → Found kernel_stabs n_fun k r inside f g
        → Covered kernel_stabs n_sline f g (inside - value kernel_stabs n_fun f)
    line_in k r f g (c, d) h = line_at f g (
        the_function f g (
          subst (λ (x : ℕ). Found kernel_stabs n_fun x 5 inside f g) c
            (subst (λ (x : ℕ). Found kernel_stabs n_fun k x inside f g) d h)))

debuginfo_eip_lem_example :
    (i : EipDebugInfo) × (k r f g l h : ℕ) × (debuginfo_eip 13 kernel_memory kernel_tables inside
        machine
      ≡ ok (some (described i)) machine)
    × Found kernel_stabs n_so 1 (stab_count kernel_tables) inside k r
    × Found kernel_stabs n_fun k r inside f g
    × Found kernel_stabs n_sline f g (inside - value kernel_stabs n_fun f) l h
    × Says kernel_stabs 0x2000 12 inside f l i
debuginfo_eip_lem_example =
    debuginfo_eip_lem 13 kernel_memory kernel_tables inside machine (omega arith) (omega arith)
      (omega arith) refl (omega arith) (omega arith) inside-Known

-- An address in the file before its only function: the search for the function ends at the stab of the file, whose start
-- and whose name are given as those of a function.
before_function : stab_binsearch kernel_stabs n_fun 13 2 5 0xF0100020 ≡ some (2, 2)
unfolding stab_binsearch search_loop round scan finish rightmost
before_function = refl
