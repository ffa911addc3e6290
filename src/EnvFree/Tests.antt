-- ===== src/EnvFree/Tests.antt =====
-- The sample process is freed: the page at 0x1000 and its table go back to the free list.
use homework_of_operating_sy.Base.{ℕ, ◌≡◌, refl, Option, some, List, [], ◌∷◌, ◌==◌, if◌then◌else◌}
use homework_of_operating_sy.Kernel.{Kernel, Run, ok, leave, panic}
use homework_of_operating_sy.Sample.{machine}
use homework_of_operating_sy.Pmap.{
  page_decref, page_free, page_remove, page_lookup, pgdir_walk, pa2page, kaddr, tlb_invalidate,
}
use homework_of_operating_sy.Pmap.Frame.{After}
use homework_of_operating_sy.EnvFree.{env_free, free_tables, free_entries}
use homework_of_operating_sy.EnvFree.Release.{Freed, env_free_lem}

env_free_lem_example : After (Freed 0 machine) (env_free 0 machine)
env_free_lem_example = env_free_lem 0 machine

-- The free list of processes, that of pages, and the references of the page and of the table
abbrev summary : Run (Unit {0}) → List (Option ℕ)
summary panic = []
summary (leave how k) = []
summary (ok _ k) = k.env_free_list ∷ k.page_free_list ∷ some (k.pp_ref 10) ∷ some (k.pp_ref 9) ∷ []

abbrev held : Kernel
held = record machine { pp_ref = λ i. if i == 8 then 1 else machine.pp_ref i }

freed_there : summary (env_free 0 held) ≡ some 0 ∷ some 8 ∷ some 0 ∷ some 0 ∷ []
unfolding env_free free_tables free_entries page_decref page_free page_remove page_lookup pgdir_walk
    pa2page kaddr tlb_invalidate
freed_there = refl
