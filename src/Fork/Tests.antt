-- ===== src/Fork/Tests.antt =====
-- A child with an empty address space gets the writable page of its parent.
use homework_of_operating_sy.Base.{refl, some, ◌==◌, if◌then◌else◌, arith}
use homework_of_operating_sy.Kernel.{Kernel, Env}
use homework_of_operating_sy.Sample.{machine, process, child, free_pages}
use homework_of_operating_sy.Env.{envid2env}
use homework_of_operating_sy.Pmap.Example.{machine-DirOk, empty-DirOk, empty-Apart}
use homework_of_operating_sy.Pmap.Space.{DirOk}
use homework_of_operating_sy.Pmap.Isolation.{Apart}
use homework_of_operating_sy.Fork.{duppage}
use homework_of_operating_sy.Fork.Share.{DupOutcome, duppage_lem}

abbrev new_child : Env
new_child = record child { env_pgdir = some 20 }

abbrev two : Kernel
two = record machine { envs = λ e. if e == 1 then new_child else process }

two-DirOk : DirOk 8 free_pages two
two-DirOk =
    let o = machine-DirOk in
    record {
      few = o.few;
      free = o.free;
      spare = o.spare;
      tables = o.tables;
      distinct = o.distinct;
      pages = o.pages;
    }

child-DirOk : DirOk 20 free_pages two
child-DirOk =
    let o = empty-DirOk in
    record {
      few = o.few;
      free = o.free;
      spare = o.spare;
      tables = o.tables;
      distinct = o.distinct;
      pages = o.pages;
    }

two-Apart : Apart 8 20 two
two-Apart = let a = empty-Apart in record { root = a.root; below = a.below }

duppage_lem_example : DupOutcome 8 20 1 0xA007 free_pages two (duppage 0x1001 1 two)
unfolding envid2env
duppage_lem_example =
    duppage_lem 0x1001 1 0 1 8 20 0xA007 free_pages two refl refl refl refl two-DirOk child-DirOk
      two-Apart (omega arith) refl refl
