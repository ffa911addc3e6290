-- ===== src/Pmap/Example.antt =====
-- The address spaces of the sample machine: directory 8 of its process, and page 20 as an empty directory.
use homework_of_operating_sy.Base.{refl, arith}
use homework_of_operating_sy.Sample.{machine, free_pages}
use homework_of_operating_sy.Pmap.Space.{DirOk}
use homework_of_operating_sy.Pmap.Isolation.{Apart}

pub machine-DirOk : DirOk 8 free_pages machine
machine-DirOk = record {
  few = omega arith;
  free = (refl, (refl, refl));
  spare = (
    (omega arith, omega arith, λ d h p. ground arith),
    ((omega arith, omega arith, λ d h p. ground arith), tt),
  );
  tables = λ d h p. ground arith;
  distinct = λ d e h g n p q. ground arith;
  pages = λ d t h p q. ground arith;
}

pub empty-DirOk : DirOk 20 free_pages machine
empty-DirOk = record {
  few = omega arith;
  free = (refl, (refl, refl));
  spare = (
    (omega arith, omega arith, λ d h p. ground arith),
    ((omega arith, omega arith, λ d h p. ground arith), tt),
  );
  tables = λ d h p. ground arith;
  distinct = λ d e h g n p q. ground arith;
  pages = λ d t h p q. ground arith;
}

pub empty-Apart : Apart 8 20 machine
empty-Apart = record { root = (omega arith, λ d h p. ground arith); below = λ d h p. ground arith }
