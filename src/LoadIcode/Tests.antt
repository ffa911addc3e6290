-- ===== src/LoadIcode/Tests.antt =====
-- An image with one segment of four bytes at 0x2000, of which two are in the file, loaded into the sample process.
use homework_of_operating_sy.Base.{
  ℕ, ◌+◌, ◌≡◌, ◌≢◌, refl, none, some, List, [], ◌∷◌, ltb, ◌==◌, if◌then◌else◌,
}
use homework_of_operating_sy.Kernel.{Kernel, Run, ok, leave, panic}
use homework_of_operating_sy.Strings.{Bytes}
use homework_of_operating_sy.Conversion.{chars_of}
use homework_of_operating_sy.Elf.{elf_magic, e_magic}
use homework_of_operating_sy.Sample.{machine}
use homework_of_operating_sy.Pmap.{
  page_alloc, page_insert, page_decref, page_free, page_remove, page_lookup, pgdir_walk, pa2page,
  page2kva, kaddr, tlb_invalidate,
}
use homework_of_operating_sy.Pmap.Frame.{After}
use homework_of_operating_sy.EnvFree.{region_alloc, alloc_pages}
use homework_of_operating_sy.Trap.{put_byte}
use homework_of_operating_sy.LoadIcode.{
  load_icode, load_headers, load_header, clear_user, copy_to_user,
}
use homework_of_operating_sy.LoadIcode.Loaded.{Loaded, load_icode_lem}

-- The ELF header with the entry point 0x2001, and the program header at 52: the file's bytes 84 and 85, for 0x2000
abbrev image : Bytes
image a =
    if ltb a 4
    then chars_of (0x7F ∷ 0x45 ∷ 0x4C ∷ 0x46 ∷ []) a
    else if a == 24
    then 1
    else if a == 25
    then 0x20
    else if a == 28
    then 52
    else if a == 44
    then 1
    else if a == 52
    then 1
    else if a == 56
    then 84
    else if a == 61
    then 0x20
    else if a == 68
    then 2
    else if a == 72
    then 4
    else if a == 84
    then 7
    else if a == 85
    then 9
    else 0

abbrev roomy : Kernel
roomy = record machine { pp_link = λ i. if ltb i 16 then some (i + 1) else none }

load_icode_lem_example :
    After (Loaded image 0 roomy) (load_icode image 0 roomy)
    × (e_magic image 0 ≢ elf_magic → load_icode image 0 roomy ≡ panic)
load_icode_lem_example = load_icode_lem image 0 roomy

-- The entry point, and the first word of the segment's page
abbrev summary : Run (Unit {0}) → List ℕ
summary panic = []
summary (leave how k) = []
summary (ok _ k) = (k.envs 0).env_tf.tf_eip ∷ k.word 11 0 ∷ []

loaded_there : summary (load_icode image 0 roomy) ≡ 0x2001 ∷ 0x907 ∷ []
unfolding load_icode load_headers load_header clear_user copy_to_user put_byte region_alloc
    alloc_pages page_alloc page_insert page_decref page_free page_remove page_lookup pgdir_walk
    pa2page page2kva kaddr tlb_invalidate
loaded_there = refl
