-- ===== src/LoadIcode.antt =====
-- Loading a program into a new process: load_icode and env_create of OSLab7-Mitjoslab4/kern/env.c. `binary` are the bytes
-- of the ELF image that the linker has put into the kernel, whose `size` the code does not use. The stores go through
-- the page tables of the process, one byte at a time and upwards, as memset and memcpy do where the image lies above the segment.
pub mod Loaded
mod Tests
use homework_of_operating_sy.Base.{ℕ, zero, suc, ◌+◌, ◌-◌, ◌%◌, ◌!=◌}
use homework_of_operating_sy.Mmu.{word_size, pgsize, ustacktop}
use homework_of_operating_sy.Kernel.{
  Cmd, Ret, ret, fail, pure, abort, ◌>>=◌, ◌>>◌, gets, modify, branch,
}
use homework_of_operating_sy.Strings.{Bytes}
use homework_of_operating_sy.Elf.{
  elf_magic, e_magic, e_entry, e_phoff, e_phnum, p_type, p_offset, p_va, p_filesz, p_memsz,
  proghdr_size, elf_prog_load,
}
use homework_of_operating_sy.Env.{set_env, deref, env_alloc}
use homework_of_operating_sy.EnvFree.{region_alloc}
use homework_of_operating_sy.Trap.{put_byte}

-- memset(va, 0, n) and memcpy(va, binary + from, n)
unfoldable pub clear_user : ℕ → ℕ → Cmd (Unit {0})
unfolding put_byte
clear_user va zero = pure tt
clear_user va (suc n) = put_byte va 0 >> clear_user ((va + 1) % word_size) n

module _ (binary : Bytes) where
  unfoldable pub copy_to_user : ℕ → ℕ → ℕ → Cmd (Unit {0})
  unfolding put_byte
  copy_to_user va from zero = pure tt
  copy_to_user va from (suc n) =
      put_byte va (binary from) >> copy_to_user ((va + 1) % word_size) (from + 1) n

  -- One program header at `ph`
  unfoldable pub load_header : ℕ → ℕ → Cmd (Unit {0})
  unfolding region_alloc clear_user copy_to_user
  load_header e ph = branch (p_type binary ph != elf_prog_load) (pure tt) do
    region_alloc e (p_va binary ph) (p_memsz binary ph)
    clear_user (p_va binary ph) (p_memsz binary ph)
    copy_to_user (p_va binary ph) (p_offset binary ph) (p_filesz binary ph)

  -- The loop over the program headers, of which `n` are left
  unfoldable pub load_headers : ℕ → ℕ → ℕ → Cmd (Unit {0})
  unfolding load_header
  load_headers e ph zero = pure tt
  load_headers e ph (suc n) = load_header e ph >> load_headers e (ph + proghdr_size) n

  unfoldable pub load_icode : ℕ → Cmd (Unit {0})
  unfolding load_headers region_alloc
  load_icode e = branch (e_magic binary 0 != elf_magic) abort do
    d ← gets (λ k. (k.envs e).env_pgdir)
    deref d λ pgdir. do
      modify (λ k. record k { cr3 = pgdir })
      load_headers e (e_phoff binary 0) (e_phnum binary 0)
      modify (λ k. record k { cr3 = k.kern_pgdir })
      modify
          (set_env e (λ v. record v { env_tf = record (v.env_tf) { tf_eip = e_entry binary 0 } }))
      region_alloc e (ustacktop - pgsize) pgsize

  -- env_create drops the result of env_alloc: where it has failed, the pointer has no value.
  unfoldable pub env_create : Cmd (Unit {0})
  unfolding env_alloc load_icode
  env_create = env_alloc 0 >>= λ r. elim r [ fail _ ↦ abort | ret e ↦ load_icode e ]
