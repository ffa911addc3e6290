-- ===== src/LoadIcode/Loaded.antt =====
-- What load_icode does to the records of the processes, and the images that it refuses.
use homework_of_operating_sy.Base.{
  ℕ, zero, suc, ◌+◌, ◌-◌, ◌%◌, ◌≡◌, ◌≢◌, refl, ap, ◌∙◌, true, bit_and, ◌||◌, ◌==◌, ◌!=◌, arith,
}
use homework_of_operating_sy.Mmu.{word_size, pgsize, pgnum, pdx, ptx, pte_p, pte_w, ustacktop}
use homework_of_operating_sy.Kernel.{Kernel, Env, panic}
use homework_of_operating_sy.Strings.{Bytes}
use homework_of_operating_sy.Elf.{
  elf_magic, e_magic, e_entry, e_phoff, e_phnum, p_type, p_offset, p_va, p_filesz, p_memsz,
  proghdr_size, elf_prog_load,
}
use homework_of_operating_sy.Pmap.Frame.{
  Stays, Stays-refl, Stays-store, After, panics, returns, Memory, chained, weakened, onward, either,
  cases,
}
use homework_of_operating_sy.Env.{set_env}
use homework_of_operating_sy.EnvFree.Release.{region_alloc-Memory, update_same, update_other}
use homework_of_operating_sy.Trap.{put_byte}
use homework_of_operating_sy.LoadIcode.{
  clear_user, copy_to_user, load_header, load_headers, load_icode,
}

put_byte-Memory : (va b : ℕ) → Memory (put_byte va b)
unfolding put_byte
put_byte-Memory va b k = either (bit_and (k.word k.cr3 (pdx va)) pte_p == 0) panics (
    let e = k.word (pgnum (k.word k.cr3 (pdx va))) (ptx va) in
    either (bit_and e pte_p == 0 || bit_and e pte_w == 0) panics (returns (Stays-store _ _ _ k)))

clear_user-Memory : (va n : ℕ) → Memory (clear_user va n)
unfolding clear_user
clear_user-Memory va zero k = returns (Stays-refl k)
clear_user-Memory va (suc n) k =
    onward (put_byte-Memory va 0 k) (λ _. clear_user-Memory ((va + 1) % word_size) n)

-- The process with its first instruction
abbrev starts_at : ℕ → Env → Env
starts_at entry v = record v { env_tf = record (v.env_tf) { tf_eip = entry } }

-- The state after load_icode of `e`, in terms of the one before
pub record Loaded (binary : Bytes) (e : ℕ) (k k' : Kernel) : Type 0 where
  pub others : (j : ℕ) → j ≢ e → k'.envs j ≡ k.envs j
  pub process :
      k'.envs e
      ≡ record (k.envs e) { env_tf = record ((k.envs e).env_tf) { tf_eip = e_entry binary 0 } }
  pub space : k'.cr3 ≡ k.kern_pgdir
  pub kern_pgdir : k'.kern_pgdir ≡ k.kern_pgdir
  pub free : k'.env_free_list ≡ k.env_free_list
  pub curenv : k'.curenv ≡ k.curenv

module _ (binary : Bytes) where
  copy_to_user-Memory : (va from n : ℕ) → Memory (copy_to_user binary va from n)
  unfolding copy_to_user
  copy_to_user-Memory va from zero k = returns (Stays-refl k)
  copy_to_user-Memory va from (suc n) k =
      onward (put_byte-Memory va (binary from) k)
        (λ _. copy_to_user-Memory ((va + 1) % word_size) (from + 1) n)

  load_header-Memory : (e ph : ℕ) → Memory (load_header binary e ph)
  unfolding load_header
  load_header-Memory e ph k = either (p_type binary ph != elf_prog_load) (returns (Stays-refl k)) (
      onward (region_alloc-Memory e (p_va binary ph) (p_memsz binary ph) k) (λ _ k'.
        onward (clear_user-Memory (p_va binary ph) (p_memsz binary ph) k')
          (λ _. copy_to_user-Memory (p_va binary ph) (p_offset binary ph) (p_filesz binary ph))))

  load_headers-Memory : (e ph n : ℕ) → Memory (load_headers binary e ph n)
  unfolding load_headers
  load_headers-Memory e ph zero k = returns (Stays-refl k)
  load_headers-Memory e ph (suc n) k =
      onward (load_header-Memory e ph k) (λ _. load_headers-Memory e (ph + proghdr_size) n)

  loaded :
      (e pgdir : ℕ) (k k2 k4 : Kernel)
      → Stays (record k { cr3 = pgdir }) k2
      → Stays (set_env e (starts_at (e_entry binary 0)) (record k2 { cr3 = k2.kern_pgdir })) k4
      → Loaded binary e k k4
  loaded e pgdir k k2 k4 s t = record {
    others = λ j h.
        ap (λ (f : ℕ → Env). f j) t.envs
        ∙ update_other k2.envs e j _ h
        ∙ ap (λ (f : ℕ → Env). f j) s.envs;
    process =
        ap (λ (f : ℕ → Env). f e) t.envs
        ∙ update_same k2.envs e _
        ∙ ap (λ (f : ℕ → Env). starts_at (e_entry binary 0) (f e)) s.envs;
    space = t.cr3 ∙ s.kern_pgdir;
    kern_pgdir = t.kern_pgdir ∙ s.kern_pgdir;
    free = t.env_free_list ∙ s.env_free_list;
    curenv = t.curenv ∙ s.curenv;
  }

  load_icode-After : (e : ℕ) (k : Kernel) → After (Loaded binary e k) (load_icode binary e k)
  unfolding load_icode
  load_icode-After e k = either (e_magic binary 0 != elf_magic) panics (
      cases (k.envs e).env_pgdir _ _ panics (λ pgdir.
        chained (Loaded binary e k)
          (load_headers-Memory e (e_phoff binary 0) (e_phnum binary 0) (record k { cr3 = pgdir }))
          (λ _ k2 s.
            weakened (λ k4 t. loaded e pgdir k k2 k4 s t)
              (region_alloc-Memory e (ustacktop - pgsize) pgsize _))))

-- load_icode panics or returns, and panics for an image without the ELF magic number. Where it returns, the process
-- starts at the image's entry point, its record is otherwise as before, as are the others, and the kernel's own directory is in use.
pub load_icode_lem :
    (binary : Bytes) (e : ℕ) (k : Kernel)
    → After (Loaded binary e k) (load_icode binary e k)
      × (e_magic binary 0 ≢ elf_magic → load_icode binary e k ≡ panic)
unfolding load_icode
load_icode_lem binary e k = (
  load_icode-After binary e k,
  λ h. let other : (e_magic binary 0 != elf_magic) ≡ true = ground (arith, h) in rw other refl,
)
