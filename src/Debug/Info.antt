-- ===== src/Debug/Info.antt =====
-- debuginfo_eip of kern/kdebug.c. `m` is memory as the page tables in use show it. As in stab_binsearch each index is kept
-- plus one. `none` is a search that needs more rounds than the bound, or a read before the table.
use homework_of_operating_sy.Base.{
  ℕ, zero, suc, ◌+◌, ◌-◌, ◌*◌, ◌/◌, ◌%◌, ◌^◌, not, ◌&&◌, ◌||◌, Option, none, some, leb, ltb, ◌==◌,
  ◌!=◌, if◌then◌else◌,
}
use homework_of_operating_sy.Mmu.{ulim, ptsize, pte_u}
use homework_of_operating_sy.Strings.{Bytes, strfind}
use homework_of_operating_sy.Elf.{half_at, word_at}
use homework_of_operating_sy.Kernel.{Cmd, ◌>>=◌, pure, abort, gets}
use homework_of_operating_sy.Pmap.{user_mem_check}
use homework_of_operating_sy.Debug.{Stab, typed, value, stab_binsearch}

-- N_FUN, N_SLINE, N_SO, N_SOL, N_PSYM
abbrev pub n_fun : ℕ
n_fun = 0x24

abbrev pub n_sline : ℕ
n_sline = 0x44

abbrev pub n_so : ℕ
n_so = 0x64

abbrev pub n_sol : ℕ
n_sol = 0x84

abbrev pub n_psym : ℕ
n_psym = 0xA0

-- `struct Eipdebuginfo`, with the text "<unknown>" as `none`
pub record EipDebugInfo : Type 0 where
  pub eip_file : Option ℕ
  pub eip_line : ℕ
  pub eip_fn_name : Option ℕ
  pub eip_fn_namelen : ℕ
  pub eip_fn_addr : ℕ
  pub eip_fn_narg : ℕ

abbrev pub unknown_info : ℕ → EipDebugInfo
unknown_info addr = record {
  eip_file = none;
  eip_line = 0;
  eip_fn_name = none;
  eip_fn_namelen = 9;
  eip_fn_addr = addr;
  eip_fn_narg = 0;
}

-- What debuginfo_eip returns, 0 or -1, beside what it has stored
pub data InfoResult : Type 0 where
  described not_described : EipDebugInfo → InfoResult

-- The ends of the tables
pub record Tables : Type 0 where
  pub stab_begin : ℕ
  pub stab_end : ℕ
  pub stabstr : ℕ
  pub stabstr_end : ℕ

-- `struct Stab` in memory, and the number of stabs, whose difference of pointers is an int
abbrev pub stab_at : Bytes → ℕ → ℕ → Stab
stab_at m begin j = record {
  n_strx = word_at m (begin + 12 * j);
  n_type = m (begin + 12 * j + 4);
  n_other = m (begin + 12 * j + 5);
  n_desc = half_at m (begin + 12 * j + 6);
  n_value = word_at m (begin + 12 * j + 8);
}

abbrev pub count_of : ℕ → ℕ
count_of bytes = if leb (2 ^ 31) bytes then 0 else bytes / 12

abbrev pub stab_count : Tables → ℕ
stab_count t = count_of ((t.stab_end + 2 ^ 32 - t.stab_begin) % 2 ^ 32)

module _ (fuel : ℕ) (m : Bytes) (stabs : ℕ → Stab) (stabstr size : ℕ) where
  -- The string of a stab, where it lies in the string table
  abbrev pub string_of : ℕ → Option ℕ
  string_of j =
      if ltb (stabs (j - 1)).n_strx size then some (stabstr + (stabs (j - 1)).n_strx) else none

  -- strfind(name, ':') - name
  abbrev pub name_length : Option ℕ → Option ℕ
  name_length none = some 9
  name_length (some s) = elim (strfind fuel m s 58) [ none ↦ none | some e ↦ some (e - s) ]

  -- The loop back to a stab with a file name
  unfoldable pub file_stab : ℕ → ℕ → ℕ
  file_stab zero lfile = 0
  file_stab (suc j) lfile =
      let before = file_stab j lfile in
      if leb lfile (suc j)
        && not (typed stabs n_sol (suc j))
        && (not (typed stabs n_so (suc j)) || value stabs n_so (suc j) == 0)
      then before
      else suc j

  -- The loop over the arguments, from stab `j` with `n` stabs left
  unfoldable pub count_args : ℕ → ℕ → ℕ
  count_args zero j = 0
  count_args (suc n) j =
      let rest = count_args n (j + 1) in if typed stabs n_psym j then rest + 1 else 0

  abbrev pub filled : ℕ → ℕ → ℕ → Option ℕ → ℕ → ℕ → ℕ → EipDebugInfo
  filled lfile lfun rfun name fn_addr len lline = record {
    eip_file = (let j = file_stab lline lfile in if leb lfile j then string_of j else none);
    eip_line = (stabs (lline - 1)).n_desc;
    eip_fn_name = name;
    eip_fn_namelen = len;
    eip_fn_addr = fn_addr;
    eip_fn_narg = if ltb lfun rfun then count_args (rfun - (lfun + 1)) (lfun + 1) else 0;
  }

  -- With the line found
  abbrev pub with_line : ℕ → ℕ → ℕ → Option ℕ → ℕ → ℕ → Option (ℕ × ℕ) → Option InfoResult
  with_line lfile lfun rfun name fn_addr len none = none
  with_line lfile lfun rfun name fn_addr len (some (lline, _)) =
      some (described (filled lfile lfun rfun name fn_addr len lline))

  abbrev pub with_name : ℕ → ℕ → ℕ → Option ℕ → ℕ → Option (ℕ × ℕ) → Option ℕ → Option InfoResult
  with_name lfile lfun rfun name fn_addr line none = none
  with_name lfile lfun rfun name fn_addr line (some len) =
      with_line lfile lfun rfun name fn_addr len line

  -- With the function found, or with the whole file
  unfoldable pub with_function : ℕ → ℕ → ℕ → Option (ℕ × ℕ) → Option InfoResult
  unfolding stab_binsearch
  with_function addr lfile rfile none = none
  with_function addr lfile rfile (some (lfun, rfun)) =
      if leb lfun rfun
      then (let fn_addr = value stabs n_fun lfun in
          let name = string_of lfun in
          with_name lfile lfun rfun name fn_addr
            (stab_binsearch stabs n_sline fuel lfun rfun ((addr + 2 ^ 32 - fn_addr) % 2 ^ 32))
            (name_length name))
      else with_name lfile lfun rfun none addr (stab_binsearch stabs n_sline fuel lfile rfile addr)
          (name_length none)

  -- With the file found: index 1 is stab 0, and 0 is what the search gives where every file lies behind the address
  unfoldable pub with_file : ℕ → Option (ℕ × ℕ) → Option InfoResult
  unfolding stab_binsearch with_function
  with_file addr none = none
  with_file addr (some (lfile, rfile)) =
      if lfile == 1
      then some (not_described (unknown_info addr))
      else if lfile == 0
      then none
      else with_function addr lfile rfile (stab_binsearch stabs n_fun fuel lfile rfile addr)

  -- debuginfo_eip behind the checks of the string table
  unfoldable pub describe : ℕ → ℕ → Option InfoResult
  unfolding stab_binsearch with_file
  describe count addr = with_file addr (stab_binsearch stabs n_so fuel 1 count addr)

-- debuginfo_eip once the tables are known
unfoldable pub debuginfo_in : ℕ → Bytes → Tables → ℕ → Option InfoResult
unfolding describe
debuginfo_in fuel m t addr =
    if leb t.stabstr_end t.stabstr || m (t.stabstr_end - 1) != 0
    then some (not_described (unknown_info addr))
    else describe fuel m (stab_at m t.stab_begin) t.stabstr (t.stabstr_end - t.stabstr)
        (stab_count t) addr

abbrev pub ustabdata : ℕ
ustabdata = ptsize / 2

-- `struct UserStabData` at USTABDATA
abbrev pub user_tables : Bytes → Tables
user_tables m = record {
  stab_begin = word_at m ustabdata;
  stab_end = word_at m (ustabdata + 4);
  stabstr = word_at m (ustabdata + 8);
  stabstr_end = word_at m (ustabdata + 12);
}

-- A check of user memory, with -1 where it fails
unfoldable pub when_valid : ℕ → ℕ → ℕ → Cmd (Option InfoResult) → Cmd (Option InfoResult)
unfolding user_mem_check
when_valid addr va len next = do
  e ← gets (λ k. k.curenv)
  elim e [
    | none ↦ abort
    | some c ↦ do
      v ← gets (λ k. k.envs c)
      bad ← user_mem_check v va len pte_u
      elim bad [ none ↦ next | some _ ↦ pure (some (not_described (unknown_info addr))) ]
  ]

-- `kernel` are the tables that the linker has put into the kernel.
unfoldable pub debuginfo_eip : ℕ → Bytes → Tables → ℕ → Cmd (Option InfoResult)
unfolding debuginfo_in when_valid
debuginfo_eip fuel m kernel addr =
    if leb ulim addr
    then pure (debuginfo_in fuel m kernel addr)
    else when_valid addr ustabdata 16 (
        let t = user_tables m in
        when_valid addr t.stab_begin 12 (
          when_valid addr t.stabstr ((t.stabstr_end + 2 ^ 32 - t.stabstr) % 2 ^ 32)
            (pure (debuginfo_in fuel m t addr))))
