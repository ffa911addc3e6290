-- ===== src/Sample.antt =====
-- A sample machine of 64 pages for the tests: directory 8, one table in page 9 that maps address
-- 0x1000 to page 10, and the free pages 11 and 12. Process 0 runs; process 1 is its child, waits for
-- a message and can run; slot 2 is free.
use homework_of_operating_sy.Base.{ℕ, true, false, none, some, List, [], ◌∷◌, ◌==◌, if◌then◌else◌}
use homework_of_operating_sy.Kernel.{Kernel, Env, Trapframe}

abbrev pub no_tf : Trapframe
no_tf = record {
  tf_regs = record {
    reg_edi = 0;
    reg_esi = 0;
    reg_ebp = 0;
    reg_oesp = 0;
    reg_ebx = 0;
    reg_edx = 0;
    reg_ecx = 0;
    reg_eax = 0;
  };
  tf_es = 0;
  tf_ds = 0;
  tf_trapno = 0;
  tf_err = 0;
  tf_eip = 0;
  tf_cs = 0;
  tf_eflags = 0;
  tf_esp = 0;
  tf_ss = 0;
}

abbrev pub process : Env
process = record {
  env_tf = no_tf;
  env_link = none;
  env_id = 0x1000;
  env_parent_id = 0;
  env_type = 0;
  env_status = 3;
  env_runs = 1;
  env_cpunum = 0;
  env_pgdir = some 8;
  env_pgfault_upcall = 0;
  env_ipc_recving = false;
  env_ipc_dstva = 0;
  env_ipc_value = 0;
  env_ipc_from = 0;
  env_ipc_perm = 0;
  pr = 0;
}

abbrev pub child : Env
child = record process {
  env_id = 0x1001;
  env_parent_id = 0x1000;
  env_status = 2;
  env_ipc_recving = true;
  env_ipc_dstva = 0x2000;
  env_ipc_perm = 7;
}

abbrev pub slots : ℕ → Env
slots e =
    if e == 0
    then process
    else (if e == 1 then child else record process { env_id = 0; env_status = 0; env_pgdir = none })

abbrev pub words : ℕ → ℕ → ℕ
words f j =
    if f == 8
    then (if j == 0 then 0x9007 else 0)
    else (if f == 9 then (if j == 1 then 0xA007 else 0) else 0)

abbrev pub machine : Kernel
machine = record {
  npages = 64;
  word = words;
  pp_ref = λ i. if i == 10 then 1 else (if i == 9 then 1 else 0);
  pp_link = λ i. if i == 11 then some 12 else none;
  page_free_list = some 11;
  kern_pgdir = 3;
  envs = slots;
  env_free_list = some 2;
  curenv = some 0;
  cpunum = 0;
  halted = false;
  locked = true;
  flushed = [];
  cr3 = 8;
}

abbrev pub free_pages : List ℕ
free_pages = 11 ∷ 12 ∷ []
