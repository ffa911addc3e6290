-- ===== src/Trap/Dispatch.antt =====
-- What trap_dispatch does with a frame from user mode, and where page_fault_handler puts its frame.
use homework_of_operating_sy.Base.{
  ℕ, ◌+◌, ◌-◌, ◌%◌, ◌≤◌, ◌≡◌, ◌≢◌, refl, sym, ap, ◌∙◌, Bool, false, Bool-cases, inl, inr, Option,
  some, ◌==◌, ◌!=◌, if◌then◌else◌, arith,
}
use homework_of_operating_sy.Mmu.{pgsize, uxstacktop}
use homework_of_operating_sy.Kernel.{Kernel, Trapframe, panic}
use homework_of_operating_sy.Env.{deref}
use homework_of_operating_sy.Sched.{sched_yield}
use homework_of_operating_sy.Syscall.{with_cur}
use homework_of_operating_sy.EnvFree.{env_destroy}
use homework_of_operating_sy.Trap.{
  utf_addr, utf_size, saved, page_fault_handler, dispatch, fault_in, upcall,
}

-- A fault in the upcall itself: if the upcall for a fault at stack pointer `esp` uses the exception stack
-- below its frame, down to `esp'`, then the frame of a second fault at `esp'` lies below the first
-- one, with the free word for the return between `esp'` and it, and below the top of the stack.
utf_addr_nested :
    (esp esp' : ℕ)
    → esp' ≤ utf_addr esp
    → uxstacktop - pgsize ≤ esp'
    → (utf_addr esp' + utf_size + 4 ≡ esp')
      × (utf_addr esp' + utf_size + 4 ≤ utf_addr esp)
      × (utf_addr esp + utf_size ≤ uxstacktop)
unfolding utf_addr
utf_addr_nested esp esp' below page = (ground arith, ground arith, ground arith)

-- The fault of a process that has no upcall
fault_lem :
    (cr2 c : ℕ) (tf : Trapframe) (s : Kernel)
    → tf.tf_cs % 4 ≡ 3
    → s.curenv ≡ some c
    → (s.envs c).env_pgfault_upcall ≡ 0
    → page_fault_handler cr2 tf s ≡ env_destroy c s
unfolding page_fault_handler
fault_lem cr2 c tf s ring at unset =
    let user : (tf.tf_cs % 4 == 0) ≡ false = ground (arith, ring) in
    let none_set : ((s.envs c).env_pgfault_upcall != 0) ≡ false = ground (arith, unset) in
    ap (λ (b : Bool). if b then panic else with_cur (fault_in cr2 tf) s) user
    ∙ ap (λ (o : Option ℕ). deref o (fault_in cr2 tf) s) at
    ∙ ap (λ (b : Bool). if b then upcall c cr2 tf s else env_destroy c s) none_set

-- Four of the six tests of trap_dispatch fail.
routed :
    {R : Type 0} (p m q i t x d : R) (b14 b3 b48 b39 b32 b8 : Bool)
    → b3 ≡ false
    → b48 ≡ false
    → b39 ≡ false
    → b8 ≡ false
    → (if b14
        then p
        else if b3
        then m
        else if b48
        then q
        else if b39
        then i
        else if b32
        then t
        else if b8
        then x
        else d)
      ≡ (if b14 then p else if b32 then t else d)
routed p m q i t x d b14 b3 b48 b39 b32 b8 n3 n48 n39 n8 = rw (n3, n48, n39, n8) refl

-- What trap_dispatch does with a frame from user mode.
pub dispatch_lem :
    (getc cr2 c : ℕ) (tf : Trapframe) (s : Kernel)
    → tf.tf_cs % 4 ≡ 3
    → s.curenv ≡ some c
    → tf.tf_trapno ≢ 3
    → tf.tf_trapno ≢ 48
    → tf.tf_trapno ≢ 39
    → (tf.tf_trapno ≡ 14 → (s.envs c).env_pgfault_upcall ≡ 0)
    → dispatch getc cr2 (saved c) tf s
      ≡ (if tf.tf_trapno == 32 then sched_yield s else env_destroy c s)
unfolding dispatch
dispatch_lem getc cr2 c tf s ring at brk call spurious no_upcall =
    let n3 : (tf.tf_trapno == 3) ≡ false = ground (arith, brk) in
    let n48 : (tf.tf_trapno == 48) ≡ false = ground (arith, call) in
    let n39 : (tf.tf_trapno == 39) ≡ false = ground (arith, spurious) in
    let user : (tf.tf_cs == 8) ≡ false = ground (arith, ring) in
    routed _ _ _ _ _ _ _ (tf.tf_trapno == 14) (tf.tf_trapno == 3) (tf.tf_trapno == 48)
      (tf.tf_trapno == 39) (tf.tf_trapno == 32) (tf.tf_cs == 8) n3 n48 n39 user
    ∙ elim (Bool-cases (tf.tf_trapno == 14)) [
      | inl fault ↦
          let n32 : (tf.tf_trapno == 32) ≡ false = ground (arith, fault) in
          ap
            (λ (b : Bool).
              if b
              then page_fault_handler cr2 tf s
              else (if tf.tf_trapno == 32 then sched_yield s else with_cur env_destroy s))
            fault
          ∙ fault_lem cr2 c tf s ring at (no_upcall (ground (arith, fault)))
          ∙ ap (λ (b : Bool). if b then sched_yield s else env_destroy c s) (sym n32)
      | inr other ↦
          ap
            (λ (b : Bool).
              if b
              then page_fault_handler cr2 tf s
              else (if tf.tf_trapno == 32 then sched_yield s else with_cur env_destroy s))
            other
          ∙ ap
              (λ (o : Option ℕ).
                if tf.tf_trapno == 32 then sched_yield s else deref o env_destroy s)
              at
    ]
