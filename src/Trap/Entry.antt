-- ===== src/Trap/Entry.antt =====
-- What trap does with a trap from user mode.
use homework_of_operating_sy.Base.{
  ℕ, ◌%◌, ◌≡◌, ◌≢◌, refl, sym, ap, ◌∙◌, Bool, true, false, Bool-cases, inl, inr, Option, some, ◌⊎◌,
  ◌==◌, if◌then◌else◌, arith,
}
use homework_of_operating_sy.Kernel.{Kernel, Run, Trapframe, Cmd, and_then, ◌>>◌, env_dying}
use homework_of_operating_sy.Env.{set_env, deref}
use homework_of_operating_sy.Sched.{sched_yield}
use homework_of_operating_sy.Syscall.{with_cur}
use homework_of_operating_sy.EnvFree.{env_destroy}
use mathlib.Core.Path.{subst}
use homework_of_operating_sy.Trap.{
  saved, lock_when, relock, trap_from, dispatch, load_frame, trap_return, trap_end, collect,
  trap_user, trap,
}
use homework_of_operating_sy.Trap.Away.{sched_yield_away}
use homework_of_operating_sy.Trap.Dispatch.{dispatch_lem}
use homework_of_operating_sy.Trap.Freed.{Ends, collect_lem, destroy_lem}

-- The state in which trap handles a trap from user mode, and the one with the frame saved.
abbrev pub entered : Kernel → Kernel
entered k = record k { halted = false; locked = true }

abbrev pub frame_saved : ℕ → Trapframe → Kernel → Kernel
frame_saved c tf k = set_env c (λ v. record v { env_tf = tf }) (entered k)

-- What a run `r` of trap with frame `tf` may be, in process `c`.
abbrev pub TrapOutcome : {A : Type 0} → ℕ → Trapframe → Kernel → Run A → Type 0
TrapOutcome c tf k r =
    (((k.envs c).env_status ≡ env_dying) × Ends c (entered k) r)
    ⊎ (((k.envs c).env_status ≢ env_dying)
        × (tf.tf_trapno ≡ 32)
        × (r ≡ sched_yield (frame_saved c tf k)))
    ⊎ (((k.envs c).env_status ≢ env_dying) × (tf.tf_trapno ≢ 32) × Ends c (frame_saved c tf k) r)

module _ {A : Type 0} (getc cr2 c : ℕ) (tf : Trapframe) (k : Kernel) where
  trap_user_lem :
      tf.tf_cs % 4 ≡ 3
      → k.halted ≡ false
      → k.locked ≡ false
      → k.curenv ≡ some c
      → trap {A = A} getc cr2 tf k ≡ trap_user getc cr2 tf c (entered k)
  unfolding trap
  trap_user_lem ring awake free at =
      let user : (tf.tf_cs % 4 == 3) ≡ true = ground (arith, ring) in
      ap
        (λ (b : Bool).
          and_then (relock b (record k { halted = false }))
            (λ _. trap_from {A = A} (tf.tf_cs % 4 == 3) getc cr2 tf))
        awake
      ∙ ap (λ (b : Bool). trap_from {A = A} b getc cr2 tf (record k { halted = false })) user
      ∙ ap
          (λ (b : Bool).
            and_then (lock_when b (record k { halted = false }))
              (λ _. with_cur (trap_user {A = A} getc cr2 tf)))
          free
      ∙ ap (λ (o : Option ℕ). deref o (trap_user {A = A} getc cr2 tf) (entered k)) at

  dispatched :
      tf.tf_cs % 4 ≡ 3
      → k.curenv ≡ some c
      → tf.tf_trapno ≢ 3
      → tf.tf_trapno ≢ 48
      → tf.tf_trapno ≢ 39
      → (tf.tf_trapno ≡ 14 → (k.envs c).env_pgfault_upcall ≡ 0)
      → trap_end {A = A} getc cr2 (saved c) (frame_saved c tf k) ≡ (
          if tf.tf_trapno == 32
          then sched_yield (frame_saved c tf k)
          else (env_destroy c >> λ k'. trap_return k'.curenv k') (frame_saved c tf k))
  dispatched ring at brk call spurious no_upcall =
      let s = frame_saved c tf k in
      let next : Unit {0} → Cmd A = λ _ k'. trap_return k'.curenv k' in
      let load : load_frame (saved c) s ≡ tf = ground arith in
      ap (λ (t : Trapframe). and_then (dispatch getc cr2 (saved c) t s) next) load
      ∙ ap (λ (r : Run (Unit {0})). and_then r next)
          (dispatch_lem getc cr2 c tf s ring at brk call spurious
            (λ p. ground (arith, no_upcall p)))
      ∙ went next (tf.tf_trapno == 32) s
    where
      went :
          (next : Unit {0} → Cmd A) (b : Bool) (s : Kernel)
          → and_then (if b then sched_yield s else env_destroy c s) next
            ≡ (if b then sched_yield s else and_then (env_destroy c s) next)
      went next true s = sched_yield_away next s
      went next false s = refl

  -- A trap from user mode on a CPU that is neither halted nor holds the lock, in process `c`, other than
  -- a system call, a breakpoint or a spurious interrupt, and, for a page fault, in a process that has no
  -- upcall. With the lock taken: a zombie is freed; for another process the frame is saved in its record, a clock
  -- interrupt runs the scheduler, and any other trap frees the process. Where a process is freed, the kernel
  -- panics, or the process is free and first in the list of the free ones, the other records are as they were, and the
  -- scheduler runs with no current process.
  pub trap_lem :
      tf.tf_cs % 4 ≡ 3
      → k.halted ≡ false
      → k.locked ≡ false
      → k.curenv ≡ some c
      → tf.tf_trapno ≢ 3
      → tf.tf_trapno ≢ 48
      → tf.tf_trapno ≢ 39
      → (tf.tf_trapno ≡ 14 → (k.envs c).env_pgfault_upcall ≡ 0)
      → TrapOutcome c tf k (trap {A = A} getc cr2 tf k)
  trap_lem ring awake free at brk call spurious no_upcall =
      let s = frame_saved c tf k in
      let next : Unit {0} → Cmd A = λ _ k'. trap_return k'.curenv k' in
      let run = trap_user_lem ring awake free at in
      elim (Bool-cases ((k.envs c).env_status == env_dying)) [
        | inl zombie ↦
            let run' : trap getc cr2 tf k ≡ collect c (entered k) = run ∙ rw (zombie) refl in
            inl (
              ground (arith, zombie),
              subst (Ends c (entered k)) (sym run') (collect_lem c (entered k)),
            )
        | inr alive ↦
            let run' : trap getc cr2 tf k
                ≡ (if tf.tf_trapno == 32 then sched_yield s else and_then (env_destroy c s) next) =
              run ∙ rw (alive) (dispatched ring at brk call spurious no_upcall) in
            elim (Bool-cases (tf.tf_trapno == 32)) [
              | inl clock ↦
                  let run'' : trap getc cr2 tf k ≡ sched_yield s = run' ∙ rw (clock) refl in
                  inr (inl (ground (arith, alive), ground (arith, clock), run''))
              | inr other ↦
                  let run'' : trap getc cr2 tf k ≡ and_then (env_destroy c s) next =
                    run' ∙ rw (other) refl in
                  inr (
                    inr (
                      ground (arith, alive),
                      ground (arith, other),
                      subst (Ends c s) (sym run'') (destroy_lem next c s at),
                    ))
            ]
      ]
