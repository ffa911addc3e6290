-- ===== src/Trap/Tests.antt =====
-- The trap theorems on the sample machine.
use homework_of_operating_sy.Base.{ℕ, ◌≡◌, refl, false, inl, inr, arith}
use homework_of_operating_sy.Kernel.{Kernel, Trapframe}
use homework_of_operating_sy.Sample.{machine, no_tf}
use homework_of_operating_sy.Sched.{sched_yield}
use homework_of_operating_sy.Trap.{trap}
use homework_of_operating_sy.Trap.Entry.{TrapOutcome, frame_saved, trap_lem}

-- A clock interrupt in process 0, and a divide error
abbrev tick : Trapframe
tick = record no_tf { tf_trapno = 32; tf_cs = 0x1B }

abbrev divide : Trapframe
divide = record no_tf { tf_cs = 0x1B }

abbrev running : Kernel
running = record machine { locked = false }

trap_lem_example : TrapOutcome {A = ℕ} 0 divide running (trap 0 0 divide running)
trap_lem_example =
    trap_lem {A = ℕ} 0 0 0 divide running refl refl refl refl (omega arith) (omega arith)
      (omega arith) (λ p. refl)

clock_trap : trap {A = ℕ} 0 0 tick running ≡ sched_yield (frame_saved 0 tick running)
clock_trap =
    elim (trap_lem {A = ℕ} 0 0 0 tick running refl refl refl refl (omega arith) (omega arith)
      (omega arith) (λ p. refl)) [
        | inl (zombie, _) ↦ ground (arith, zombie)
        | inr (inl (_, _, e)) ↦ e
        | inr (inr (_, other, _)) ↦ absurd (other refl)
      ]
