-- ===== src/Sched/Tests.antt =====
-- The scheduler's theorems at the sample machine.
use homework_of_operating_sy.Base.{ℕ, ◌⊎◌, arith}
use homework_of_operating_sy.Sample.{machine}
use homework_of_operating_sy.Sched.{chosen}
use homework_of_operating_sy.Sched.Choice.{Chosen, chosen_lem}
use homework_of_operating_sy.Sched.Run.{HasDirs}
use homework_of_operating_sy.Sched.Switch.{Resumes, Idles, sched_yield_lem}

chosen_lem_example : Chosen machine (chosen machine)
chosen_lem_example = chosen_lem machine

machine-HasDirs : HasDirs machine
machine-HasDirs j r = (8, ground arith)

sched_yield_lem_example : ((e : ℕ) × Resumes ℕ e machine) ⊎ Idles ℕ machine
sched_yield_lem_example = sched_yield_lem {A = ℕ} machine machine-HasDirs
