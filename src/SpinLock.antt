-- ===== src/SpinLock.antt =====
-- The big kernel lock of OSLab7-Mitjoslab4/kern/spinlock.c, with DEBUG_SPINLOCK, among any number of CPUs:
-- spin_lock and spin_unlock, one access to the lock at a time. The recorded call stacks are left out.
pub mod Exclusion
mod Tests
use homework_of_operating_sy.Base.{
  ℕ, ◌≡◌, Bool, true, false, ◌&&◌, Option, none, some, ◌==◌, update,
}

-- The next access of a CPU: outside, the check in spin_lock passed, the xchg done, the lock held, `lk->cpu` cleared
-- by spin_unlock, or stopped by a panic.
pub data Pc : Type 0 where
  outside spinning taken critical leaving panicked : Pc

-- `struct spinlock`, and where each CPU stands
pub record Lock : Type 0 where
  pub locked : Bool
  pub cpu : Option ℕ
  pub pc : ℕ → Pc

-- __spin_initlock
abbrev pub init_lock : Lock
init_lock = record { locked = false; cpu = none; pc = λ i. outside }

-- holding, on CPU `i`
abbrev pub same_cpu : Option ℕ → ℕ → Bool
same_cpu none i = false
same_cpu (some j) i = j == i

abbrev pub holding : Lock → ℕ → Bool
holding s i = s.locked && same_cpu s.cpu i

abbrev pub goto : ℕ → Pc → Lock → Lock
goto i p s = record s { pc = update s.pc i p }

pub data Step (s : Lock) : Lock → Type 0 where
  lock : (i : ℕ) → s.pc i ≡ outside → holding s i ≡ false → Step s (goto i spinning s)
  relock : (i : ℕ) → s.pc i ≡ outside → holding s i ≡ true → Step s (goto i panicked s)
  pause : (i : ℕ) → s.pc i ≡ spinning → s.locked ≡ true → Step s s
  xchg :
      (i : ℕ)
      → s.pc i ≡ spinning
      → s.locked ≡ false
      → Step s (goto i taken (record s { locked = true }))
  note : (i : ℕ) → s.pc i ≡ taken → Step s (goto i critical (record s { cpu = some i }))
  unlock :
      (i : ℕ)
      → s.pc i ≡ critical
      → holding s i ≡ true
      → Step s (goto i leaving (record s { cpu = none }))
  unheld : (i : ℕ) → s.pc i ≡ critical → holding s i ≡ false → Step s (goto i panicked s)
  release : (i : ℕ) → s.pc i ≡ leaving → Step s (goto i outside (record s { locked = false }))

pub data Reach : Lock → Type 0 where
  start : Reach init_lock
  later : {s t : Lock} → Reach s → Step s t → Reach t
