-- ===== src/SpinLock/Tests.antt =====
-- CPU 1 has the lock, and CPU 2 spins.
use homework_of_operating_sy.Base.{ℕ, ◌≡◌, ◌≢◌, ◌⊎◌, ◌↔◌, ◌&&◌, refl, true, false, some}
use homework_of_operating_sy.SpinLock.{
  spinning, taken, critical, panicked, Lock, init_lock, holding, goto, lock, xchg, note, Reach,
  start, later,
}
use homework_of_operating_sy.SpinLock.Exclusion.{has, lock_exclusive}

abbrev won : Lock
won = goto 1 taken (record (goto 2 spinning (goto 1 spinning init_lock)) { locked = true })

abbrev held : Lock
held = goto 1 critical (record won { cpu = some 1 })

to_held : Reach held
to_held =
    later (later (later (later start (lock 1 refl refl)) (lock 2 refl refl)) (xchg 1 refl refl))
      (note 1 refl)

lock_exclusive_example :
    ((◌≡◌ {A = ℕ} 1 2) ⊎ (has (held.pc 1) && has (held.pc 2) ≡ false))
    × ((held.locked ≡ true) ↔ ((a : ℕ) × (has (held.pc a) ≡ true)))
    × ((holding held 2 ≡ true) ↔ (held.pc 2 ≡ critical))
    × (held.pc 2 ≢ panicked)
lock_exclusive_example = lock_exclusive 1 2 to_held
