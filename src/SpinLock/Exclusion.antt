-- ===== src/SpinLock/Exclusion.antt =====
-- Mutual exclusion of the kernel lock, and that its own checks do not fail.
use homework_of_operating_sy.Base.{
  ℕ, ◌≡◌, ◌≢◌, ◌⊎◌, inl, inr, ◌↔◌, Bool, true, false, ◌&&◌, Bool-cases, Option, none, some, arith,
}
use homework_of_operating_sy.SpinLock.{
  Pc, taken, critical, leaving, panicked, Lock, init_lock, same_cpu, holding, Step, lock, relock,
  pause, xchg, note, unlock, unheld, release, Reach, start, later,
}

-- From the successful xchg to the one that gives the lock back
abbrev pub has : Pc → Bool
has taken = true
has critical = true
has leaving = true
has _ = false

pub record Inv (s : Lock) : Type 0 where
  pub one : (i j : ℕ) → has (s.pc i) ≡ true → has (s.pc j) ≡ true → i ≡ j
  pub set : (i : ℕ) → has (s.pc i) ≡ true → s.locked ≡ true
  pub noted : (i : ℕ) → s.pc i ≡ critical → s.cpu ≡ some i
  pub owner : (i : ℕ) → s.cpu ≡ some i → s.pc i ≡ critical
  pub running : (i : ℕ) → s.pc i ≢ panicked
  pub busy : s.locked ≡ true → (i : ℕ) × (has (s.pc i) ≡ true)

same_cpu_lem : (o : Option ℕ) (i : ℕ) → same_cpu o i ≡ true → o ≡ some i
same_cpu_lem none i e = cc
same_cpu_lem (some j) i e = ground (arith, e)

unheld_lem : (s : Lock) (i : ℕ) → s.locked ≡ true → s.cpu ≡ some i → holding s i ≢ false
unheld_lem s i e f g = ground (arith, e, f, g)

Step-Inv : {s t : Lock} → Step s t → Inv s → Inv t
Step-Inv {s} (lock i e f) v = record {
  one = λ a b. ground (arith, e, v.one a b);
  set = λ a. ground (arith, e, v.set a);
  noted = λ a. ground (arith, e, v.noted a);
  owner = λ a. ground (arith, e, v.owner a);
  running = λ a. ground (arith, e, v.running a);
  busy = λ l. let (a, h) = v.busy l in (a, ground (arith, e, h));
}
Step-Inv {s} (relock i e f) v =
    absurd (ground (arith, e, v.owner i (same_cpu_lem s.cpu i (ground (arith, f)))))
Step-Inv (pause i e f) v = v
Step-Inv (xchg i e f) v = record {
  one = λ a b. ground (arith, e, v.one a b, v.set a, v.set b, v.one a i, v.one i b, f);
  set = λ a. ground (arith, e, v.set a, v.one i a, v.set i, f);
  noted = λ a. ground (arith, e, v.noted a, v.one i a, f);
  owner = λ a. ground (arith, e, v.owner a, v.noted i, f);
  running = λ a. ground (arith, e, v.running a, f);
  busy = λ l. (i, ground arith);
}
Step-Inv (note i e) v = record {
  one = λ a b. ground (arith, e, v.one a b, v.one a i, v.one i b);
  set = λ a. ground (arith, e, v.set a, v.one i a, v.set i);
  noted = λ a. ground (arith, e, v.noted a, v.one i a);
  owner = λ a. ground (arith, e, v.owner a, v.noted i);
  running = λ a. ground (arith, e, v.running a);
  busy = λ l. (i, ground arith);
}
Step-Inv (unlock i e f) v = record {
  one = λ a b. ground (arith, e, v.one a b, v.one a i, v.one i b);
  set = λ a. ground (arith, e, v.set a, v.one i a, v.set i);
  noted = λ a. ground (arith, e, v.noted a, v.one i a);
  owner = λ a. ground (arith, e, v.owner a, v.noted i);
  running = λ a. ground (arith, e, v.running a);
  busy = λ l. (i, ground arith);
}
Step-Inv {s} (unheld i e f) v =
    let mine = v.noted i e in absurd (unheld_lem s i (v.set i (ground (arith, e))) mine f)
Step-Inv (release i e) v = record {
  one = λ a b. ground (arith, e, v.one a b, v.one a i, v.one i b);
  set = λ a. ground (arith, e, v.set a, v.one i a, v.set i);
  noted = λ a. ground (arith, e, v.noted a, v.one i a);
  owner = λ a. ground (arith, e, v.owner a, v.noted i);
  running = λ a. ground (arith, e, v.running a);
  busy = λ l. cc;
}

init-Inv : Inv init_lock
init-Inv = record {
  one = λ i j e f. cc;
  set = λ i e. cc;
  noted = λ i e. cc;
  owner = λ i e. cc;
  running = λ i e. cc;
  busy = λ l. cc;
}

Reach-Inv : {s : Lock} → Reach s → Inv s
Reach-Inv start = init-Inv
Reach-Inv (later r st) = Step-Inv st (Reach-Inv r)

-- In every state that CPUs reach which call spin_lock only outside of the lock and spin_unlock only
-- inside: two CPUs are never inside together, the lock is set exactly while some CPU is, holding() is true
-- on a CPU exactly between its two calls, and no CPU has stopped in a panic of spin_lock or spin_unlock.
pub lock_exclusive :
    {s : Lock} (i j : ℕ)
    → Reach s
    → ((i ≡ j) ⊎ (has (s.pc i) && has (s.pc j) ≡ false))
      × ((s.locked ≡ true) ↔ ((a : ℕ) × (has (s.pc a) ≡ true)))
      × ((holding s j ≡ true) ↔ (s.pc j ≡ critical))
      × (s.pc j ≢ panicked)
lock_exclusive {s} i j r =
    let v = Reach-Inv r in
    (
      elim (Bool-cases (has (s.pc i) && has (s.pc j))) [
        | inl both ↦ inl (v.one i j (ground (arith, both)) (ground (arith, both)))
        | inr apart ↦ inr apart
      ],
      (v.busy, λ (a, e). v.set a e),
      (
        λ h. v.owner j (same_cpu_lem s.cpu j (ground (arith, h))),
        λ h. ground (arith, h, v.noted j h, v.set j (ground (arith, h))),
      ),
      v.running j,
    )
