-- ===== src/PThread/Progress.antt =====
-- No deadlock, and what a wait that returns without a signal does.
use homework_of_operating_sy.Base.{
  ◌+◌, ◌≡◌, ◌≢◌, refl, ◌⊎◌, inl, inr, true, false, Option, none, some, ◌==◌, Bool-cases, arith,
}
use homework_of_operating_sy.PThread.{
  total, signal, Thread, producer, customer, Pc, locking, changing, testing, waiting, woken,
  telling, unlocking, Shop, pc, goto, changed, limit, news, Step, lock, change, wait, pass, wake,
  relock, tell, skip, unlock, opening, Steps, here, next,
}
use homework_of_operating_sy.PThread.Invariant.{inside, Inv, one_awake, Steps-Inv}

abbrev Moves : Shop → Type 0
Moves s = (t : Shop) × Step false s t

-- A thread moves unless it waits, or wants a mutex that is taken.
move :
    (t : Thread) (s : Shop) (p : Pc)
    → pc t s ≡ p
    → p ≢ waiting
    → (inside p ≡ true) ⊎ (s.owner ≡ none)
    → Moves s
move t s locking e n (inl b) = cc
move t s locking e n (inr f) = (goto t changing (record s { owner = some t }), lock t e f)
move t s changing e n o = (goto t testing (record s { goods = changed t s.goods }), change t e)
move t s testing e n o = elim (Bool-cases (s.goods == limit t)) [
  | inl f ↦ (goto t waiting (record s { owner = none }), wait t e (ground (arith, f)))
  | inr f ↦ (goto t telling s, pass t e (ground (arith, f)))
]
move t s waiting e n o = absurd (n refl)
move t s woken e n (inl b) = cc
move t s woken e n (inr f) = (goto t telling (record s { owner = some t }), relock t e f)
move t s telling e n o = elim (Bool-cases (s.goods == news t)) [
  | inl f ↦ (goto t unlocking (signal t s), tell t e (ground (arith, f)))
  | inr f ↦ (goto t unlocking s, skip t e (ground (arith, f)))
]
move t s unlocking e n o = (goto t locking (record s { owner = none }), unlock t e)

moves : (s : Shop) (o : Option Thread) → s.owner ≡ o → Inv s → Moves s
moves s (some producer) e v =
    move producer s s.prod refl (λ f. ground (arith, f, v.prod_has e)) (inl (v.prod_has e))
moves s (some customer) e v =
    move customer s s.cust refl (λ f. ground (arith, f, v.cust_has e)) (inl (v.cust_has e))
moves s none e v = elim (one_awake s v) [
  | inl n ↦ move producer s s.prod refl n (inr e)
  | inr n ↦ move customer s s.cust refl n (inr e)
]

-- No deadlock: in every state that the program reaches, when no wait returns without a signal, one of
-- the threads can move.
pub shop_moves : {s : Shop} → Steps false opening s → (t : Shop) × Step false s t
shop_moves {s} r = moves s s.owner refl (Steps-Inv r)

-- The waits are not in a loop. Where pthread_cond_wait may return without a signal, from any state in which the producer
-- waits with TOTAL goods and the mutex is free, the producer alone goes on to make more than TOTAL goods.
shop_overfull :
    (s : Shop)
    → s.prod ≡ waiting
    → s.owner ≡ none
    → s.goods ≡ total
    → (t : Shop) × Steps true s t × (t.goods ≡ total + 1)
shop_overfull s e f g =
    let s1 = goto producer woken s in
    let s2 = goto producer telling (record s1 { owner = some producer }) in
    let s3 = goto producer unlocking s2 in
    let s4 = goto producer locking (record s3 { owner = none }) in
    let s5 = goto producer changing (record s4 { owner = some producer }) in
    let s6 = goto producer testing (record s5 { goods = changed producer s5.goods }) in
    (
      s6,
      next
          (next
            (next
              (next (next (next here (wake producer refl e)) (relock producer refl f))
                (skip producer refl (ground (arith, g))))
              (unlock producer refl))
            (lock producer refl refl))
          (change producer refl),
      ground (arith, g),
    )
