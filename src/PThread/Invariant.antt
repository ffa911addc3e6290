-- ===== src/PThread/Invariant.antt =====
-- What holds in every state that the two threads reach when no wait returns without a signal.
use homework_of_operating_sy.Base.{
  ◌≤◌, ◌≡◌, ◌≢◌, ◌⊎◌, inl, inr, Bool, true, false, some, arith, ◌&&◌, leb, Bool-cases,
}
use homework_of_operating_sy.PThread.{
  total, producer, customer, Pc, changing, testing, waiting, telling, unlocking, Shop, Step, lock,
  change, wait, pass, wake, relock, tell, skip, unlock, opening, Steps, here, next,
}

-- Between lock and unlock, and not inside the wait
abbrev pub inside : Pc → Bool
inside changing = true
inside testing = true
inside telling = true
inside unlocking = true
inside _ = false

-- After the change and before the wait or the signal
abbrev pub busy : Pc → Bool
busy testing = true
busy telling = true
busy _ = false

-- Before the change, or past the wait
abbrev pub settled : Pc → Bool
settled testing = false
settled waiting = false
settled _ = true

pub record Inv (s : Shop) : Type 0 where
  pub prod_in : inside s.prod ≡ true → s.owner ≡ some producer
  pub cust_in : inside s.cust ≡ true → s.owner ≡ some customer
  pub prod_has : s.owner ≡ some producer → inside s.prod ≡ true
  pub cust_has : s.owner ≡ some customer → inside s.cust ≡ true
  pub most : s.goods ≤ 10
  pub space : settled s.prod ≡ true → s.goods ≤ 9
  pub some_left : settled s.cust ≡ true → 1 ≤ s.goods
  pub full : s.prod ≡ waiting → 9 ≤ s.goods
  pub told : s.prod ≡ waiting → s.goods ≡ 9 → busy s.cust ≡ true
  pub empty : s.cust ≡ waiting → s.goods ≤ 1
  pub heard : s.cust ≡ waiting → s.goods ≡ 1 → busy s.prod ≡ true

Step-Inv : {s t : Shop} → Step false s t → Inv s → Inv t
Step-Inv (lock producer e f) v = ground arith
Step-Inv (lock customer e f) v = ground arith
Step-Inv (change producer e) v = ground arith
Step-Inv (change customer e) v = ground arith
Step-Inv (wait producer e f) v = ground arith
Step-Inv (wait customer e f) v = ground arith
Step-Inv (pass producer e f) v = ground arith
Step-Inv (pass customer e f) v = ground arith
Step-Inv (wake t e f) v = cc
Step-Inv (relock producer e f) v = ground arith
Step-Inv (relock customer e f) v = ground arith
Step-Inv (tell producer e f) v = ground arith
Step-Inv (tell customer e f) v = ground arith
Step-Inv (skip producer e f) v = ground arith
Step-Inv (skip customer e f) v = ground arith
Step-Inv (unlock producer e) v = ground arith
Step-Inv (unlock customer e) v = ground arith

opening-Inv : Inv opening
opening-Inv = record {
  prod_in = λ e. cc;
  cust_in = λ e. cc;
  prod_has = λ e. cc;
  cust_has = λ e. cc;
  most = omega arith;
  space = λ e. omega arith;
  some_left = λ e. omega arith;
  full = λ e. cc;
  told = λ e f. cc;
  empty = λ e. cc;
  heard = λ e f. cc;
}

pub Steps-Inv : {s : Shop} → Steps false opening s → Inv s
Steps-Inv here = opening-Inv
Steps-Inv (next r st) = Step-Inv st (Steps-Inv r)

-- The number of goods tells which thread may wait.
pub one_awake : (s : Shop) → Inv s → (s.prod ≢ waiting) ⊎ (s.cust ≢ waiting)
one_awake s v = elim (Bool-cases (leb 2 s.goods)) [
  | inl many ↦ inr (λ e. ground (arith, many, v.empty e))
  | inr few ↦ inl (λ e. ground (arith, few, v.full e))
]

-- In every state that the program reaches, when no wait returns without a signal, there are at most
-- TOTAL goods and the count has not wrapped below 0, the two threads are not both between
-- lock and unlock, and they do not both wait.
pub shop_safe :
    {s : Shop}
    → Steps false opening s
    → (s.goods ≤ total)
      × (inside s.prod && inside s.cust ≡ false)
      × ((s.prod ≢ waiting) ⊎ (s.cust ≢ waiting))
shop_safe {s} r = let v = Steps-Inv r in (v.most, ground (arith, v), one_awake s v)
