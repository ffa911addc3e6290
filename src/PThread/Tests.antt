-- ===== src/PThread/Tests.antt =====
-- The two threads: the producer takes the mutex and makes one good, and a full shop.
use homework_of_operating_sy.Base.{◌≤◌, ◌≡◌, ◌≢◌, refl, ◌⊎◌, false, ◌&&◌, none, some}
use homework_of_operating_sy.PThread.{
  total, producer, changing, testing, waiting, locking, Shop, goto, Step, lock, change, opening,
  Steps, here, next,
}
use homework_of_operating_sy.PThread.Invariant.{inside, shop_safe}
use homework_of_operating_sy.PThread.Progress.{shop_moves}

abbrev taken : Shop
taken = goto producer changing (record opening { owner = some producer })

abbrev made : Shop
made = goto producer testing (record taken { goods = 3 })

to_made : Steps false opening made
to_made = next (next here (lock producer refl refl)) (change producer refl)

shop_safe_example :
    (made.goods ≤ total)
    × (inside made.prod && inside made.cust ≡ false)
    × ((made.prod ≢ waiting) ⊎ (made.cust ≢ waiting))
shop_safe_example = shop_safe to_made

shop_moves_example : (t : Shop) × Step false made t
shop_moves_example = shop_moves to_made

abbrev full : Shop
full = record { goods = 10; owner = none; prod = waiting; cust = locking }
