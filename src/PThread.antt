-- ===== src/PThread.antt =====
-- The producer and the customer of OSLab2-PThread/main.c: two threads, one shared access at a time. The
-- mutex and the condition variables are as POSIX gives them; `spurious` says whether
-- pthread_cond_wait may return with no signal, which POSIX allows. Output and sleep() are left out.
pub mod Invariant
pub mod Progress
mod Tests
use homework_of_operating_sy.Base.{
  ℕ, ◌+◌, ◌-◌, ◌%◌, ◌^◌, ◌≡◌, ◌≢◌, Bool, true, false, Option, none, some,
}

abbrev pub total : ℕ
total = 10

pub data Thread : Type 0 where
  producer customer : Thread

abbrev pub other : Thread → Thread
other producer = customer
other customer = producer

-- The next statement of a thread: pthread_mutex_lock, the change of `goods`, the first test, inside
-- pthread_cond_wait without and with a signal, the second test, pthread_mutex_unlock.
pub data Pc : Type 0 where
  locking changing testing waiting woken telling unlocking : Pc

-- `goods` is an int, as its bit pattern; `owner` is the thread that has the mutex.
pub record Shop : Type 0 where
  pub goods : ℕ
  pub owner : Option Thread
  pub prod : Pc
  pub cust : Pc

abbrev pub pc : Thread → Shop → Pc
pc producer s = s.prod
pc customer s = s.cust

abbrev pub goto : Thread → Pc → Shop → Shop
goto producer p s = record s { prod = p }
goto customer p s = record s { cust = p }

-- `goods++` and `goods--`
abbrev pub changed : Thread → ℕ → ℕ
changed producer n = (n + 1) % 2 ^ 32
changed customer n = (n + 2 ^ 32 - 1) % 2 ^ 32

-- The number of goods at which a thread waits, and the number at which it signals to the other
abbrev pub limit : Thread → ℕ
limit producer = total
limit customer = 0

abbrev pub news : Thread → ℕ
news producer = 1
news customer = total - 1

-- pthread_cond_signal: the other thread, if it waits, goes on once it has the mutex.
abbrev pub signalled : Pc → Pc
signalled waiting = woken
signalled p = p

abbrev pub signal : Thread → Shop → Shop
signal producer s = record s { cust = signalled s.cust }
signal customer s = record s { prod = signalled s.prod }

pub data Step (spurious : Bool) (s : Shop) : Shop → Type 0 where
  lock :
      (t : Thread)
      → pc t s ≡ locking
      → s.owner ≡ none
      → Step spurious s (goto t changing (record s { owner = some t }))
  change :
      (t : Thread)
      → pc t s ≡ changing
      → Step spurious s (goto t testing (record s { goods = changed t s.goods }))
  wait :
      (t : Thread)
      → pc t s ≡ testing
      → s.goods ≡ limit t
      → Step spurious s (goto t waiting (record s { owner = none }))
  pass : (t : Thread) → pc t s ≡ testing → s.goods ≢ limit t → Step spurious s (goto t telling s)
  wake : (t : Thread) → spurious ≡ true → pc t s ≡ waiting → Step spurious s (goto t woken s)
  relock :
      (t : Thread)
      → pc t s ≡ woken
      → s.owner ≡ none
      → Step spurious s (goto t telling (record s { owner = some t }))
  tell :
      (t : Thread)
      → pc t s ≡ telling
      → s.goods ≡ news t
      → Step spurious s (goto t unlocking (signal t s))
  skip : (t : Thread) → pc t s ≡ telling → s.goods ≢ news t → Step spurious s (goto t unlocking s)
  unlock :
      (t : Thread)
      → pc t s ≡ unlocking
      → Step spurious s (goto t locking (record s { owner = none }))

-- main, when both threads have been made
abbrev pub opening : Shop
opening = record { goods = 2; owner = none; prod = locking; cust = locking }

pub data Steps (spurious : Bool) (s : Shop) : Shop → Type 0 where
  here : Steps spurious s s
  next : {t u : Shop} → Steps spurious s t → Step spurious t u → Steps spurious s u
