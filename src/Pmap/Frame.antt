-- ===== src/Pmap/Frame.antt =====
-- What the operations on memory leave alone: the records of the processes and the state of the scheduler.
use homework_of_operating_sy.Base.{
  ℕ, ◌≡◌, refl, ◌∙◌, Bool, true, false, Option, none, some, List, ◌∷◌, ltb, ◌==◌, bit_and, ◌!=◌,
  if◌then◌else◌,
}
use homework_of_operating_sy.Mmu.{pgnum, pdx, pte_p, pte_addr}
use homework_of_operating_sy.Kernel.{Kernel, Run, ok, panic, Cmd, and_then}
use homework_of_operating_sy.Pmap.{
  Pte, pte, page2pa, kaddr, pa2page, page2kva, load_pte, store_word, store_pte, incref, drop_ref,
  alloc_zero, take_page, page_alloc, page_free, page_decref, walk_present, walk_create, pgdir_walk,
  page_lookup, in_use, tlb_invalidate, page_remove, page_insert,
}

-- The fields that are not of the page array, the words of memory or the log of the flushed addresses.
pub record Stays (k k' : Kernel) : Type 0 where
  pub envs : k'.envs ≡ k.envs
  pub env_free_list : k'.env_free_list ≡ k.env_free_list
  pub curenv : k'.curenv ≡ k.curenv
  pub kern_pgdir : k'.kern_pgdir ≡ k.kern_pgdir
  pub cr3 : k'.cr3 ≡ k.cr3
  pub npages : k'.npages ≡ k.npages
  pub cpunum : k'.cpunum ≡ k.cpunum
  pub halted : k'.halted ≡ k.halted
  pub locked : k'.locked ≡ k.locked

pub Stays-refl : (k : Kernel) → Stays k k
Stays-refl k = record {
  envs = refl;
  env_free_list = refl;
  curenv = refl;
  kern_pgdir = refl;
  cr3 = refl;
  npages = refl;
  cpunum = refl;
  halted = refl;
  locked = refl;
}

pub Stays-trans : {k k' k'' : Kernel} → Stays k k' → Stays k' k'' → Stays k k''
Stays-trans s t = record {
  envs = t.envs ∙ s.envs;
  env_free_list = t.env_free_list ∙ s.env_free_list;
  curenv = t.curenv ∙ s.curenv;
  kern_pgdir = t.kern_pgdir ∙ s.kern_pgdir;
  cr3 = t.cr3 ∙ s.cr3;
  npages = t.npages ∙ s.npages;
  cpunum = t.cpunum ∙ s.cpunum;
  halted = t.halted ∙ s.halted;
  locked = t.locked ∙ s.locked;
}

-- A run that panics, or returns in a state with `P`; it does not leave the kernel.
pub data After {A : Type 0} (P : Kernel → Type 0) : Run A → Type 0 where
  panics : After P panic
  returns : {a : A} {k : Kernel} → P k → After P (ok a k)

-- A command that is only about memory.
abbrev pub Memory : {A : Type 0} → Cmd A → Type 0
Memory c = (k : Kernel) → After (Stays k) (c k)

pub chained :
    {A B : Type 0} {P : Kernel → Type 0} (Q : Kernel → Type 0) {r : Run A} {f : A → Cmd B}
    → After P r
    → ((a : A) (k : Kernel) → P k → After Q (f a k))
    → After Q (and_then r f)
chained Q panics g = panics
chained Q (returns {a} {k} h) g = g a k h

pub weakened :
    {A : Type 0} {P Q : Kernel → Type 0} {r : Run A}
    → ((k : Kernel) → P k → Q k)
    → After P r
    → After Q r
weakened f panics = panics
weakened f (returns {a} {k} h) = returns (f k h)

pub preceded :
    {A : Type 0} {k k' : Kernel} {r : Run A} → Stays k k' → After (Stays k') r → After (Stays k) r
preceded s panics = panics
preceded s (returns t) = returns (Stays-trans s t)

-- A command about memory, and what follows it.
pub onward :
    {A B : Type 0} {k : Kernel} {r : Run A} {f : A → Cmd B}
    → After (Stays k) r
    → ((a : A) → Memory (f a))
    → After (Stays k) (and_then r f)
onward {k} m n = chained (Stays k) m (λ a k' s. preceded s (n a k'))

kaddr-Memory : (pa : ℕ) → Memory (kaddr pa)
unfolding kaddr
kaddr-Memory pa k =
    elim (ltb (pgnum pa) k.npages)
      as (λ b. After (Stays k) (if b then ok (pgnum pa) k else panic)) [
        | true ↦ returns (Stays-refl k)
        | false ↦ panics
      ]

pub pa2page-Memory : (pa : ℕ) → Memory (pa2page pa)
unfolding pa2page
pa2page-Memory pa k =
    elim (ltb (pgnum pa) k.npages)
      as (λ b. After (Stays k) (if b then ok (pgnum pa) k else panic)) [
        | true ↦ returns (Stays-refl k)
        | false ↦ panics
      ]

-- A state in which only the memory differs.
pub Stays-memory :
    {k : Kernel} {w : ℕ → ℕ → ℕ} {r : ℕ → ℕ} {l : ℕ → Option ℕ} {f : Option ℕ} {x : List ℕ}
    → Stays k (record k { word = w; pp_ref = r; pp_link = l; page_free_list = f; flushed = x })
Stays-memory = record {
  envs = refl;
  env_free_list = refl;
  curenv = refl;
  kern_pgdir = refl;
  cr3 = refl;
  npages = refl;
  cpunum = refl;
  halted = refl;
  locked = refl;
}

pub either :
    {A : Type 0} {P : Kernel → Type 0} (b : Bool) {r r' : Run A}
    → After P r
    → After P r'
    → After P (if b then r else r')
either true m n = m
either false m n = n

pub Stays-incref : (i : ℕ) (k : Kernel) → Stays k (incref i k)
Stays-incref i k = Stays-memory

pub Stays-store : (f j v : ℕ) (k : Kernel) → Stays k (store_word f j v k)
Stays-store f j v k = Stays-memory

pub cases :
    {A B : Type 0} {P : Kernel → Type 0} (o : Option A) (c : Cmd B) (d : A → Cmd B) {k : Kernel}
    → After P (c k)
    → ((a : A) → After P (d a k))
    → After P ((elim o as (λ _. Cmd B) [ none ↦ c | some a ↦ d a ]) k)
cases none c d m n = m
cases (some a) c d m n = n a

take_page-Memory : (flags i : ℕ) → Memory (take_page flags i)
unfolding take_page page2kva
take_page-Memory flags i k = preceded Stays-memory (
    onward
      (either (bit_and flags alloc_zero != 0)
        (onward (kaddr-Memory (page2pa i) _) (λ f k'. returns Stays-memory))
        (returns (Stays-refl _)))
      (λ _ k'. returns (Stays-refl k')))

pub page_alloc-Memory : (flags : ℕ) → Memory (page_alloc flags)
unfolding page_alloc
page_alloc-Memory flags k =
    elim k.page_free_list
      as (λ o. After (Stays k) (elim o [ none ↦ ok none k | some i ↦ take_page flags i k ])) [
        | none ↦ returns (Stays-refl k)
        | some i ↦ take_page-Memory flags i k
      ]

pub page_decref-Memory : (i : ℕ) → Memory (page_decref i)
unfolding page_decref page_free
page_decref-Memory i k =
    preceded Stays-memory
      (either ((drop_ref i k).pp_ref i == 0) (returns Stays-memory) (returns (Stays-refl _)))

walk_present-Memory : (pgdir va : ℕ) → Memory (walk_present pgdir va)
unfolding walk_present
walk_present-Memory pgdir va k =
    onward (kaddr-Memory (pte_addr (k.word pgdir (pdx va))) k) (λ f k'. returns (Stays-refl k'))

walk_create-Memory : (pgdir va : ℕ) → Memory (walk_create pgdir va)
unfolding walk_create
walk_create-Memory pgdir va k = onward (page_alloc-Memory alloc_zero k) (λ pg k'.
    cases pg _ _ (returns (Stays-refl k')) (λ i.
      preceded (Stays-trans (Stays-incref i k') (Stays-store pgdir (pdx va) _ (incref i k')))
        (walk_present-Memory pgdir va _)))

pub pgdir_walk-Memory : (pgdir va : ℕ) (create : Bool) → Memory (pgdir_walk pgdir va create)
unfolding pgdir_walk
pgdir_walk-Memory pgdir va true k =
    either (bit_and (k.word pgdir (pdx va)) pte_p == 0) (walk_create-Memory pgdir va k)
      (walk_present-Memory pgdir va k)
pgdir_walk-Memory pgdir va false k =
    either (bit_and (k.word pgdir (pdx va)) pte_p == 0) (returns (Stays-refl k))
      (walk_present-Memory pgdir va k)

tlb_invalidate-Memory : (pgdir va : ℕ) → Memory (tlb_invalidate pgdir va)
unfolding tlb_invalidate
tlb_invalidate-Memory pgdir va k =
    returns
      (elim (in_use pgdir k)
        as (λ b. Stays k (if b then record k { flushed = va ∷ k.flushed } else k)) [
          | true ↦ Stays-memory
          | false ↦ Stays-refl k
        ])

page_lookup-Memory : (pgdir va : ℕ) → Memory (page_lookup pgdir va)
unfolding page_lookup
page_lookup-Memory pgdir va k = onward (pgdir_walk-Memory pgdir va false k) (λ p k'.
    cases p _ _ (returns (Stays-refl k')) (λ q.
      either (bit_and (load_pte q k') pte_p == 0) (returns (Stays-refl k')) (
        onward (pa2page-Memory (pte_addr (load_pte q k')) k') (λ i k''. returns (Stays-refl k'')))))

store_pte-Stays : (q : Pte) (v : ℕ) (k : Kernel) → Stays k (store_pte q v k)
store_pte-Stays (pte f i) v k = Stays-memory

pub page_remove-Memory : (pgdir va : ℕ) → Memory (page_remove pgdir va)
unfolding page_remove
page_remove-Memory pgdir va k = onward (page_lookup-Memory pgdir va k) (λ found k'.
    cases found _ _ (returns (Stays-refl k')) (λ iq.
      either (bit_and (load_pte iq.1 k') pte_p == 0) (returns (Stays-refl k')) (
        onward (page_decref-Memory iq.0 k')
          (λ _ k''. preceded (store_pte-Stays iq.1 0 k'') (tlb_invalidate-Memory pgdir va _)))))

pub page_insert-Memory : (pgdir i va perm : ℕ) → Memory (page_insert pgdir i va perm)
unfolding page_insert
page_insert-Memory pgdir i va perm k = onward (pgdir_walk-Memory pgdir va true k) (λ p k'.
    cases p _ _ (returns (Stays-refl k')) (λ q. preceded (Stays-incref i k') (
      onward
        (either (bit_and (load_pte q (incref i k')) pte_p == 0) (returns (Stays-refl _))
          (page_remove-Memory pgdir va _))
        (λ _ k''. returns (store_pte-Stays q _ k'')))))
