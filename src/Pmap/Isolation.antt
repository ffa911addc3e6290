-- ===== src/Pmap/Isolation.antt =====
-- What page_insert into one address space leaves of another one.
use homework_of_operating_sy.Base.{
  ℕ, ◌<◌, ◌≡◌, refl, ◌≢◌, bit_and, Bool-cases, inl, inr, List, [], ◌∷◌, ◌==◌, arith, ap, ◌∙◌,
}
use homework_of_operating_sy.Mmu.{pdx, ptx, pte_p, utop}
use homework_of_operating_sy.Kernel.{Kernel, Ret, ok, ret, fail, e_no_mem}
use homework_of_operating_sy.Pmap.{page_insert}
use homework_of_operating_sy.Pmap.Entry.{frame, Present}
use homework_of_operating_sy.Pmap.Walk.{entry, with_table, with_table-frame}
use homework_of_operating_sy.Pmap.Insert.{insert_state, insert_old, insert_full, insert-word}
use homework_of_operating_sy.Pmap.Space.{translate, DirOk, DirOk-Table}
use homework_of_operating_sy.Pmap.Translate.{tabled-Table, tabled-entry, tabled-insert}

-- Page `t` is not in the user part of directory `d`: neither the directory nor one of its user tables.
abbrev pub Outside : ℕ → ℕ → Kernel → Type 0
Outside t d k = (t ≢ d) × ((i : ℕ) → i < pdx utop → Present (k.word d i) → frame (k.word d i) ≢ t)

-- Neither directory `d'` nor one of its user tables is in the user part of directory `d`.
pub record Apart (d d' : ℕ) (k : Kernel) : Type 0 where
  pub root : Outside d' d k
  pub below : (i : ℕ) → i < pdx utop → Present (k.word d' i) → Outside (frame (k.word d' i)) d k

-- The pages of the user part of directory `d` hold the same words in `k'`.
pub record Untouched (d : ℕ) (k k' : Kernel) : Type 0 where
  pub directory : (i : ℕ) → k'.word d i ≡ k.word d i
  pub leaves :
      (i j : ℕ)
      → i < pdx utop
      → Present (k.word d i)
      → k'.word (frame (k.word d i)) j ≡ k.word (frame (k.word d i)) j

pub Untouched-translate :
    {d : ℕ} {k k' : Kernel}
    → Untouched d k k'
    → (la : ℕ) → la < utop
    → translate d la k' ≡ translate d la k
Untouched-translate {d} {k} {k'} u la h =
    ground (arith, u.directory (pdx la), u.leaves (pdx la) (ptx la))

pub Untouched-trans :
    {d : ℕ} {k k' k'' : Kernel} → Untouched d k k' → Untouched d k' k'' → Untouched d k k''
Untouched-trans {d} {k} {k'} {k''} u v = record {
  directory = λ i. v.directory i ∙ u.directory i;
  leaves = λ i j m p. ground (arith, u.directory i, u.leaves i j m p, v.leaves i j m);
}

module _ (d d' va : ℕ) where
  -- The entry is written in a table that is not in `d`.
  pub insert_Untouched :
      (i perm : ℕ) (k : Kernel)
      → Outside (frame (k.word d' (pdx va))) d k
      → Untouched d k (insert_state d' i va perm k)
  insert_Untouched i perm k out = record {
    directory = λ j. insert-word d' i va perm k d j ∙ ground (arith, out.0);
    leaves =
        λ j l m p. insert-word d' i va perm k (frame (k.word d j)) l ∙ ground (arith, out.1 j m p);
  }

  -- The new table is a page `x` that was not in `d`.
  pub table_Untouched :
      (x : ℕ) (k : Kernel) → Outside x d k → Outside d' d k → Untouched d k (with_table d' va x k)
  table_Untouched x k out away = record {
    directory = λ j. ground (arith, out.0, away.0);
    leaves = λ j l m p. ground (arith, out.1 j m p, away.1 j m p);
  }

pub Untouched-Outside :
    (t : ℕ) {d : ℕ} {k k' : Kernel} → Untouched d k k' → Outside t d k → Outside t d k'
Untouched-Outside t u out = (out.0, λ i m p. ground (arith, u.directory i, out.1 i m))

module _ {d d' : ℕ} (i va perm : ℕ) {xs : List ℕ} {k : Kernel} (o : DirOk d xs k)
    (o' : DirOk d' xs k) (a : Apart d d' k) (h : va < utop) where
  abbrev Kept : Type 0
  Kept =
      (k' : Kernel) × (r : Ret (Unit {0})) × (page_insert d' i va perm k ≡ ok r k')
      × Untouched d k k'

  old_Kept : Present (k.word d' (pdx va)) → Kept
  old_Kept p =
      let t = DirOk-Table va o' h p in
      (
        insert_state d' i va perm k,
        ret tt,
        insert_old d' i va perm k p t.inside (o'.pages (pdx va) (ptx va) (omega arith) p),
        insert_Untouched d d' va i perm k (a.below (pdx va) (omega arith) p),
      )

  absent_Kept :
      (ys : List ℕ) → DirOk d ys k → DirOk d' ys k → bit_and (k.word d' (pdx va)) pte_p ≡ 0 → Kept
  absent_Kept [] p p' absent = (
    k,
    fail e_no_mem,
    insert_full d' i va perm k absent p'.free,
    record { directory = λ j. refl; leaves = λ j l m q. refl },
  )
  absent_Kept (x ∷ ys) p p' absent =
      let t = tabled-Table x va p' h absent in
      let unused = λ (q : Present (entry d' va (with_table d' va x k))).
        absurd (q (ap (λ (v : ℕ). bit_and v pte_p) (tabled-entry x va p' h absent))) in
      let x_out : Outside x d k = ((p.spare.0).1, (p.spare.0).2) in
      let first = table_Untouched d d' va x k x_out a.root in
      let at_x : Outside (frame ((with_table d' va x k).word d' (pdx va))) d
          (with_table d' va x k) =
        rw (with_table-frame d' va x k (omega (arith, p.spare, p.few)))
          (Untouched-Outside x first x_out) in
      (
        insert_state d' i va perm (with_table d' va x k),
        ret tt,
        tabled-insert x va p' h absent i perm p'.free.0
            ∙ insert_old d' i va perm (with_table d' va x k) t.here t.inside unused,
        Untouched-trans first (insert_Untouched d d' va i perm (with_table d' va x k) at_x),
      )

-- For two well-formed address spaces that share no table, page_insert into the one returns, and whatever it returns, every word of
-- the other's directory and user tables is as before.
pub page_insert_isolated :
    (d d' i va perm : ℕ) (xs : List ℕ) (k : Kernel)
    → DirOk d xs k
    → DirOk d' xs k
    → Apart d d' k
    → va < utop
    → (k' : Kernel) × (r : Ret (Unit {0})) × (page_insert d' i va perm k ≡ ok r k')
      × Untouched d k k'
page_insert_isolated d d' i va perm xs k o o' a h =
    elim (Bool-cases (bit_and (k.word d' (pdx va)) pte_p == 0)) [
      | inl gone ↦ absent_Kept i va perm o o' a h xs o o' (ground (arith, gone))
      | inr there ↦ old_Kept i va perm o o' a h (ground (arith, there))
    ]
