-- ===== src/Pmap/Fresh.antt =====
-- page_insert at an address that is not mapped, beside another address space: the new free list, and what both address
-- spaces keep for the calls that follow.
use homework_of_operating_sy.Base.{
  ℕ, ◌<◌, ◌≡◌, refl, ◌⊎◌, bit_and, true, Bool, Bool-cases, inl, inr, Option, none, some, List, [],
  ◌∷◌, All, All-map, ◌==◌, if◌then◌else◌, arith, ap, sym, ◌∙◌,
}
use mathlib.Core.Path.{subst}
use homework_of_operating_sy.Mmu.{pdx, ptx, pgnum, pte_p, utop}
use homework_of_operating_sy.Kernel.{Kernel, ok, ret, fail, e_no_mem}
use homework_of_operating_sy.Pmap.{page_insert, load_pte, store_pte, incref}
use homework_of_operating_sy.Pmap.Entry.{frame, Present, new_pte, frame-new_pde}
use homework_of_operating_sy.Pmap.FreeList.{FreeList}
use homework_of_operating_sy.Pmap.Walk.{remove_state, slot, entry, with_table, with_table-frame}
use homework_of_operating_sy.Pmap.Insert.{insert_state, insert_old, insert_full}
use homework_of_operating_sy.Pmap.Space.{translate, DirOk, DirOk-Table}
use homework_of_operating_sy.Pmap.Translate.{
  tabled-word, tabled-translate, tabled-Table, tabled-entry, tabled-insert, insert-translate,
}
use homework_of_operating_sy.Pmap.Isolation.{
  Untouched-translate, Outside, Apart, Untouched, Untouched-trans, Untouched-Outside,
  insert_Untouched, table_Untouched,
}

-- After page_insert in directory `d'` beside directory `d`: where the process finds its directories, the free list, the
-- translations of `d'`, the unchanged words of `d`; and the tables of `d` stay outside `d'`.
pub record Fresh (d d' i va perm : ℕ) (k k' : Kernel) : Type 0 where
  pub ran : page_insert d' i va perm k ≡ ok (ret tt) k'
  pub cur : k'.curenv ≡ k.curenv
  pub processes : k'.envs ≡ k.envs
  pub seen :
      (la : ℕ)
      → la < utop
      → translate d' la k'
        ≡ (if pgnum la == pgnum va then some (new_pte i perm) else translate d' la k)
  pub kept : Untouched d k k'
  pub good : (rest : List ℕ) × DirOk d rest k'
  pub outside : (j : ℕ) → j < pdx utop → Present (k.word d j) → Outside (frame (k.word d j)) d' k'

-- A directory that is not touched stays well-formed beside a free list of pages outside it.
Untouched-DirOk :
    {d : ℕ} {xs : List ℕ} (ys : List ℕ) {k k' : Kernel}
    → DirOk d xs k
    → Untouched d k k'
    → k'.npages ≡ k.npages
    → FreeList k' ys
    → All (λ x. (x < k.npages) × Outside x d k) ys
    → DirOk d ys k'
Untouched-DirOk ys o u n f s = record {
  few = ground (arith, n, o.few);
  free = f;
  spare =
      All-map
        (λ x w.
          (ground (arith, n, w.0), (Untouched-Outside x u w.1).0, (Untouched-Outside x u w.1).1))
        ys s;
  tables = λ e m p. ground (arith, u.directory e, o.tables e m, n);
  distinct = λ e g m l q p r. ground (arith, u.directory e, u.directory g, o.distinct e g m l q);
  pages = λ e t m p q. ground (arith, u.directory e, u.leaves e t m, o.pages e t m, n);
}

DirOk-spare :
    {d : ℕ} {xs : List ℕ} {k : Kernel} → DirOk d xs k → All (λ x. (x < k.npages) × Outside x d k) xs
DirOk-spare {xs = xs} o = All-map (λ x w. (w.0, (w.1, w.2))) xs o.spare

-- The new entry, in a table that is there
abbrev stored : ℕ → ℕ → ℕ → ℕ → Kernel → Kernel
stored d' i va perm k = store_pte (slot d' va k) (new_pte i perm) (incref i k)

insert_state-unmapped :
    (d' i va perm : ℕ) (k : Kernel)
    → bit_and (entry d' va k) pte_p ≡ 0
    → insert_state d' i va perm k ≡ stored d' i va perm k
insert_state-unmapped d' i va perm k e =
    let q = slot d' va k in
    let k1 = incref i k in
    let free : (bit_and (entry d' va k) pte_p == 0) ≡ true = ground (arith, e) in
    ap
      (λ (b : Bool).
        store_pte q (new_pte i perm)
          (if b then k1 else remove_state d' va (frame (load_pte q k)) q k1))
      free

module _ (d d' i va perm : ℕ) {xs : List ℕ} {k : Kernel} (o : DirOk d xs k) (o' : DirOk d' xs k)
    (a : Apart d d' k) (h : va < utop) where
  old_Fresh :
      Present (k.word d' (pdx va))
      → bit_and (entry d' va k) pte_p ≡ 0
      → Fresh d d' i va perm k (stored d' i va perm k)
  old_Fresh p unmapped =
      let t = DirOk-Table va o' h p in
      let e = insert_state-unmapped d' i va perm k unmapped in
      let u : Untouched d k (stored d' i va perm k) =
        subst (Untouched d k) e
          (insert_Untouched d d' va i perm k (a.below (pdx va) (omega arith) p)) in
      record {
        ran =
            insert_old d' i va perm k p t.inside (o'.pages (pdx va) (ptx va) (omega arith) p)
            ∙ ap (λ (s : Kernel). ok (ret tt) s) e;
        cur = refl;
        processes = refl;
        seen = λ la g.
            subst
              (λ s.
                translate d' la s
                ≡ (if pgnum la == pgnum va then some (new_pte i perm) else translate d' la k))
              e (insert-translate d' i va perm la k t h g);
        kept = u;
        good = (xs, Untouched-DirOk xs o u refl o.free (DirOk-spare o));
        outside = λ j m q. (
          a.root.1 j m q,
          λ l n r. ground (
            arith,
            t.away,
            a.below l n,
            (λ (w : Present (k.word d' l)). (a.below l n w).1 j m q),
          ),
        );
      }

  module _ (absent : bit_and (k.word d' (pdx va)) pte_p ≡ 0) where
    new_Fresh :
        (x : ℕ) (ys : List ℕ)
        → DirOk d (x ∷ ys) k
        → DirOk d' (x ∷ ys) k
        → Fresh d d' i va perm k (stored d' i va perm (with_table d' va x k))
    new_Fresh x ys p p' =
        let k1 = with_table d' va x k in
        let t = tabled-Table x va p' h absent in
        let x_out : Outside x d k = ((p.spare.0).1, (p.spare.0).2) in
        let first = table_Untouched d d' va x k x_out a.root in
        let at_x : frame (k1.word d' (pdx va)) ≡ x =
          with_table-frame d' va x k (omega (arith, p.spare, p.few)) in
        let out_x : Outside (frame (k1.word d' (pdx va))) d k1 =
          rw at_x (Untouched-Outside x first x_out) in
        let unmapped : bit_and (entry d' va k1) pte_p ≡ 0 =
          ap (λ (v : ℕ). bit_and v pte_p) (tabled-entry x va p' h absent) in
        let e = insert_state-unmapped d' i va perm k1 unmapped in
        let u : Untouched d k (stored d' i va perm k1) =
          Untouched-trans first
            (subst (Untouched d k1) e (insert_Untouched d d' va i perm k1 out_x)) in
        record {
          ran =
              tabled-insert x va p' h absent i perm p'.free.0
              ∙ insert_old d' i va perm k1 t.here t.inside (λ q. absurd (q unmapped))
              ∙ ap (λ (s : Kernel). ok (ret tt) s) e;
          cur = refl;
          processes = refl;
          seen = λ la g.
              subst
                (λ s.
                  translate d' la s
                  ≡ (if pgnum la == pgnum va then some (new_pte i perm) else translate d' la k))
                e
                (insert-translate d' i va perm la k1 t h g
                  ∙ ap (λ (r : Option ℕ). if pgnum la == pgnum va then some (new_pte i perm) else r)
                      (tabled-translate x va p' h absent la g));
          kept = u;
          good = (ys, Untouched-DirOk ys p u refl p.free.1 (DirOk-spare p).1);
          outside = λ j m q. (
            a.root.1 j m q,
            λ l n r. ground (
              arith,
              t.away,
              tabled-word x va p' h absent d' l,
              frame-new_pde x (omega (arith, p.spare, p.few)),
              x_out.1 j m q,
              (λ (w : Present (k.word d' l)). (a.below l n w).1 j m q),
            ),
          );
        }

  pub fresh_lem :
      translate d' va k ≡ none
      → ((bit_and (k.word d' (pdx va)) pte_p ≡ 0)
          × (xs ≡ [])
          × (page_insert d' i va perm k ≡ ok (fail e_no_mem) k))
        ⊎ ((k' : Kernel) × Fresh d d' i va perm k k')
  fresh_lem unmapped = elim (Bool-cases (bit_and (k.word d' (pdx va)) pte_p == 0)) [
    | inl gone ↦ missing xs o o' (ground (arith, gone))
    | inr there ↦ inr (_, old_Fresh (ground (arith, there)) (ground (arith, there, unmapped)))
  ]
    where
      missing :
          (ys : List ℕ)
          → DirOk d ys k
          → DirOk d' ys k
          → bit_and (k.word d' (pdx va)) pte_p ≡ 0
          → ((bit_and (k.word d' (pdx va)) pte_p ≡ 0)
              × (ys ≡ [])
              × (page_insert d' i va perm k ≡ ok (fail e_no_mem) k))
            ⊎ ((k' : Kernel) × Fresh d d' i va perm k k')
      missing [] p p' absent = inl (absent, refl, insert_full d' i va perm k absent p'.free)
      missing (x ∷ ys) p p' absent = inr (_, new_Fresh absent x ys p p')

-- page_insert at a mapped address of directory `d`, after page_insert into `d'`: the other one is not touched.
pub remap_lem :
    {d d' i va perm : ℕ} {k k1 : Kernel} (f : Fresh d d' i va perm k k1) (j v perm' : ℕ)
    → va < utop
    → translate d va k ≡ some v
    → (k2 : Kernel) × (page_insert d j va perm' k1 ≡ ok (ret tt) k2)
      × ((la : ℕ)
          → la < utop
          → translate d la k2
            ≡ (if pgnum la == pgnum va then some (new_pte j perm') else translate d la k))
      × ((la : ℕ) → la < utop → translate d' la k2 ≡ translate d' la k1)
remap_lem {d} {d'} {i} {va} {perm} {k} {k1} f j v perm' h there =
    let (rest, o) = f.good in
    let p : Present (k.word d (pdx va)) = ground (arith, there) in
    let p1 : Present (k1.word d (pdx va)) = ground (arith, f.kept.directory (pdx va), p) in
    let t = DirOk-Table va o h p1 in
    let same : frame (k.word d (pdx va)) ≡ frame (k1.word d (pdx va)) =
      ap frame (sym (f.kept.directory (pdx va))) in
    let out : Outside (frame (k1.word d (pdx va))) d' k1 =
      subst (λ x. Outside x d' k1) same (f.outside (pdx va) (omega (arith, h)) p) in
    (
      insert_state d j va perm' k1,
      insert_old d j va perm' k1 p1 t.inside (o.pages (pdx va) (ptx va) (omega (arith, h)) p1),
      (λ la g.
          insert-translate d j va perm' la k1 t h g
          ∙ ap (λ (r : Option ℕ). if pgnum la == pgnum va then some (new_pte j perm') else r)
              (Untouched-translate f.kept la g)),
      Untouched-translate (insert_Untouched d' d va j perm' k1 out),
    )
