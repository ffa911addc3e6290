-- ===== src/Syscall/PageAlloc.antt =====
-- sys_page_alloc in the caller's own address space: what it maps, and how it counts the page.
use homework_of_operating_sy.Base.{
  All-map, ℕ, ◌+◌, ◌%◌, ◌^◌, ◌<◌, ◌≡◌, sym, update, ◌∙◌, ap, bit_and, bit_or, some, List, ◌∷◌, ◌==◌,
  if◌then◌else◌, arith, false, leb, Option, true,
}
use homework_of_operating_sy.Mmu.{pdx, ptx, pgnum, pte_p, pte_u, utop}
use homework_of_operating_sy.Kernel.{Kernel, Run, Ret, and_then, ok, ret}
use homework_of_operating_sy.Pmap.{incref, alloc_zero, page_insert}
use homework_of_operating_sy.Pmap.Entry.{frame, Present, new_pte, frame-new_pte}
use homework_of_operating_sy.Pmap.FreeList.{allocated, page_alloc-some}
use homework_of_operating_sy.Pmap.Walk.{entry}
use homework_of_operating_sy.Pmap.Insert.{insert_state, insert_old, insert-word}
use homework_of_operating_sy.Pmap.Space.{translate, DirOk, DirOk-Table}
use homework_of_operating_sy.Pmap.Translate.{insert-translate}
use homework_of_operating_sy.Pmap.Refs.{insert-Counts}
use homework_of_operating_sy.Env.{envid2env, deref}
use homework_of_operating_sy.Syscall.{lacks_user, page_kept, page_into, sys_page_alloc}

-- The state in which sys_page_alloc calls page_insert.
abbrev counted : ℕ → Kernel → Kernel
counted x k = incref x (allocated alloc_zero x k)

module _ {d x : ℕ} {xs : List ℕ} {k : Kernel} (o : DirOk d (x ∷ xs) k) where
  counted-word : (f j : ℕ) → (counted x k).word f j ≡ (if f == x then 0 else k.word f j)
  counted-word f j = ground arith

  counted-dir : (j : ℕ) → (counted x k).word d j ≡ k.word d j
  counted-dir j = ground (arith, counted-word d j, o.spare.0)

  counted-DirOk : DirOk d xs (counted x k)
  counted-DirOk = record {
    few = o.few;
    free = o.free.1;
    spare =
        All-map (λ y s. (s.0, s.1, λ a h p. ground (arith, s.2 a h, counted-dir a))) xs o.spare.1;
    tables = λ a h p. ground (arith, o.tables a h, counted-dir a);
    distinct = λ a b h g n p q. ground (arith, o.distinct a b h g n, counted-dir a, counted-dir b);
    pages = λ a t h p q.
        ground (
          arith,
          o.pages a t h,
          counted-dir a,
          o.spare.0.2 a h,
          counted-word (frame (k.word d a)) t,
        );
  }

  counted-table :
      (a j : ℕ)
      → a < pdx utop
      → Present (k.word d a)
      → (counted x k).word (frame ((counted x k).word d a)) j ≡ k.word (frame (k.word d a)) j
  counted-table a j h p =
      ground (arith, counted-dir a, o.spare.0.2 a h p, counted-word (frame (k.word d a)) j)

  counted-translate : (la : ℕ) → la < utop → translate d la (counted x k) ≡ translate d la k
  counted-translate la h = ground (arith, counted-dir (pdx la), counted-table (pdx la) (ptx la))

abbrev pub put : ℕ → ℕ → ℕ → ℕ → Kernel → Kernel
put d x va perm k = insert_state d x va perm (counted x k)

page_into_lem :
    (e d x va perm : ℕ) (xs : List ℕ) (k : Kernel)
    → (k.envs e).env_pgdir ≡ some d
    → DirOk d (x ∷ xs) k
    → va < utop
    → Present (k.word d (pdx va))
    → page_into e va perm x (allocated alloc_zero x k) ≡ ok (ret 0) (put d x va perm k)
unfolding page_into
page_into_lem e d x va perm xs k at o h p =
    let o' = counted-DirOk o in
    let p' : Present ((counted x k).word d (pdx va)) = ground (arith, counted-dir o (pdx va)) in
    let put_in =
      insert_old d x va perm (counted x k) p' (o'.tables (pdx va) (omega arith) p').0
        (o'.pages (pdx va) (ptx va) (omega arith) p') in
    ap
      (λ (t : Option ℕ).
        and_then (deref t (λ pgdir. page_insert pgdir x va perm) (counted x k)) (page_kept x))
      at
    ∙ ap (λ (r : Run (Ret (Unit {0}))). and_then r (page_kept x)) put_in

-- The reference that page_insert takes from page `j` where it replaces entry `v`
abbrev taken : ℕ → ℕ → ℕ
taken j v = if bit_and v pte_p == 0 then 0 else (if frame v == j then 1 else 0)

counted_twice :
    (x j n : ℕ) (refs : ℕ → ℕ)
    → n % 2 ^ 16 ≡ (update refs x ((refs x + 1) % 2 ^ 16) j + (if x == j then 1 else 0)) % 2 ^ 16
    → n % 2 ^ 16 ≡ (refs j + (if x == j then 2 else 0)) % 2 ^ 16
counted_twice x j n refs e = ground arith

-- What sys_page_alloc has done with page `x`: it is zeroed and mapped at `va` with the permissions, the other
-- user addresses keep their translation, and it has two references more, the page that it replaced one fewer.
abbrev pub PageAlloced : ℕ → ℕ → ℕ → ℕ → ℕ → Kernel → Type 0
PageAlloced d x envid va perm k =
    (k' : Kernel) × (sys_page_alloc envid va perm k ≡ ok (ret 0) k')
    × ((la : ℕ)
        → la < utop
        → translate d la k'
          ≡ (if pgnum la == pgnum va then some (new_pte x perm) else translate d la k))
    × (frame (new_pte x perm) ≡ x)
    × ((j : ℕ) → k'.word x j ≡ 0)
    × ((j : ℕ)
        → (k'.pp_ref j
              + (if bit_and (entry d va k) pte_p == 0
                  then 0
                  else (if frame (entry d va k) == j then 1 else 0)))
            % 2 ^ 16
          ≡ (k.pp_ref j + (if x == j then 2 else 0)) % 2 ^ 16)

-- sys_page_alloc for an id that gives the caller access to a process with a well-formed directory, at a user address
-- whose table exists, with permissions below 4096 that have PTE_U and PTE_P, while a page is free: it
-- returns 0, also for an address inside a page and for permissions outside PTE_SYSCALL, and maps the first
-- free page there, zeroed and with the permissions, but counts that page twice for the one mapping; the page that it
-- replaces loses a reference, and the other user addresses and the other counts are as before.
pub sys_page_alloc-pp_ref :
    (envid va perm e d x : ℕ) (xs : List ℕ) (k : Kernel)
    → envid2env envid true k ≡ ok (ret (some e)) k
    → (k.envs e).env_pgdir ≡ some d
    → DirOk d (x ∷ xs) k
    → va < utop
    → perm < 4096
    → bit_and perm (bit_or pte_u pte_p) ≡ bit_or pte_u pte_p
    → Present (k.word d (pdx va))
    → PageAlloced d x envid va perm k
unfolding sys_page_alloc
sys_page_alloc-pp_ref envid va perm e d x xs k found at o h small u p =
    let p' : Present ((counted x k).word d (pdx va)) = ground (arith, counted-dir o (pdx va)) in
    let refs = (put d x va perm k).pp_ref in
    let entry_kept : entry d va (counted x k) ≡ entry d va k =
      counted-table o (pdx va) (ptx va) (omega arith) p in
    let low : leb utop va ≡ false = ground arith in
    let user : lacks_user perm ≡ false = ground (arith, u) in
    let few : x < 2 ^ 20 = ground (arith, o.few, o.spare.0.0) in
    (
      put d x va perm k,
      rw (found, low, user, page_alloc-some alloc_zero x k o.free.0 o.spare.0.0 o.few)
          (page_into_lem e d x va perm xs k at o h p),
      λ la g.
          insert-translate d x va perm la (counted x k) (DirOk-Table va (counted-DirOk o) h p') h g
          ∙ ground (arith, counted-translate o la g),
      frame-new_pte x perm few small,
      λ j.
          insert-word d x va perm (counted x k) x j
          ∙ ground (
            arith,
            counted-dir o (pdx va),
            o.spare.0.2 (pdx va) (omega arith) p,
            counted-word o x j,
          ),
      λ j. counted_twice x j (refs j + taken j (entry d va k)) k.pp_ref (
          ap (λ (v : ℕ). (refs j + taken j v) % 2 ^ 16) (sym entry_kept)
          ∙ insert-Counts d x va perm (counted x k) j),
    )
