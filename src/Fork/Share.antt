-- ===== src/Fork/Share.antt =====
-- duppage against the translations of the parent's and the child's address space.
use homework_of_operating_sy.Base.{
  ◌!=◌, ℕ, ◌*◌, ◌/◌, ◌%◌, ◌<◌, ◌≡◌, ◌⊎◌, inl, inr, ap, sym, ◌∙◌, ◌&&◌, ◌||◌, bit_and, bit_or, Bool,
  true, false, Bool-cases, Option, none, some, List, [], leb, ◌==◌, if◌then◌else◌, arith,
}
use mathlib.Core.Path.{subst}
use homework_of_operating_sy.Mmu.{pte_w, pdx, ptx, pgnum, pgsize, nptentries, pte_p, pte_u, utop}
use homework_of_operating_sy.Kernel.{
  Kernel, Env, Run, Ret, ok, panic, ret, and_then, ◌>>◌, pure, gets,
}
use homework_of_operating_sy.Pmap.{page_insert}
use homework_of_operating_sy.Pmap.Entry.{frame, new_pte}
use homework_of_operating_sy.Pmap.Space.{translate, DirOk}
use homework_of_operating_sy.Pmap.Isolation.{Apart, Untouched-translate}
use homework_of_operating_sy.Pmap.Fresh.{Fresh, fresh_lem, remap_lem}
use homework_of_operating_sy.Env.{envid2env, deref}
use homework_of_operating_sy.Syscall.{with_pgdir, lacks_user, unaligned, status_of, sys_page_map}
use homework_of_operating_sy.Syscall.MapRun.{widens, sys_page_map_run}
use homework_of_operating_sy.Fork.{
  uvpt_at, or_panic, writable, cow_perm, checked, share_cow, dup_entry, duppage,
}

-- PTE_W or PTE_COW is set in an entry
abbrev pub was_writable : ℕ → Bool
was_writable v = bit_and v pte_w != 0 || bit_and v 2048 != 0

-- The permissions that the child gets for a page with entry `v`
abbrev pub shared_perm : ℕ → ℕ
shared_perm v = if was_writable v then 0x805 else 0x5

-- In `k'`, both address spaces map the page: the child with the permissions above, the parent as copy-on-write if it could
-- write. All other user addresses are translated as before.
pub record Shared (d1 d2 pn v : ℕ) (k k' : Kernel) : Type 0 where
  pub child :
      (la : ℕ)
      → la < utop
      → translate d2 la k'
        ≡ (if pgnum la == pn then some (new_pte (frame v) (shared_perm v)) else translate d2 la k)
  pub parent :
      (la : ℕ)
      → la < utop
      → translate d1 la k' ≡ (
          if was_writable v && (pgnum la == pn)
          then some (new_pte (frame v) 0x805)
          else translate d1 la k)

-- What a run `r` of duppage may be: it has no page for the child's table, where it panics for a writable page and returns
-- 0 for a read-only one; or the page is shared.
abbrev pub DupOutcome : ℕ → ℕ → ℕ → ℕ → List ℕ → Kernel → Run (Ret ℕ) → Type 0
DupOutcome d1 d2 pn v xs k r =
    ((bit_and (k.word d2 (pdx (pn * pgsize))) pte_p ≡ 0)
      × (xs ≡ [])
      × (r ≡ (if was_writable v then panic else ok (ret 0) k)))
    ⊎ ((k' : Kernel) × (r ≡ ok (ret 0) k') × Shared d1 d2 pn v k k')

module _ (envid pn c e d1 d2 v : ℕ) (xs : List ℕ) (k : Kernel) (cur : k.curenv ≡ some c)
    (at1 : (k.envs c).env_pgdir ≡ some d1) (at2 : (k.envs e).env_pgdir ≡ some d2)
    (known : envid2env envid true k ≡ ok (ret (some e)) k) (o1 : DirOk d1 xs k) (o2 : DirOk d2 xs k)
    (a : Apart d1 d2 k) (h : pn * pgsize < utop)
    (there : translate d1 (pn * pgsize) k ≡ some v) where
  abbrev va : ℕ
  va = pn * pgsize

  entry_read : uvpt_at d1 pn k ≡ v
  entry_read =
      let row : pdx va ≡ pn / nptentries = omega (arith, h) in
      let column : ptx va ≡ pn % nptentries = omega (arith, h) in ground (arith, row, column, there)

  opened : duppage envid pn k ≡ dup_entry envid va v k
  unfolding duppage
  opened =
      ap
        (λ (t : Option ℕ).
          and_then (deref t (λ i. with_pgdir i (λ d. gets (uvpt_at d pn))) k) (dup_entry envid va))
        cur
      ∙ ap (λ (t : Option ℕ). and_then (deref t (λ d. gets (uvpt_at d pn)) k) (dup_entry envid va))
          at1
      ∙ ap (λ (w : ℕ). dup_entry envid va w k) entry_read

  good : leb utop va || leb utop va || unaligned va || unaligned va ≡ false
  good = ground (arith, h)

  own_id : (s : Kernel) → s.curenv ≡ some c → envid2env 0 true s ≡ ok (ret (some c)) s
  unfolding envid2env
  own_id s q = ap (λ (t : Option ℕ). ok (ret t) s) q

  -- The call for the child
  to_child :
      (perm : ℕ)
      → lacks_user perm || widens v perm ≡ false
      → sys_page_map 0 va envid va perm k
        ≡ and_then (page_insert d2 (frame v) va perm k) (λ r. pure (status_of r))
  to_child perm allowed =
      sys_page_map_run 0 va envid va perm c e d1 d2 v xs k (own_id k cur) known at1 at2 o1 good
        there allowed

  cow_allowed : lacks_user cow_perm || widens v cow_perm ≡ false
  cow_allowed = ground arith

  read_allowed : lacks_user (bit_or pte_u pte_p) || widens v (bit_or pte_u pte_p) ≡ false
  read_allowed = ground arith

  module _ {k1 : Kernel} {perm : ℕ} (f : Fresh d1 d2 (frame v) va perm k k1) where
    own_dir : (k1.envs c).env_pgdir ≡ some d1
    own_dir = ap (λ (g : ℕ → Env). (g c).env_pgdir) f.processes ∙ at1

    -- The call for the parent itself
    to_self :
        sys_page_map 0 va 0 va cow_perm k1
        ≡ and_then (page_insert d1 (frame v) va cow_perm k1) (λ r. pure (status_of r))
    to_self =
        let me = own_id k1 (f.cur ∙ cur) in
        sys_page_map_run 0 va 0 va cow_perm c c d1 d1 v (f.good).0 k1 me me own_dir own_dir
          (f.good).1 good (Untouched-translate f.kept va h ∙ there) cow_allowed

  abbrev Outcome : Type 0
  Outcome = DupOutcome d1 d2 pn v xs k (duppage envid pn k)

  same_page : pgnum va ≡ pn
  same_page = omega (arith, h)

  -- The run after the read, by the test of the entry
  abbrev by_test : Bool → Run (Ret ℕ)
  by_test b =
      if b
      then share_cow envid va k
      else and_then (sys_page_map 0 va envid va (bit_or pte_u pte_p) k) (λ r. pure (ret 0))

  -- The run of the call for the child, by the result of page_insert
  abbrev status : Run (Ret (Unit {0})) → Run (Ret ℕ)
  status r = and_then r (λ s. pure (status_of s))

  -- The rest of the copy-on-write case after the call for the child
  abbrev cow_rest : Run (Ret ℕ) → Run (Ret ℕ)
  cow_rest r =
      and_then (and_then r checked)
        (λ _. or_panic (sys_page_map 0 va 0 va cow_perm) >> pure (ret 0))

  -- The rest after the call for the parent
  abbrev own_rest : Run (Ret ℕ) → Run (Ret ℕ)
  own_rest r = and_then (and_then r checked) (λ _. pure (ret 0))

  cow_run :
      writable v ≡ true
      → duppage envid pn k ≡ cow_rest (status (page_insert d2 (frame v) va cow_perm k))
  unfolding share_cow
  cow_run w = opened ∙ ap by_test w ∙ ap cow_rest (to_child cow_perm cow_allowed)

  read_run :
      writable v ≡ false
      → duppage envid pn k
        ≡ and_then (status (page_insert d2 (frame v) va (bit_or pte_u pte_p) k)) (λ _. pure (ret 0))
  read_run w =
      opened
      ∙ ap by_test w
      ∙ ap (λ (r : Run (Ret ℕ)). and_then r (λ _. pure (ret 0)))
          (to_child (bit_or pte_u pte_p) read_allowed)

  -- The child's translations, for permissions that are those of duppage
  abbrev Child : ℕ → Kernel → Type 0
  Child perm k' =
      (la : ℕ)
      → la < utop
      → translate d2 la k'
        ≡ (if pgnum la == pn then some (new_pte (frame v) perm) else translate d2 la k)

  mapped_at :
      (d perm : ℕ) (la : ℕ)
      → (if pgnum la == pgnum va then some (new_pte (frame v) perm) else translate d la k)
        ≡ (if pgnum la == pn then some (new_pte (frame v) perm) else translate d la k)
  mapped_at d perm la =
      ap (λ (n : ℕ). if pgnum la == n then some (new_pte (frame v) perm) else translate d la k)
        same_page

  abbrev perm_of : Bool → ℕ
  perm_of b = if b then cow_perm else bit_or pte_u pte_p

  cow_case : writable v ≡ true → ((k1 : Kernel) × Fresh d1 d2 (frame v) va cow_perm k k1) → Outcome
  cow_case w (k1, f) =
      let (k2, e, own, child) = remap_lem f (frame v) v cow_perm h there in
      inr (
        k2,
        cow_run w
            ∙ ap (λ (r : Run (Ret (Unit {0}))). cow_rest (status r)) f.ran
            ∙ ap own_rest (to_self f)
            ∙ ap (λ (r : Run (Ret (Unit {0}))). own_rest (status r)) e,
        record {
          child =
              subst (λ perm. Child perm k2) (sym (ap perm_of w))
                (λ la g. child la g ∙ f.seen la g ∙ mapped_at d2 cow_perm la);
          parent = λ la g.
              own la g
              ∙ mapped_at d1 cow_perm la
              ∙ ap
                  (λ (b : Bool).
                    if b && (pgnum la == pn)
                    then some (new_pte (frame v) cow_perm)
                    else translate d1 la k)
                  (sym w);
        },
      )

  read_case :
      writable v ≡ false
      → ((k1 : Kernel) × Fresh d1 d2 (frame v) va (bit_or pte_u pte_p) k k1)
      → Outcome
  read_case w (k1, f) = inr (
    k1,
    read_run w ∙ ap (λ (r : Run (Ret (Unit {0}))). and_then (status r) (λ _. pure (ret 0))) f.ran,
    record {
      child =
          subst (λ perm. Child perm k1) (sym (ap perm_of w))
            (λ la g. f.seen la g ∙ mapped_at d2 (bit_or pte_u pte_p) la);
      parent = λ la g.
          Untouched-translate f.kept la g
          ∙ ap
              (λ (b : Bool).
                if b && (pgnum la == pn)
                then some (new_pte (frame v) cow_perm)
                else translate d1 la k)
              (sym w);
    },
  )

  abbrev full_run : Bool → Run (Ret ℕ)
  full_run b = if b then panic else ok (ret 0) k

  outcome : translate d2 va k ≡ none → Outcome
  outcome free = elim (Bool-cases (writable v)) [
    | inl w ↦ elim (fresh_lem d1 d2 (frame v) va cow_perm o1 o2 a h free) [
      | inl (absent, full, e) ↦ inl (
        absent,
        full,
        cow_run w ∙ ap (λ (r : Run (Ret (Unit {0}))). cow_rest (status r)) e ∙ ap full_run (sym w),
      )
      | inr done ↦ cow_case w done
    ]
    | inr w ↦ elim (fresh_lem d1 d2 (frame v) va (bit_or pte_u pte_p) o1 o2 a h free) [
      | inl (absent, full, e) ↦ inl (
        absent,
        full,
        read_run w
            ∙ ap (λ (r : Run (Ret (Unit {0}))). and_then (status r) (λ _. pure (ret 0))) e
            ∙ ap full_run (sym w),
      )
      | inr done ↦ read_case w done
    ]
  ]

-- For two well-formed address spaces that share no table, those of the current process and of the process with id `envid`,
-- and a page `pn` below UTOP that the parent maps and the child does not: either the child has no table for it and
-- no page is free, where duppage panics for a writable or copy-on-write page, and otherwise returns 0 although it has mapped nothing; or it returns 0, the child maps
-- the parent's page, without the permission to write, both map it as copy-on-write if it was writable or copy-on-write,
-- and every other user address of both is translated as before.
pub duppage_lem :
    (envid pn c e d1 d2 v : ℕ) (xs : List ℕ) (k : Kernel)
    → k.curenv ≡ some c
    → (k.envs c).env_pgdir ≡ some d1
    → (k.envs e).env_pgdir ≡ some d2
    → envid2env envid true k ≡ ok (ret (some e)) k
    → DirOk d1 xs k
    → DirOk d2 xs k
    → Apart d1 d2 k
    → pn * pgsize < utop
    → translate d1 (pn * pgsize) k ≡ some v
    → translate d2 (pn * pgsize) k ≡ none
    → DupOutcome d1 d2 pn v xs k (duppage envid pn k)
duppage_lem envid pn c e d1 d2 v xs k cur at1 at2 known o1 o2 a h there free =
    outcome envid pn c e d1 d2 v xs k cur at1 at2 known o1 o2 a h there free
