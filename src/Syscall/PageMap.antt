-- ===== src/Syscall/PageMap.antt =====
-- sys_page_map on every branch, against the translations of the two address spaces.
use homework_of_operating_sy.Base.{
  ℕ, ◌<◌, ◌≡◌, ◌⊎◌, inl, inr, refl, ap, sym, ◌∙◌, ◌||◌, ◌^◌, ◌≢◌, bit_and, bit_or, Bool, true,
  false, Bool-cases, Option-cases, none, some, List, [], leb, ◌==◌, if◌then◌else◌, arith,
}
use mathlib.Core.Path.{subst}
use homework_of_operating_sy.Mmu.{pdx, ptx, pgnum, pte_p, pte_u, pte_w, utop}
use homework_of_operating_sy.Kernel.{
  Kernel, Run, Ret, ok, ret, fail, and_then, pure, e_inval, e_no_mem,
}
use homework_of_operating_sy.Pmap.{page_lookup, page_insert, Pte, load_pte}
use homework_of_operating_sy.Pmap.Entry.{frame, new_pte, frame-new_pte}
use homework_of_operating_sy.Pmap.Walk.{slot}
use homework_of_operating_sy.Pmap.Space.{translate, DirOk}
use homework_of_operating_sy.Pmap.Translate.{page_insert_lem}
use homework_of_operating_sy.Pmap.Refs.{page_lookup_lem}
use homework_of_operating_sy.Env.{envid2env}
use homework_of_operating_sy.Syscall.{lacks_user, unaligned, status_of, map_found, sys_page_map}
use homework_of_operating_sy.Syscall.MapRun.{widens, refusal, found_run, looked_up, lookup_run}

-- The page of `v` has been mapped at `dstva` in directory `d`, and the rest of `d` is as before.
abbrev pub Shared : ℕ → ℕ → ℕ → ℕ → Kernel → Kernel → Type 0
Shared d dstva v perm k k' =
    (la : ℕ)
    → la < utop
    → translate d la k'
      ≡ (if pgnum la == pgnum dstva then some (new_pte (frame v) perm) else translate d la k)

-- What a run `r` of the end of sys_page_map may be, for the page of `v`.
abbrev pub IntoOutcome : ℕ → ℕ → ℕ → ℕ → List ℕ → Kernel → Run (Ret ℕ) → Type 0
IntoOutcome d dstva v perm xs k r =
    ((bit_and (k.word d (pdx dstva)) pte_p ≡ 0) × (xs ≡ []) × (r ≡ ok (fail e_no_mem) k))
    ⊎ ((k' : Kernel) × (r ≡ ok (ret 0) k') × Shared d dstva v perm k k')

-- The permissions have PTE_U and PTE_P, and do not add the one to write to a read-only entry `v`.
abbrev pub Allowed : ℕ → ℕ → Type 0
Allowed v perm =
    (bit_and perm (bit_or pte_u pte_p) ≡ bit_or pte_u pte_p)
    × ((bit_and v pte_w ≢ 0) ⊎ (bit_and perm pte_w ≡ 0))

-- What a run `r` of sys_page_map may be, once the source address is found to have entry `v`.
abbrev pub FoundOutcome : ℕ → ℕ → ℕ → ℕ → List ℕ → Kernel → Run (Ret ℕ) → Type 0
FoundOutcome d dstva v perm xs k r =
    ((¬ Allowed v perm) × (r ≡ ok (fail e_inval) k))
    ⊎ (Allowed v perm × IntoOutcome d dstva v perm xs k r)

-- What a run `r` of sys_page_map from directory `d1` to directory `d2` may be.
abbrev pub MapOutcome : ℕ → ℕ → ℕ → ℕ → ℕ → List ℕ → Kernel → Run (Ret ℕ) → Type 0
MapOutcome d1 srcva d2 dstva perm xs k r =
    ((translate d1 srcva k ≡ none) × (r ≡ ok (fail e_inval) k))
    ⊎ ((v : ℕ) × (translate d1 srcva k ≡ some v)
        × (frame (new_pte (frame v) perm) ≡ frame v)
        × FoundOutcome d2 dstva v perm xs k r)

allowed_lem : (v perm : ℕ) → lacks_user perm || widens v perm ≡ false → Allowed v perm
allowed_lem v perm fine = (
  ground (arith, fine),
  elim (Bool-cases (bit_and v pte_w == 0)) [
    | inl fixed ↦ inr (ground (arith, fine, fixed))
    | inr open_to ↦ inl (ground (arith, open_to))
  ],
)

denied_lem : (v perm : ℕ) → lacks_user perm || widens v perm ≡ true → ¬ Allowed v perm
denied_lem v perm bad (user, inl w) = ground (arith, bad, user, w)
denied_lem v perm bad (user, inr w) = ground (arith, bad, user, w)

module _ {k : Kernel} {xs : List ℕ} (de d2 dstva perm : ℕ) (at : (k.envs de).env_pgdir ≡ some d2)
    (o : DirOk d2 xs k) (h : dstva < utop) where
  inserted : ℕ → Run (Ret ℕ)
  inserted v = and_then (page_insert d2 (frame v) dstva perm k) (λ r. pure (status_of r))

  into_lem : (v : ℕ) → IntoOutcome d2 dstva v perm xs k (inserted v)
  unfolding inserted
  into_lem v = elim (page_insert_lem d2 (frame v) dstva perm xs k o h) [
    | inl (absent, full, e) ↦
        inl (
          absent,
          full,
          ap (λ (r : Run (Ret (Unit {0}))). and_then r (λ r'. pure (status_of r'))) e,
        )
    | inr (k', e, seen) ↦
        inr (k', ap (λ (r : Run (Ret (Unit {0}))). and_then r (λ r'. pure (status_of r'))) e, seen)
  ]

  found_lem :
      (v : ℕ) (q : Pte)
      → load_pte q k ≡ v
      → FoundOutcome d2 dstva v perm xs k (map_found de dstva perm (some (frame v, q)) k)
  unfolding inserted
  found_lem v q e =
      let refused = refusal k in
      let tested = found_run k de d2 dstva perm at v q e in
      elim (Bool-cases (lacks_user perm || widens v perm)) [
        | inl bad ↦ inl (
          denied_lem v perm bad,
          tested ∙ ap (λ (b : Bool). if b then refused else inserted v) bad,
        )
        | inr fine ↦
            let e' = tested ∙ ap (λ (b : Bool). if b then refused else inserted v) fine in
            inr (
              allowed_lem v perm fine,
              subst (IntoOutcome d2 dstva v perm xs k) (sym e') (into_lem v),
            )
      ]

-- sys_page_map between two addresses on page boundaries below UTOP, for ids that give the caller access
-- to the two environments, with well-formed directories and permissions below 4096: it fails with -E_INVAL
-- and changes nothing if the source address is not mapped, if the permissions lack PTE_U or PTE_P, or if they
-- have PTE_W and the source's entry has not; it fails with -E_NO_MEM and changes nothing if the destination has
-- no table and no page is free; and otherwise it returns 0, also for permissions outside PTE_SYSCALL, the
-- destination address is mapped to the source's page with the permissions, and the other user addresses of the
-- destination keep their translation.
pub sys_page_map_lem :
    (srcenvid srcva dstenvid dstva perm se de d1 d2 : ℕ) (xs : List ℕ) (k : Kernel)
    → envid2env srcenvid true k ≡ ok (ret (some se)) k
    → envid2env dstenvid true k ≡ ok (ret (some de)) k
    → (k.envs se).env_pgdir ≡ some d1
    → (k.envs de).env_pgdir ≡ some d2
    → DirOk d1 xs k
    → DirOk d2 xs k
    → leb utop srcva || leb utop dstva || unaligned srcva || unaligned dstva ≡ false
    → perm < 4096
    → MapOutcome d1 srcva d2 dstva perm xs k (sys_page_map srcenvid srcva dstenvid dstva perm k)
sys_page_map_lem srcenvid srcva dstenvid dstva perm se de d1 d2 xs k src dst at1 at2 o1 o2 good
      small =
    let low1 : srcva < utop = ground (arith, good) in
    let low2 : dstva < utop = ground (arith, good) in
    let looked = page_lookup_lem d1 srcva xs k o1 low1 in
    let run = looked_up de dstva perm in
    let opened = lookup_run srcenvid srcva dstenvid dstva perm se de d1 k src dst at1 good in
    elim (Option-cases (translate d1 srcva k)) [
      | inl gone ↦
          let e : page_lookup d1 srcva k ≡ ok none k = looked ∙ rw gone refl in
          inl (gone, opened ∙ ap run e)
      | inr (v, there) ↦
          let q = slot d1 srcva k in
          let e : page_lookup d1 srcva k ≡ ok (some (frame v, q)) k = looked ∙ rw there refl in
          let held : load_pte q k ≡ v = ground (arith, there) in
          let few : frame v < 2 ^ 20 =
            ground (arith, there, o1.few, o1.pages (pdx srcva) (ptx srcva)) in
          inr (
            v,
            there,
            frame-new_pte (frame v) perm few small,
            subst (FoundOutcome d2 dstva v perm xs k) (sym (opened ∙ ap run e))
                (found_lem de d2 dstva perm at2 o2 low2 v q held),
          )
    ]
