-- ===== src/Syscall/MapRun.antt =====
-- How sys_page_map runs once its tests have passed.
use homework_of_operating_sy.Base.{
  ℕ, ◌<◌, ◌≡◌, refl, ap, ◌∙◌, ◌&&◌, ◌||◌, bit_and, Bool, true, false, Option, some, List, leb, ◌==◌,
  ◌!=◌, if◌then◌else◌, arith,
}
use homework_of_operating_sy.Mmu.{pte_w, utop}
use homework_of_operating_sy.Kernel.{Kernel, Run, Ret, ok, ret, fail, and_then, pure, e_inval}
use homework_of_operating_sy.Pmap.{page_lookup, page_insert, Pte, load_pte}
use homework_of_operating_sy.Pmap.Entry.{frame}
use homework_of_operating_sy.Pmap.Walk.{slot}
use homework_of_operating_sy.Pmap.Space.{translate, DirOk}
use homework_of_operating_sy.Pmap.Refs.{page_lookup_lem}
use homework_of_operating_sy.Env.{envid2env, deref}
use homework_of_operating_sy.Syscall.{
  lacks_user, unaligned, status_of, map_into, map_found, sys_page_map,
}

-- Would the mapping add the permission to write?
abbrev pub widens : ℕ → ℕ → Bool
widens v perm = bit_and v pte_w == 0 && bit_and perm pte_w != 0

abbrev pub refusal : Kernel → Run (Ret ℕ)
refusal k = ok (fail e_inval) k

-- Two tests with the same answer
either :
    {A : Type 0} (b c : Bool) (x y : A)
    → (if b then x else (if c then x else y)) ≡ (if b || c then x else y)
either true c x y = refl
either false c x y = refl

-- The run of sys_page_map from directory `d1` to `d2`, where the source address has entry `v`.
module _ (k : Kernel) (de d2 dstva perm : ℕ) (at : (k.envs de).env_pgdir ≡ some d2) where
  pub into_run :
      (i : ℕ)
      → map_into de dstva perm i k
        ≡ and_then (page_insert d2 i dstva perm k) (λ r. pure (status_of r))
  into_run i =
      ap
        (λ (t : Option ℕ).
          and_then (deref t (λ pgdir. page_insert pgdir i dstva perm) k) (λ r. pure (status_of r)))
        at

  pub found_run :
      (v : ℕ) (q : Pte)
      → load_pte q k ≡ v
      → map_found de dstva perm (some (frame v, q)) k ≡ (
          if lacks_user perm || widens v perm
          then refusal k
          else and_then (page_insert d2 (frame v) dstva perm k) (λ r. pure (status_of r)))
  found_run v q e =
      let refused = refusal k in
      let go = map_into de dstva perm (frame v) k in
      ap (λ (w : ℕ). if lacks_user perm then refused else (if widens w perm then refused else go)) e
      ∙ either (lacks_user perm) (widens v perm) refused go
      ∙ ap (λ (r : Run (Ret ℕ)). if lacks_user perm || widens v perm then refused else r)
          (into_run (frame v))

-- What is left of sys_page_map after its tests of the addresses
abbrev pub looked_up : ℕ → ℕ → ℕ → Run (Option (ℕ × Pte)) → Run (Ret ℕ)
looked_up de dstva perm l = and_then l (map_found de dstva perm)

-- The lookup of the source, after the tests of the addresses
pub lookup_run :
    (srcenvid srcva dstenvid dstva perm se de d1 : ℕ) (k : Kernel)
    → envid2env srcenvid true k ≡ ok (ret (some se)) k
    → envid2env dstenvid true k ≡ ok (ret (some de)) k
    → (k.envs se).env_pgdir ≡ some d1
    → leb utop srcva || leb utop dstva || unaligned srcva || unaligned dstva ≡ false
    → sys_page_map srcenvid srcva dstenvid dstva perm k
      ≡ looked_up de dstva perm (page_lookup d1 srcva k)
unfolding sys_page_map
lookup_run srcenvid srcva dstenvid dstva perm se de d1 k src dst at1 good =
    rw (src, dst, good)
      (ap (λ (t : Option ℕ). looked_up de dstva perm (deref t (λ pgdir. page_lookup pgdir srcva) k))
        at1)

-- Where the source address has entry `v` and the permissions may be given, sys_page_map ends as page_insert does.
pub sys_page_map_run :
    (srcenvid srcva dstenvid dstva perm se de d1 d2 v : ℕ) (xs : List ℕ) (k : Kernel)
    → envid2env srcenvid true k ≡ ok (ret (some se)) k
    → envid2env dstenvid true k ≡ ok (ret (some de)) k
    → (k.envs se).env_pgdir ≡ some d1
    → (k.envs de).env_pgdir ≡ some d2
    → DirOk d1 xs k
    → leb utop srcva || leb utop dstva || unaligned srcva || unaligned dstva ≡ false
    → translate d1 srcva k ≡ some v
    → lacks_user perm || widens v perm ≡ false
    → sys_page_map srcenvid srcva dstenvid dstva perm k
      ≡ and_then (page_insert d2 (frame v) dstva perm k) (λ r. pure (status_of r))
sys_page_map_run srcenvid srcva dstenvid dstva perm se de d1 d2 v xs k src dst at1 at2 o1 good there
      allowed =
    let low : srcva < utop = ground (arith, good) in
    let found : page_lookup d1 srcva k ≡ ok (some (frame v, slot d1 srcva k)) k =
      page_lookup_lem d1 srcva xs k o1 low ∙ rw there refl in
    let held : load_pte (slot d1 srcva k) k ≡ v = ground (arith, there) in
    lookup_run srcenvid srcva dstenvid dstva perm se de d1 k src dst at1 good
    ∙ ap (looked_up de dstva perm) found
    ∙ found_run k de d2 dstva perm at2 v (slot d1 srcva k) held
    ∙ ap
        (λ (b : Bool).
          if b
          then refusal k
          else and_then (page_insert d2 (frame v) dstva perm k) (λ r. pure (status_of r)))
        allowed
