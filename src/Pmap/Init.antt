-- ===== src/Pmap/Init.antt =====
-- page_init of OSLab7-Mitjoslab4/kern/pmap.c: the first free list. The page `med` behind the kernel and its
-- tables comes from the linker, and is an argument.
use homework_of_operating_sy.Base.{
  ℕ, zero, suc, ◌+◌, ◌-◌, ◌/◌, ◌<◌, ◌≤◌, ◌≡◌, refl, none, some, List, [], ◌∷◌, All, All-map, update,
  arith,
}
use homework_of_operating_sy.Mmu.{mpentry_paddr, pgsize}
use homework_of_operating_sy.Kernel.{Kernel}
use homework_of_operating_sy.Pmap.FreeList.{FreeList, ◌∉◌, Chain-update}

-- A loop of page_init: `n` pages from `i` on go to the head of the list.
unfoldable pub link_pages : ℕ → ℕ → Kernel → Kernel
link_pages zero i k = k
link_pages (suc n) i k = link_pages n (i + 1) (record k {
  pp_ref = update k.pp_ref i 0;
  pp_link = update k.pp_link i k.page_free_list;
  page_free_list = some i;
})

unfoldable pub page_init : ℕ → Kernel → Kernel
unfolding link_pages
page_init med k =
    let k' = link_pages (mpentry_paddr / pgsize - 1) 1 k in link_pages (k.npages - med) med k'

-- `n` pages from `i` on, the last one first, in front of a list.
abbrev pub linked : ℕ → ℕ → List ℕ → List ℕ
linked zero i xs = xs
linked (suc n) i xs = linked n (i + 1) (i ∷ xs)

abbrev pub Below : ℕ → List ℕ → Type 0
Below i xs = All (λ x. x < i) xs

Below-missing : (i : ℕ) (xs : List ℕ) → Below i xs → ◌∉◌ i xs
Below-missing i xs b = All-map (λ x h. omega (arith, h)) xs b

Below-next : (i : ℕ) (xs : List ℕ) → Below i xs → Below (i + 1) (i ∷ xs)
Below-next i xs b = (omega arith, All-map (λ x h. omega (arith, h)) xs b)

link_lem :
    (n i : ℕ) (xs : List ℕ) (k : Kernel)
    → Below i xs
    → FreeList k xs
    → FreeList (link_pages n i k) (linked n i xs)
unfolding link_pages
link_lem zero i xs k b f = f
link_lem (suc n) i xs k b f =
    let head : update k.pp_link i k.page_free_list i ≡ k.page_free_list = ground arith in
    link_lem n (i + 1) (i ∷ xs) _ (Below-next i xs b) (
      refl,
      rw head
          (Chain-update k.pp_link k.page_free_list i k.page_free_list xs (Below-missing i xs b) f),
    )

-- On an empty list, page_init makes a free list of exactly the pages from `med` up and the pages 1 to
-- 6, each once, highest first: page 0, the start-up page of the other processors and all that lies
-- between it and `med`, also in base memory, are kept out.
pub page_init_lem :
    (med : ℕ) (k : Kernel)
    → 7 ≤ med
    → k.page_free_list ≡ none
    → FreeList (page_init med k) (linked (k.npages - med) med (linked 6 1 []))
unfolding page_init link_pages
page_init_lem med k h e =
    link_lem (k.npages - med) med (linked 6 1 []) (link_pages 6 1 k) ground (arith, h)
      (link_lem 6 1 [] k tt e)
