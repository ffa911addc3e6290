-- ===== src/Pmap/FreeList.antt =====
-- The free list of page_alloc and page_free: a chain of `pp_link` fields that holds a list of pages.
use homework_of_operating_sy.Base.{
  ℕ, ◌^◌, ◌<◌, ◌≤◌, ◌≡◌, refl, ◌≢◌, bit_and, Bool-cases, inl, inr, Option, none, some, List, [],
  ◌∷◌, All, ◌!=◌, if◌then◌else◌, update, arith,
}
use homework_of_operating_sy.Kernel.{Kernel, ok}
use homework_of_operating_sy.Pmap.{
  kaddr, page2kva, zero_page, alloc_zero, take_page, page_alloc, page_free,
}

-- `xs` are the pages met from `head` on, along the links.
abbrev pub Chain : (ℕ → Option ℕ) → Option ℕ → List ℕ → Type 0
Chain link head [] = head ≡ none
Chain link head (x ∷ xs) = (head ≡ some x) × Chain link (link x) xs

abbrev pub FreeList : Kernel → List ℕ → Type 0
FreeList k xs = Chain k.pp_link k.page_free_list xs

abbrev pub ◌∉◌ : ℕ → List ℕ → Type 0
◌∉◌ x xs = All (λ y. y ≢ x) xs

-- A link written outside the chain leaves it alone.
pub Chain-update :
    (link : ℕ → Option ℕ) (head : Option ℕ) (i : ℕ) (v : Option ℕ) (xs : List ℕ)
    → ◌∉◌ i xs
    → Chain link head xs
    → Chain (update link i v) head xs
Chain-update link head i v [] out c = c
Chain-update link head i v (x ∷ xs) out c =
    let e : update link i v x ≡ link x = ground (arith, out.0) in
    (c.0, rw e (Chain-update link (link x) i v xs out.1 c.1))

pub page2kva_lem : (i : ℕ) (k : Kernel) → i < k.npages → k.npages ≤ 2 ^ 20 → page2kva i k ≡ ok i k
unfolding page2kva kaddr
page2kva_lem i k h few = ground arith

-- The state after page_alloc has handed out page `x`.
abbrev pub allocated : ℕ → ℕ → Kernel → Kernel
allocated flags x k =
    let k' = record k { page_free_list = k.pp_link x } in
    if bit_and flags alloc_zero != 0 then zero_page x k' else k'

take_page_lem :
    (flags x : ℕ) (k : Kernel)
    → x < k.npages
    → k.npages ≤ 2 ^ 20
    → take_page flags x k ≡ ok (some x) (allocated flags x k)
unfolding take_page
take_page_lem flags x k h few =
    let k' = record k { page_free_list = k.pp_link x } in
    elim (Bool-cases (bit_and flags alloc_zero != 0)) [
      | inl z ↦ rw (z, page2kva_lem x k' h few)
      | inr z ↦ rw z
    ]

-- page_alloc hands out the head of the list, zeroed when asked.
pub page_alloc-some :
    (flags x : ℕ) (k : Kernel)
    → k.page_free_list ≡ some x
    → x < k.npages
    → k.npages ≤ 2 ^ 20
    → page_alloc flags k ≡ ok (some x) (allocated flags x k)
unfolding page_alloc
page_alloc-some flags x k e h few = rw (e, page_alloc) (take_page_lem flags x k h few)

pub page_alloc-none :
    (flags : ℕ) (k : Kernel) → k.page_free_list ≡ none → page_alloc flags k ≡ ok none k
unfolding page_alloc
page_alloc-none flags k e = ground arith

allocated-FreeList :
    (flags x : ℕ) (k : Kernel) (xs : List ℕ)
    → Chain k.pp_link (k.pp_link x) xs
    → FreeList (allocated flags x k) xs
allocated-FreeList flags x k xs c = elim (Bool-cases (bit_and flags alloc_zero != 0)) [
  | inl z ↦ rw z c
  | inr z ↦ rw z c
]

-- What page_alloc does to a free list of pages `xs`.
abbrev pub Alloc : ℕ → Kernel → List ℕ → Type 0
Alloc flags k [] = page_alloc flags k ≡ ok none k
Alloc flags k (x ∷ xs) =
    (k' : Kernel) × (page_alloc flags k ≡ ok (some x) k')
    × FreeList k' xs
    × (bit_and flags alloc_zero ≢ 0 → (j : ℕ) → k'.word x j ≡ 0)
    × ((f j : ℕ) → f ≢ x → k'.word f j ≡ k.word f j)
    × (k'.pp_ref ≡ k.pp_ref)

-- page_alloc on every branch: with an empty free list it returns NULL and changes nothing; otherwise
-- it returns the first free page, leaves the others free, zeroes the page if ALLOC_ZERO is set,
-- writes no other page and touches no reference count. It does not panic when the free pages are
-- within the machine's memory.
pub page_alloc_lem :
    (flags : ℕ) (k : Kernel) (xs : List ℕ)
    → FreeList k xs
    → All (λ x. x < k.npages) xs
    → k.npages ≤ 2 ^ 20
    → Alloc flags k xs
page_alloc_lem flags k [] c inside few = page_alloc-none flags k c
page_alloc_lem flags k (x ∷ xs) c inside few = (
  allocated flags x k,
  page_alloc-some flags x k c.0 inside.0 few,
  allocated-FreeList flags x k xs c.1,
  λ z j. ground arith,
  λ f j h. ground arith,
  ground arith,
)

-- page_free puts a page that is not free in front of the free pages and keeps the rest in order; the
-- next page_alloc hands out that very page and the free list is as it was before.
page_free-page_alloc :
    (i flags : ℕ) (k : Kernel) (xs : List ℕ)
    → FreeList k xs
    → ◌∉◌ i xs
    → i < k.npages
    → k.npages ≤ 2 ^ 20
    → (k' k'' : Kernel) × (page_free i k ≡ ok tt k')
      × FreeList k' (i ∷ xs)
      × (page_alloc flags k' ≡ ok (some i) k'')
      × FreeList k'' xs
unfolding page_free
page_free-page_alloc i flags k xs c out h few =
    let k' = record k { pp_link = update k.pp_link i k.page_free_list; page_free_list = some i } in
    let chain = Chain-update k.pp_link k.page_free_list i k.page_free_list xs out c in
    let link : k'.pp_link i ≡ k.page_free_list = ground arith in
    let rest : Chain k'.pp_link (k'.pp_link i) xs = rw link chain in
    (
      k',
      allocated flags i k',
      refl,
      (refl, rest),
      page_alloc-some flags i k' refl h few,
      allocated-FreeList flags i k' xs rest,
    )
