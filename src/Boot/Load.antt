-- ===== src/Boot/Load.antt =====
-- What readseg loads, where the drive gives the sectors of an image.
use homework_of_operating_sy.Base.{
  ℕ, zero, suc, ◌+◌, ◌-◌, ◌*◌, ◌/◌, ◌%◌, ◌^◌, ◌<◌, ◌≤◌, ◌≡◌, ◌⊎◌, inl, inr, refl, ap, ◌∙◌,
  Bool-cases, some, ltb, arith,
}
use homework_of_operating_sy.Strings.{Bytes}
use homework_of_operating_sy.Boot.{sectsize, Drive, sector, readsect, read_loop, readseg}

-- The disk holds `image`: sector `n` of its 28-bit numbers is the 512 bytes of the image at 512 * n.
abbrev pub Holds : Drive → Bytes → Type 0
Holds drive image =
    (n j : ℕ) → n < 2 ^ 28 → j < sectsize → sector drive n j ≡ image (sectsize * n + j)

module _ (drive : Drive) (image : Bytes) (disk : Holds drive image) where
  -- From `pa` to the end of the last sector, the image is loaded; nothing else is changed.
  record Loaded (m m' : Bytes) (pa end_pa offset : ℕ) : Type 0 where
    inside : (j : ℕ) → pa ≤ j → j < end_pa → m' j ≡ image (sectsize * offset + (j - pa))
    before : (j : ℕ) → j < pa → m' j ≡ m j
    behind : (j : ℕ) → end_pa + sectsize ≤ j + 1 → pa ≤ j → m' j ≡ m j

  one_more :
      {m m' : Bytes} {pa end_pa offset : ℕ}
      → offset < 2 ^ 28
      → pa < end_pa
      → Loaded (readsect drive m pa offset) m' (pa + sectsize) end_pa (offset + 1)
      → Loaded m m' pa end_pa offset
  unfolding readsect
  one_more {m} {m'} {pa} {end_pa} {offset} low here r = record {
    inside = λ j p q. ground (arith, r.inside j, r.before j, disk offset (j - pa), same j);
    before = λ j p. ground (arith, r.before j, p);
    behind = λ j p q. ground (arith, r.behind j, p, here, low, r.before j);
  }
    where
      same :
          (j : ℕ)
          → pa + sectsize ≤ j
          → sectsize * (offset + 1) + (j - (pa + sectsize)) ≡ sectsize * offset + (j - pa)
      same j h = omega (arith, h)

  read_loop_lem :
      (fuel : ℕ) (m : Bytes) (pa end_pa offset : ℕ)
      → end_pa + sectsize < 2 ^ 32
      → (pa < end_pa → sectsize * offset + (end_pa - pa) + sectsize ≤ sectsize * 2 ^ 28)
      → end_pa - pa + 511 < sectsize * fuel
      → (m' : Bytes) × (read_loop drive fuel m pa end_pa offset ≡ some m')
        × Loaded m m' pa end_pa offset
  unfolding read_loop
  read_loop_lem zero m pa end_pa offset small low enough = ground (arith, enough)
  read_loop_lem (suc fuel) m pa end_pa offset small low enough = elim (Bool-cases (ltb pa end_pa)) [
    | inr done ↦ (
      m,
      rw (done, read_loop) refl,
      record {
        inside = λ j p q. ground (arith, done, p, q);
        before = λ j p. refl;
        behind = λ j p q. refl;
      },
    )
    | inl more ↦
        let here : pa < end_pa = ground (arith, more) in
        let next : (pa + sectsize) % 2 ^ 32 ≡ pa + sectsize = omega (arith, small, here) in
        let after : (offset + 1) % 2 ^ 32 ≡ offset + 1 = omega (arith, low here) in
        rw (more, next, after, read_loop)
          (later here (
            read_loop_lem fuel (readsect drive m pa offset) (pa + sectsize) end_pa (offset + 1)
              small (λ h. omega (arith, low here, h)) (omega (arith, enough, here))))
  ]
    where
      later :
          pa < end_pa
          → (m' : Bytes) × (read_loop drive fuel
                (readsect drive m pa offset)
                (pa + sectsize)
                end_pa
                (offset + 1)
              ≡ some m')
            × Loaded (readsect drive m pa offset) m' (pa + sectsize) end_pa (offset + 1)
          → (m' : Bytes) × (read_loop drive fuel
                (readsect drive m pa offset)
                (pa + sectsize)
                end_pa
                (offset + 1)
              ≡ some m')
            × Loaded m m' pa end_pa offset
      later here (m', e, r) = (m', e, one_more (omega (arith, low here)) here r)

-- Where the disk holds an image, and a segment does not reach the end of the address space and has the same place in its sector
-- in memory as in the image: for every bound on the rounds above the number of its whole sectors
-- plus two, readseg ends, the
-- segment's bytes in memory are those of the image, which starts in sector 1 of the disk, and no byte before the
-- segment's first sector or behind its last one is changed.
pub readseg_lem :
    (drive : Drive) (image : Bytes) (fuel : ℕ) (m : Bytes) (pa count offset : ℕ)
    → Holds drive image
    → pa + count + sectsize < 2 ^ 32
    → offset + count + 3 * sectsize < 2 ^ 32
    → pa % sectsize ≡ offset % sectsize
    → count / sectsize + 2 < fuel
    → (m' : Bytes) × (readseg drive fuel m pa count offset ≡ some m')
      × ((i : ℕ) → i < count → m' (pa + i) ≡ image (sectsize + offset + i))
      × ((j : ℕ) → (j < pa - pa % sectsize) ⊎ (pa + count + sectsize ≤ j) → m' j ≡ m j)
unfolding readseg
readseg_lem drive image fuel m pa count offset disk small low aligned enough =
    let last : (pa + count) % 2 ^ 32 ≡ pa + count = omega (arith, small) in
    let (m', e, r) =
      read_loop_lem drive image disk fuel m (pa - pa % sectsize) (pa + count)
        (offset / sectsize + 1) small (λ h. omega (arith, low)) (omega (arith, enough)) in
    (
      m',
      ap (λ (n : ℕ). read_loop drive fuel m (pa - pa % sectsize) n (offset / sectsize + 1)) last
          ∙ e,
      (λ i h.
          let at : sectsize * (offset / sectsize + 1) + (pa + i - (pa - pa % sectsize))
              ≡ sectsize + offset + i =
            omega (arith, aligned) in
          r.inside (pa + i) (omega arith) (omega (arith, h)) ∙ ap image at),
      λ j h. ground (arith, h, r.before j, r.behind j),
    )
