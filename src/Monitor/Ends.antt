-- ===== src/Monitor/Ends.antt =====
-- Whether showmappings ends.
use homework_of_operating_sy.Base.{
  ℕ, zero, suc, ◌+◌, ◌-◌, ◌/◌, ◌%◌, ◌<◌, ◌≤◌, ◌≡◌, ◌≢◌, ◌⊎◌, inl, inr, refl, true, Bool-cases,
  Option, none, some, List, leb, ltb, arith,
}
use homework_of_operating_sy.Mmu.{pgsize, word_size}
use homework_of_operating_sy.Kernel.{Kernel, Cmd, Run, ok, leave, panic, and_then, pure}
use homework_of_operating_sy.Pmap.{Pte, load_pte, pgdir_walk}
use homework_of_operating_sy.Monitor.Commands.{MappingLine, add_line, show_entry, show_loop}

-- A run that has not used up its rounds, and one that does not return.
Bounded : Run (Option (List MappingLine)) → Type 0
Bounded r = (k : Kernel) → r ≢ ok none k

Endless : Run (Option (List MappingLine)) → Type 0
Endless r = (k : Kernel) (ls : List MappingLine) → r ≢ ok (some ls) k

module _ (begin : ℕ) where
  line_Bounded :
      (v : ℕ) (r : Run (Option (List MappingLine)))
      → Bounded r
      → Bounded (and_then r (λ ls. pure (add_line begin v ls)))
  unfolding Bounded
  line_Bounded v (ok none k') h = λ k e. h k' refl
  line_Bounded v (ok (some ls) k') h = λ k e. cc
  line_Bounded v (leave how k') h = λ k e. cc
  line_Bounded v panic h = λ k e. cc

  entry_Bounded :
      (rest : Cmd (Option (List MappingLine))) (r : Run (Option Pte))
      → ((k : Kernel) → Bounded (rest k))
      → Bounded (and_then r (show_entry begin rest))
  unfolding Bounded
  entry_Bounded rest (ok none k') h = λ k e. cc
  entry_Bounded rest (ok (some q) k') h = line_Bounded (load_pte q k') (rest k') (h k')
  entry_Bounded rest (leave how k') h = λ k e. cc
  entry_Bounded rest panic h = λ k e. cc

  line_Endless :
      (v : ℕ) (r : Run (Option (List MappingLine)))
      → Endless r
      → Endless (and_then r (λ ls. pure (add_line begin v ls)))
  unfolding Endless
  line_Endless v (ok none k') h = λ k ls e. cc
  line_Endless v (ok (some ls') k') h = λ k ls e. h k' ls' refl
  line_Endless v (leave how k') h = λ k ls e. cc
  line_Endless v panic h = λ k ls e. cc

  entry_Endless :
      (rest : Cmd (Option (List MappingLine))) (r : Run (Option Pte))
      → ((k : Kernel) → Endless (rest k))
      → Endless (and_then r (show_entry begin rest))
  unfolding Endless
  entry_Endless rest (ok none k') h = λ k ls e. cc
  entry_Endless rest (ok (some q) k') h = line_Endless (load_pte q k') (rest k') (h k')
  entry_Endless rest (leave how k') h = λ k ls e. cc
  entry_Endless rest panic h = λ k ls e. cc

show_loop-Bounded :
    (fuel begin end_ : ℕ)
    → end_ + pgsize < word_size
    → 0 < fuel
    → (begin ≤ end_ → (end_ - begin) / pgsize + 1 < fuel)
    → (k : Kernel) → Bounded (show_loop fuel begin end_ k)
unfolding show_loop Bounded
show_loop-Bounded zero begin end_ small some_left enough k = absurd (omega (arith, some_left))
show_loop-Bounded (suc fuel) begin end_ small some_left enough k =
    elim (Bool-cases (leb begin end_)) [
      | inr done ↦ rw done (λ k' e. cc)
      | inl more ↦
          let here : begin ≤ end_ = ground (arith, more) in
          let next : (begin + pgsize) % word_size ≡ begin + pgsize = omega (arith, here, small) in
          rw (more, next)
            (entry_Bounded begin (show_loop fuel (begin + pgsize) end_)
              (pgdir_walk k.kern_pgdir begin true k)
              (show_loop-Bounded fuel (begin + pgsize) end_ small (omega (arith, enough here))
                (λ h. omega (arith, enough here, h))))
    ]

show_loop-Endless :
    (fuel begin end_ : ℕ)
    → word_size ≤ end_ + pgsize
    → begin % pgsize ≡ 0
    → begin < word_size
    → (k : Kernel) → Endless (show_loop fuel begin end_ k)
unfolding show_loop Endless
show_loop-Endless zero begin end_ top aligned small k = λ k' ls e. cc
show_loop-Endless (suc fuel) begin end_ top aligned small k =
    let more : leb begin end_ ≡ true = ground (arith, top, aligned, small) in
    rw more (
      entry_Endless begin (show_loop fuel ((begin + pgsize) % word_size) end_)
        (pgdir_walk k.kern_pgdir begin true k)
        (show_loop-Endless fuel ((begin + pgsize) % word_size) end_ top (omega (arith, aligned))
          (omega arith)))

-- The loop of showmappings from a page on: where the end lies below the last page of the address space, no run with a
-- bound above the number of the pages uses the bound up; where it lies in the last page, no run
-- returns, whatever the bound and the state.
pub show_loop_ends :
    (fuel begin end_ : ℕ)
    → begin % pgsize ≡ 0
    → begin < word_size
    → (end_ + pgsize < word_size → (end_ - begin) / pgsize + 1 < fuel)
    → (k k' : Kernel)
    → ((end_ + pgsize < word_size) × (show_loop fuel begin end_ k ≢ ok none k'))
      ⊎ ((word_size ≤ end_ + pgsize)
          × ((ls : List MappingLine) → show_loop fuel begin end_ k ≢ ok (some ls) k'))
unfolding Bounded Endless
show_loop_ends fuel begin end_ aligned small enough k k' =
    elim (Bool-cases (ltb (end_ + pgsize) word_size)) [
      | inl below ↦
          let low : end_ + pgsize < word_size = ground (arith, below) in
          let bound = enough low in
          inl (low, show_loop-Bounded fuel begin end_ low (omega (arith, bound)) (λ h. bound) k k')
      | inr above ↦
          let top : word_size ≤ end_ + pgsize = ground (arith, above) in
          inr (top, show_loop-Endless fuel begin end_ top aligned small k k')
    ]
