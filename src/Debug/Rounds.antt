-- ===== src/Debug/Rounds.antt =====
-- The rounds of stab_binsearch: the inner scan, one round, and the loop.
use homework_of_operating_sy.Base.{
  ℕ, zero, suc, ◌+◌, ◌/◌, ◌<◌, ◌≤◌, ◌≡◌, ◌⊎◌, inl, inr, refl, sym, Bool, true, false, not, ◌&&◌,
  Bool-cases, some, leb, ltb, ◌==◌, arith,
}
use mathlib.Core.Path.{subst}
use homework_of_operating_sy.Debug.{Stab, Bounds, typed, value, scan, at_match, round, search_loop}
use homework_of_operating_sy.Debug.Search.{
  by_cases, Better, Scanned, Table, Inv, rounds_left, skip_Better, less_Better, greater_Better,
  exact_Better,
}

module _ (stabs : ℕ → Stab) (type : ℕ) where
  abbrev pub T : ℕ → Bool
  T = typed stabs type

  abbrev pub V : ℕ → ℕ
  V = value stabs type

  pub top_or_before :
      {m j : ℕ} → T (suc m) ≡ false → (j ≤ m → T j ≡ false) → j ≤ suc m → T j ≡ false
  top_or_before {m} {j} other f q = elim (Bool-cases (j == suc m)) [
    | inl e ↦ subst (λ i. T i ≡ false) (sym (ground (arith, e))) other
    | inr e ↦ f (ground (arith, e, q))
  ]

  scan_lem : (top l : ℕ) → 1 ≤ l → Scanned T V top l (scan stabs type top l)
  unfolding scan
  scan_lem zero l low = record {
    under = omega arith;
    hit = inl low;
    missed = λ j p q r. ground (arith, p, q);
  }
  scan_lem (suc m) l low =
      by_cases (λ k. Scanned T V (suc m) l k) (leb l (suc m) && not (T (suc m)))
        (λ e. earlier (ground (arith, e)) (scan_lem m l low))
        (λ e. record {
          under = omega arith;
          hit = here e;
          missed = λ j p q r. ground (arith, p, q);
        })
    where
      here : (leb l (suc m) && not (T (suc m))) ≡ false → (suc m < l) ⊎ (T (suc m) ≡ true)
      here e = ground (arith, e)

      earlier : {k : ℕ} → T (suc m) ≡ false → Scanned T V m l k → Scanned T V (suc m) l k
      earlier other c = record {
        under = omega (arith, c.under);
        hit = c.hit;
        missed = λ j p q r. top_or_before other (λ u. c.missed j p u r) q;
      }

  module _ {first last a : ℕ} {s : Bounds} (t : Table T V first last a) (v : Inv T V first last a s)
      (more : s.l ≤ s.r) where
    at_match_lem :
        {top m : ℕ}
        → top ≡ (s.l + s.r) / 2
        → Scanned T V top s.l m
        → Better T V first last a s (at_match stabs type top m s)
    at_match_lem {top} {m} middle c =
        by_cases P (ltb m s.l) (λ e. skip_Better T V t v c more middle (ground (arith, e)))
          (λ e.
            let within : s.l ≤ m = ground (arith, e) in
            let hit : T m ≡ true = ground (arith, c.hit, within) in
            by_cases P (ltb (V m) s.addr)
              (λ d. less_Better T V t v c more middle within hit (ground (arith, d)))
              (λ d.
                by_cases P (ltb s.addr (V m))
                  (λ g. greater_Better T V t v c more middle within hit (ground (arith, g)))
                  (λ g. exact_Better T V t v c more middle within hit (ground (arith, d, g)))))
      where
        P : Bounds → Type 0
        P = Better T V first last a s

    round_lem : Better T V first last a s (round stabs type s)
    unfolding round
    round_lem =
        at_match_lem refl (scan_lem ((s.l + s.r) / 2) s.l (omega (arith, v.low, t.positive)))

  pub loop_lem :
      {first last a : ℕ}
      → Table T V first last a
      → (fuel : ℕ) (s : Bounds) → Inv T V first last a s
      → rounds_left T V a s < fuel
      → (s' : Bounds) × (search_loop stabs type fuel s ≡ some s')
        × Inv T V first last a s'
        × (s'.r < s'.l)
  unfolding search_loop
  loop_lem t zero s v enough = ground (arith, enough)
  loop_lem {first} {last} {a} t (suc fuel) s v enough = elim (Bool-cases (leb s.l s.r)) [
    | inl e ↦
        let b : Better T V first last a s (round stabs type s) =
          round_lem t v (ground (arith, e)) in
        rw (e, search_loop)
          (loop_lem t fuel (round stabs type s) b.inv (omega (arith, enough, b.fewer)))
    | inr e ↦ rw (e, search_loop) (s, refl, v, ground (arith, e))
  ]
