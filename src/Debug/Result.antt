-- ===== src/Debug/Result.antt =====
-- What stab_binsearch finds: its last loop, and the whole function.
use homework_of_operating_sy.Base.{
  ℕ, zero, suc, ◌+◌, ◌-◌, ◌<◌, ◌≤◌, ◌≡◌, ◌⊎◌, inl, inr, refl, ap, sym, ◌∙◌, true, false, not, ◌&&◌,
  Bool-cases, some, ltb, ◌==◌, if◌then◌else◌, arith,
}
use mathlib.Core.Path.{subst}
use homework_of_operating_sy.Debug.{
  Stab, Bounds, search_loop, rightmost, finish, finished, start, stab_binsearch,
}
use homework_of_operating_sy.Debug.Rounds.{T, V, top_or_before, loop_lem}
use homework_of_operating_sy.Debug.Search.{by_cases, Table, Inv}

module _ (stabs : ℕ → Stab) (type : ℕ) where
  -- The stab found and the right end of its region
  pub record Found (first last a k r : ℕ) : Type 0 where
    pub of_type : T stabs type k ≡ true
    pub from_first : first ≤ k
    pub in_order : k ≤ r
    pub to_last : r ≤ last
    pub not_behind : V stabs type k ≤ a
    pub only : (j : ℕ) → k < j → j ≤ r → T stabs type j ≡ false
    pub next : (r ≡ last) ⊎ ((T stabs type (r + 1) ≡ true) × (a < V stabs type (r + 1)))

  -- The last loop stops at `left` or at a stab of the type.
  record Stop (left r k : ℕ) : Type 0 where
    from_left : left ≤ k
    to_right : k ≤ r
    stops : (k ≡ left) ⊎ (T stabs type k ≡ true)
    passed : (j : ℕ) → k < j → j ≤ r → T stabs type j ≡ false

  rightmost_lem : (r left : ℕ) → left ≤ r → Stop left r (rightmost stabs type r left)
  unfolding rightmost
  rightmost_lem zero left le = record {
    from_left = le;
    to_right = omega arith;
    stops = inl (omega (arith, le));
    passed = λ j p q. ground (arith, p, q);
  }
  rightmost_lem (suc r) left le =
      by_cases (Stop left (suc r)) (ltb left (suc r) && not (T stabs type (suc r)))
        (λ e. further (ground (arith, e)) (rightmost_lem r left (ground (arith, e))))
        (λ e. record {
          from_left = le;
          to_right = omega arith;
          stops = here e;
          passed = λ j p q. ground (arith, p, q);
        })
    where
      here :
          (ltb left (suc r) && not (T stabs type (suc r))) ≡ false
          → (suc r ≡ left) ⊎ (T stabs type (suc r) ≡ true)
      here e = ground (arith, e, le)

      further : {k : ℕ} → T stabs type (suc r) ≡ false → Stop left r k → Stop left (suc r) k
      further other p = record {
        from_left = p.from_left;
        to_right = omega (arith, p.to_right);
        stops = p.stops;
        passed = λ j u w. top_or_before stabs type other (p.passed j u) w;
      }

  start_Inv :
      {first last a : ℕ}
      → Inv (T stabs type) (V stabs type) first last a (start stabs type first last a)
  start_Inv = record {
    low = omega arith;
    high = omega arith;
    same = refl;
    bumped = inl refl;
    below = λ j p q e. ground (arith, p, q);
    above = λ j p q e. ground (arith, p, q);
    edge = inl refl;
    candidate = inl refl;
    fresh = λ e. (refl, λ j p q. ground (arith, p, q));
  }

  module _ {first last a : ℕ} (t : Table (T stabs type) (V stabs type) first last a) (s : Bounds)
      (v : Inv (T stabs type) (V stabs type) first last a s) (done : s.r < s.l) (j : ℕ)
      (from : first ≤ j) (to : j ≤ last) (hit : T stabs type j ≡ true)
      (low : V stabs type j ≤ a) where
    matched : s.any_matches ≡ true
    matched = elim (Bool-cases s.any_matches) [
      | inl e ↦ e
      | inr e ↦ ground (arith, (v.fresh e).0, (v.fresh e).1 j, done, to, from, hit)
    ]

    in_region : j ≤ s.r
    in_region = ground (arith, v.above j, to, hit, low)

    left_in_region : s.left ≤ s.right
    left_in_region = ground (arith, v.candidate, v.same, v.above s.left, from, in_region)

    stopped_Found : (k : ℕ) → Stop s.left s.right k → Found first last a k s.right
    stopped_Found k p = record {
      of_type = typed_stop;
      from_first = begins;
      in_order = p.to_right;
      to_last = omega (arith, v.high, v.same);
      not_behind = ground (arith, v.below k, begins, p.to_right, v.same, done, typed_stop);
      only = p.passed;
      next = subst Behind (sym v.same) (elim v.edge [
        | inl e ↦ inl e
        | inr e ↦ inr (e.1, v.above (s.r + 1) (omega arith) (omega (arith, e.0)) e.1)
      ]);
    }
      where
        Behind : ℕ → Type 0
        Behind r = (r ≡ last) ⊎ ((T stabs type (r + 1) ≡ true) × (a < V stabs type (r + 1)))

        begins : first ≤ k
        begins = ground (arith, p.from_left, v.candidate)

        at_first : ((j == k) ≡ true) ⊎ ((j == k) ≡ false) → k ≡ first → T stabs type k ≡ true
        at_first (inl e) c = subst (λ i. T stabs type i ≡ true) (ground (arith, e)) hit
        at_first (inr e) c = ground (arith, e, c, from, hit, p.passed j, in_region, v.same)

        typed_stop : T stabs type k ≡ true
        typed_stop = elim p.stops [
          | inr e ↦ e
          | inl e ↦ elim v.candidate [
            | inr c ↦ ground (arith, e, c)
            | inl c ↦ at_first (Bool-cases (j == k)) (e ∙ c)
          ]
        ]

  matched_finish :
      (s : Bounds)
      → s.any_matches ≡ true
      → finish stabs type s ≡ (rightmost stabs type s.right s.left, s.right)
  unfolding finish
  matched_finish s e =
      ap (λ b. if b then (rightmost stabs type s.right s.left, s.right) else (s.left, s.left - 1)) e

  -- Where the stabs of one type are in the order of their values, none of them is for address a + 1 and one is at or
  -- before a, stab_binsearch ends for every bound on its rounds above their number. It gives the last stab of the type
  -- at or before a in the region, and as the right end the stab before the next one of the type, or the end of the table.
  pub stab_binsearch_lem :
      {first last a : ℕ}
      → Table (T stabs type) (V stabs type) first last a
      → (j : ℕ) → first ≤ j
      → j ≤ last
      → T stabs type j ≡ true
      → V stabs type j ≤ a
      → (fuel : ℕ) → last + 2 - first < fuel
      → (k : ℕ) × (r : ℕ) × (stab_binsearch stabs type fuel first last a ≡ some (k, r))
        × Found first last a k r
  unfolding stab_binsearch
  stab_binsearch_lem {first} {last} {a} t j from to hit low fuel enough = answer (
      loop_lem stabs type t fuel (start stabs type first last a) start_Inv
        (ground (arith, enough, from, to)))
    where
      answer :
          (s' : Bounds) × (search_loop stabs type fuel (start stabs type first last a) ≡ some s')
            × Inv (T stabs type) (V stabs type) first last a s'
            × (s'.r < s'.l)
          → (k : ℕ) × (r : ℕ) × (finished stabs type
                (search_loop stabs type fuel (start stabs type first last a))
              ≡ some (k, r))
            × Found first last a k r
      answer (s, e, v, done) = (
        rightmost stabs type s.right s.left,
        s.right,
        ap (finished stabs type) e
            ∙ ap some (matched_finish s (matched t s v done j from to hit low)),
        stopped_Found t s v done j from to hit low _
            (rightmost_lem s.right s.left (left_in_region t s v done j from to hit low)),
      )
