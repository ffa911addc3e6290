-- ===== src/Debug/Search.antt =====
-- The invariant of the loop of stab_binsearch, over the tests `T` of the type and the values `V`.
use homework_of_operating_sy.Base.{
  ℕ, ◌+◌, ◌-◌, ◌/◌, ◌%◌, ◌^◌, ◌<◌, ◌≤◌, ◌≡◌, ◌≢◌, ◌⊎◌, inr, refl, Bool, true, false, ◌==◌,
  if◌then◌else◌, arith,
}
use homework_of_operating_sy.Debug.{Bounds}

pub by_cases :
    {A : Type 0} (P : A → Type 0) (b : Bool) {x y : A}
    → (b ≡ true → P x)
    → (b ≡ false → P y)
    → P (if b then x else y)
by_cases P true f g = f refl
by_cases P false f g = g refl

module _ (T : ℕ → Bool) (V : ℕ → ℕ) where
  -- The scan ends below `l` or at the last stab of the type that is not behind `top`.
  pub record Scanned (top l m : ℕ) : Type 0 where
    pub under : m ≤ top
    pub hit : (m < l) ⊎ (T m ≡ true)
    pub missed : (j : ℕ) → m < j → j ≤ top → l ≤ j → T j ≡ false

  -- The part of the table that is searched for address `a`: indices from `first` to `last`, the stabs
  -- of the type in the order of their values, and none of them one behind `a`.
  pub record Table (first last a : ℕ) : Type 0 where
    pub positive : 1 ≤ first
    pub room : a + 1 < 2 ^ 32
    pub ordered : (i j : ℕ) → first ≤ i → i < j → j ≤ last → T i ≡ true → T j ≡ true → V i ≤ V j
    pub gap : (j : ℕ) → first ≤ j → j ≤ last → T j ≡ true → V j ≢ a + 1

  -- What holds before each round.
  pub record Inv (first last a : ℕ) (s : Bounds) : Type 0 where
    pub low : first ≤ s.l
    pub high : s.r ≤ last
    pub same : s.right ≡ s.r
    pub bumped : (s.addr ≡ a) ⊎ (s.addr ≡ a + 1)
    pub below : (j : ℕ) → first ≤ j → j < s.l → T j ≡ true → V j ≤ a
    pub above : (j : ℕ) → s.r < j → j ≤ last → T j ≡ true → a < V j
    pub edge : (s.r ≡ last) ⊎ ((s.r < last) × (T (s.r + 1) ≡ true))
    pub candidate :
        (s.left ≡ first) ⊎ ((first ≤ s.left) × (s.left ≤ last) × (T s.left ≡ true) × (V s.left ≤ a))
    pub fresh : s.any_matches ≡ false → (s.r ≡ last) × ((j : ℕ) → first ≤ j → j < s.l → T j ≡ false)

  step_back : {m : ℕ} → 1 ≤ m → T m ≡ true → T (m - 1 + 1) ≡ true
  step_back {m} low hit = rw (the_same) hit
    where
      the_same : m - 1 + 1 ≡ m
      the_same = omega (arith, low)

  abbrev pub rounds_left : ℕ → Bounds → ℕ
  rounds_left a s = s.r + 1 - s.l + (if s.addr == a then 1 else 0)

  -- One round keeps the invariant and leaves fewer rounds.
  pub record Better (first last a : ℕ) (s s' : Bounds) : Type 0 where
    pub inv : Inv first last a s'
    pub fewer : rounds_left a s' < rounds_left a s

  module _ {first last a : ℕ} {s : Bounds} {top m : ℕ} (t : Table first last a)
      (v : Inv first last a s) (c : Scanned top s.l m) (more : s.l ≤ s.r)
      (middle : top ≡ (s.l + s.r) / 2) where
    -- No stab of the type from `l` to the middle
    pub skip_Inv : m < s.l → Inv first last a (record s { l = top + 1 })
    skip_Inv none_here = record {
      low = omega (arith, v.low, middle);
      high = v.high;
      same = v.same;
      bumped = v.bumped;
      below = λ j p q e. ground (arith, v.below j, c.missed j, none_here);
      above = v.above;
      edge = v.edge;
      candidate = v.candidate;
      fresh = λ e. ((v.fresh e).0, λ j p q. ground (arith, (v.fresh e).1 j, c.missed j, none_here));
    }

    module _ (in_range : s.l ≤ m) (hit : T m ≡ true) where
      pub less_Inv :
          V m < s.addr → Inv first last a (record s { any_matches = true; left = m; l = top + 1 })
      less_Inv lt = record {
        low = omega (arith, v.low, middle);
        high = v.high;
        same = v.same;
        bumped = v.bumped;
        below = λ j p q e. ground (
          arith,
          t.ordered j m,
          t.gap m,
          c.missed j,
          c.under,
          v.bumped,
          v.low,
          v.high,
          lt,
          in_range,
          hit,
          middle,
          more,
        );
        above = v.above;
        edge = v.edge;
        candidate = inr (
          omega (arith, v.low),
          omega (arith, c.under, v.high, middle, more),
          hit,
          ground (arith, t.gap m, v.bumped, lt),
        );
        fresh = λ e. cc;
      }

      pub greater_Inv :
          s.addr < V m
          → Inv first last a (record s { any_matches = true; right = m - 1; r = m - 1 })
      greater_Inv lt = record {
        low = v.low;
        high = omega (arith, c.under, v.high, middle, more);
        same = refl;
        bumped = v.bumped;
        below = v.below;
        above = λ j p q e. ground (arith, t.ordered m j, v.bumped, v.low, lt, in_range, hit);
        edge = inr (
          omega (arith, c.under, v.high, v.low, in_range, t.positive, middle, more),
          step_back (omega (arith, v.low, in_range, t.positive)) hit,
        );
        candidate = v.candidate;
        fresh = λ e. cc;
      }

      pub exact_Inv :
          V m ≡ s.addr
          → Inv first last a
              (record s { any_matches = true; left = m; l = m; addr = (s.addr + 1) % 2 ^ 32 })
      exact_Inv eq = record {
        low = omega (arith, v.low);
        high = v.high;
        same = v.same;
        bumped =
            ground (arith, v.bumped, t.gap m, t.room, eq, c.under, v.low, v.high, middle, more);
        below = λ j p q e. ground (
          arith,
          t.ordered j m,
          t.gap m,
          c.under,
          v.bumped,
          v.low,
          v.high,
          eq,
          in_range,
          hit,
          middle,
          more,
        );
        above = v.above;
        edge = v.edge;
        candidate = inr (
          omega (arith, v.low),
          omega (arith, c.under, v.high, middle, more),
          hit,
          ground (arith, t.gap m, c.under, v.bumped, v.low, v.high, eq, in_range, middle, more),
        );
        fresh = λ e. cc;
      }

      pub less_Better :
          V m < s.addr
          → Better first last a s (record s { any_matches = true; left = m; l = top + 1 })
      less_Better lt = record { inv = less_Inv lt; fewer = omega (arith, middle, more) }

      pub greater_Better :
          s.addr < V m
          → Better first last a s (record s { any_matches = true; right = m - 1; r = m - 1 })
      greater_Better lt = record {
        inv = greater_Inv lt;
        fewer = omega (arith, middle, more, c.under, in_range, v.low, t.positive);
      }

      pub exact_Better :
          V m ≡ s.addr
          → Better first last a s
              (record s { any_matches = true; left = m; l = m; addr = (s.addr + 1) % 2 ^ 32 })
      exact_Better eq = record {
        inv = exact_Inv eq;
        fewer = ground (arith, not_bumped, v.high, in_range, t.room, more, c.under, middle);
      }
        where
          not_bumped : s.addr ≡ a
          not_bumped =
              ground
                (arith, t.gap m, c.under, v.bumped, v.low, v.high, eq, in_range, middle, more, hit)

    pub skip_Better : m < s.l → Better first last a s (record s { l = top + 1 })
    skip_Better none_here = record { inv = skip_Inv none_here; fewer = omega (arith, middle, more) }
