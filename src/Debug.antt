-- ===== src/Debug.antt =====
-- The search in the debugging tables, stab_binsearch of OSLab7-Mitjoslab4/kern/kdebug.c. Each int that is an index
-- is kept plus one, since it may be -1: index `j` here is stab j - 1 of the table.
pub mod Search
pub mod Rounds
pub mod Result
pub mod Info
pub mod Described
mod Tests
use homework_of_operating_sy.Base.{
  ℕ, zero, suc, ◌+◌, ◌-◌, ◌/◌, ◌%◌, ◌^◌, Bool, true, false, not, ◌&&◌, Option, none, some, leb, ltb,
  ◌==◌, if◌then◌else◌,
}

-- `struct Stab`
pub record Stab : Type 0 where
  pub n_strx : ℕ
  pub n_type : ℕ
  pub n_other : ℕ
  pub n_desc : ℕ
  pub n_value : ℕ

-- The variables of the loop
pub record Bounds : Type 0 where
  pub l : ℕ
  pub r : ℕ
  pub left : ℕ
  pub right : ℕ
  pub any_matches : Bool
  pub addr : ℕ

module _ (stabs : ℕ → Stab) (type : ℕ) where
  abbrev pub typed : ℕ → Bool
  typed j = (stabs (j - 1)).n_type == type

  abbrev pub value : ℕ → ℕ
  value j = (stabs (j - 1)).n_value

  -- The loop that steps `m` down while it is not below `l` and not of the type
  unfoldable pub scan : ℕ → ℕ → ℕ
  scan zero l = 0
  scan (suc m) l = if leb l (suc m) && not (typed (suc m)) then scan m l else suc m

  -- The loop body, once `m` is found from `true_m`
  abbrev pub at_match : ℕ → ℕ → Bounds → Bounds
  at_match true_m m s =
      if ltb m s.l
      then record s { l = true_m + 1 }
      else if ltb (value m) s.addr
      then record s { any_matches = true; left = m; l = true_m + 1 }
      else if ltb s.addr (value m)
      then record s { any_matches = true; right = m - 1; r = m - 1 }
      else record s { any_matches = true; left = m; l = m; addr = (s.addr + 1) % 2 ^ 32 }

  unfoldable pub round : Bounds → Bounds
  unfolding scan
  round s = at_match ((s.l + s.r) / 2) (scan ((s.l + s.r) / 2) s.l) s

  -- The loop, with a bound on its rounds
  unfoldable pub search_loop : ℕ → Bounds → Option Bounds
  unfolding round
  search_loop zero s = none
  search_loop (suc fuel) s = elim (leb s.l s.r) [
    | true ↦ search_loop fuel (round s)
    | false ↦ some s
  ]

  -- The last loop: from `l` down to a stab of the type, or to `left`
  unfoldable pub rightmost : ℕ → ℕ → ℕ
  rightmost zero left = 0
  rightmost (suc l) left =
      if ltb left (suc l) && not (typed (suc l)) then rightmost l left else suc l

  -- What follows the loop: *region_left and *region_right
  unfoldable pub finish : Bounds → ℕ × ℕ
  unfolding rightmost
  finish s = if s.any_matches then (rightmost s.right s.left, s.right) else (s.left, s.left - 1)

  abbrev pub finished : Option Bounds → Option (ℕ × ℕ)
  finished none = none
  finished (some s) = some (finish s)

  abbrev pub start : ℕ → ℕ → ℕ → Bounds
  start left right addr = record {
    l = left;
    r = right;
    left = left;
    right = right;
    any_matches = false;
    addr = addr;
  }

  unfoldable pub stab_binsearch : ℕ → ℕ → ℕ → ℕ → Option (ℕ × ℕ)
  unfolding search_loop finish
  stab_binsearch fuel left right addr = finished (search_loop fuel (start left right addr))
