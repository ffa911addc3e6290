-- ===== src/Monitor/Words.antt =====
-- The arguments that runcmd finds, against the places where the words of the line start.
use homework_of_operating_sy.Base.{
  ℕ, zero, suc, ◌+◌, ◌-◌, ◌<◌, ◌≤◌, ◌≡◌, ◌⊎◌, inl, inr, refl, sym, ap, ◌∙◌, true, false, not, ◌&&◌,
  Bool-cases, Option, none, some, List, [], ◌∷◌, length, get_elem?, ◌==◌, ◌!=◌, update, arith,
}
use homework_of_operating_sy.Strings.{Bytes}
use homework_of_operating_sy.Shell.Blanks.{Text}
use homework_of_operating_sy.Monitor.{
  maxargs, is_white, gobble, skip_arg, Args, too_many, args, arg_loop,
}
use homework_of_operating_sy.Monitor.Scan.{starts, Gobbled, gobble_lem, Skipped, skip_arg_lem}

-- The arguments from `argc` on are the places `ws`, and the earlier ones are kept.
pub record Collected (ws : List ℕ) (argc : ℕ) (argv : ℕ → Option ℕ) (o : Option Args) : Type 0 where
  pub fits : argc + length ws < maxargs
  pub memory : Bytes
  pub table : ℕ → Option ℕ
  pub found : o ≡ some (args memory (argc + length ws) table)
  pub places : (i p : ℕ) → get_elem? ws i ≡ some p → table (argc + i) ≡ some p
  pub ends : table (argc + length ws) ≡ none
  pub kept : (i : ℕ) → i < argc → table i ≡ argv i

abbrev pub ArgsOutcome : List ℕ → ℕ → (ℕ → Option ℕ) → Option Args → Type 0
ArgsOutcome ws argc argv o =
    Collected ws argc argv o ⊎ ((maxargs ≤ argc + length ws) × (o ≡ some too_many))

-- One more argument in front
one_more :
    (s : ℕ) (ws : List ℕ) (argc : ℕ) (argv : ℕ → Option ℕ) (o : Option Args)
    → ArgsOutcome ws (argc + 1) (update argv argc (some s)) o
    → ArgsOutcome (s ∷ ws) argc argv o
one_more s ws argc argv o (inr (full, e)) = inr (omega (arith, full), e)
one_more s ws argc argv o (inl c) =
    let count : argc + suc (length ws) ≡ argc + 1 + length ws = omega arith in
    inl record {
      fits = omega (arith, c.fits);
      memory = c.memory;
      table = c.table;
      found = c.found ∙ ap (λ (n : ℕ). some (args c.memory n c.table)) (sym count);
      places = at_place;
      ends = ap c.table count ∙ c.ends;
      kept = λ i h. c.kept i (omega (arith, h)) ∙ ground (arith, h);
    }
  where
    at_place : (i p : ℕ) → get_elem? (s ∷ ws) i ≡ some p → c.table (argc + i) ≡ some p
    at_place zero p e =
        let here : argc + 0 ≡ argc = omega arith in
        ap c.table here ∙ c.kept argc (omega arith) ∙ ground (arith, e)
    at_place (suc i) p e =
        let there : argc + suc i ≡ argc + 1 + i = omega arith in ap c.table there ∙ c.places i p e

-- What arg_loop does once the white space is gone, by the rest of the loop
abbrev from_place : ℕ → Bytes → ℕ → ℕ → (ℕ → Option ℕ) → (ℕ → Option Args) → Option Args
from_place fuel m p argc argv next = elim (m p == 0) [
  | true ↦ some (args m argc (update argv argc none))
  | false ↦ elim (argc == maxargs - 1) [
    | true ↦ some too_many
    | false ↦ elim (skip_arg fuel m p) [ none ↦ none | some e ↦ next e ]
  ]
]

from_place_lem :
    (fuel : ℕ) (ys : List ℕ) (m : Bytes) (p argc : ℕ) (argv : ℕ → Option ℕ) (next : ℕ → Option Args)
    → Text m p ys
    → length ys < suc fuel
    → argc < maxargs
    → (m p ≡ 0) ⊎ (is_white (m p) ≡ false)
    → ((xs : List ℕ) (e : ℕ)
        → Text m e xs
        → length xs < fuel
        → argc + 1 < maxargs
        → ArgsOutcome (starts e true xs) (argc + 1) (update argv argc (some p)) (next e))
    → ArgsOutcome (starts p true ys) argc argv (from_place (suc fuel) m p argc argv next)
unfolding skip_arg
from_place_lem fuel [] m p argc argv next t enough low first go =
    let null : (m p == 0) ≡ true = ground (arith, t) in
    let count : argc + 0 ≡ argc = omega arith in
    rw (null, from_place)
      (inl record {
        fits = omega (arith, low);
        memory = m;
        table = update argv argc none;
        found = ap (λ (n : ℕ). some (args m n (update argv argc none))) (sym count);
        places = λ i q e. ground (arith, e);
        ends = ap (update argv argc none) count ∙ ground arith;
        kept = λ i h. ground (arith, h);
      })
from_place_lem fuel (c ∷ zs) m p argc argv next t enough low first go =
    let running : (m p == 0) ≡ false = ground (arith, t.0, t.1) in
    let c_word : is_white c ≡ false = ground (arith, first, t.0, t.1) in
    elim (Bool-cases (argc == maxargs - 1)) [
      | inl full ↦ rw (running, full, c_word, from_place) (inr (ground (arith, full), refl))
      | inr room ↦
          let going : (m p != 0 && not (is_white (m p))) ≡ true = ground (arith, first, t.0, t.1) in
          let k : Skipped m (p + 1) zs (skip_arg fuel m (p + 1)) =
            skip_arg_lem fuel zs m (p + 1) t.2 (omega (arith, enough)) in
          rw (running, room, c_word, going, k.found, k.same, from_place, skip_arg)
            (one_more p (starts k.place true k.rest) argc argv (next k.place) (
              go k.rest k.place k.text (omega (arith, k.shorter, enough))
                (ground (arith, room, low))))
    ]

arg_loop_lem :
    (fuel : ℕ) (xs : List ℕ) (m : Bytes) (s argc : ℕ) (argv : ℕ → Option ℕ)
    → Text m s xs
    → length xs < fuel
    → argc < maxargs
    → ArgsOutcome (starts s true xs) argc argv (arg_loop fuel m s argc argv)
unfolding arg_loop
arg_loop_lem zero xs m s argc argv t enough low = ground (arith, enough)
arg_loop_lem (suc fuel) xs m s argc argv t enough low =
    let g : Gobbled s xs (gobble (suc fuel) m s) = gobble_lem (suc fuel) xs m s t enough in
    rw (g.found, g.same, arg_loop)
      (from_place_lem fuel g.rest g.memory g.place argc argv
        (λ e. arg_loop fuel g.memory e (argc + 1) (update argv argc (some g.place))) g.text
        (omega (arith, g.shorter, enough)) low g.first
        (λ ys e u short room.
          arg_loop_lem fuel ys g.memory e (argc + 1) (update argv argc (some g.place)) u short
            room))

-- For every text and every bound on the rounds above its length, the loop over the arguments of runcmd ends. If the text has fewer than
-- MAXARGS words, argc is their number, argv has the places where they start, in order, and then a null pointer; if it has
-- more, the line is refused.
pub runcmd_args :
    (fuel : ℕ) (xs : List ℕ) (m : Bytes) (buf : ℕ)
    → Text m buf xs
    → length xs < fuel
    → ArgsOutcome (starts buf true xs) 0 (λ i. none) (arg_loop fuel m buf 0 (λ i. none))
runcmd_args fuel xs m buf t enough = arg_loop_lem fuel xs m buf 0 (λ i. none) t enough (omega arith)
