-- ===== src/Monitor/Scan.antt =====
-- The inner loops of runcmd, against the places where the words of the line start.
use homework_of_operating_sy.Base.{
  ℕ, zero, suc, ◌+◌, ◌<◌, ◌≤◌, ◌≡◌, ◌⊎◌, inl, inr, refl, Bool, true, false, not, ◌&&◌, Bool-cases,
  Option, some, List, [], ◌∷◌, length, ◌!=◌, if◌then◌else◌, update, arith,
}
use homework_of_operating_sy.Strings.{Bytes}
use homework_of_operating_sy.Shell.Blanks.{Text, Text-frame}
use homework_of_operating_sy.Monitor.{is_white, gobble, skip_arg}

-- The places in the text at `s` where a word starts; `fresh`: is the place at `s` not behind a char of a word?
abbrev pub starts : ℕ → Bool → List ℕ → List ℕ
starts s fresh [] = []
starts s fresh (c ∷ xs) =
    if is_white c
    then starts (s + 1) true xs
    else (if fresh then s ∷ starts (s + 1) false xs else starts (s + 1) false xs)

-- Where gobble stops
pub record Gobbled (s : ℕ) (xs : List ℕ) (o : Option (Bytes × ℕ)) : Type 0 where
  pub memory : Bytes
  pub place : ℕ
  pub rest : List ℕ
  pub found : o ≡ some (memory, place)
  pub text : Text memory place rest
  pub same : starts s true xs ≡ starts place true rest
  pub shorter : length rest ≤ length xs
  pub first : (memory place ≡ 0) ⊎ (is_white (memory place) ≡ false)

pub gobble_lem :
    (fuel : ℕ) (xs : List ℕ) (m : Bytes) (s : ℕ)
    → Text m s xs
    → length xs < fuel
    → Gobbled s xs (gobble fuel m s)
unfolding gobble
gobble_lem zero xs m s t enough = ground (arith, enough)
gobble_lem (suc fuel) [] m s t enough =
    let null : (m s != 0 && is_white (m s)) ≡ false = ground (arith, t) in
    record {
      memory = m;
      place = s;
      rest = [];
      found = rw (null, gobble) refl;
      text = t;
      same = refl;
      shorter = omega arith;
      first = inl t;
    }
gobble_lem (suc fuel) (c ∷ xs) m s t enough = elim (Bool-cases (m s != 0 && is_white (m s))) [
  | inl white ↦
      let g : Gobbled (s + 1) xs (gobble fuel (update m s 0) (s + 1)) =
        gobble_lem fuel xs (update m s 0) (s + 1)
          (Text-frame xs (s + 1) (λ j p. ground (arith, p)) t.2) (omega (arith, enough)) in
      let c_white : is_white c ≡ true = ground (arith, white, t.0) in
      record {
        memory = g.memory;
        place = g.place;
        rest = g.rest;
        found = rw (white, gobble) g.found;
        text = g.text;
        same = rw c_white g.same;
        shorter = omega (arith, g.shorter);
        first = g.first;
      }
  | inr other ↦ record {
    memory = m;
    place = s;
    rest = c ∷ xs;
    found = rw (other, gobble) refl;
    text = t;
    same = refl;
    shorter = omega arith;
    first = ground (arith, other, t);
  }
]

-- Where skip_arg stops
pub record Skipped (m : Bytes) (s : ℕ) (xs : List ℕ) (o : Option ℕ) : Type 0 where
  pub place : ℕ
  pub rest : List ℕ
  pub found : o ≡ some place
  pub text : Text m place rest
  pub same : starts s false xs ≡ starts place true rest
  pub shorter : length rest ≤ length xs

pub skip_arg_lem :
    (fuel : ℕ) (xs : List ℕ) (m : Bytes) (s : ℕ)
    → Text m s xs
    → length xs < fuel
    → Skipped m s xs (skip_arg fuel m s)
unfolding skip_arg
skip_arg_lem zero xs m s t enough = ground (arith, enough)
skip_arg_lem (suc fuel) [] m s t enough =
    let null : (m s != 0 && not (is_white (m s))) ≡ false = ground (arith, t) in
    record {
      place = s;
      rest = [];
      found = rw (null, skip_arg) refl;
      text = t;
      same = refl;
      shorter = omega arith;
    }
skip_arg_lem (suc fuel) (c ∷ xs) m s t enough =
    elim (Bool-cases (m s != 0 && not (is_white (m s)))) [
      | inl word ↦
          let g : Skipped m (s + 1) xs (skip_arg fuel m (s + 1)) =
            skip_arg_lem fuel xs m (s + 1) t.2 (omega (arith, enough)) in
          let c_word : is_white c ≡ false = ground (arith, word, t.0) in
          record {
            place = g.place;
            rest = g.rest;
            found = rw (word, skip_arg) g.found;
            text = g.text;
            same = rw c_word g.same;
            shorter = omega (arith, g.shorter);
          }
      | inr other ↦
          let c_white : is_white c ≡ true = ground (arith, other, t.0, t.1) in
          record {
            place = s;
            rest = c ∷ xs;
            found = rw (other, skip_arg) refl;
            text = t;
            same = rw c_white refl;
            shorter = omega arith;
          }
    ]
