-- ===== src/Shell/Blanks.antt =====
-- merge against a squeezing of lists.
use homework_of_operating_sy.Base.{
  ℕ, zero, suc, ◌+◌, ◌<◌, ◌≤◌, ◌≡◌, ◌≢◌, ◌⊎◌, inl, inr, refl, Bool-cases, true, false, ◌&&◌, ◌==◌,
  update, if◌then◌else◌, Option, some, List, [], ◌∷◌, length, arith, ◌∙◌,
}
use homework_of_operating_sy.Strings.{Bytes}
use homework_of_operating_sy.Shell.{blank, skip_double, merge_loop, merge}

-- The bytes `xs` at `s`, with a null byte behind them
abbrev pub Text : Bytes → ℕ → List ℕ → Type 0
Text m s [] = m s ≡ 0
Text m s (c ∷ xs) = (m s ≡ c) × (c ≢ 0) × Text m (s + 1) xs

-- One blank for each run of blanks
unfoldable pub squeeze : List ℕ → List ℕ
squeeze [] = []
squeeze (c ∷ []) = c ∷ []
squeeze (c ∷ d ∷ xs) =
    let rest = squeeze (d ∷ xs) in if c == blank && d == blank then rest else c ∷ rest

pub Text-frame :
    {m m' : Bytes} (xs : List ℕ) (s : ℕ)
    → ((j : ℕ) → s ≤ j → m' j ≡ m j)
    → Text m s xs
    → Text m' s xs
Text-frame [] s same t = same s (omega arith) ∙ t
Text-frame (c ∷ xs) s same (e, n, t) =
    (same s (omega arith) ∙ e, n, Text-frame xs (s + 1) (λ j p. same j (omega (arith, p))) t)

-- Where skip_double stops, with the bytes from there on
record Stop (m : Bytes) (s : ℕ) (c : ℕ) (xs : List ℕ) (o : Option ℕ) : Type 0 where
  place : ℕ
  byte : ℕ
  behind : List ℕ
  found : o ≡ some place
  onward : s ≤ place
  text : Text m place (byte ∷ behind)
  squeezed : squeeze (c ∷ xs) ≡ byte ∷ squeeze behind
  shorter : length behind ≤ length xs

two_blanks :
    (m : Bytes) (s c d : ℕ)
    → m s ≡ c
    → m (s + 1) ≡ d
    → (c == blank && d == blank) ≡ (m s == blank && m (s + 1) == blank)
two_blanks m s c d e f = rw (e, f) refl

skip_double_lem :
    (xs : List ℕ) (fuel : ℕ) (m : Bytes) (s c : ℕ)
    → Text m s (c ∷ xs)
    → length xs < fuel
    → Stop m s c xs (skip_double fuel m s)
unfolding skip_double squeeze
skip_double_lem xs zero m s c t enough = ground (arith, enough)
skip_double_lem [] (suc fuel) m s c t enough =
    let single : (m s == blank && m (s + 1) == blank) ≡ false = ground (arith, t) in
    record {
      place = s;
      byte = c;
      behind = [];
      found = rw (single, skip_double) refl;
      onward = omega arith;
      text = t;
      squeezed = refl;
      shorter = omega arith;
    }
skip_double_lem (d ∷ xs) (suc fuel) m s c t enough =
    at_two (Bool-cases (m s == blank && m (s + 1) == blank))
      (skip_double_lem xs fuel m (s + 1) d t.2 (omega (arith, enough)))
  where
    Both : Type 0
    Both = (m s == blank && m (s + 1) == blank) ≡ true

    at_two :
        Both ⊎ ((m s == blank && m (s + 1) == blank) ≡ false)
        → Stop m (s + 1) d xs (skip_double fuel m (s + 1))
        → Stop m s c (d ∷ xs) (skip_double (suc fuel) m s)
    at_two (inl two) rest = record {
      place = rest.place;
      byte = rest.byte;
      behind = rest.behind;
      found = rw (two, skip_double) rest.found;
      onward = omega (arith, rest.onward);
      text = rest.text;
      squeezed = rw (two_blanks m s c d t.0 (t.2).0 ∙ two, squeeze) rest.squeezed;
      shorter = omega (arith, rest.shorter);
    }
    at_two (inr single) rest = record {
      place = s;
      byte = c;
      behind = d ∷ xs;
      found = rw (single, skip_double) refl;
      onward = omega arith;
      text = t;
      squeezed = rw (two_blanks m s c d t.0 (t.2).0 ∙ single, squeeze) refl;
      shorter = omega arith;
    }

-- The bytes `xs` from `p` on, all below left as in `m`
record Written (m : Bytes) (p : ℕ) (xs : List ℕ) (o : Option Bytes) : Type 0 where
  memory : Bytes
  done : o ≡ some memory
  text : Text memory p xs
  kept : (j : ℕ) → j < p → memory j ≡ m j

after_skip :
    {m : Bytes} {s c p : ℕ} {xs : List ℕ} {o : Option ℕ} (k : Stop m s c xs o)
    → p ≤ s
    → Text (update m p (m k.place)) (k.place + 1) k.behind
after_skip k le =
    Text-frame k.behind (k.place + 1) (λ j q. ground (arith, k.onward, le, q)) (k.text).2

one_char :
    {m : Bytes} {s c p : ℕ} {xs : List ℕ} {o : Option ℕ} {o' : Option Bytes} (k : Stop m s c xs o)
    → Written (update m p (m k.place)) (p + 1) (squeeze k.behind) o'
    → Written m p (squeeze (c ∷ xs)) o'
one_char {m} {p = p} k w = record {
  memory = w.memory;
  done = w.done;
  text = rw k.squeezed (ground (arith, w.kept p, k.text), ground (arith, k.text), w.text);
  kept = λ j h. ground (arith, w.kept j, h);
}

merge_loop_lem :
    (fuel : ℕ) (xs : List ℕ) (m : Bytes) (s p : ℕ)
    → Text m s xs
    → length xs < fuel
    → p ≤ s
    → Written m p (squeeze xs) (merge_loop fuel m s p)
unfolding merge_loop squeeze
merge_loop_lem zero xs m s p t enough le = ground (arith, enough)
merge_loop_lem (suc fuel) [] m s p t enough le =
    let null : (m s == 0) ≡ true = ground (arith, t) in
    record {
      memory = update m p 0;
      done = rw (null, merge_loop) refl;
      text = ground arith;
      kept = λ j h. ground (arith, h);
    }
merge_loop_lem (suc fuel) (c ∷ xs) m s p t enough le =
    let running : (m s == 0) ≡ false = ground (arith, t) in
    let k : Stop m s c xs (skip_double (suc fuel) m s) =
      skip_double_lem xs (suc fuel) m s c t (omega (arith, enough)) in
    rw (running, k.found, merge_loop)
      (one_char k (
        merge_loop_lem fuel k.behind (update m p (m k.place)) (k.place + 1) (p + 1)
          (after_skip k le) (omega (arith, enough, k.shorter)) (omega (arith, k.onward, le))))

-- For every text and every bound on the rounds above its length, merge ends; it leaves the text with one blank in
-- place of each run of blanks, and changes nothing in front of it.
pub merge_lem :
    (fuel : ℕ) (xs : List ℕ) (m : Bytes) (s : ℕ)
    → Text m s xs
    → length xs < fuel
    → (m' : Bytes) × (merge fuel m s ≡ some m')
      × Text m' s (squeeze xs)
      × ((j : ℕ) → j < s → m' j ≡ m j)
unfolding merge
merge_lem fuel xs m s t enough = written (merge_loop_lem fuel xs m s s t enough (omega arith))
  where
    written :
        Written m s (squeeze xs) (merge_loop fuel m s s)
        → (m' : Bytes) × (merge_loop fuel m s s ≡ some m')
          × Text m' s (squeeze xs)
          × ((j : ℕ) → j < s → m' j ≡ m j)
    written w = (w.memory, w.done, w.text, w.kept)
