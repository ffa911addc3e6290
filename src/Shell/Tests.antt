-- ===== src/Shell/Tests.antt =====
-- A line with two blanks inside and two at its end.
use homework_of_operating_sy.Base.{
  ℕ, zero, suc, ◌<◌, ◌≡◌, refl, Option, some, none, List, [], ◌∷◌, get_elem?, arith,
}
use homework_of_operating_sy.Strings.{Bytes}
use homework_of_operating_sy.Shell.{merge, split_command, split_loop}
use homework_of_operating_sy.Shell.Blanks.{Text, squeeze, merge_lem}

abbrev line : List ℕ
line = 97 ∷ 32 ∷ 32 ∷ 98 ∷ 32 ∷ 32 ∷ []

abbrev or_null : Option ℕ → ℕ
or_null none = 0
or_null (some c) = c

abbrev memory : Bytes
memory j = or_null (get_elem? line j)

line-Text : Text memory 0 line
line-Text = (
  refl,
  (λ e. omega (arith, e)),
  (
    refl,
    (λ e. omega (arith, e)),
    (
      refl,
      (λ e. omega (arith, e)),
      (
        refl,
        (λ e. omega (arith, e)),
        (refl, (λ e. omega (arith, e)), (refl, (λ e. omega (arith, e)), refl)),
      ),
    ),
  ),
)

merge_lem_example :
    (m' : Bytes) × (merge 7 memory 0 ≡ some m')
    × Text m' 0 (squeeze line)
    × ((j : ℕ) → j < 0 → m' j ≡ memory j)
merge_lem_example = merge_lem 7 line memory 0 line-Text (omega arith)

squeezed : squeeze line ≡ 97 ∷ 32 ∷ 98 ∷ 32 ∷ []
unfolding squeeze
squeezed = refl

-- A strtok that gives three tokens: its state is the number left.
abbrev countdown : ℕ → Option ℕ → Option ℕ × ℕ
countdown zero s = (none, 0)
countdown (suc k) s = (some k, k)

abbrev counted : Option ((ℕ → Option ℕ) × ℕ × ℕ) → ℕ
counted none = 0
counted (some r) = r.1

three_tokens : counted (split_command countdown 4 3 (some 0) (λ i. none)) ≡ 3
unfolding split_command split_loop
three_tokens = refl
