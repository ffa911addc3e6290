-- ===== src/Sched/Choice.antt =====
-- The search of sched_yield: which process it chooses.
use homework_of_operating_sy.Base.{
  ℕ, zero, suc, ◌+◌, ◌-◌, ◌%◌, ◌<◌, ◌≡◌, refl, ◌≢◌, ◌==◌, true, false, Bool-cases, inl, inr, Option,
  none, some, sym, arith,
}
use mathlib.Core.Path.{subst}
use native.Mathlib.Decide.{dec_lt}
use homework_of_operating_sy.Kernel.{Kernel, Env, env_runnable}
use homework_of_operating_sy.Env.{nenv}
use homework_of_operating_sy.Sched.{slt, better, search_envs, search_start, chosen}

module _ (envs : ℕ → Env) (cur : ℕ) where
  -- The slot visited in round `m`.
  abbrev pub at_round : ℕ → ℕ
  at_round m = (cur + m) % nenv

  abbrev pub Runnable : ℕ → Type 0
  Runnable j = (envs j).env_status ≡ env_runnable

  -- `runenv` is the first of the best runnable processes among the first `i` rounds.
  abbrev pub Best : ℕ → Option ℕ → Type 0
  Best i none = (m : ℕ) → m < i → ¬ Runnable (at_round m)
  Best i (some b) =
      (d : ℕ) × (d < i)
      × (b ≡ at_round d)
      × Runnable b
      × ((m : ℕ) → m < i → Runnable (at_round m) → slt (envs (at_round m)).pr (envs b).pr ≡ false)
      × ((m : ℕ) → m < d → Runnable (at_round m) → slt (envs b).pr (envs (at_round m)).pr ≡ true)

  last_round : {m i : ℕ} → m < i + 1 → ¬ (m < i) → at_round m ≡ at_round i
  last_round h n = omega arith

  grow :
      (Q : ℕ → Type 0) (i : ℕ)
      → ((m : ℕ) → m < i → Q (at_round m))
      → Q (at_round i)
      → (m : ℕ) → m < i + 1
      → Q (at_round m)
  grow Q i f q m h = elim (dec_lt m i) [ yes p ↦ f m p | no n ↦ subst Q (sym (last_round h n)) q ]

  -- A round adds one slot to those among which the candidate is best.
  Best-better :
      (i : ℕ) (runenv : Option ℕ) → Best i runenv → Best (i + 1) (better envs (at_round i) runenv)
  unfolding better
  Best-better i none h = elim (Bool-cases ((envs (at_round i)).env_status == env_runnable)) [
    | inr idle ↦ rw idle (grow (λ j. ¬ Runnable j) i h (ground (arith, idle)))
    | inl run ↦ rw run (
      i,
      omega arith,
      refl,
      ground (arith, run),
      grow (λ j. Runnable j → slt (envs j).pr (envs (at_round i)).pr ≡ false) i
          (λ m lt r. absurd (h m lt r)) (λ r. ground arith),
      λ m lt r. absurd (h m lt r),
    )
  ]
  Best-better i (some b) (d, lt, e, run, low, first) =
      elim (Bool-cases ((envs (at_round i)).env_status == env_runnable)) [
        | inr idle ↦ rw idle (
          d,
          omega arith,
          e,
          run,
          grow (λ j. Runnable j → slt (envs j).pr (envs b).pr ≡ false) i low
              (λ r. absurd (ground (arith, idle, r))),
          first,
        )
        | inl new ↦ elim (Bool-cases (slt (envs (at_round i)).pr (envs b).pr)) [
          | inr worse ↦
              rw (new, worse)
                (
                  d,
                  omega arith,
                  e,
                  run,
                  grow (λ j. Runnable j → slt (envs j).pr (envs b).pr ≡ false) i low (λ r. worse),
                  first,
                )
          | inl wins ↦
              rw (new, wins)
                (
                  i,
                  omega arith,
                  refl,
                  ground (arith, new),
                  grow (λ j. Runnable j → slt (envs j).pr (envs (at_round i)).pr ≡ false) i
                      (λ m h r. ground (arith, low m h r, wins)) (λ r. ground arith),
                  λ m h r. ground (arith, low m h r, wins),
                )
        ]
      ]

  search-Best :
      (n i e : ℕ) (runenv : Option ℕ)
      → i + n ≡ e
      → Best i runenv
      → Best e (search_envs envs cur n i runenv)
  unfolding search_envs
  search-Best zero i e runenv h b = let q : i ≡ e = omega arith in rw (← q) b
  search-Best (suc n) i e runenv h b =
      search-Best n (i + 1) e (better envs (at_round i) runenv) (omega arith)
        (Best-better i runenv b)

-- Every slot is visited.
visited : (cur j : ℕ) → j < nenv → (m : ℕ) × (m < nenv) × ((cur + m) % nenv ≡ j)
visited cur j h = ((j + nenv - cur % nenv) % nenv, omega arith, omega arith)

-- The outcomes of the search in sched_yield: NULL when no process is runnable; or a runnable process
-- such that none has a smaller priority number, and, going round from the slot of the current
-- process, none before it has the same one.
abbrev pub Chosen : Kernel → Option ℕ → Type 0
Chosen k none = (j : ℕ) → j < nenv → (k.envs j).env_status ≢ env_runnable
Chosen k (some b) =
    (d : ℕ) × (d < nenv)
    × (b ≡ (search_start k + d) % nenv)
    × ((k.envs b).env_status ≡ env_runnable)
    × ((j : ℕ)
        → j < nenv
        → (k.envs j).env_status ≡ env_runnable
        → slt (k.envs j).pr (k.envs b).pr ≡ false)
    × ((m : ℕ)
        → m < d
        → (k.envs ((search_start k + m) % nenv)).env_status ≡ env_runnable
        → slt (k.envs b).pr (k.envs ((search_start k + m) % nenv)).pr ≡ true)

Best-Chosen : (k : Kernel) (o : Option ℕ) → Best k.envs (search_start k) nenv o → Chosen k o
Best-Chosen k none h = λ j lt r. let (m, ml, q) = visited (search_start k) j lt in h m ml (rw q r)
Best-Chosen k (some b) (d, lt, q, run, low, first) = (
  d,
  lt,
  q,
  run,
  λ j jl r.
      let (m, ml, p) = visited (search_start k) j jl in
      subst (λ t. slt (k.envs t).pr (k.envs b).pr ≡ false) p (low m ml (rw p r)),
  first,
)

-- The search of sched_yield is right in every state: it returns NULL only when no process of the
-- table is runnable; otherwise a runnable process of least priority number among all runnable ones,
-- and the first such going round the table from the slot of the current process (included).
pub chosen_lem : (k : Kernel) → Chosen k (chosen k)
chosen_lem k =
    Best-Chosen k (chosen k)
      (search-Best k.envs (search_start k) nenv 0 nenv none refl (λ m h. absurd (omega arith)))
