-- ===== src/Sched/Switch.antt =====
-- Where sched_yield leaves the kernel.
use homework_of_operating_sy.Base.{
  ℕ, ◌<◌, ◌≡◌, refl, ◌≢◌, ◌⊎◌, ◌∙◌, ap, true, false, Bool-cases, Option-cases, inl, inr, Option,
  none, some, if◌then◌else◌, arith,
}
use homework_of_operating_sy.Kernel.{
  Kernel, leave, to_user, to_halt, to_monitor, env_runnable, env_running,
}
use homework_of_operating_sy.Env.{nenv, is_cur}
use homework_of_operating_sy.Sched.{
  slt, chosen, keeps, yield_from, switch_to, env_run, run_chosen, sched_halt, sched_yield,
}
use homework_of_operating_sy.Sched.Choice.{Chosen, chosen_lem}
use homework_of_operating_sy.Sched.Run.{
  pop_state, run_state, env_run_self, env_run_other, HasDirs, halt_outcome,
}

-- sched_yield goes to process `e`: it may run, and no runnable process has a smaller priority number.
abbrev pub Resumes : Type 0 → ℕ → Kernel → Type 0
Resumes A e k =
    (k' : Kernel) × (sched_yield {A = A} k ≡ leave to_user k')
    × (k'.curenv ≡ some e)
    × (k'.locked ≡ false)
    × (((k.envs e).env_status ≡ env_runnable)
        ⊎ ((k.curenv ≡ some e) × ((k.envs e).env_status ≡ env_running)))
    × ((j : ℕ)
        → j < nenv
        → (k.envs j).env_status ≡ env_runnable
        → slt (k.envs j).pr (k.envs e).pr ≡ false)

is_cur_lem : (e : ℕ) (k : Kernel) → is_cur e k ≡ true → k.curenv ≡ some e
is_cur_lem e k h = ground arith

run_chosen-some :
    {A : Type 0} (b : ℕ) (k : Kernel)
    → HasDirs k
    → chosen k ≡ some b
    → (k.envs b).env_status ≡ env_runnable
    → (k' : Kernel) × (run_chosen {A = A} k ≡ leave to_user k')
      × (k'.curenv ≡ some b)
      × (k'.locked ≡ false)
unfolding switch_to
run_chosen-some b k dirs c r = elim (Bool-cases (is_cur b k)) [
  | inl same ↦
      let at : k.curenv ≡ some b = is_cur_lem b k same in
      (pop_state b k, rw (c, run_chosen) (env_run_self b k at), at, refl)
  | inr other ↦
      let (d, p) = dirs b r in
      (run_state b d k, rw (c, run_chosen) (env_run_other b k d other p), refl, refl)
]

-- Without a candidate sched_yield halts the CPU, or starts the monitor if no process is left.
abbrev pub Idles : Type 0 → Kernel → Type 0
Idles A k =
    ((j : ℕ) → j < nenv → (k.envs j).env_status ≢ env_runnable)
    × (((k' : Kernel) × (sched_yield {A = A} k ≡ leave to_halt k')
          × (k'.curenv ≡ none)
          × (k'.locked ≡ false)
          × (k'.halted ≡ true)
          × (k'.envs ≡ k.envs))
        ⊎ ((sched_yield {A = A} k ≡ leave to_monitor k)
            × ((j : ℕ) → j < nenv → (k.envs j).env_status ≢ env_running)))

keeps_least :
    (k : Kernel) (c : ℕ) (o : Option ℕ)
    → chosen k ≡ o
    → Chosen k o
    → keeps k c ≡ true
    → (j : ℕ) → j < nenv
    → (k.envs j).env_status ≡ env_runnable
    → slt (k.envs j).pr (k.envs c).pr ≡ false
keeps_least k c none e h stay j lt r = absurd (h j lt r)
keeps_least k c (some b) e (d, lt, q, run, low, first) stay j l r =
    let stay' : slt (k.envs c).pr (k.envs b).pr ≡ true = ground (arith, stay, e) in
    ground (arith, stay', low j l r)

module _ {A : Type 0} (k : Kernel) (dirs : HasDirs k) where
  -- Where sched_yield is its second half.
  yield_chosen :
      sched_yield {A = A} k ≡ run_chosen {A = A} k
      → (o : Option ℕ) → chosen k ≡ o
      → Chosen k o
      → ((e : ℕ) × Resumes A e k) ⊎ Idles A k
  yield_chosen y none c h =
      let run : run_chosen {A = A} k ≡ sched_halt {A = A} k = rw (c, run_chosen) refl in
      inr (
        h,
        elim (halt_outcome {A = A} k) [
          | inl (k', e, p, q, s, t) ↦ inl (k', y ∙ run ∙ e, p, q, s, t)
          | inr (e, idle) ↦ inr (y ∙ run ∙ e, idle)
        ],
      )
  yield_chosen y (some b) c (d, lt, q, r, low, first) =
      let (k', e, p, l) = run_chosen-some {A = A} b k dirs c r in
      inl (b, (k', y ∙ e, p, l, inl r, low))

  yield_cur :
      (c : ℕ)
      → k.curenv ≡ some c
      → sched_yield {A = A} k ≡ (if keeps k c then env_run {A = A} c k else run_chosen {A = A} k)
  unfolding sched_yield
  yield_cur c at = ap (λ (o : Option ℕ). yield_from {A = A} o k) at

  yield_none : k.curenv ≡ none → sched_yield {A = A} k ≡ run_chosen {A = A} k
  unfolding sched_yield
  yield_none at = ap (λ (o : Option ℕ). yield_from {A = A} o k) at

  keeps_Resumes : (c : ℕ) → k.curenv ≡ some c → keeps k c ≡ true → Resumes A c k
  keeps_Resumes c at stay = (
    pop_state c k,
    yield_cur c at ∙ rw stay (env_run_self c k at),
    at,
    refl,
    inr (at, ground (arith, stay)),
    keeps_least k c (chosen k) refl (chosen_lem k) stay,
  )

  -- sched_yield never returns and never panics when every runnable process has an address space. It
  -- goes to user mode in a process that is runnable, or that is the current one and RUNNING, and no
  -- runnable process of the table has a smaller priority number; or no process is runnable, and the
  -- CPU halts with no current process and the lock released, or, if none is running either, the
  -- monitor starts.
  pub sched_yield_lem : ((e : ℕ) × Resumes A e k) ⊎ Idles A k
  sched_yield_lem = elim (Option-cases k.curenv) [
    | inl at ↦ yield_chosen (yield_none at) (chosen k) refl (chosen_lem k)
    | inr (c, at) ↦ elim (Bool-cases (keeps k c)) [
      | inl stay ↦ inl (c, keeps_Resumes c at stay)
      | inr go ↦ yield_chosen (yield_cur c at ∙ rw go refl) (chosen k) refl (chosen_lem k)
    ]
  ]
