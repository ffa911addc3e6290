-- ===== src/Env/Lookup.antt =====
-- envid2env: which environments an id and a caller give access to.
use homework_of_operating_sy.Base.{
  ℕ, ◌≡◌, refl, ◌≢◌, ◌⊎◌, inl, inr, Bool, true, false, not, ◌&&◌, Bool-cases, some, ◌==◌, arith,
}
use homework_of_operating_sy.Kernel.{Kernel, ok, ret, fail, e_bad_env, env_free_status}
use homework_of_operating_sy.Env.{envx, is_cur, envid2env}

-- Process `c` may name slot `e` by `envid`: 0 is itself; any other id must be the live id of its own
-- slot, and if `checkperm` is set the slot must be the caller's or its child's.
abbrev pub Access : Kernel → ℕ → ℕ → Bool → ℕ → Type 0
Access k c envid checkperm e =
    ((envid ≡ 0) × (e ≡ c))
    ⊎ ((envid ≢ 0)
        × (e ≡ envx envid)
        × ((k.envs e).env_status ≢ env_free_status)
        × ((k.envs e).env_id ≡ envid)
        × (checkperm ≡ true → (e ≡ c) ⊎ ((k.envs e).env_parent_id ≡ (k.envs c).env_id)))

-- envid2env decides access and changes nothing: it gives the one environment to which the id gives
-- access, or -E_BAD_ENV when there is none.
pub envid2env_lem :
    (envid : ℕ) (checkperm : Bool) (c : ℕ) (k : Kernel)
    → k.curenv ≡ some c
    → ((e : ℕ) × Access k c envid checkperm e × (envid2env envid checkperm k ≡ ok (ret (some e)) k))
      ⊎ (((e : ℕ) → ¬ Access k c envid checkperm e)
          × (envid2env envid checkperm k ≡ ok (fail e_bad_env) k))
unfolding envid2env
envid2env_lem envid checkperm c k at = elim (Bool-cases (envid == 0)) [
  | inl z ↦ inl (c, inl (ground (arith, z), refl), ground (arith, z))
  | inr z ↦ elim (Bool-cases ((k.envs (envx envid)).env_status == env_free_status)) [
    | inl free ↦ inr (λ e a. denied e a (inl (ground (arith, free))) z, ground (arith, z, free))
    | inr live ↦ elim (Bool-cases ((k.envs (envx envid)).env_id == envid)) [
      | inr stale ↦
          inr (λ e a. denied e a (inr (inl (ground (arith, stale)))) z, ground (arith, z, stale))
      | inl id ↦ elim (Bool-cases (checkperm && not (is_cur (envx envid) k))) [
        | inr open_to ↦ inl (
          envx envid,
          inr (
            ground (arith, z),
            refl,
            ground (arith, live),
            ground (arith, id),
            λ p. inl ground (arith, open_to, at, p),
          ),
          ground (arith, z, live, id, open_to),
        )
        | inl other ↦ elim (Bool-cases ((k.envs (envx envid)).env_parent_id == (k.envs c).env_id)) [
          | inl child ↦ inl (
            envx envid,
            inr (
              ground (arith, z),
              refl,
              ground (arith, live),
              ground (arith, id),
              λ p. inr (ground (arith, child)),
            ),
            ground (arith, z, live, id, other, child),
          )
          | inr foreign ↦ inr (
            λ e a.
                denied e a
                  (inr (
                    inr
                      (ground (arith, other), ground (arith, other, at), ground (arith, foreign))))
                  z,
            ground (arith, z, live, id, other, foreign),
          )
        ]
      ]
    ]
  ]
]
  where
    denied :
        (e : ℕ)
        → Access k c envid checkperm e
        → ((k.envs (envx envid)).env_status ≡ env_free_status)
          ⊎ ((k.envs (envx envid)).env_id ≢ envid)
          ⊎ ((checkperm ≡ true)
              × (envx envid ≢ c)
              × ((k.envs (envx envid)).env_parent_id ≢ (k.envs c).env_id))
        → (envid == 0) ≡ false
        → ⊥
    denied e a why z = ground arith
