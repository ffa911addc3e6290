-- ===== src/Env/Tests.antt =====
-- The theorems on environments at the sample machine.
use homework_of_operating_sy.Base.{ℕ, ◌≡◌, refl, ◌⊎◌, true, none, some, arith}
use homework_of_operating_sy.Kernel.{Kernel, ok, ret, fail, e_bad_env, e_no_mem, e_no_free_env}
use homework_of_operating_sy.Sample.{machine}
use homework_of_operating_sy.Env.{env_alloc, envid2env}
use homework_of_operating_sy.Env.Lookup.{Access, envid2env_lem}
use homework_of_operating_sy.Env.Alloc.{Created, env_alloc_lem}

envid2env_lem_example :
    ((e : ℕ) × Access machine 0 0x1001 true e
      × (envid2env 0x1001 true machine ≡ ok (ret (some e)) machine))
    ⊎ (((e : ℕ) → ¬ Access machine 0 0x1001 true e)
        × (envid2env 0x1001 true machine ≡ ok (fail e_bad_env) machine))
envid2env_lem_example = envid2env_lem 0x1001 true 0 machine refl

env_alloc_lem_example :
    ((machine.env_free_list ≡ none) × (env_alloc 0x1000 machine ≡ ok (fail e_no_free_env) machine))
    ⊎ ((machine.page_free_list ≡ none) × (env_alloc 0x1000 machine ≡ ok (fail e_no_mem) machine))
    ⊎ ((e x : ℕ) × (k' : Kernel) × (machine.env_free_list ≡ some e)
        × (machine.page_free_list ≡ some x)
        × (env_alloc 0x1000 machine ≡ ok (ret e) k')
        × Created e x 0x1000 machine k')
env_alloc_lem_example =
    env_alloc_lem 0x1000 machine (λ x p. (ground arith, ground arith)) (omega arith)
