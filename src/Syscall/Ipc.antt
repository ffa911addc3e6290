-- ===== src/Syscall/Ipc.antt =====
-- Messages between processes: sys_ipc_recv and sys_ipc_try_send.
use homework_of_operating_sy.Base.{
  ℕ, ◌≤◌, ◌≡◌, refl, sym, ◌≢◌, ◌⊎◌, inl, inr, ◌∙◌, ap, true, false, Bool-cases, Option, some, ltb,
  ◌&&◌, if◌then◌else◌, arith,
}
use homework_of_operating_sy.Mmu.{utop}
use homework_of_operating_sy.Kernel.{
  Kernel, Env, Run, Ret, ok, ret, fail, e_bad_env, e_ipc_not_recv, env_runnable, env_not_runnable,
  env_free_status,
}
use homework_of_operating_sy.Env.{envx, set_env, deref, envid2env}
use homework_of_operating_sy.Env.Lookup.{Access, envid2env_lem}
use homework_of_operating_sy.EnvFree.Release.{update_other, update_same}
use homework_of_operating_sy.Syscall.{
  unaligned, delivered, send_body, recv_body, deliver, sys_ipc_try_send, sys_ipc_recv,
}

-- The state after sys_ipc_recv of process `c`.
abbrev pub recv_state : ℕ → ℕ → Kernel → Kernel
recv_state c dstva k =
    set_env c
      (λ v. record v {
        env_ipc_recving = true;
        env_status = env_not_runnable;
        env_ipc_dstva = dstva;
      })
      k

abbrev pub sent_state : ℕ → ℕ → ℕ → Kernel → Kernel
sent_state c e value k = set_env e (delivered (k.envs c).env_id value) k

send_value :
    (c e value srcva perm : ℕ) (k : Kernel)
    → utop ≤ srcva
    → send_body e value srcva perm c k ≡ ok (ret 0) (sent_state c e value k)
unfolding deliver
send_value c e value srcva perm k high =
    let none_sent : ltb srcva utop ≡ false = ground arith in rw none_sent refl

-- sys_ipc_try_send of a value alone, where the id names `e`.
try_send_value :
    (envid value srcva perm c e : ℕ) (k : Kernel)
    → k.curenv ≡ some c
    → envid2env envid false k ≡ ok (ret (some e)) k
    → utop ≤ srcva
    → sys_ipc_try_send envid value srcva perm k ≡ (
        if (k.envs e).env_ipc_recving
        then ok (ret 0) (sent_state c e value k)
        else ok (fail e_ipc_not_recv) k)
unfolding sys_ipc_try_send deliver
try_send_value envid value srcva perm c e k at found high =
    elim (Bool-cases (k.envs e).env_ipc_recving) [
      | inl open_to ↦
          rw (found, open_to)
            (ap (λ (o : Option ℕ). deref o (send_body e value srcva perm) k) at
              ∙ send_value c e value srcva perm k high)
      | inr closed ↦ rw (found, closed) refl
    ]

-- What a value sent by process `c` to `e` has changed
pub record Sent (e c value : ℕ) (k k' : Kernel) : Type 0 where
  pub waiting : (k'.envs e).env_ipc_recving ≡ false
  pub status : (k'.envs e).env_status ≡ env_runnable
  pub content : (k'.envs e).env_ipc_value ≡ value
  pub from : (k'.envs e).env_ipc_from ≡ (k.envs c).env_id
  pub result : (k'.envs e).env_tf.tf_regs.reg_eax ≡ 0
  pub slot : k'.envs e ≡ record (k.envs e) {
    env_ipc_recving = false;
    env_status = env_runnable;
    env_ipc_value = value;
    env_ipc_from = (k.envs c).env_id;
    env_tf = record ((k.envs e).env_tf) {
      tf_regs = record ((k.envs e).env_tf.tf_regs) { reg_eax = 0 };
    };
  }
  pub others : (j : ℕ) → j ≢ e → k'.envs j ≡ k.envs j
  pub rest : k' ≡ record k { envs = k'.envs }

sent_state-Sent : (e c value : ℕ) (k : Kernel) → Sent e c value k (sent_state c e value k)
sent_state-Sent e c value k = record {
  waiting = ground arith;
  status = ground arith;
  content = ground arith;
  from = ground arith;
  result = ground arith;
  slot = update_same k.envs e _;
  others = λ j n. update_other k.envs e j _ n;
  rest = refl;
}

-- The answer `r` of sys_ipc_try_send of a value alone to the process that the id names, if any.
abbrev pub SendAnswer : ℕ → ℕ → ℕ → Kernel → Run (Ret ℕ) → Type 0
SendAnswer envid value c k r =
    ((e : ℕ) × Access k c envid false e
      × ((k.envs e).env_ipc_recving ≡ true)
      × (k' : Kernel) × (r ≡ ok (ret 0) k')
      × Sent e c value k k')
    ⊎ ((e : ℕ) × Access k c envid false e
        × ((k.envs e).env_ipc_recving ≡ false)
        × (r ≡ ok (fail e_ipc_not_recv) k))
    ⊎ (((e : ℕ) → ¬ Access k c envid false e) × (r ≡ ok (fail e_bad_env) k))

-- sys_ipc_try_send of process `c` with `srcva` not below UTOP: if the id names an environment that
-- waits for a message, the call returns 0 and that environment alone changes, to no longer waiting,
-- runnable, with the value, the sender's id and 0 in its eax, and otherwise as it was;
-- -E_IPC_NOT_RECV if it does not wait, and -E_BAD_ENV if the id names none, with nothing changed.
pub sys_ipc_try_send_lem :
    (envid value srcva perm c : ℕ) (k : Kernel)
    → k.curenv ≡ some c
    → utop ≤ srcva
    → SendAnswer envid value c k (sys_ipc_try_send envid value srcva perm k)
unfolding sys_ipc_try_send
sys_ipc_try_send_lem envid value srcva perm c k at high = elim (envid2env_lem envid false c k at) [
  | inl (e, a, found) ↦
      let run = try_send_value envid value srcva perm c e k at found high in
      elim (Bool-cases (k.envs e).env_ipc_recving) [
        | inl open_to ↦ inl (
          e,
          a,
          open_to,
          sent_state c e value k,
          run ∙ rw open_to refl,
          sent_state-Sent e c value k,
        )
        | inr closed ↦ inr (inl (e, a, closed, run ∙ rw closed refl))
      ]
  | inr (denied, found) ↦ inr (inr (denied, rw found refl))
]

module _ (r dstva : ℕ) (k : Kernel) where
  recv_lem :
      k.curenv ≡ some r
      → ltb dstva utop && unaligned dstva ≡ false
      → sys_ipc_recv dstva k ≡ ok (ret 0) (recv_state r dstva k)
  unfolding sys_ipc_recv
  recv_lem at fine = rw fine (ap (λ (o : Option ℕ). deref o (recv_body dstva) k) at)

found_by_id :
    (r envid : ℕ) (k : Kernel)
    → envid ≢ 0
    → envx envid ≡ r
    → (k.envs r).env_status ≢ env_free_status
    → (k.envs r).env_id ≡ envid
    → envid2env envid false k ≡ ok (ret (some r)) k
unfolding envid2env
found_by_id r envid k nz slot live own = rw (sym slot) ground (arith, nz, slot, live, own)

-- What the receiver has after the exchange, a second sender being refused.
abbrev pub Exchanged : ℕ → ℕ → ℕ → ℕ → ℕ → ℕ → Kernel → Type 0
Exchanged r c envid value srcva perm k =
    (k' : Kernel) × (sys_ipc_try_send envid value srcva perm k ≡ ok (ret 0) k')
    × ((k'.envs r).env_ipc_value ≡ value)
    × ((k'.envs r).env_ipc_from ≡ (k.envs c).env_id)
    × ((k'.envs r).env_status ≡ env_runnable)
    × ((k'.envs r).env_tf.tf_regs.reg_eax ≡ 0)
    × ((k'.envs r).env_ipc_perm ≡ (k.envs r).env_ipc_perm)
    × ((e : ℕ) → e ≢ r → k'.envs e ≡ k.envs e)
    × (sys_ipc_try_send envid value srcva perm k' ≡ ok (fail e_ipc_not_recv) k')

-- Receive, then send: sys_ipc_recv of process `r` with a `dstva` that passes its test returns 0; from
-- any later state in which `r` is still as that call left it, a send by process `c` to the id of `r`, of
-- a value and no page, returns 0, gives `r` the value and the id of `c`, makes it runnable with 0 in
-- its eax, keeps its env_ipc_perm and changes no other process; a second send is refused with -E_IPC_NOT_RECV.
pub sys_ipc_recv-sys_ipc_try_send :
    (r dstva c envid value srcva perm : ℕ) (k k' : Kernel)
    → k.curenv ≡ some r
    → ltb dstva utop && unaligned dstva ≡ false
    → k'.curenv ≡ some c
    → k'.envs r ≡ (recv_state r dstva k).envs r
    → envid ≢ 0
    → envx envid ≡ r
    → (k.envs r).env_id ≡ envid
    → utop ≤ srcva
    → (sys_ipc_recv dstva k ≡ ok (ret 0) (recv_state r dstva k))
      × Exchanged r c envid value srcva perm k'
sys_ipc_recv-sys_ipc_try_send r dstva c envid value srcva perm k k' at fine at' same nz slot id
      high =
    let waiting : (k'.envs r).env_ipc_recving ≡ true =
      ap (λ (v : Env). v.env_ipc_recving) same ∙ ground arith in
    let asleep : (k'.envs r).env_status ≡ env_not_runnable =
      ap (λ (v : Env). v.env_status) same ∙ ground arith in
    let own : (k'.envs r).env_id ≡ envid = ap (λ (v : Env). v.env_id) same ∙ ground (arith, id) in
    let k'' = sent_state c r value k' in
    let send =
      try_send_value envid value srcva perm c r k' at'
        (found_by_id r envid k' nz slot (ground (arith, asleep)) own) high in
    let again =
      try_send_value envid value srcva perm c r k'' at'
        (found_by_id r envid k'' nz slot (ground arith) (ground (arith, own))) high in
    (
      recv_lem r dstva k at fine,
      (
        k'',
        send ∙ rw waiting refl,
        ground arith,
        ground arith,
        ground arith,
        ground arith,
        ground arith,
        λ e n. ground arith,
        again ∙ ground arith,
      ),
    )
