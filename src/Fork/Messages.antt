-- ===== src/Fork/Messages.antt =====
-- The message passing of OSLab7-Mitjoslab4/lib/ipc.c, by the system calls.
use homework_of_operating_sy.Base.{ℕ, zero, suc, ◌-◌, ◌^◌, Bool, true, false, if◌then◌else◌, ◌==◌}
use homework_of_operating_sy.Kernel.{
  Kernel, Env, Cmd, Ret, ret, fail, e_ipc_not_recv, e_unspecified, e_bad_env, e_inval, e_no_mem,
  e_no_free_env, e_fault, e_eof, ret_word, pure, abort, ◌>>=◌,
}
use homework_of_operating_sy.Env.{nenv}
use homework_of_operating_sy.Syscall.{sys_ipc_try_send, sys_ipc_recv}

-- `if (!pg) pg = (void*)-1;`
abbrev pub page_or_none : ℕ → ℕ
page_or_none pg = if pg == 0 then 2 ^ 32 - 1 else pg

-- The result of ipc_recv, with *from_env_store and *perm_store
pub record Received : Type 0 where
  pub result : ℕ
  pub from_env : ℕ
  pub perm : ℕ

-- What ipc_recv does up to its system call, and from there on, with `thisenv` as it is then
unfoldable pub ipc_recv : ℕ → Cmd (Ret ℕ)
unfolding sys_ipc_recv
ipc_recv pg = sys_ipc_recv (page_or_none pg)

abbrev pub ipc_received : Ret ℕ → Env → Received
ipc_received r thisenv =
    if ret_word r == 0
    then record {
      result = thisenv.env_ipc_value;
      from_env = thisenv.env_ipc_from;
      perm = thisenv.env_ipc_perm;
    }
    else record { result = ret_word r; from_env = 0; perm = 0 }

-- One round of the loop of ipc_send, by the result of the call: is it over? If not, it goes on after sys_yield.
abbrev pub send_over : Ret ℕ → Cmd Bool
send_over (ret zero) = pure true
send_over (ret (suc v)) = abort
send_over (fail e_ipc_not_recv) = pure false
send_over (fail e_unspecified) = abort
send_over (fail e_bad_env) = abort
send_over (fail e_inval) = abort
send_over (fail e_no_mem) = abort
send_over (fail e_no_free_env) = abort
send_over (fail e_fault) = abort
send_over (fail e_eof) = abort

unfoldable pub ipc_send_round : ℕ → ℕ → ℕ → ℕ → Cmd Bool
unfolding sys_ipc_try_send
ipc_send_round to_env val pg perm = do
  r ← sys_ipc_try_send to_env val (page_or_none pg) perm
  send_over r

-- The loop of ipc_find_env from slot `i` on, with `n` slots left
unfoldable pub find_env : ℕ → ℕ → ℕ → Kernel → ℕ
find_env type i zero k = 0
find_env type i (suc n) k =
    let rest = find_env type (suc i) n k in
    if (k.envs i).env_type == type then (k.envs i).env_id else rest

unfoldable pub ipc_find_env : ℕ → Kernel → ℕ
unfolding find_env
ipc_find_env type = find_env type 0 nenv
