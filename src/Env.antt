-- ===== src/Env.antt =====
-- kern/env.c: the state of the environments. The entries of the two queues are kept in the stores
-- of `Queue`, under the number of the environment; `envs` is the table, and a `struct Env *` is a
-- number, NULL being `none`.
pub mod Asid
pub mod Create
pub mod Ids
pub mod Init
pub mod Life
use riscv_mos.Base.{ℕ, ◌*◌, ◌-◌, ◌+◌, ◌^◌, Option, none, some, ◌==◌, if◌then◌else◌}
use riscv_mos.Kernel.{Machine, Outcome, Cmd, ok, panic, out_of_fuel, fault}
use riscv_mos.Queue.{Links, Tailq}

abbrev pub nenv : ℕ
nenv = 2 ^ 10

abbrev pub nasid : ℕ
nasid = 256

-- `env_status`
abbrev pub env_free_status : ℕ
env_free_status = 0

abbrev pub env_runnable : ℕ
env_runnable = 1

abbrev pub env_not_runnable : ℕ
env_not_runnable = 2

-- Error codes of include/error.h.
abbrev pub e_bad_env : ℕ
e_bad_env = 2

abbrev pub e_no_mem : ℕ
e_no_mem = 4

abbrev pub e_no_free_env : ℕ
e_no_free_env = 6

pub record Trapframe : Type 0 where
  pub regs : ℕ → ℕ
  pub sstatus : ℕ
  pub sepc : ℕ
  pub stval : ℕ
  pub scause : ℕ

pub record Env : Type 0 where
  pub env_tf : Trapframe
  pub env_id : ℕ
  pub env_asid : ℕ
  pub env_parent_id : ℕ
  pub env_status : ℕ
  pub env_pgtable : ℕ
  pub env_pri : ℕ
  pub env_ipc_value : ℕ
  pub env_ipc_from : ℕ
  pub env_ipc_recving : ℕ
  pub env_ipc_dstva : ℕ
  pub env_ipc_perm : ℕ
  pub env_runs : ℕ

-- The globals of kern/env.c, the statics of `mkenvid` and `schedule`, those of kern/timer.c and the
-- time at which the next timer interrupt is due.
pub record Os : Type 0 where
  pub machine : Machine
  pub envs : ℕ → Env
  pub curenv : Option ℕ
  pub env_free_list : Links
  pub env_sched_list : Tailq
  pub asid_bitmap : ℕ → ℕ
  pub last_env : ℕ
  pub count : ℕ
  pub ticks : ℕ
  pub next_event : ℕ

-- A function of kern/vm.c or kern/phypage.c, called from kern/env.c.
abbrev pub lift : {A : Type 0} → Os → Outcome Machine A → Outcome Os A
lift s (ok a m) = ok a (record s { machine = m })
lift s (panic message) = panic message
lift s out_of_fuel = out_of_fuel
lift s fault = fault

abbrev pub on_machine : {A : Type 0} → Cmd Machine A → Cmd Os A
on_machine m s = lift s (m s.machine)

-- `e->field = v`
abbrev pub update_env : Os → ℕ → Env → Os
update_env s e v = record s { envs = λ i. if i == e then v else s.envs i }
