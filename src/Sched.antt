-- ===== src/Sched.antt =====
-- kern/sched.c: the scheduler, and `env_destroy` of kern/env.c, which calls it. The time that the
-- timer reads is an argument.
pub mod Destroyed
pub mod Round
pub mod Runs
pub mod Started
use riscv_mos.Base.{
  ℕ, ◌+◌, ◌-◌, ◌^◌, Bool, true, false, not, ◌||◌, ◌==◌, if◌then◌else◌, Option, none, some, u32,
}
use riscv_mos.Kernel.{Cmd, panic, fault, pure, get, modify, ◌>>=◌, ◌>>◌}
use riscv_mos.Queue.{tailq_remove, tailq_insert_tail}
use riscv_mos.Timer.{do_timer}
use riscv_mos.Env.{Os, env_runnable}
use riscv_mos.Env.Life.{env_free, env_run}

-- `e != NULL && e->env_status == ENV_RUNNABLE`
abbrev pub is_runnable : Os → Option ℕ → Bool
is_runnable s none = false
is_runnable s (some e) = (s.envs e).env_status == env_runnable

-- The environment that was running goes to the end of the queue.
abbrev pub requeue : Option ℕ → Os → Os
requeue none s = s
requeue (some e) s =
    if is_runnable s (some e)
    then record s { env_sched_list = tailq_insert_tail (tailq_remove s.env_sched_list e) e }
    else s

-- `count--` and the call of `env_run`.
abbrev pub start_slice : Option ℕ → Cmd Os (Unit {0})
start_slice none s = fault
start_slice (some e) s = env_run e (record s { count = u32 (s.count + (2 ^ 32 - 1)) })

-- From the test of the queue on, where its head is the argument.
abbrev pub pick : Option ℕ → Cmd Os (Unit {0})
pick none s = panic "schedule: no runnable envs"
pick (some e) s = start_slice (some e) (record s { count = (s.envs e).env_pri })

unfoldable pub schedule : (now : ℕ) (yield : Bool) → Cmd Os (Unit {0})
schedule now yield s =
    let t = do_timer now s in
    if yield || (t.count == 0) || not (is_runnable t t.curenv)
    then (let r = requeue t.curenv t in pick r.env_sched_list.links.head r)
    else start_slice t.curenv t

abbrev pub is_current : Option ℕ → ℕ → Bool
is_current none e = false
is_current (some c) e = c == e

abbrev pub env_destroy : (now e : ℕ) → Cmd Os (Unit {0})
env_destroy now e = do
  env_free e
  s ← get
  if not (is_current s.curenv e)
      then pure tt
      else do modify λ t. record t { curenv = none }; schedule now true
