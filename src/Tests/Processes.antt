-- ===== src/Tests/Processes.antt =====
-- Runs of the code on environments: three of them are runnable, and stand in the queue.
use riscv_mos.Base.{
  ℕ, ◌+◌, ◌≡◌, ◌≢◌, ◌↔◌, ◌⊎◌, inl, refl, arith, true, false, if◌then◌else◌, Option, none, some, [],
  ◌∷◌, has,
}
use riscv_mos.Kernel.{ok}
use riscv_mos.Queue.{Tailq}
use riscv_mos.Queue.Shape.{IsList, IsTailq}
use riscv_mos.Env.{Os, Env, Trapframe, nenv, env_free_status}
use riscv_mos.Env.Ids.{envx, found, envid2env, envid2env_iff}
use riscv_mos.Env.Init.{env_init, count_up, env_init-IsList}
use riscv_mos.Sched.{schedule}
use riscv_mos.Sched.Runs.{Ready, Runs}
use riscv_mos.Sched.Round.{yields, schedule-rotates, yields-turn}
use riscv_mos.Tests.Memory.{start}
use riscv_mos.Tests.Queues.{
  blank, empty_queue, empty_queue-IsTailq, queue_of_numbers, queue_of_numbers-IsTailq, numbers,
}

abbrev empty_frame : Trapframe
empty_frame = record { regs = λ i. 0; sstatus = 0; sepc = 0; stval = 0; scause = 0 }

-- Environment `i`, which carries the id that `mkenvid` makes first for it.
abbrev env : ℕ → Env
env i = record {
  env_tf = empty_frame;
  env_id = 2048 + i;
  env_asid = i;
  env_parent_id = 2049;
  env_status = if has i numbers then 1 else 0;
  env_pgtable = 0x80400000;
  env_pri = 2;
  env_ipc_value = 0;
  env_ipc_from = 0;
  env_ipc_recving = 0;
  env_ipc_dstva = 0;
  env_ipc_perm = 0;
  env_runs = 0;
}

abbrev pub system : Tailq → Option ℕ → Os
system q running = record {
  machine = start;
  envs = env;
  curenv = running;
  env_free_list = blank;
  env_sched_list = q;
  asid_bitmap = λ i. 7;
  last_env = 0;
  count = 2;
  ticks = 98;
  next_event = 0;
}

-- Environment 1 runs.
abbrev running : Os
running = system queue_of_numbers (some 1)

running-Ready : (current : Option ℕ) → Ready (system queue_of_numbers current) numbers
running-Ready current = record { queue = queue_of_numbers-IsTailq; runnable = λ e m. rw m refl }

idle-Ready : Ready (system empty_queue none) []
idle-Ready = record { queue = empty_queue-IsTailq; runnable = λ e m. absurd (ground arith) }

envid2env_iff_example : (envid2env 2050 true running ≡ ok (found (some 2)) running) ↔ (
    (2 ≡ envx 2050)
    × ((running.envs (envx 2050)).env_status ≢ env_free_status)
    × ((running.envs (envx 2050)).env_id ≡ 2050)
    × ((true ≡ false)
        ⊎ (envx 2050 ≡ 1)
        ⊎ ((running.envs (envx 2050)).env_parent_id ≡ (running.envs 1).env_id)))
envid2env_iff_example = envid2env_iff 2050 2 1 true running (omega arith) refl

env_init-IsList_example :
    IsList (env_init running).env_free_list (count_up 0 (nenv + 1))
    × IsTailq (env_init running).env_sched_list []
env_init-IsList_example = env_init-IsList running

schedule-rotates_example : Runs running 2 1 (2 ∷ 3 ∷ 1 ∷ []) (schedule 5 true running)
schedule-rotates_example =
    schedule-rotates 5 1 2 true running numbers (3 ∷ 1 ∷ []) (running-Ready (some 1)) refl refl
      (inl refl) refl

yields-turn_example :
    (t : Os) × (yields (5 ∷ 6 ∷ []) running ≡ ok tt t)
    × Ready t (3 ∷ 1 ∷ 2 ∷ [])
    × (t.curenv ≡ some 3)
yields-turn_example =
    yields-turn (5 ∷ 6 ∷ []) 3 running (1 ∷ 2 ∷ []) [] refl (running-Ready (some 1)) refl
