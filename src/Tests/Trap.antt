-- ===== src/Tests/Trap.antt =====
-- Traps from a program and from the kernel.
use riscv_mos.Base.{
  ◌+◌, ◌/◌, ◌%◌, ◌^◌, ◌<◌, ◌≡◌, ◌↔◌, ◌⊎◌, refl, arith, ◌==◌, if◌then◌else◌, none, some,
}
use riscv_mos.Kernel.{ok}
use riscv_mos.Env.{Os}
use riscv_mos.Env.Life.{env_run}
use riscv_mos.Tests.Memory.{start}
use riscv_mos.Tests.Processes.{system}
use riscv_mos.Tests.Queues.{queue_of_numbers}
use riscv_mos.Trap.{Hart, sstatus, sscratch, run, save_all, restore_all}
use riscv_mos.Trap.Save.{IsReady, IsSaved, save_all-IsSaved}
use riscv_mos.Trap.Restore.{Resumes, restore_all-save_all}
use riscv_mos.Trap.Context.{kstacktop, Holds, env_run-save_all}
use riscv_mos.Trap.Dispatch.{handle_s_int, handle_ebreak, dispatch, dispatch_iff}

-- A hart that runs a program, with its own number in each register.
abbrev user_hart : Hart
user_hart = record {
  regs = λ i. i % 2 ^ 64;
  csrs = λ c. if c == sscratch then kstacktop else if c == sstatus then 2 else c % 2 ^ 64;
  mem = λ a. 0;
}

user_hart-IsReady : IsReady user_hart
user_hart-IsReady = record {
  room = omega arith;
  top = omega arith;
  words = λ i. ground arith;
  csr_words = λ c. ground arith;
}

save_all-IsSaved_example : IsSaved user_hart (run 0 save_all user_hart)
save_all-IsSaved_example = save_all-IsSaved user_hart user_hart-IsReady

restore_all-save_all_example : Resumes user_hart (run 0 restore_all (run 0 save_all user_hart))
restore_all-save_all_example = restore_all-save_all user_hart user_hart-IsReady refl

-- The kernel after SAVE_ALL.
abbrev trapped : Os
trapped =
    let s = system queue_of_numbers (some 2) in
    record s { machine = record start { mem = (run 0 save_all user_hart).mem } }

env_run-save_all_example :
    (t : Os) × (env_run 3 trapped ≡ ok tt t)
    × Holds (t.envs 2).env_tf user_hart
    × (t.curenv ≡ some 3)
env_run-save_all_example =
    env_run-save_all user_hart 2 3 trapped user_hart-IsReady refl refl refl refl

dispatch_iff_example :
    ((dispatch (2 ^ 63 + 5) ≡ some handle_s_int)
      ↔ (((2 ^ 63 + 5) / 2 ^ 63 ≡ 1) × ((2 ^ 63 + 5) % 64 ≡ 5))
        ⊎ (((2 ^ 63 + 5) / 2 ^ 63 ≡ 0) × ((2 ^ 63 + 5) % 64 ≡ 21)))
    × ((dispatch (2 ^ 63 + 5) ≡ some handle_ebreak)
        ↔ ((2 ^ 63 + 5) / 2 ^ 63 ≡ 0) × ((2 ^ 63 + 5) % 64 ≡ 3))
    × ((dispatch (2 ^ 63 + 5) ≡ none) ↔ ((2 ^ 63 + 5) / 2 ^ 63 ≡ 1) × (47 < (2 ^ 63 + 5) % 64))
dispatch_iff_example = dispatch_iff (2 ^ 63 + 5) (omega arith)
