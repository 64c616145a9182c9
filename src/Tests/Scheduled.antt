-- ===== src/Tests/Scheduled.antt =====
-- Runs of the scheduler on the environment of `Programs`, and of the end of an environment.
use riscv_mos.Base.{◌+◌, ◌-◌, ◌*◌, ◌^◌, ◌≡◌, ◌≢◌, refl, ◌∙◌, arith, true, [], ◌∷◌, none, u32}
use riscv_mos.Kernel.{ok, panic, ◌>>=◌, page_size}
use riscv_mos.Vm.{mappages}
use riscv_mos.Vm.Pte.{flag, pte_v, pte_flags}
use riscv_mos.Vm.Tables.{no_own, no_own-Ordinary}
use riscv_mos.Vm.Entries.{pte_at}
use riscv_mos.Vm.Map.{mappages-Maps}
use riscv_mos.Vm.Map.Page.{Maps}
use riscv_mos.Env.{Os}
use riscv_mos.Env.Life.{env_free}
use riscv_mos.Env.Create.{env_create}
use riscv_mos.Sched.{schedule, env_destroy}
use riscv_mos.Sched.Runs.{Ready}
use riscv_mos.Sched.Started.{Started, schedule-env_create}
use riscv_mos.Sched.Destroyed.{kernel_half, env_destroy-panic}
use riscv_mos.Tests.Memory.{root, free_pages, start, places, start-HasFree, start-IsTable}
use riscv_mos.Tests.Paging.{start-unmapped}
use riscv_mos.Tests.Queues.{empty_queue, empty_queue-IsTailq, queue_of_numbers-IsTailq}
use riscv_mos.Tests.Processes.{system}
use riscv_mos.Tests.Programs.{
  binary, os, kplaces, fresh, left, kernel-IsTable, kernel-HasFree, fits_54, kernel-Regions,
  regions, room, kernel_accepted, kernel-InImage, one_segment, asid_3_free,
}

idle : Ready os []
idle = record { queue = empty_queue-IsTailq; runnable = λ e m. absurd (ground arith) }

schedule-env_create_example :
    (t : Os) × ((env_create binary 512 3 >>= λ created. schedule 5 true) os ≡ ok tt t)
    × Started 1 fresh binary (u32 (u32 3 + (2 ^ 32 - 1))) [] os t
schedule-env_create_example =
    schedule-env_create 1 fresh binary 512 3 3 5 true (2 ∷ 3 ∷ []) [] os kplaces left regions
      (omega arith) queue_of_numbers-IsTailq.list idle refl refl (omega arith) asid_3_free
      kernel-IsTable kernel-HasFree fits_54 kernel-Regions room kernel_accepted kernel-InImage
      one_segment

-- The page tables of environment 1 map the first page of the kernel's half.
abbrev half :
    Maps no_own root 0x80000 1 0x80000000 10 start places free_pages
      (mappages root kernel_half page_size 0x80000000 10 start)
half =
    mappages-Maps root kernel_half page_size 0x80000000 10 start places free_pages (omega arith)
      (omega arith) (omega arith) (omega arith) start-IsTable start-HasFree (omega arith)
      λ a low f l. (no_own-Ordinary a, start-unmapped a)

abbrev old : Os
old = record (system empty_queue none) { machine = half.after }

entry_of_half : pte_at half.after root kernel_half ≡ 0x80000 * 1024 + 11
entry_of_half = half.entries kernel_half (omega arith) (no_own-Ordinary kernel_half) ∙ refl

valid_half : flag (pte_at half.after root kernel_half) pte_v ≡ true
unfolding flag
valid_half = rw entry_of_half refl

leaf_half : pte_flags (pte_at half.after root kernel_half) ≢ pte_v
unfolding pte_flags
leaf_half = rw entry_of_half (omega arith)

env_destroy-panic_example :
    (env_free 1 old ≡ panic "uvmunmap: not mapped")
    × (env_destroy 5 1 old ≡ panic "uvmunmap: not mapped")
env_destroy-panic_example =
    env_destroy-panic 5 1 old half.places half.rest (no_own-Ordinary kernel_half) half.table
      half.free valid_half leaf_half
