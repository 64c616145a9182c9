-- ===== src/Sched/Destroyed.antt =====
-- `env_free` and `env_destroy` of kern/env.c, which unmap the kernel's half of the address space first.
use riscv_mos.Base.{ℕ, ◌^◌, ◌-◌, ◌≡◌, ◌≢◌, refl, true, arith, List}
use riscv_mos.Kernel.{panic}
use riscv_mos.Page.Chain.{HasFree}
use riscv_mos.Vm.Pte.{flag, pte_v, pte_flags}
use riscv_mos.Vm.Tables.{Place, IsTable, Ordinary}
use riscv_mos.Vm.Entries.{pte_at}
use riscv_mos.Vm.Unmap.{uvmunmap-panic}
use riscv_mos.Env.{Os}
use riscv_mos.Env.Life.{env_free}
use riscv_mos.Sched.{env_destroy}

-- The first address that `env_free` unmaps.
abbrev pub kernel_half : ℕ
kernel_half = 0x80000000

-- Tables and free list are well formed, and the tables of the environment map the page at 0x80000000,
-- as `env_setup_vm` leaves them where the kernel does, with more flags than PTE_V. Then `env_free` and
-- `env_destroy` panic with the message of `uvmunmap`.
pub env_destroy-panic :
    {own : ℕ} (now e : ℕ) (s : Os) (place : Place) (xs : List ℕ)
    → Ordinary own kernel_half
    → IsTable own s.machine.mem (s.envs e).env_pgtable place xs
    → HasFree s.machine xs
    → flag (pte_at s.machine (s.envs e).env_pgtable kernel_half) pte_v ≡ true
    → pte_flags (pte_at s.machine (s.envs e).env_pgtable kernel_half) ≢ pte_v
    → (env_free e s ≡ panic "uvmunmap: not mapped")
      × (env_destroy now e s ≡ panic "uvmunmap: not mapped")
env_destroy-panic now e s place xs ord t c valid leaf =
    let stop =
      uvmunmap-panic (2 ^ 26 - 2) (s.envs e).env_pgtable kernel_half s.machine place xs
        (omega arith) ord t c refl valid leaf (omega arith) in
    (rw stop refl, rw stop refl)
