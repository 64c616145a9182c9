-- ===== src/Kernel.antt =====
-- The state that the memory code of the kernel shares, include/mmu.h's layout, and the outcomes of
-- a kernel function. `panic` of kern/printk.c prints its message and spins for ever: it is an
-- outcome of its own. Console output (`printk`) changes no kernel state and is left out, as is
-- `sfence_vma`, which only flushes the TLB.
use Prim.Native.String.{String}
use riscv_mos.Base.{ℕ, ◌-◌, ◌*◌, ◌+◌, ◌^◌}
use riscv_mos.Mem.{Mem}

abbrev pub page_size : ℕ
page_size = 4096

abbrev pub kernend : ℕ
kernend = 0x80400000

abbrev pub phyend : ℕ
phyend = 0x88000000

-- `MAXVA`
abbrev pub maxva : ℕ
maxva = 2 ^ 38

-- `UVPT`, `ENVS(i)` and `USTACKTOP`
abbrev pub uvpt : ℕ
uvpt = maxva - page_size - 0x40000000

abbrev pub envs_va : ℕ → ℕ
envs_va i = uvpt - (i + 1) * page_size

abbrev pub ustacktop : ℕ
ustacktop = 0x80000000 - page_size

-- `kmem.freelist` of kern/phypage.c, `kernel_pagetable` of kern/vm.c and the CSR that selects the
-- address space, beside the memory that they point into.
pub record Machine : Type 0 where
  pub mem : Mem
  pub freelist : ℕ
  pub kernel_pagetable : ℕ
  pub satp : ℕ

pub data Outcome (S A : Type 0) : Type 0 where
  ok : A → S → Outcome S A
  panic : String → Outcome S A
  out_of_fuel : Outcome S A
  -- A NULL or uninitialised pointer is used, which C leaves undefined.
  fault : Outcome S A

abbrev pub Cmd : Type 0 → Type 0 → Type 0
Cmd S A = S → Outcome S A

module _ {S : Type 0} where
  abbrev pub pure : {A : Type 0} → A → Cmd S A
  pure a s = ok a s

  abbrev pub halt : {A : Type 0} → String → Cmd S A
  halt message s = panic message

  abbrev pub and_then : {A B : Type 0} → Outcome S A → (A → Cmd S B) → Outcome S B
  and_then (ok a s) k = k a s
  and_then (panic message) k = panic message
  and_then out_of_fuel k = out_of_fuel
  and_then fault k = fault

  infixl 5 ◌>>=◌ ◌>>◌
  abbrev pub ◌>>=◌ : {A B : Type 0} → Cmd S A → (A → Cmd S B) → Cmd S B
  m >>= k = λ s. and_then (m s) k

  abbrev pub ◌>>◌ : {A B : Type 0} → Cmd S A → Cmd S B → Cmd S B
  m >> n = m >>= λ _. n

  abbrev pub get : Cmd S S
  get s = ok s s

  abbrev pub modify : (S → S) → Cmd S (Unit {0})
  modify f s = ok tt (f s)
