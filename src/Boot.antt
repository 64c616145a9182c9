-- ===== src/Boot.antt =====
-- `rv_main` of init/init.c, without its output. `etext`, the image of the program that it starts, the
-- address of `kexcentry` and the time are arguments. Paging, the environments and the hart that traps
-- go to are one state.
use riscv_mos.Base.{ℕ}
use riscv_mos.Kernel.{Outcome, ok, panic, out_of_fuel, fault, Cmd, ◌>>◌, pure, modify}
use riscv_mos.Page.{kinit}
use riscv_mos.Vm.User.{kpgtable_init, kvm_init}
use riscv_mos.Env.{Os, on_machine}
use riscv_mos.Env.Init.{env_init}
use riscv_mos.Env.Create.{env_create}
use riscv_mos.Timer.{timerinit}
use riscv_mos.Trap.{Hart}
use riscv_mos.Trap.Dispatch.{trapinit}

pub record Board : Type 0 where
  pub os : Os
  pub hart : Hart

abbrev lift : {A : Type 0} → Hart → Outcome Os A → Outcome Board A
lift hart (ok a os) = ok a (record { os = os; hart = hart })
lift hart (panic message) = panic message
lift hart out_of_fuel = out_of_fuel
lift hart fault = fault

-- A function on the state of the kernel.
abbrev pub on_os : {A : Type 0} → Cmd Os A → Cmd Board A
on_os m b = lift b.hart (m b.os)

-- `ENV_CREATE_PRIORITY(user_bare_loop, priority)`
abbrev pub create_program : (binary size priority : ℕ) → Cmd Board (Unit {0})
create_program binary size priority = on_os (env_create binary size priority) >> pure tt

unfoldable pub rv_main : (etext binary size entry now : ℕ) → Cmd Board (Unit {0})
rv_main etext binary size entry now = do
  on_os (on_machine kinit)
  on_os (on_machine (kpgtable_init etext))
  on_os (on_machine kvm_init)
  on_os (on_machine kvm_init)
  modify λ b. record b { hart = trapinit entry b.hart }
  on_os (modify env_init)
  create_program binary size 1
  create_program binary size 2
  on_os (modify (timerinit now))
