-- ===== src/Trap/Dispatch.antt =====
-- The dispatch of a trap: kern/kexcentry.S, the table of kern/traps.c, and its handlers.
use riscv_mos.Base.{
  ℕ, ◌+◌, ◌*◌, ◌/◌, ◌%◌, ◌^◌, ◌<◌, ◌≡◌, ◌↔◌, ◌⊎◌, arith, ◌==◌, ltb, if◌then◌else◌, Option, none,
  some, bit_and, bit_and-mask, u64,
}
use riscv_mos.Kernel.{Cmd, pure, halt}
use riscv_mos.Env.{Os, Trapframe}
use riscv_mos.Trap.{Hart, sstatus, set_csr}

pub data Handler : Type 0 where
  handle_reserved handle_ebreak handle_s_int : Handler

-- `exception_handlers`; there is no entry from 64 on.
abbrev pub exception_handlers : ℕ → Option Handler
exception_handlers i =
    if ltb i 64
    then some (if i == 3 then handle_ebreak else if i == 21 then handle_s_int else handle_reserved)
    else none

-- `kexcentry` after SAVE_ALL: the offset into the table, in entries.
unfoldable pub handler_index : (scause : ℕ) → ℕ
handler_index scause = bit_and scause 0x3f + scause / 2 ^ 63 * 2 ^ 4

abbrev pub dispatch : (scause : ℕ) → Option Handler
dispatch scause = exception_handlers (handler_index scause)

-- `stvec`
abbrev pub stvec : ℕ
stvec = 0x105

-- `SSTATUS_SIE`
abbrev pub sstatus_sie : ℕ
sstatus_sie = 2 ^ 1

-- `trapinit`; `entry` is the address of `kexcentry`.
abbrev pub trapinit : (entry : ℕ) → Hart → Hart
trapinit entry h = set_csr stvec entry (set_csr sstatus sstatus_sie h)

-- `do_reserved`, whose output is left out.
abbrev pub do_reserved : Trapframe → Cmd Os Trapframe
do_reserved tf = halt "reserve_exception"

abbrev pub do_ebreak : Trapframe → Cmd Os Trapframe
do_ebreak tf = pure (record tf { sepc = u64 (tf.sepc + 2) })

-- For a 64-bit value of `scause`, of which the code has six bits: the timer's handler runs exactly for
-- an interrupt with code 5 and an exception with code 21, the handler of breakpoints exactly for an
-- exception with code 3, and the entry lies behind the table exactly for an interrupt with a code of 48
-- or more.
pub dispatch_iff :
    (scause : ℕ)
    → scause < 2 ^ 64
    → ((dispatch scause ≡ some handle_s_int)
        ↔ ((scause / 2 ^ 63 ≡ 1) × (scause % 64 ≡ 5))
          ⊎ ((scause / 2 ^ 63 ≡ 0) × (scause % 64 ≡ 21)))
      × ((dispatch scause ≡ some handle_ebreak) ↔ (scause / 2 ^ 63 ≡ 0) × (scause % 64 ≡ 3))
      × ((dispatch scause ≡ none) ↔ (scause / 2 ^ 63 ≡ 1) × (47 < scause % 64))
unfolding handler_index
dispatch_iff scause h =
    let low : bit_and scause 0x3f ≡ scause % 64 = bit_and-mask 6 scause in rw low (ground arith)
