-- ===== src/Trap.antt =====
-- include/stackframe.h (and its copies in kern/kexcentry.S and kern/genex.S): what the entry into and
-- the return from a trap do to the registers, as instructions on the state of a hart.
pub mod Context
pub mod Dispatch
pub mod Frame
pub mod Restore
pub mod Save
use riscv_mos.Base.{
  ℕ, zero, suc, ◌+◌, ◌-◌, ◌*◌, ◌^◌, Bool, ◌==◌, if◌then◌else◌, List, [], ◌∷◌, ◌++◌, bit_and, u64,
}
use riscv_mos.Mem.{Mem, load64, store64}

-- The integer registers, the control and status registers by their numbers, and memory.
pub record Hart : Type 0 where
  pub regs : ℕ → ℕ
  pub csrs : ℕ → ℕ
  pub mem : Mem

-- The numbers of the registers that the macros use.
abbrev pub sp : ℕ
sp = 2

abbrev pub sstatus : ℕ
sstatus = 0x100

abbrev pub sscratch : ℕ
sscratch = 0x140

abbrev pub sepc : ℕ
sepc = 0x141

abbrev pub scause : ℕ
scause = 0x142

abbrev pub stval : ℕ
stval = 0x143

-- `bnez` goes forward over a number of instructions; an immediate is taken modulo 2^64.
pub data Instr : Type 0 where
  sd : (rs offset : ℕ) → Instr
  ld : (rd offset : ℕ) → Instr
  csrrw : (rd csr rs : ℕ) → Instr
  csrr : (rd csr : ℕ) → Instr
  csrw : (csr rs : ℕ) → Instr
  addi : (rd rs imm : ℕ) → Instr
  andi : (rd rs imm : ℕ) → Instr
  bnez : (rs over : ℕ) → Instr

-- Register x0 reads as 0.
abbrev pub reg : Hart → ℕ → ℕ
reg h r = if r == 0 then 0 else h.regs r

abbrev pub set_reg : ℕ → ℕ → Hart → Hart
set_reg r v h = record h { regs = λ i. if i == r then v else h.regs i }

abbrev pub set_csr : ℕ → ℕ → Hart → Hart
set_csr c v h = record h { csrs = λ i. if i == c then v else h.csrs i }

abbrev pub slot : Hart → ℕ → ℕ
slot h offset = u64 (reg h sp + offset)

abbrev pub exec : Instr → Hart → Hart
exec (sd rs offset) h = record h { mem = store64 h.mem (slot h offset) (reg h rs) }
exec (ld rd offset) h = set_reg rd (load64 h.mem (slot h offset)) h
exec (csrrw rd csr rs) h = set_reg rd (h.csrs csr) (set_csr csr (reg h rs) h)
exec (csrr rd csr) h = set_reg rd (h.csrs csr) h
exec (csrw csr rs) h = set_csr csr (reg h rs) h
exec (addi rd rs imm) h = set_reg rd (u64 (reg h rs + imm)) h
exec (andi rd rs imm) h = set_reg rd (bit_and (reg h rs) imm) h
exec (bnez rs over) h = h

-- How many instructions are passed over after this one.
abbrev pub jump : Instr → Hart → ℕ
jump (bnez rs over) h = if reg h rs == 0 then 0 else over
jump other h = 0

-- Runs a list of instructions after the first `skip` of them.
abbrev pub run : (skip : ℕ) → List Instr → Hart → Hart
run skip [] h = h
run (suc skip) (i ∷ is) h = run skip is h
run zero (i ∷ is) h = run (jump i h) is (exec i h)

-- `STORE reg, offset` and `LOAD reg, offset`
abbrev pub store_word : (reg offset : ℕ) → Instr
store_word r offset = sd r (offset * 8)

abbrev pub load_word : (reg offset : ℕ) → Instr
load_word r offset = ld r (offset * 8)

-- Each register at the offset of its number, in the order of a list.
abbrev pub store_each : List ℕ → List Instr
store_each [] = []
store_each (r ∷ rs) = store_word r r ∷ store_each rs

abbrev pub load_each : List ℕ → List Instr
load_each [] = []
load_each (r ∷ rs) = load_word r r ∷ load_each rs

abbrev pub saved_regs : List ℕ
saved_regs =
    1 ∷ 3 ∷ 4 ∷ 5 ∷ 6 ∷ 7 ∷ 8 ∷ 9 ∷ 10 ∷ 11 ∷ 12 ∷ 13 ∷ 14 ∷ 15 ∷ 16 ∷ 17 ∷ 18 ∷ 19 ∷ 20 ∷ 21 ∷ 22
    ∷ 23 ∷ 24 ∷ 25 ∷ 26 ∷ 27 ∷ 28 ∷ 29 ∷ 30 ∷ 31 ∷ []

abbrev pub loaded_regs : List ℕ
loaded_regs =
    31 ∷ 30 ∷ 29 ∷ 28 ∷ 27 ∷ 26 ∷ 25 ∷ 24 ∷ 23 ∷ 22 ∷ 21 ∷ 20 ∷ 19 ∷ 18 ∷ 17 ∷ 16 ∷ 15 ∷ 14 ∷ 13
    ∷ 12 ∷ 11 ∷ 10 ∷ 9 ∷ 8 ∷ 7 ∷ 6 ∷ 5 ∷ 4 ∷ 3 ∷ 1 ∷ []

-- `36*REG_SIZE`
abbrev pub frame_size : ℕ
frame_size = 288

-- SAVE_ALL up to the first STORE; s0 to s4 are x8, x9, x18, x19 and x20.
abbrev pub enter_frame : List Instr
enter_frame =
    csrrw sp sscratch sp ∷ bnez sp 1 ∷ csrr sp sscratch ∷ addi sp sp (2 ^ 64 - frame_size) ∷ []

abbrev pub save_csrs : List Instr
save_csrs =
    csrrw 8 sscratch 0
    ∷ csrr 9 sstatus
    ∷ csrr 18 sepc
    ∷ csrr 19 stval
    ∷ csrr 20 scause
    ∷ store_word 8 2
    ∷ store_word 9 32
    ∷ store_word 18 33
    ∷ store_word 19 34
    ∷ store_word 20 35
    ∷ []

abbrev pub save_all : List Instr
save_all = enter_frame ++ (store_each saved_regs ++ save_csrs)

-- RESTORE_ALL up to the loads of the registers.
abbrev pub leave_frame : List Instr
leave_frame =
    load_word 18 33
    ∷ load_word 9 32
    ∷ andi 8 9 (2 ^ 8)
    ∷ bnez 8 2
    ∷ addi 8 sp frame_size
    ∷ csrw sscratch 8
    ∷ csrw sepc 18
    ∷ csrw sstatus 9
    ∷ []

abbrev pub restore_all : List Instr
restore_all = leave_frame ++ (load_each loaded_regs ++ load_word sp 2 ∷ [])
