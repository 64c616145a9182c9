-- ===== src/Env/Create.antt =====
-- kern/env.c: loading a program into a new environment. The image is read from memory.
pub mod Created
pub mod Icode
pub mod Kept
pub mod Pages
pub mod Program
pub mod Segment
use riscv_mos.Base.{
  ℕ, zero, suc, ◌+◌, ◌^◌, not, ◌&&◌, ◌==◌, ltb, leb, if◌then◌else◌, Option, none, some, u32,
}
use riscv_mos.Mem.{Mem, load, load32, load64}
use riscv_mos.Kernel.{Cmd, fault, out_of_fuel, pure, halt, ◌>>=◌, ◌>>◌, get, modify, page_size}
use riscv_mos.Strings.Copy.{memcpy}
use riscv_mos.Page.{kalloc}
use riscv_mos.Vm.{mappages}
use riscv_mos.Queue.{tailq_insert_head}
use riscv_mos.ElfLoader.{Phdr, Mapper, elf_load_seg}
use riscv_mos.Env.{Os, on_machine, update_env, env_runnable}
use riscv_mos.Env.Life.{env_alloc}

-- `elf_from` of lib/elfloader.c: the header stands at the start of the image.
abbrev pub elf_from : Mem → (binary size : ℕ) → Option ℕ
elf_from m binary size =
    if leb 64 size
      && m binary == 0x7f
      && m (binary + 1) == 0x45
      && m (binary + 2) == 0x4c
      && m (binary + 3) == 0x46
      && load 2 m (binary + 16) == 2
    then some binary
    else none

-- The program header at an address.
abbrev pub read_phdr : Mem → ℕ → Phdr
read_phdr m p = record {
  p_type = load32 m p;
  p_flags = load32 m (p + 4);
  p_offset = load64 m (p + 8);
  p_vaddr = load64 m (p + 16);
  p_filesz = load64 m (p + 32);
  p_memsz = load64 m (p + 40);
}

abbrev pub copy_in : (dst : ℕ) → Option ℕ → (len : ℕ) → Os → Os
copy_in dst none len s = s
copy_in dst (some src) len s = record s {
  machine = record (s.machine) { mem = (memcpy dst src len s.machine.mem).1 };
}

-- The callback, for environment `e`.
abbrev pub load_icode_mapper : ℕ → Mapper Os
load_icode_mapper e va offset perm src len = do
  pa ← on_machine kalloc
  modify (copy_in (pa + offset) src len)
  s ← get
  on_machine (mappages (s.envs e).env_pgtable va page_size pa perm)

-- `PT_LOAD`
abbrev pub pt_load : ℕ
pt_load = 1

-- The body of ELF_FOREACH_PHDR_OFF in `load_icode`; the result of `elf_load_seg` is not used.
abbrev pub load_segment : (e binary ph_off : ℕ) → Cmd Os (Unit {0})
load_segment e binary ph_off = do
  s ← get
  let ph = read_phdr s.machine.mem (binary + ph_off)
  if ph.p_type == pt_load
      then (do elf_load_seg (load_icode_mapper e) ph (binary + ph.p_offset); pure tt)
      else pure tt

-- The loop from program header `index`; the number and the size of the headers are read again in each
-- round. The number has 16 bits, which bounds the rounds.
unfoldable pub load_segments : ℕ → (e binary index ph_off : ℕ) → Cmd Os (Unit {0})
load_segments zero e binary index ph_off = λ _. out_of_fuel
load_segments (suc fuel) e binary index ph_off = do
  s ← get
  if not (ltb index (load 2 s.machine.mem (binary + 56))) then pure tt else do
    load_segment e binary ph_off
    t ← get
    load_segments fuel e binary (index + 1) (ph_off + load 2 t.machine.mem (binary + 54))

abbrev pub load_found : (e : ℕ) → Option ℕ → Cmd Os (Unit {0})
load_found e none = halt "load icode: bad elf"
load_found e (some ehdr) = do
  s ← get
  load_segments (2 ^ 16) e ehdr 0 (load64 s.machine.mem (ehdr + 32))
  modify λ t. update_env t e (record (t.envs e) {
    env_tf = record ((t.envs e).env_tf) { sepc = load64 t.machine.mem (ehdr + 24) };
  })

abbrev pub load_icode : (e binary size : ℕ) → Cmd Os (Unit {0})
load_icode e binary size = do s ← get; load_found e (elf_from s.machine.mem binary size)

-- What follows the call of `env_alloc`, whose result is not looked at: without an environment `e` is
-- not initialised.
abbrev pub start_env : (binary size priority : ℕ) → Option ℕ → Cmd Os ℕ
start_env binary size priority none = λ _. fault
start_env binary size priority (some e) = do
  modify
      λ s. update_env s e (record (s.envs e) { env_pri = u32 priority; env_status = env_runnable })
  load_icode e binary size
  modify λ s. record s { env_sched_list = tailq_insert_head s.env_sched_list e }
  pure e

-- `priority` is an `int`; `env_pri` takes it modulo 2^32.
abbrev pub env_create : (binary size priority : ℕ) → Cmd Os ℕ
env_create binary size priority = do new ← env_alloc 0; start_env binary size priority new.1
