-- ===== src/Env/Life.antt =====
-- kern/env.c: the life of an environment.
pub mod Alloc
pub mod Setup
use riscv_mos.Base.{
  ℕ, ◌+◌, ◌-◌, ◌*◌, ◌/◌, ◌^◌, false, not, ◌==◌, if◌then◌else◌, Option, none, some, bit_or, ℤ, pos,
  neg, is_zero, u32,
}
use riscv_mos.Mem.{Mem, load64}
use riscv_mos.Kernel.{
  Cmd, ok, pure, halt, ◌>>=◌, ◌>>◌, get, modify, page_size, maxva, ustacktop, uvpt,
}
use riscv_mos.Queue.{insert_head, remove, tailq_remove}
use riscv_mos.Vm.{write_pte, entry, uvmunmap}
use riscv_mos.Vm.Pte.{pa2pte, pte_v, pte_r, pte_u}
use riscv_mos.Vm.User.{uvmcreate, uvmfree, kvm_copy_to_user_pagetable, make_satp}
use riscv_mos.Env.{
  Os, Trapframe, on_machine, update_env, env_free_status, env_runnable, e_no_mem, e_no_free_env,
}
use riscv_mos.Env.Asid.{asid_alloc, asid_free}
use riscv_mos.Env.Ids.{mkenvid}

-- `e->env_pgtable`, with the entry that maps the table into itself.
abbrev pub env_setup_vm : ℕ → Cmd Os ℤ
env_setup_vm e = do
  pagetable ← on_machine uvmcreate
  if pagetable == 0 then pure (neg e_no_mem) else do
    r ← on_machine (kvm_copy_to_user_pagetable pagetable)
    if not (is_zero r) then halt "env_setup_vm: copy kernel pagetable error\n" else do
      modify λ s. update_env s e (record (s.envs e) { env_pgtable = pagetable })
      on_machine (
          write_pte (entry pagetable 2 uvpt)
            (bit_or (bit_or (bit_or (pa2pte pagetable) pte_v) pte_r) pte_u))
      pure (pos 0)

-- `SSTATUS_SPIE`
abbrev pub sstatus_spie : ℕ
sstatus_spie = 2 ^ 5

-- The trap frame that step 4 of `env_alloc` leaves.
abbrev pub start_frame : Trapframe → Trapframe
start_frame tf = record tf {
  sstatus = sstatus_spie;
  regs = λ i. if i == 29 then ustacktop - 4 - 8 else tf.regs i;
}

-- Step 3 up to the call of `mkenvid`.
abbrev pub new_id : ℕ → Os → Os
new_id e s =
    let s0 = update_env s e (record (s.envs e) { env_runs = 0 }) in
    let (id, s1) = mkenvid e s0 in update_env s1 e (record (s1.envs e) { env_id = id })

-- The rest of step 3, and steps 4 and 5, for the ASID `asid`.
abbrev pub claim_env : (e asid parent_id : ℕ) → Os → Os
claim_env e asid parent_id s =
    let v = s.envs e in
    let s1 =
      update_env s e
        (record v { env_asid = asid; env_parent_id = parent_id; env_tf = start_frame v.env_tf }) in
    record s1 { env_free_list = remove s1.env_free_list e }

-- `asid_alloc` with its state.
abbrev pub take_asid : Cmd Os (Option ℕ)
take_asid s =
    let (asid, bitmap) = asid_alloc s.asid_bitmap in ok asid (record s { asid_bitmap = bitmap })

-- What follows the call of `asid_alloc`.
abbrev pub finish_alloc : (e parent_id : ℕ) → Option ℕ → Cmd Os (ℤ × Option ℕ)
finish_alloc e parent_id none = pure (neg e_no_free_env, none)
finish_alloc e parent_id (some asid) = do modify (claim_env e asid parent_id); pure (pos 0, some e)

abbrev pub alloc_first : (parent_id : ℕ) → Option ℕ → Cmd Os (ℤ × Option ℕ)
alloc_first parent_id none = pure (neg e_no_free_env, none)
alloc_first parent_id (some e) = do
  r ← env_setup_vm e
  if not (is_zero r)
      then pure (r, none)
      else do modify (new_id e); asid ← take_asid; finish_alloc e parent_id asid

-- The result, and what `*new` is set to.
abbrev pub env_alloc : (parent_id : ℕ) → Cmd Os (ℤ × Option ℕ)
env_alloc parent_id s = alloc_first parent_id s.env_free_list.head s

abbrev pub env_free : ℕ → Cmd Os (Unit {0})
env_free e = do
  s ← get
  on_machine (uvmunmap (s.envs e).env_pgtable 0x80000000 (maxva / page_size) false)
  on_machine (uvmfree (s.envs e).env_pgtable ustacktop)
  modify λ s. record s { asid_bitmap = asid_free (s.envs e).env_asid s.asid_bitmap }
  modify λ s. update_env s e (record (s.envs e) { env_status = env_free_status })
  modify λ s. record s {
    env_free_list = insert_head s.env_free_list e;
    env_sched_list = tailq_remove s.env_sched_list e;
  }

-- The frame that the trap entry saved below the top of the kernel stack, `(Trapframe *)KSTACKTOP - 1`.
abbrev pub saved_frame : Mem → Trapframe
saved_frame m =
    let base = 0x80400000 - 288 in
    record {
      regs = λ i. load64 m (base + 8 * i);
      sstatus = load64 m (base + 8 * 32);
      sepc = load64 m (base + 8 * 33);
      stval = load64 m (base + 8 * 34);
      scause = load64 m (base + 8 * 35);
    }

abbrev pub save_context : Option ℕ → Os → Os
save_context none s = s
save_context (some c) s = update_env s c (record (s.envs c) { env_tf = saved_frame s.machine.mem })

-- Up to the jump into the environment, which `env_pop_tf` makes in assembly.
abbrev pub env_run : ℕ → Cmd Os (Unit {0})
env_run e s =
    if not ((s.envs e).env_status == env_runnable)
    then halt "env_run: not runnable env!\n" s
    else let s1 = save_context s.curenv s in
      let s2 = record s1 { curenv = some e } in
      let s3 = update_env s2 e (record (s2.envs e) { env_runs = u32 ((s2.envs e).env_runs + 1) }) in
      ok tt
        (record s3 { machine = record (s3.machine) { satp = make_satp (s3.envs e).env_pgtable } })
