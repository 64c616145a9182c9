-- ===== src/Trap/Context.antt =====
-- The frame of SAVE_ALL as the context that `env_run` of kern/env.c keeps.
use riscv_mos.Base.{
  ℕ, ◌+◌, ◌-◌, ◌*◌, ◌<◌, ◌≡◌, refl, sym, ap, ◌∙◌, arith, eq→==, some, Bool-cases, inl, inr, ◌==◌,
  u32,
}
use riscv_mos.Mem.{load64}
use riscv_mos.Kernel.{ok}
use riscv_mos.Env.{Os, Trapframe, env_runnable, update_env}
use riscv_mos.Vm.User.{make_satp}
use riscv_mos.Env.Life.{save_context, saved_frame, env_run}
use riscv_mos.Trap.{Hart, sstatus, sscratch, sepc, scause, stval, run, save_all}
use riscv_mos.Trap.Save.{frame_at, IsReady, IsSaved, save_all-IsSaved}

-- `KSTACKTOP`
abbrev pub kstacktop : ℕ
kstacktop = 0x80400000

-- A trap frame holds the registers of the hart.
pub record Holds (tf : Trapframe) (h : Hart) : Type 0 where
  pub general : (i : ℕ) → 0 < i → i < 32 → tf.regs i ≡ h.regs i
  pub status : tf.sstatus ≡ h.csrs sstatus
  pub pc : tf.sepc ≡ h.csrs sepc
  pub value : tf.stval ≡ h.csrs stval
  pub cause : tf.scause ≡ h.csrs scause

saved_frame-Holds :
    (h t : Hart) → h.csrs sscratch ≡ kstacktop → IsSaved h t → Holds (saved_frame t.mem) h
saved_frame-Holds h t user s =
    let base : frame_at h ≡ kstacktop - 288 = rw user refl in
    let word = λ (i : ℕ) (pos : 0 < i) (small : i < 36).
      ap (λ (b : ℕ). load64 t.mem (b + 8 * i)) (sym base) ∙ s.word i pos small in
    record {
      general = λ i pos small. word i pos (omega arith) ∙ ground arith;
      status = word 32 (omega arith) (omega arith);
      pc = word 33 (omega arith) (omega arith);
      value = word 34 (omega arith) (omega arith);
      cause = word 35 (omega arith) (omega arith);
    }

-- The state that `env_run` leaves, where `c` was running.
abbrev ran : (c e : ℕ) → Os → Os
ran c e s =
    let s1 = record (save_context (some c) s) { curenv = some e } in
    let s2 = update_env s1 e (record (s1.envs e) { env_runs = u32 ((s1.envs e).env_runs + 1) }) in
    record s2 { machine = record (s2.machine) { satp = make_satp (s2.envs e).env_pgtable } }

-- If a trap finds KSTACKTOP in `sscratch`, and `env_run` later sees the memory that SAVE_ALL leaves, with
-- the environment `c` running and `e` runnable, `env_run` of `e` returns, and the context of `c` holds
-- the registers at the trap; `e` is the one that runs.
pub env_run-save_all :
    (h : Hart) (c e : ℕ) (s : Os)
    → IsReady h
    → h.csrs sscratch ≡ kstacktop
    → s.machine.mem ≡ (run 0 save_all h).mem
    → s.curenv ≡ some c
    → (s.envs e).env_status ≡ env_runnable
    → (t : Os) × (env_run e s ≡ ok tt t) × Holds (t.envs c).env_tf h × (t.curenv ≡ some e)
env_run-save_all h c e s ready user same running runnable =
    let kept : Holds (saved_frame s.machine.mem) h =
      rw same (saved_frame-Holds h (run 0 save_all h) user (save_all-IsSaved h ready)) in
    let here = eq→== c c refl in
    elim (Bool-cases (c == e)) [
      | inl own ↦
          let is : c ≡ e = ground arith in
          (ran c e s, rw (running, runnable) refl, rw (is, eq→== e e refl) kept, refl)
      | inr other ↦ (ran c e s, rw (running, runnable) refl, rw (other, here) kept, refl)
    ]
