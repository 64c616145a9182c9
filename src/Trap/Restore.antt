-- ===== src/Trap/Restore.antt =====
-- RESTORE_ALL of include/stackframe.h: what comes back from a frame.
use riscv_mos.Base.{
  ℕ, ◌+◌, ◌*◌, ◌^◌, ◌<◌, ◌≤◌, ◌≡◌, ◌≢◌, refl, ap, fun_ext, ◌∙◌, sym, arith, Bool, true, false, ◌==◌,
  if◌then◌else◌, List, [], ◌∷◌, ◌++◌, has, Bool-cases, inl, inr, ◌⊎◌, u64, bit_and,
}
use riscv_mos.Mem.{Mem, load64}
use riscv_mos.Trap.{
  Hart, Instr, csrw, addi, sp, sstatus, sscratch, sepc, run, load_word, load_each, save_all,
  leave_frame, restore_all, loaded_regs, frame_size,
}
use riscv_mos.Trap.Frame.{Fits, run-load_each}
use riscv_mos.Trap.Save.{trap_stack, frame_at, frame_value, IsReady, IsSaved, save_all-IsSaved}

-- Word `i` of the frame that the stack pointer of `t` points at.
abbrev word_at : Hart → ℕ → ℕ
word_at t i = load64 t.mem (t.regs sp + 8 * i)

-- SSTATUS_SPP of the saved `sstatus`: the trap came from the kernel.
abbrev to_kernel : Hart → Bool
to_kernel t = if bit_and (word_at t 32) (2 ^ 8) == 0 then false else true

abbrev left_csrs : Hart → ℕ → ℕ
left_csrs t c =
    if c == sstatus
    then word_at t 32
    else if c == sepc
    then word_at t 33
    else if to_kernel t
    then t.csrs c
    else if c == sscratch
    then t.regs sp + frame_size
    else t.csrs c

module _ (t : Hart) (js : List Instr) (fits : Fits (t.regs sp)) where
  word32 : load64 t.mem (u64 (t.regs sp + 32 * 8)) ≡ word_at t 32
  word32 = let e : u64 (t.regs sp + 32 * 8) ≡ t.regs sp + 8 * 32 = omega arith in rw e

  word33 : load64 t.mem (u64 (t.regs sp + 33 * 8)) ≡ word_at t 33
  word33 = let e : u64 (t.regs sp + 33 * 8) ≡ t.regs sp + 8 * 33 = omega arith in rw e

  -- The registers after the test of SSTATUS_SPP, with the words that were loaded.
  tested_regs : (w32 w33 : ℕ) → ℕ → ℕ
  tested_regs w32 w33 i =
      if i == 8
      then bit_and w32 (2 ^ 8)
      else if i == 9
      then w32
      else if i == 18
      then w33
      else t.regs i

  after_test : (w32 w33 : ℕ) → Bool → Hart
  after_test w32 w33 b =
      run (if b then 0 else 2)
        (addi 8 sp frame_size ∷ csrw sscratch 8 ∷ csrw sepc 18 ∷ csrw sstatus 9 ∷ js)
        (record t { regs = tested_regs w32 w33 })

  run-leave_frame :
      (f : ℕ → ℕ) × (f sp ≡ t.regs sp)
      × (run 0 (leave_frame ++ js) t ≡ run 0 js (record t { regs = f; csrs = left_csrs t }))
  unfolding after_test tested_regs
  run-leave_frame = elim (Bool-cases (bit_and (word_at t 32) (2 ^ 8) == 0)) [
    | inl user ↦
        let range : u64 (t.regs sp + frame_size) ≡ t.regs sp + frame_size = omega arith in
        (
          λ i.
              if i == 8
              then u64 (t.regs sp + frame_size)
              else tested_regs (word_at t 32) (word_at t 33) i,
          refl,
          tested
              ∙ ap (after_test (word_at t 32) (word_at t 33)) user
              ∙ ap (with_csrs _) (fun_ext λ c. rw (user, range) (ground arith)),
        )
    | inr kernel ↦ (
      tested_regs (word_at t 32) (word_at t 33),
      refl,
      tested
          ∙ ap (after_test (word_at t 32) (word_at t 33)) kernel
          ∙ ap (with_csrs _) (fun_ext λ c. rw kernel (ground arith)),
    )
  ]
    where
      with_csrs : (f g : ℕ → ℕ) → Hart
      with_csrs f g = run 0 js (record t { regs = f; csrs = g })

      tested :
          run 0 (leave_frame ++ js) t
          ≡ after_test (word_at t 32) (word_at t 33) (bit_and (word_at t 32) (2 ^ 8) == 0)
      tested =
          ap
            (λ (w : ℕ).
              after_test w (load64 t.mem (u64 (t.regs sp + 33 * 8))) (bit_and w (2 ^ 8) == 0))
            word32
          ∙ ap (λ (w : ℕ). after_test (word_at t 32) w (bit_and (word_at t 32) (2 ^ 8) == 0)) word33

-- The state after RESTORE_ALL.
pub record IsRestored (t t' : Hart) : Type 0 where
  pub general : (i : ℕ) → 0 < i → i < 32 → t'.regs i ≡ word_at t i
  pub control : (c : ℕ) → t'.csrs c ≡ left_csrs t c
  pub memory : t'.mem ≡ t.mem

all_loaded : (i : ℕ) → 0 < i → i < 32 → (i == sp) ≡ false → has i loaded_regs ≡ true
all_loaded i pos small ne = ground arith

pub restore_all-IsRestored : (t : Hart) → Fits (t.regs sp) → IsRestored t (run 0 restore_all t)
restore_all-IsRestored t fits =
    let (f, base, left) = run-leave_frame t (load_each loaded_regs ++ load_word sp 2 ∷ []) fits in
    let l : Hart = record t { regs = f; csrs = left_csrs t } in
    let all =
      left ∙ run-load_each loaded_regs (load_word sp 2 ∷ []) l (omega arith) refl (rw base fits) in
    let last : u64 (f sp + 16) ≡ t.regs sp + 8 * 2 = omega (arith, base) in
    record {
      general = λ i pos small. ap (λ (s : Hart). s.regs i) all ∙ elim (Bool-cases (i == sp)) [
        | inl e ↦ let e' : i ≡ sp = ground arith in rw e' (ap (load64 t.mem) last)
        | inr e ↦ rw (e, all_loaded i pos small e, base)
      ];
      control = λ c. ap (λ (s : Hart). s.csrs c) all;
      memory = ap (λ (s : Hart). s.mem) all;
    }

-- `sscratch` is 0 exactly if the trap comes from the kernel, as SSTATUS_SPP says.
abbrev pub IsConsistent : Hart → Type 0
IsConsistent h =
    (bit_and (h.csrs sstatus) (2 ^ 8) == 0) ≡ (if h.csrs sscratch == 0 then false else true)

-- `h'` goes on where `h` was interrupted.
pub record Resumes (h h' : Hart) : Type 0 where
  pub general : (i : ℕ) → 0 < i → i < 32 → h'.regs i ≡ h.regs i
  pub control : (c : ℕ) → h'.csrs c ≡ h.csrs c
  pub memory : (a : ℕ) → (a < frame_at h) ⊎ (trap_stack h ≤ a) → h'.mem a ≡ h.mem a

module _ (h t : Hart) (ready : IsReady h) (s : IsSaved h t) (mode : IsConsistent h) where
  saved_word : (i : ℕ) → 0 < i → i < 36 → word_at t i ≡ frame_value h i
  saved_word i pos small = ap (λ (b : ℕ). load64 t.mem (b + 8 * i)) s.pointer ∙ s.word i pos small

  saved_mode : to_kernel t ≡ (if bit_and (h.csrs sstatus) (2 ^ 8) == 0 then false else true)
  saved_mode =
      ap (λ (w : ℕ). if bit_and w (2 ^ 8) == 0 then false else true)
        (saved_word 32 (omega arith) (omega arith))

  saved_control : (c : ℕ) → left_csrs t c ≡ h.csrs c
  saved_control c = elim (Bool-cases (c == sscratch)) [
    | inl e ↦
        let e' : c ≡ sscratch = ground arith in
        rw (e', saved_mode, mode)
          (elim (Bool-cases (h.csrs sscratch == 0)) [
            | inl zero_scratch ↦
                let z : h.csrs sscratch ≡ 0 = ground arith in rw zero_scratch (s.scratch ∙ sym z)
            | inr user ↦
                let top : trap_stack h ≡ h.csrs sscratch = rw user refl in
                rw user (omega (arith, s.pointer, ready.room, top))
          ])
    | inr e ↦
        let ne : c ≢ sscratch = ground arith in
        ground (
          arith,
          s.csrs c ne,
          saved_word 32 (omega arith) (omega arith),
          saved_word 33 (omega arith) (omega arith),
        )
  ]

  Resumes-restored : (t' : Hart) → IsRestored t t' → Resumes h t'
  Resumes-restored t' r = record {
    general = λ i pos small. r.general i pos small ∙ saved_word i pos (omega arith) ∙ ground arith;
    control = λ c. r.control c ∙ saved_control c;
    memory = λ a out. ap (λ (m : Mem). m a) r.memory ∙ s.outside a out;
  }

-- If there is room for a frame on the stack, and SSTATUS_SPP and `sscratch` agree on where the trap
-- comes from, RESTORE_ALL after SAVE_ALL gives back every register and every control register, and
-- memory outside of the frame is as before.
pub restore_all-save_all :
    (h : Hart) → IsReady h → IsConsistent h → Resumes h (run 0 restore_all (run 0 save_all h))
restore_all-save_all h ready mode =
    let s = save_all-IsSaved h ready in
    Resumes-restored h (run 0 save_all h) ready s mode _
      (restore_all-IsRestored _ (omega (arith, s.pointer, ready.room, ready.top)))
