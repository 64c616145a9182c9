-- ===== src/Trap/Save.antt =====
-- SAVE_ALL of include/stackframe.h: the frame that it leaves.
use riscv_mos.Base.{
  ℕ, ◌+◌, ◌-◌, ◌*◌, ◌^◌, ◌<◌, ◌≤◌, ◌≡◌, ◌≢◌, refl, ap, fun_ext, ◌∙◌, sym, arith, Bool, true, ◌==◌,
  if◌then◌else◌, List, [], ◌∷◌, ◌++◌, has, Bool-cases, inl, inr, ◌⊎◌, u64,
}
use riscv_mos.Mem.{Mem, load64}
use riscv_mos.Trap.{
  Hart, Instr, csrr, addi, set_reg, set_csr, sp, sstatus, sscratch, sepc, scause, stval, run,
  store_each, enter_frame, save_csrs, save_all, saved_regs, frame_size,
}
use riscv_mos.Trap.Frame.{put, Fits, run-store_each, load-put, put-outside, put-ext, put-append}

-- The stack that the trap uses: the one in `sscratch`, or, in a trap from the kernel, where that is 0,
-- the one that is in use.
abbrev pub trap_stack : Hart → ℕ
trap_stack h = if h.csrs sscratch == 0 then h.regs sp else h.csrs sscratch

abbrev pub frame_at : Hart → ℕ
frame_at h = trap_stack h - frame_size

-- There is room for a frame on the stack, and the values are words.
pub record IsReady (h : Hart) : Type 0 where
  pub room : frame_size ≤ trap_stack h
  pub top : trap_stack h < 2 ^ 64
  pub words : (i : ℕ) → h.regs i < 2 ^ 64
  pub csr_words : (c : ℕ) → h.csrs c < 2 ^ 64

-- The word at offset `i` of `struct Trapframe`.
abbrev pub frame_value : Hart → ℕ → ℕ
frame_value h i =
    if i == 32
    then h.csrs sstatus
    else if i == 33
    then h.csrs sepc
    else if i == 34
    then h.csrs stval
    else if i == 35
    then h.csrs scause
    else h.regs i

-- After the first four instructions.
abbrev entered : Hart → Hart
entered h = record h {
  regs = λ i. if i == sp then frame_at h else h.regs i;
  csrs = λ c. if c == sscratch then h.regs sp else h.csrs c;
}

-- The step of `addi` to the new frame.
frame_base :
    (p : ℕ) → frame_size ≤ p → p < 2 ^ 64 → u64 (p + (2 ^ 64 - frame_size)) ≡ p - frame_size
frame_base p room top = omega arith

run-enter_frame :
    (h : Hart) (js : List Instr) → IsReady h → run 0 (enter_frame ++ js) h ≡ run 0 js (entered h)
run-enter_frame h js ready = elim (Bool-cases (h.csrs sscratch == 0)) [
  | inl e ↦
      let same : trap_stack h ≡ h.regs sp = rw e refl in
      let base : u64 (h.regs sp + (2 ^ 64 - frame_size)) ≡ frame_at h =
        frame_base (h.regs sp) (omega (arith, same, ready.room)) (omega (arith, same, ready.top))
        ∙ omega (arith, same) in
      ap after_test e ∙ ap with_regs (fun_ext λ i. ground (arith, base))
  | inr e ↦
      let same : trap_stack h ≡ h.csrs sscratch = rw e refl in
      let base : u64 (h.csrs sscratch + (2 ^ 64 - frame_size)) ≡ frame_at h =
        frame_base (h.csrs sscratch) (omega (arith, same, ready.room))
          (omega (arith, same, ready.top))
        ∙ omega (arith, same) in
      ap after_test e ∙ ap with_regs (fun_ext λ i. ground (arith, base))
]
  where
    with_regs : (ℕ → ℕ) → Hart
    with_regs f =
        run 0 js (record h { regs = f; csrs = λ c. if c == sscratch then h.regs sp else h.csrs c })

    after_test : Bool → Hart
    after_test b =
        run (if b then 0 else 1) (csrr sp sscratch ∷ addi sp sp (2 ^ 64 - frame_size) ∷ js)
          (set_reg sp (h.csrs sscratch) (set_csr sscratch (h.regs sp) h))

-- The state after SAVE_ALL.
pub record IsSaved (h h' : Hart) : Type 0 where
  pub pointer : h'.regs sp ≡ frame_at h
  pub word : (i : ℕ) → 0 < i → i < 36 → load64 h'.mem (frame_at h + 8 * i) ≡ frame_value h i
  pub outside : (a : ℕ) → (a < frame_at h) ⊎ (trap_stack h ≤ a) → h'.mem a ≡ h.mem a
  pub scratch : h'.csrs sscratch ≡ 0
  pub csrs : (c : ℕ) → c ≢ sscratch → h'.csrs c ≡ h.csrs c

-- The numbers of the frame's words in the order in which they are written.
abbrev frame_words : List ℕ
frame_words = 2 ∷ 32 ∷ 33 ∷ 34 ∷ 35 ∷ []

save_csrs-mem :
    (e : Hart) (f : ℕ → ℕ)
    → Fits (e.regs sp)
    → f 2 ≡ e.csrs sscratch
    → f 32 ≡ e.csrs sstatus
    → f 33 ≡ e.csrs sepc
    → f 34 ≡ e.csrs stval
    → f 35 ≡ e.csrs scause
    → (run 0 save_csrs e).mem ≡ put f (e.regs sp) frame_words e.mem
unfolding put
save_csrs-mem e f fits e2 e32 e33 e34 e35 =
    let a2 : u64 (e.regs sp + 2 * 8) ≡ e.regs sp + 8 * 2 = omega arith in
    let a32 : u64 (e.regs sp + 32 * 8) ≡ e.regs sp + 8 * 32 = omega arith in
    let a33 : u64 (e.regs sp + 33 * 8) ≡ e.regs sp + 8 * 33 = omega arith in
    let a34 : u64 (e.regs sp + 34 * 8) ≡ e.regs sp + 8 * 34 = omega arith in
    let a35 : u64 (e.regs sp + 35 * 8) ≡ e.regs sp + 8 * 35 = omega arith in
    rw (a2, a32, a33, a34, a35, e2, e32, e33, e34, e35)

-- Every word of the frame is written.
all_written : (i : ℕ) → 0 < i → i < 36 → has i (saved_regs ++ frame_words) ≡ true
all_written i pos small = ground arith

-- The words of registers, with sp left out.
saved_value : (h : Hart) (i : ℕ) → has i saved_regs ≡ true → (entered h).regs i ≡ frame_value h i
saved_value h i m = ground arith

frame_value-lt : (h : Hart) (i : ℕ) → IsReady h → frame_value h i < 2 ^ 64
frame_value-lt h i ready = ground (
  arith,
  ready.words i,
  ready.csr_words sstatus,
  ready.csr_words sepc,
  ready.csr_words stval,
  ready.csr_words scause,
)

-- The state in which SAVE_ALL has stored the registers.
abbrev stored : Hart → Hart
stored h = record (entered h) { mem = put (entered h).regs (frame_at h) saved_regs h.mem }

run-save_all : (h : Hart) → IsReady h → run 0 save_all h ≡ run 0 save_csrs (stored h)
run-save_all h ready =
    run-enter_frame h (store_each saved_regs ++ save_csrs) ready
    ∙ run-store_each saved_regs save_csrs (entered h) (omega arith)
        (omega (arith, ready.room, ready.top))

save_all-mem :
    (h : Hart)
    → IsReady h
    → (run 0 save_all h).mem ≡ put (frame_value h) (frame_at h) (saved_regs ++ frame_words) h.mem
save_all-mem h ready =
    ap (λ (t : Hart). t.mem) (run-save_all h ready)
    ∙ save_csrs-mem (stored h) (frame_value h) (omega (arith, ready.room, ready.top)) refl refl refl
        refl refl
    ∙ ap (put (frame_value h) (frame_at h) frame_words)
        (put-ext (entered h).regs (frame_value h) (frame_at h) saved_regs h.mem (saved_value h))
    ∙ sym (put-append (frame_value h) (frame_at h) saved_regs frame_words h.mem)

-- If there is room for a frame on the stack of the trap (`sscratch`, or the stack in use if that is 0),
-- SAVE_ALL leaves a frame below it with every register but x0, and sstatus, sepc, stval and scause, at
-- the offset of its number; sp points at it, sscratch is 0, and nothing else has changed but the
-- registers that it has saved.
pub save_all-IsSaved : (h : Hart) → IsReady h → IsSaved h (run 0 save_all h)
save_all-IsSaved h ready = record {
  pointer = ap (λ (t : Hart). t.regs sp) (run-save_all h ready);
  word = λ i pos small.
      ap (λ (m : Mem). load64 m (frame_at h + 8 * i)) (save_all-mem h ready)
      ∙ load-put (frame_value h) (frame_at h) i (saved_regs ++ frame_words) h.mem (omega arith)
          (λ j. frame_value-lt h j ready)
      ∙ ground (arith, all_written i pos small);
  outside = λ a off.
      ap (λ (m : Mem). m a) (save_all-mem h ready)
      ∙ put-outside (frame_value h) (frame_at h) a (saved_regs ++ frame_words) h.mem (omega arith)
          (ground (arith, ready.room));
  scratch = ap (λ (t : Hart). t.csrs sscratch) (run-save_all h ready);
  csrs = λ c ne. ap (λ (t : Hart). t.csrs c) (run-save_all h ready) ∙ ground arith;
}
