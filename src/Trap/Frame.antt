-- ===== src/Trap/Frame.antt =====
-- Blocks of STORE and LOAD of include/stackframe.h.
use riscv_mos.Base.{
  ℕ, ◌+◌, ◌*◌, ◌^◌, ◌<◌, ◌≤◌, ◌≡◌, refl, ap, fun_ext, ◌∙◌, arith, true, false, ◌==◌, if◌then◌else◌,
  List, [], ◌∷◌, ◌++◌, has, ◌∉◌, Bool-cases, inl, inr, ◌⊎◌, u64,
}
use riscv_mos.Mem.{Mem, load64, store64}
use riscv_mos.Mem.Laws.{load-store, load-store_other, store-outside}
use riscv_mos.Trap.{
  Hart, Instr, sp, exec, run, store_word, load_word, store_each, load_each, frame_size,
}

-- The words of the registers `rs` in the frame at `b`.
unfoldable pub put : (regs : ℕ → ℕ) (b : ℕ) → List ℕ → Mem → Mem
put regs b [] m = m
put regs b (r ∷ rs) m = put regs b rs (store64 m (b + 8 * r) (regs r))

-- The numbers of a list are offsets of the frame, and not that of x0.
abbrev pub InFrame : List ℕ → Type 0
InFrame [] = Unit {0}
InFrame (r ∷ rs) = (0 < r) × (r < 36) × InFrame rs

-- The frame at `b` does not wrap around.
abbrev pub Fits : ℕ → Type 0
Fits b = b + frame_size < 2 ^ 64

pub run-store_each :
    (rs : List ℕ) (js : List Instr) (h : Hart)
    → InFrame rs
    → Fits (h.regs sp)
    → run 0 (store_each rs ++ js) h ≡ run 0 js (record h { mem = put h.regs (h.regs sp) rs h.mem })
unfolding put
run-store_each [] js h all fits = refl
run-store_each (r ∷ rs) js h (pos, small, all) fits =
    let at : u64 (h.regs sp + r * 8) ≡ h.regs sp + 8 * r = omega arith in
    let nz : (r == 0) ≡ false = ground arith in
    let next =
      run-store_each rs js (record h { mem = store64 h.mem (h.regs sp + 8 * r) (h.regs r) }) all
        fits in
    let one : exec (store_word r r) h
        ≡ record h { mem = store64 h.mem (h.regs sp + 8 * r) (h.regs r) } =
      rw (at, nz) in
    ap (run 0 (store_each rs ++ js)) one ∙ next

pub load-put :
    (regs : ℕ → ℕ) (b j : ℕ) (rs : List ℕ) (m : Mem)
    → InFrame rs
    → ((i : ℕ) → regs i < 2 ^ 64)
    → load64 (put regs b rs m) (b + 8 * j) ≡ (if has j rs then regs j else load64 m (b + 8 * j))
unfolding put
load-put regs b j [] m all small = refl
load-put regs b j (r ∷ rs) m (pos, lt, all) small =
    load-put regs b j rs (store64 m (b + 8 * r) (regs r)) all small ∙ one
  where
    one :
        (if has j rs then regs j else load64 (store64 m (b + 8 * r) (regs r)) (b + 8 * j))
        ≡ (if has j (r ∷ rs) then regs j else load64 m (b + 8 * j))
    one = elim (Bool-cases (j == r)) [
      | inl e ↦
          let e' : j ≡ r = ground arith in
          rw e' (ground (arith, load-store 8 m (b + 8 * r) (regs r) (small r)))
      | inr e ↦
          ground (arith, load-store_other 8 8 m (b + 8 * j) (b + 8 * r) (regs r) (ground arith))
    ]

pub put-outside :
    (regs : ℕ → ℕ) (b a : ℕ) (rs : List ℕ) (m : Mem)
    → InFrame rs
    → (a < b) ⊎ (b + frame_size ≤ a)
    → put regs b rs m a ≡ m a
unfolding put
put-outside regs b a [] m all out = refl
put-outside regs b a (r ∷ rs) m (pos, lt, all) out =
    put-outside regs b a rs (store64 m (b + 8 * r) (regs r)) all out
    ∙ store-outside 8 m (b + 8 * r) (regs r) a (ground arith)

-- The registers after LOADs.
abbrev pub got : Mem → (b : ℕ) → List ℕ → (regs : ℕ → ℕ) → ℕ → ℕ
got m b rs regs i = if has i rs then load64 m (b + 8 * i) else regs i

got-load :
    (m : Mem) (b r : ℕ) (rs : List ℕ) (regs : ℕ → ℕ) (i : ℕ)
    → got m b rs (λ k. if k == r then load64 m (b + 8 * r) else regs k) i ≡ got m b (r ∷ rs) regs i
got-load m b r rs regs i = elim (Bool-cases (i == r)) [
  | inl e ↦ let e' : i ≡ r = ground arith in rw e' (ground arith)
  | inr e ↦ ground arith
]

pub run-load_each :
    (rs : List ℕ) (js : List Instr) (h : Hart)
    → InFrame rs
    → sp ∉ rs
    → Fits (h.regs sp)
    → run 0 (load_each rs ++ js) h ≡ run 0 js (record h { regs = got h.mem (h.regs sp) rs h.regs })
run-load_each [] js h all out fits = refl
run-load_each (r ∷ rs) js h (pos, small, all) out fits =
    let at : u64 (h.regs sp + r * 8) ≡ h.regs sp + 8 * r = omega arith in
    let word = load64 h.mem (h.regs sp + 8 * r) in
    let h1 = record h { regs = λ k. if k == r then word else h.regs k } in
    let kept : h1.regs sp ≡ h.regs sp = ground arith in
    let one : exec (load_word r r) h ≡ h1 = rw at in
    ap (run 0 (load_each rs ++ js)) one
    ∙ run-load_each rs js h1 all (ground arith) (rw kept fits)
    ∙ ap (λ (f : ℕ → ℕ). run 0 js (record h { regs = f }))
        (rw kept (fun_ext (got-load h.mem (h.regs sp) r rs h.regs)))

-- Only the registers of the list matter.
pub put-ext :
    (f g : ℕ → ℕ) (b : ℕ) (rs : List ℕ) (m : Mem)
    → ((i : ℕ) → has i rs ≡ true → f i ≡ g i)
    → put f b rs m ≡ put g b rs m
unfolding put
put-ext f g b [] m same = refl
put-ext f g b (r ∷ rs) m same =
    rw (same r (ground arith))
      (put-ext f g b rs (store64 m (b + 8 * r) (g r)) (λ i h. same i (ground arith)))

pub put-append :
    (f : ℕ → ℕ) (b : ℕ) (rs qs : List ℕ) (m : Mem)
    → put f b (rs ++ qs) m ≡ put f b qs (put f b rs m)
unfolding put
put-append f b [] qs m = refl
put-append f b (r ∷ rs) qs m = put-append f b rs qs (store64 m (b + 8 * r) (f r))
