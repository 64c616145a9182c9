-- ===== src/Print/Bounds.antt =====
-- `print_num` of lib/print.c stays within its buffer of `length + 70` bytes.
use native.Mathlib.Nat.{div-eq_of_lt, div-lt_iff_lt-mul, mul-le-mul_left}
use riscv_mos.Base.{
  ℕ, zero, suc, ◌+◌, ◌-◌, ◌/◌, ◌%◌, ◌^◌, ◌≤◌, ◌<◌, ◌≡◌, refl, ◌∙◌, arith, Bool, true, false, not,
  ◌&&◌, ◌==◌, if◌then◌else◌, Bool-cases, inl, inr, eq→==,
}
use riscv_mos.Print.{Buf, set, digit, fill, digit_loop, reverse_loop, pad, at_least, finish_num}
use riscv_mos.Print.Buffer.{reverse_loop-at}
use riscv_mos.Print.Number.{digit_loop-end, digit_loop-pos, length-low_digits}

-- Indexes from `n` on hold in `f` what they hold in `g`.
abbrev pub SameFrom : ℕ → Buf → Buf → Type 0
SameFrom n f g = (j : ℕ) → n ≤ j → f j ≡ g j

digit_loop-kept :
    (fuel u base : ℕ) (upcase : Bool) (p : ℕ) (buf : Buf)
    → SameFrom (p + fuel) (digit_loop fuel u base upcase p buf).1 buf
unfolding digit_loop
digit_loop-kept zero u base upcase p buf j le = refl
digit_loop-kept (suc fuel) u base upcase p buf j le = elim (Bool-cases (u / base == 0)) [
  | inl last ↦ rw last (ground arith)
  | inr more ↦
      rw more (digit_loop-kept fuel (u / base) base upcase (p + 1) _ j (omega arith) ∙ ground arith)
]

fill-kept : (left i c : ℕ) (f : Buf) → SameFrom (i + left) (fill left i c f) f
unfolding fill
fill-kept zero i c f j le = refl
fill-kept (suc left) i c f j le =
    fill-kept left (i + 1) c (set i c f) j (omega arith) ∙ ground arith

pad-kept :
    (neg_flag ladjust : Bool) (padc actual len : ℕ) (f : Buf)
    → 0 < actual
    → actual ≤ len
    → SameFrom len (pad neg_flag ladjust padc actual len f) f
unfolding pad
pad-kept neg_flag ladjust padc actual len f pos le j from =
    let c = if ladjust then b' ' else padc in
    elim (Bool-cases (neg_flag && not ladjust && (c == b'0'))) [
      | inl between ↦ rw between (
          off (len - 1) j (fill (len - actual) (actual - 1) c f) (omega arith)
          ∙ fill-kept (len - actual) (actual - 1) c f j (omega arith))
      | inr after ↦ rw after (fill-kept (len - actual) actual c f j (omega arith))
    ]
  where
    off : (i j : ℕ) (g : Buf) → i < j → set i b'-' g j ≡ g j
    off i j g lt = ground arith

reverse_loop-kept : (fuel e : ℕ) (f : Buf) → e ≤ fuel → SameFrom (e + 1) (reverse_loop fuel 0 e f) f
reverse_loop-kept fuel e f le j from = reverse_loop-at fuel 0 e f j (omega arith) ∙ ground arith

finish_num-kept :
    (neg_flag : Bool) (width : ℕ) (ladjust : Bool) (padc p : ℕ) (digits : Buf)
    → 0 < p
    → p ≤ 64
    → let (len, final) = finish_num neg_flag width ladjust padc (p, digits) in
      (len ≤ width + 65) × SameFrom (width + 65) final digits
unfolding finish_num
finish_num-kept neg_flag width ladjust padc p digits pos le =
    let actual = if neg_flag then p + 1 else p in
    let signed = if neg_flag then set p b'-' digits else digits in
    let len = at_least width actual in
    let end = if ladjust then actual - 1 else len - 1 in
    let (pos', few) : (0 < actual) × (actual ≤ 65) = ground arith in
    let (short, enough) : (len ≤ width + 65) × (actual ≤ len) = ground arith in
    let inside : end + 1 ≤ len = ground arith in
    (
      short,
      λ j from.
          reverse_loop-kept len end (pad neg_flag ladjust padc actual len signed) (omega arith) j
            (omega arith)
          ∙ pad-kept neg_flag ladjust padc actual len signed pos' enough j (omega arith)
          ∙ signed-kept neg_flag j from,
    )
  where
    signed-kept :
        (neg_flag : Bool)
        → SameFrom (width + 65) (if neg_flag then set p b'-' digits else digits) digits
    signed-kept true j from = ground arith
    signed-kept false j from = refl

-- More fuel than the digits need changes nothing.
digit_loop-enough :
    (n fuel u base : ℕ) (upcase : Bool) (p : ℕ) (buf : Buf)
    → 2 ≤ base
    → u < 2 ^ suc n
    → n < fuel
    → digit_loop fuel u base upcase p buf ≡ digit_loop (suc n) u base upcase p buf
unfolding digit_loop
digit_loop-enough n zero u base upcase p buf big small more = absurd (omega arith)
digit_loop-enough zero (suc fuel) u base upcase p buf big small more =
    let one_digit : (u / base == 0) ≡ true =
      eq→== (u / base) 0 (div-eq_of_lt (omega (arith, small, big))) in
    rw one_digit refl
digit_loop-enough (suc n) (suc fuel) u base upcase p buf big small more =
    let half : u / base < 2 ^ suc n =
      (div-lt_iff_lt-mul (omega (arith, big))).1
        (omega (arith, small, mul-le-mul_left (2 ^ suc n) big)) in
    let rest =
      digit_loop-enough n fuel (u / base) base upcase (p + 1) (set p (digit upcase (u % base)) buf)
        big half (omega arith) in
    elim (Bool-cases (u / base == 0)) [
      | inl last ↦ rw last refl
      | inr go_on ↦ rw (go_on, rest) refl
    ]

-- For a base from 2 on, a number of 64 bits, and every sign, width and padding, `print_num` puts out at
-- most `width + 65` bytes, and it has changed no byte of the buffer from index `width + 65` on, however
-- many rounds the loop over the digits may take.
pub finish_num-bounds :
    (fuel u base : ℕ) (upcase neg_flag : Bool) (width : ℕ) (ladjust : Bool) (padc : ℕ) (buf : Buf)
    → 64 ≤ fuel
    → 2 ≤ base
    → u < 2 ^ 64
    → let (len, final) =
        finish_num neg_flag width ladjust padc (digit_loop fuel u base upcase 0 buf) in
      (len ≤ width + 65) × SameFrom (width + 65) final buf
finish_num-bounds fuel u base upcase neg_flag width ladjust padc buf enough big small =
    let (p, digits) = digit_loop 64 u base upcase 0 buf in
    let few : p ≤ 64 =
      omega (arith, digit_loop-end 64 u base upcase 0 buf, length-low_digits 64 u base upcase) in
    let (short, kept) =
      finish_num-kept neg_flag width ladjust padc p digits (digit_loop-pos 63 u base upcase buf)
        few in
    rw (digit_loop-enough 63 fuel u base upcase 0 buf big small (omega (arith, enough)))
      (short, λ j from. kept j from ∙ digit_loop-kept 64 u base upcase 0 buf j (omega arith))
