-- ===== src/Print/Number.antt =====
-- `print_num` of lib/print.c writes a number in its notation, with sign and padding.
use mathlib.Core.List.{append-nil, append_assoc}
use riscv_mos.Base.{
  ℕ, zero, suc, ◌+◌, ◌-◌, ◌/◌, ◌%◌, ◌≤◌, ◌<◌, ◌≡◌, refl, ap, sym, ◌∙◌, arith, Bool, true, false,
  ◌&&◌, ◌==◌, if◌then◌else◌, List, [], ◌∷◌, ◌++◌, length, Bool-cases, inl, inr,
}
use riscv_mos.Print.{
  Buf, Sink, set, slice, fill, digit, digit_loop, reverse_loop, pad, at_least, bytes, finish_num,
  print_num,
}
use riscv_mos.Print.Buffer.{
  repeat, rev, rev-append, rev-push, rev-repeat, length-rev, length-slice, slice-set, slice-push,
  slice-fill, slice-reverse, slice-reverse-fill,
}

-- The notation of `u` with at most `fuel` digits.
unfoldable pub numeral : ℕ → (u base : ℕ) (upcase : Bool) → List ℕ
numeral zero u base upcase = []
numeral (suc fuel) u base upcase =
    let front = numeral fuel (u / base) base upcase in
    (if u / base == 0 then [] else front) ++ digit upcase (u % base) ∷ []

abbrev pub sign : Bool → List ℕ
sign neg_flag = if neg_flag then b'-' ∷ [] else []

-- A sign and digits in a field of `width` characters.
abbrev pub layout :
    (neg_flag : Bool) (width : ℕ) (ladjust : Bool) (padc : ℕ) → (digits : List ℕ) → List ℕ
layout neg_flag width ladjust padc digits =
    let gap = width - length (sign neg_flag ++ digits) in
    if ladjust
    then sign neg_flag ++ digits ++ repeat gap b' '
    else if neg_flag && (padc == b'0')
    then b'-' ∷ (repeat gap b'0' ++ digits)
    else repeat gap padc ++ (sign neg_flag ++ digits)

unfoldable pub low_digits : (fuel u base : ℕ) (upcase : Bool) → List ℕ
low_digits zero u base upcase = []
low_digits (suc fuel) u base upcase =
    let rest = low_digits fuel (u / base) base upcase in
    digit upcase (u % base) ∷ (if u / base == 0 then [] else rest)

rev-low_digits :
    (fuel u base : ℕ) (upcase : Bool)
    → rev (low_digits fuel u base upcase) ≡ numeral fuel u base upcase
unfolding numeral low_digits
rev-low_digits zero u base upcase = refl
rev-low_digits (suc fuel) u base upcase = elim (Bool-cases (u / base == 0)) [
  | inl last ↦ rw last refl
  | inr more ↦ rw (more, rev-low_digits fuel (u / base) base upcase) refl
]

slice-digit_loop :
    (fuel u base : ℕ) (upcase : Bool) (p : ℕ) (buf : Buf)
    → let (q, out) = digit_loop fuel u base upcase p buf in
      slice out q ≡ slice buf p ++ low_digits fuel u base upcase
unfolding digit_loop low_digits
slice-digit_loop zero u base upcase p buf = sym (append-nil (slice buf p))
slice-digit_loop (suc fuel) u base upcase p buf =
    let c = digit upcase (u % base) in
    elim (Bool-cases (u / base == 0)) [
      | inl last ↦ rw last (slice-push buf p c)
      | inr more ↦ rw more (
          slice-digit_loop fuel (u / base) base upcase (p + 1) (set p c buf)
          ∙ ap (λ xs. xs ++ low_digits fuel (u / base) base upcase) (slice-push buf p c)
          ∙ append_assoc (slice buf p) (c ∷ []) _)
    ]

-- The length of the output.
pub at_least-gap : (width actual : ℕ) → at_least width actual ≡ actual + (width - actual)
at_least-gap width actual = ground arith

module _ (actual width : ℕ) (signed : Buf) (shown : List ℕ)
    (is_shown : rev (slice signed actual) ≡ shown) (all : length shown ≡ actual) where
  padded-left :
      let len = at_least width actual in
      0 < actual
      → slice (reverse_loop len 0 (actual - 1) (fill (len - actual) actual b' ' signed)) len
        ≡ shown ++ repeat (width - length shown) b' '
  padded-left pos =
      let len_is = at_least-gap width actual in
      let gap : actual + (width - actual) - actual ≡ width - actual = omega arith in
      rw (len_is, gap, all)
        (slice-reverse-fill (actual + (width - actual)) actual (width - actual) b' ' signed pos
            (omega arith)
          ∙ ap (λ xs. xs ++ repeat (width - actual) b' ') is_shown)

  padded-right :
      (c : ℕ)
      → let len = at_least width actual in
        slice (reverse_loop len 0 (len - 1) (fill (len - actual) actual c signed)) len
        ≡ repeat (width - length shown) c ++ shown
  padded-right c =
      let len_is = at_least-gap width actual in
      let gap : actual + (width - actual) - actual ≡ width - actual = omega arith in
      rw (len_is, gap, all)
        (slice-reverse (actual + (width - actual)) (actual + (width - actual)) _ (omega arith)
          ∙ ap rev (slice-fill (width - actual) actual c signed)
          ∙ rev-append (slice signed actual) (repeat (width - actual) c)
          ∙ rw (rev-repeat (width - actual) c, is_shown) refl)

-- Between the sign and the digits.
padded-zeros :
    (p width : ℕ) (signed : Buf)
    → let len = at_least width (p + 1) in
      slice
        (reverse_loop len 0
          (len - 1)
          (set (len - 1) b'-' (fill (len - (p + 1)) (p + 1 - 1) b'0' signed)))
        len
      ≡ b'-' ∷ (repeat (width - (p + 1)) b'0' ++ rev (slice signed p))
padded-zeros p width signed =
    let gap = width - (p + 1) in
    let len_is : at_least width (p + 1) ≡ p + gap + 1 = ground arith in
    let last : p + gap + 1 - 1 ≡ p + gap = omega arith in
    let left : p + gap + 1 - (p + 1) ≡ gap = omega arith in
    let start : p + 1 - 1 ≡ p = omega arith in
    let filled = fill gap p b'0' signed in
    let same : rev (slice (set (p + gap) b'-' filled) (p + gap + 1))
        ≡ b'-' ∷ (repeat gap b'0' ++ rev (slice signed p)) =
      ap rev (slice-push filled (p + gap) b'-')
      ∙ rev-push (slice filled (p + gap)) b'-'
      ∙ ap (λ xs. b'-' ∷ rev xs) (slice-fill gap p b'0' signed)
      ∙ ap (λ xs. b'-' ∷ xs) (rev-append (slice signed p) (repeat gap b'0'))
      ∙ ap (λ xs. b'-' ∷ (xs ++ rev (slice signed p))) (rev-repeat gap b'0') in
    rw (len_is, left, start)
      (slice-reverse (p + gap + 1) (p + gap + 1) _ (omega arith) ∙ rw last same)

module _ (p : ℕ) (digits : Buf) (pos : 0 < p) where
  signed-slice :
      (neg_flag : Bool)
      → slice (if neg_flag then set p b'-' digits else digits) (if neg_flag then p + 1 else p)
        ≡ slice digits p ++ sign neg_flag
  signed-slice true = slice-push digits p b'-'
  signed-slice false = sym (append-nil (slice digits p))

  length-shown :
      (neg_flag : Bool)
      → length (sign neg_flag ++ rev (slice digits p)) ≡ (if neg_flag then p + 1 else p)
  length-shown true = omega (arith, length-rev (slice digits p), length-slice digits p)
  length-shown false = omega (arith, length-rev (slice digits p), length-slice digits p)

  rev-signed : (neg_flag : Bool) (xs : List ℕ) → rev (xs ++ sign neg_flag) ≡ sign neg_flag ++ rev xs
  rev-signed true xs = rev-push xs b'-'
  rev-signed false xs = ap rev (append-nil xs)

  finish_num-left :
      (neg_flag : Bool) (width padc : ℕ)
      → bytes (finish_num neg_flag width true padc (p, digits))
        ≡ layout neg_flag width true padc (rev (slice digits p))
  unfolding finish_num pad
  finish_num-left true width padc =
      padded-left (p + 1) width (set p b'-' digits) _
        (ap rev (signed-slice true) ∙ rev-signed true (slice digits p)) (length-shown true)
        (omega arith)
  finish_num-left false width padc = padded-left p width digits _ refl (length-shown false) pos

  finish_num-right :
      (neg_flag : Bool) (width padc : ℕ)
      → (neg_flag && (padc == b'0')) ≡ false
      → bytes (finish_num neg_flag width false padc (p, digits))
        ≡ layout neg_flag width false padc (rev (slice digits p))
  unfolding finish_num pad
  finish_num-right true width padc plain = rw plain (
      padded-right (p + 1) width (set p b'-' digits) _
        (ap rev (signed-slice true) ∙ rev-signed true (slice digits p)) (length-shown true) padc)
  finish_num-right false width padc plain =
      padded-right p width digits _ refl (length-shown false) padc

  finish_num-zeros :
      (width : ℕ)
      → bytes (finish_num true width false b'0' (p, digits))
        ≡ layout true width false b'0' (rev (slice digits p))
  unfolding finish_num pad
  finish_num-zeros width = rw (length-shown true) (
      padded-zeros p width (set p b'-' digits)
      ∙ ap (λ xs. b'-' ∷ (repeat (width - (p + 1)) b'0' ++ rev xs))
          (slice-set digits p p b'-' (omega arith)))

  pub finish_num-layout :
      (neg_flag : Bool) (width : ℕ) (ladjust : Bool) (padc : ℕ)
      → bytes (finish_num neg_flag width ladjust padc (p, digits))
        ≡ layout neg_flag width ladjust padc (rev (slice digits p))
  finish_num-layout neg_flag width true padc = finish_num-left neg_flag width padc
  finish_num-layout false width false padc = finish_num-right false width padc refl
  finish_num-layout true width false padc = elim (Bool-cases (padc == b'0')) [
    | inl zeros ↦ let padc_is : padc ≡ b'0' = ground arith in rw padc_is (finish_num-zeros width)
    | inr plain ↦ finish_num-right true width padc plain
  ]

pub digit_loop-end :
    (fuel u base : ℕ) (upcase : Bool) (p : ℕ) (buf : Buf)
    → (digit_loop fuel u base upcase p buf).0 ≡ p + length (low_digits fuel u base upcase)
unfolding digit_loop low_digits
digit_loop-end zero u base upcase p buf = omega arith
digit_loop-end (suc fuel) u base upcase p buf =
    let rest =
      digit_loop-end fuel (u / base) base upcase (p + 1) (set p (digit upcase (u % base)) buf) in
    elim (Bool-cases (u / base == 0)) [
      | inl last ↦ rw last (omega arith)
      | inr more ↦ rw more (omega (arith, rest))
    ]

pub digit_loop-pos :
    (fuel u base : ℕ) (upcase : Bool) (buf : Buf)
    → 0 < (digit_loop (suc fuel) u base upcase 0 buf).0
unfolding low_digits
digit_loop-pos fuel u base upcase buf = omega (arith, digit_loop-end (suc fuel) u base upcase 0 buf)

pub length-low_digits :
    (fuel u base : ℕ) (upcase : Bool) → length (low_digits fuel u base upcase) ≤ fuel
unfolding low_digits
length-low_digits zero u base upcase = omega arith
length-low_digits (suc fuel) u base upcase = elim (Bool-cases (u / base == 0)) [
  | inl last ↦ rw last (omega arith)
  | inr more ↦ rw more (omega (arith, length-low_digits fuel (u / base) base upcase))
]

-- For every number, base, sign, width, alignment, padding and case of the letters, `print_num` hands its
-- callback, at once, the digits of the notation with the sign before them, blanks behind them if they are
-- to the left, zeros between sign and digits if a negative number is padded with zeros, and the padding
-- before the sign otherwise.
pub print_num-layout :
    {S : Type 0} (out : Sink S) (buf : Buf) (u base : ℕ) (neg_flag : Bool) (width : ℕ)
    (ladjust : Bool) (padc : ℕ) (upcase : Bool)
    → print_num out buf u base neg_flag width ladjust padc upcase
      ≡ out (layout neg_flag width ladjust padc (numeral 64 u base upcase))
unfolding print_num
print_num-layout out buf u base neg_flag width ladjust padc upcase =
    let (p, digits) = digit_loop 64 u base upcase 0 buf in
    ap out (
      finish_num-layout p digits (digit_loop-pos 63 u base upcase buf) neg_flag width ladjust padc
      ∙ ap (λ xs. layout neg_flag width ladjust padc (rev xs))
          (slice-digit_loop 64 u base upcase 0 buf)
      ∙ ap (λ xs. layout neg_flag width ladjust padc xs) (rev-low_digits 64 u base upcase))
