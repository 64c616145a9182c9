-- ===== src/Print/Reading.antt =====
-- A reader of numbers, and that it reads back what `print_num` of lib/print.c writes.
use native.Mathlib.Nat.{mod-lt, div-add-mod', mul-le-mul_left}
use mathlib.Core.List.{append-nil, append_assoc}
use riscv_mos.Base.{
  ℕ, zero, suc, ◌+◌, ◌-◌, ◌*◌, ◌/◌, ◌%◌, ◌^◌, ◌≤◌, ◌<◌, ◌≡◌, refl, ap, sym, ◌∙◌, arith, Bool, true,
  false, ◌==◌, leb, ◌⊎◌, if◌then◌else◌, List, [], ◌∷◌, ◌++◌, length, Bool-cases, inl, inr,
}
use riscv_mos.Print.{Buf, digit, print_num}
use riscv_mos.Print.Buffer.{repeat}
use riscv_mos.Print.Number.{numeral, sign, layout, print_num-layout}

-- The value of a digit.
abbrev pub digit_value : ℕ → ℕ
digit_value c = if leb c b'9' then c - b'0' else if leb c b'Z' then c - b'A' + 10 else c - b'a' + 10

-- The number whose digits go on until a space.
abbrev pub scan : (base acc : ℕ) → List ℕ → ℕ
scan base acc [] = acc
scan base acc (c ∷ cs) =
    let rest = scan base (acc * base + digit_value c) cs in if c == b' ' then acc else rest

-- Whether there is a sign, and the number.
abbrev pub read_signed : (base : ℕ) → List ℕ → Bool × ℕ
read_signed base [] = (false, 0)
read_signed base (c ∷ cs) =
    if c == b'-' then (true, scan base 0 cs) else (false, scan base 0 (c ∷ cs))

-- As `read_signed`, after the spaces.
abbrev pub read_num : (base : ℕ) → List ℕ → Bool × ℕ
read_num base [] = (false, 0)
read_num base (c ∷ cs) = if c == b' ' then read_num base cs else read_signed base (c ∷ cs)

abbrev first : List ℕ → ℕ
first [] = 0
first (c ∷ cs) = c

digit-bounds :
    (upcase : Bool) (d : ℕ) → d < 16 → (b'0' ≤ digit upcase d) × (digit_value (digit upcase d) ≡ d)
digit-bounds true d lt = (ground arith, ground arith)
digit-bounds false d lt = (ground arith, ground arith)

-- A base of the printer.
abbrev pub IsBase : ℕ → Type 0
IsBase base = (2 ≤ base) × (base ≤ 16)

last_lt : (u base : ℕ) → IsBase base → (u % base < 16)
last_lt u base (low, high) = omega (arith, mod-lt u {m = base} (omega arith))

div-small : (u base m : ℕ) → 2 ≤ base → u < 2 * m → u / base < m
div-small u base m low lt = omega (arith, div-add-mod' u base, mul-le-mul_left (u / base) low)

first-numeral :
    (fuel u base : ℕ) (upcase : Bool) (ys : List ℕ)
    → IsBase base
    → b'0' ≤ first (numeral (suc fuel) u base upcase ++ ys)
unfolding numeral
first-numeral zero u base upcase ys ok = elim (Bool-cases (u / base == 0)) [
  | inl last ↦ rw last (digit-bounds upcase (u % base) (last_lt u base ok)).0
  | inr more ↦ rw more (digit-bounds upcase (u % base) (last_lt u base ok)).0
]
first-numeral (suc fuel) u base upcase ys ok = elim (Bool-cases (u / base == 0)) [
  | inl last ↦ rw last (digit-bounds upcase (u % base) (last_lt u base ok)).0
  | inr more ↦
      let front = numeral (suc fuel) (u / base) base upcase in
      let c = digit upcase (u % base) in
      rw more (
        rw (append_assoc front (c ∷ []) ys) (first-numeral fuel (u / base) base upcase (c ∷ ys) ok))
]

above_space : (c : ℕ) → b'0' ≤ c → (c == b' ') ≡ false
above_space c le = ground arith

scan-digit :
    (base u : ℕ) (upcase : Bool) (ys : List ℕ)
    → IsBase base
    → scan base (u / base) (digit upcase (u % base) ∷ ys) ≡ scan base u ys
scan-digit base u upcase ys ok =
    let (low, value) = digit-bounds upcase (u % base) (last_lt u base ok) in
    let shown : (digit upcase (u % base) == b' ') ≡ false =
      above_space (digit upcase (u % base)) low in
    rw (shown, value, div-add-mod' u base) refl

scan-numeral :
    (fuel u base : ℕ) (upcase : Bool) (ys : List ℕ)
    → IsBase base
    → u < 2 ^ fuel
    → scan base 0 (numeral fuel u base upcase ++ ys) ≡ scan base u ys
unfolding numeral
scan-numeral zero u base upcase ys ok lt = let u_is : u ≡ 0 = omega arith in rw u_is refl
scan-numeral (suc fuel) u base upcase ys ok lt =
    let c = digit upcase (u % base) in
    elim (Bool-cases (u / base == 0)) [
      | inl last ↦
          let none_left : u / base ≡ 0 = ground arith in
          rw last (ap (λ n. scan base n (c ∷ ys)) (sym none_left) ∙ scan-digit base u upcase ys ok)
      | inr more ↦
          let front = numeral fuel (u / base) base upcase in
          let small : u / base < 2 ^ fuel = div-small u base (2 ^ fuel) ok.0 (omega (arith, lt)) in
          rw more (
            ap (λ xs. scan base 0 xs) (append_assoc front (c ∷ []) ys)
            ∙ scan-numeral fuel (u / base) base upcase (c ∷ ys) ok small
            ∙ scan-digit base u upcase ys ok)
    ]

scan-zeros : (n base : ℕ) (ys : List ℕ) → scan base 0 (repeat n b'0' ++ ys) ≡ scan base 0 ys
scan-zeros zero base ys = refl
scan-zeros (suc n) base ys =
    let same : 0 * base + 0 ≡ 0 = omega arith in rw same (scan-zeros n base ys)

scan-spaces : (n base u : ℕ) → scan base u (repeat n b' ') ≡ u
scan-spaces zero base u = refl
scan-spaces (suc n) base u = refl

skip-spaces : (n base : ℕ) (ys : List ℕ) → read_num base (repeat n b' ' ++ ys) ≡ read_num base ys
skip-spaces zero base ys = refl
skip-spaces (suc n) base ys = skip-spaces n base ys

read-plain : (base : ℕ) (ys : List ℕ) → b'0' ≤ first ys → read_num base ys ≡ (false, scan base 0 ys)
read-plain base [] le = absurd (omega (arith, le))
read-plain base (c ∷ cs) le =
    let space = above_space c le in
    let minus : (c == b'-') ≡ false = ground arith in rw (space, minus) refl

module _ (u base : ℕ) (upcase : Bool) (ok : IsBase base) (lt : u < 2 ^ 64) where
  value-numeral : (ys : List ℕ) → scan base 0 (numeral 64 u base upcase ++ ys) ≡ scan base u ys
  value-numeral ys = scan-numeral 64 u base upcase ys ok lt

  first-body :
      (z : ℕ) (ys : List ℕ) → b'0' ≤ first (repeat z b'0' ++ (numeral 64 u base upcase ++ ys))
  first-body zero ys = first-numeral 63 u base upcase ys ok
  first-body (suc z) ys = omega arith

  scan-body :
      (z n : ℕ) → scan base 0 (repeat z b'0' ++ (numeral 64 u base upcase ++ repeat n b' ')) ≡ u
  scan-body z n = scan-zeros z base _ ∙ value-numeral (repeat n b' ') ∙ scan-spaces n base u

  read-shown :
      (neg_flag : Bool) (z n : ℕ)
      → read_num base
          (sign neg_flag ++ (repeat z b'0' ++ (numeral 64 u base upcase ++ repeat n b' ')))
        ≡ (neg_flag, u)
  read-shown true z n = ap (λ (v : ℕ). (true, v)) (scan-body z n)
  read-shown false z n =
      read-plain base (repeat z b'0' ++ (numeral 64 u base upcase ++ repeat n b' '))
        (first-body z (repeat n b' '))
      ∙ ap (λ (v : ℕ). (false, v)) (scan-body z n)

  read-exact :
      (neg_flag : Bool) (z : ℕ)
      → read_num base (sign neg_flag ++ (repeat z b'0' ++ numeral 64 u base upcase)) ≡ (neg_flag, u)
  read-exact neg_flag z =
      ap (λ xs. read_num base (sign neg_flag ++ (repeat z b'0' ++ xs)))
        (sym (append-nil (numeral 64 u base upcase)))
      ∙ read-shown neg_flag z 0

  read-blanks :
      (neg_flag : Bool) (n : ℕ)
      → read_num base (repeat n b' ' ++ (sign neg_flag ++ numeral 64 u base upcase)) ≡ (neg_flag, u)
  read-blanks neg_flag n =
      skip-spaces n base (sign neg_flag ++ numeral 64 u base upcase) ∙ read-exact neg_flag 0

  pub read_num-layout :
      (neg_flag : Bool) (width : ℕ) (ladjust : Bool) (padc : ℕ)
      → (padc ≡ b' ') ⊎ (padc ≡ b'0')
      → read_num base (layout neg_flag width ladjust padc (numeral 64 u base upcase))
        ≡ (neg_flag, u)
  read_num-layout neg_flag width true padc either =
      ap (read_num base) (append_assoc (sign neg_flag) (numeral 64 u base upcase) _)
      ∙ read-shown neg_flag 0 _
  read_num-layout true width false padc (inl e) =
      rw e (read-blanks true (width - length (sign true ++ numeral 64 u base upcase)))
  read_num-layout false width false padc (inl e) =
      rw e (read-blanks false (width - length (sign false ++ numeral 64 u base upcase)))
  read_num-layout true width false padc (inr e) =
      rw e (read-exact true (width - length (sign true ++ numeral 64 u base upcase)))
  read_num-layout false width false padc (inr e) =
      rw e (read-exact false (width - length (sign false ++ numeral 64 u base upcase)))

-- What `print_num` writes for a 64-bit number in a base from 2 to 16, padded with spaces or zeros, is
-- read back, sign included, whatever the width, the alignment and the case of the letters.
pub read_num-print_num :
    (buf : Buf) (u base : ℕ) (neg_flag : Bool) (width : ℕ) (ladjust : Bool) (padc : ℕ)
    (upcase : Bool)
    → IsBase base
    → u < 2 ^ 64
    → (padc ≡ b' ') ⊎ (padc ≡ b'0')
    → read_num base
        (print_num (λ bytes sent. bytes) buf u base neg_flag width ladjust padc upcase [])
      ≡ (neg_flag, u)
read_num-print_num buf u base neg_flag width ladjust padc upcase ok lt either =
    ap (λ (f : List ℕ → List ℕ). read_num base (f []))
      (print_num-layout (λ bytes sent. bytes) buf u base neg_flag width ladjust padc upcase)
    ∙ read_num-layout u base upcase ok lt neg_flag width ladjust padc either
