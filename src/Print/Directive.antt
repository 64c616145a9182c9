-- ===== src/Print/Directive.antt =====
-- What `vprintfmt` of lib/print.c reads between a `%` and its letter, for a directive that is written down.
use riscv_mos.Base.{
  ℕ, ◌+◌, ◌-◌, ◌*◌, ◌^◌, ◌≤◌, ◌<◌, ◌≡◌, refl, ap, sym, ◌∙◌, arith, Bool, true, false, ◌&&◌, ◌==◌,
  leb, if◌then◌else◌, List, [], ◌∷◌, ◌++◌, Bool-cases, inl, inr,
}
use riscv_mos.Print.Number.{numeral}
use riscv_mos.Print.Decimal.{decimal_value, AllDigits, decimal-numeral, numeral-first}
use riscv_mos.Print.Format.{Spec, take_flag, take_width, take_spec}
use riscv_mos.Print.Pieces.{
  Letter, binary, decimal, octal, unsigned, hex, upper_hex, one_char, chars, letter, mark,
  width_digits,
}

-- The text does not start with `c`.
abbrev Avoids : (c : ℕ) → List ℕ → Type 0
Avoids c [] = Unit {0}
Avoids c (x ∷ xs) = (x == c) ≡ false

abbrev NoDigit : List ℕ → Type 0
NoDigit [] = Unit {0}
NoDigit (x ∷ xs) = (leb b'0' x && leb x b'9') ≡ false

take_flag-Avoids : (c : ℕ) (xs : List ℕ) → Avoids c xs → take_flag c xs ≡ (false, xs)
take_flag-Avoids c [] h = refl
take_flag-Avoids c (x ∷ xs) h = rw h refl

take_flag-mark :
    (b : Bool) (c : ℕ) (xs : List ℕ) → Avoids c xs → take_flag c (mark b c xs) ≡ (b, xs)
take_flag-mark true c xs h = let here : (c == c) ≡ true = ground arith in rw here refl
take_flag-mark false c xs h = take_flag-Avoids c xs h

take_width-digits :
    (acc : ℕ) (xs rest : List ℕ)
    → AllDigits xs
    → NoDigit rest
    → take_width acc (xs ++ rest) ≡ (decimal_value acc xs, rest)
unfolding take_width decimal_value
take_width-digits acc [] [] digits h = refl
take_width-digits acc [] (x ∷ rest) digits h = rw h refl
take_width-digits acc (x ∷ xs) rest (lo, hi, digits) h =
    let here : (leb b'0' x && leb x b'9') ≡ true = ground arith in
    rw here (take_width-digits (acc * 10 + (x - b'0')) xs rest digits h)

letter_lem : (l : Letter) → (b'A' ≤ letter l) × ((letter l == b'l') ≡ false)
letter_lem binary = (omega arith, refl)
letter_lem decimal = (omega arith, refl)
letter_lem octal = (omega arith, refl)
letter_lem unsigned = (omega arith, refl)
letter_lem hex = (omega arith, refl)
letter_lem upper_hex = (omega arith, refl)
letter_lem one_char = (omega arith, refl)
letter_lem chars = (omega arith, refl)

module _ (left zeros : Bool) (width : ℕ) (long : Bool) (l : Letter) (small : width < 2 ^ 31)
    (rest : List ℕ) where
  abbrev pub at_letter : List ℕ
  at_letter = mark long b'l' (letter l ∷ rest)

  abbrev pub at_width : List ℕ
  at_width = width_digits width at_letter

  at_letter-Avoids : (c : ℕ) → c < b'A' → Avoids c at_letter
  at_letter-Avoids c h = elim (Bool-cases long) [
    | inl is ↦ rw is (ground arith)
    | inr no' ↦ rw no' (ground (arith, letter_lem l))
  ]

  at_letter-NoDigit : NoDigit at_letter
  at_letter-NoDigit = elim (Bool-cases long) [
    | inl is ↦ rw is refl
    | inr no' ↦ rw no' (ground (arith, letter_lem l))
  ]

  at_width-Avoids : (c : ℕ) → c ≤ b'0' → Avoids c at_width
  at_width-Avoids c h = elim (Bool-cases (width == 0)) [
    | inl none' ↦ rw none' (at_letter-Avoids c (omega arith))
    | inr wide ↦
        let (d, ds, front, lo, hi) = numeral-first 32 width (ground arith) (omega (arith, small)) in
        rw (wide, front) (ground arith)
  ]

  at_width-read : take_width 0 at_width ≡ (width, at_letter)
  unfolding take_width decimal_value
  at_width-read = elim (Bool-cases (width == 0)) [
    | inl none' ↦
        let is : width ≡ 0 = ground arith in
        rw none' (
          take_width-digits 0 [] at_letter tt at_letter-NoDigit
          ∙ ap (λ (w : ℕ). (w, at_letter)) (sym is))
    | inr wide ↦
        let (value, digits) = decimal-numeral 32 width (omega (arith, small)) in
        rw wide (
          take_width-digits 0 (numeral 32 width 10 false) at_letter digits at_letter-NoDigit
          ∙ ap (λ (w : ℕ). (w, at_letter)) value)
  ]

  zeros-Avoids : Avoids b'-' (mark zeros b'0' at_width)
  zeros-Avoids = elim (Bool-cases zeros) [
    | inl is ↦ rw is refl
    | inr no' ↦ rw no' (at_width-Avoids b'-' (omega arith))
  ]

  -- What `take_spec` makes of a directive.
  abbrev pub spec_of : Spec
  spec_of = record {
    ladjust = left;
    padc = if zeros then b'0' else b' ';
    width = width;
    long_flag = long;
  }

  pub take_spec-written :
      take_spec (mark left b'-' (mark zeros b'0' at_width)) ≡ (spec_of, letter l ∷ rest)
  unfolding take_spec
  take_spec-written =
      rw
        (
          take_flag-mark left b'-' (mark zeros b'0' at_width) zeros-Avoids,
          take_flag-mark zeros b'0' at_width (at_width-Avoids b'0' (omega arith)),
          at_width-read,
          take_flag-mark long b'l' (letter l ∷ rest) (letter_lem l).1,
        )
        refl
