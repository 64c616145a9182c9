-- ===== src/Print/Decimal.antt =====
-- Numbers in decimal digits.
use riscv_mos.Base.{
  ℕ, zero, suc, ◌+◌, ◌-◌, ◌*◌, ◌/◌, ◌%◌, ◌^◌, ◌≤◌, ◌<◌, ◌≡◌, refl, ap, ◌∙◌, arith, false, ◌==◌,
  List, [], ◌∷◌, ◌++◌, Bool-cases, inl, inr,
}
use riscv_mos.Print.{digit}
use riscv_mos.Print.Number.{numeral}

-- The number that a list of decimal digits stands for, behind `acc`.
unfoldable pub decimal_value : (acc : ℕ) → List ℕ → ℕ
decimal_value acc [] = acc
decimal_value acc (c ∷ cs) = decimal_value (acc * 10 + (c - b'0')) cs

abbrev pub AllDigits : List ℕ → Type 0
AllDigits [] = Unit {0}
AllDigits (c ∷ cs) = (b'0' ≤ c) × (c ≤ b'9') × AllDigits cs

decimal_value-append :
    (acc c : ℕ) (xs : List ℕ)
    → decimal_value acc (xs ++ c ∷ []) ≡ decimal_value acc xs * 10 + (c - b'0')
unfolding decimal_value
decimal_value-append acc c [] = refl
decimal_value-append acc c (x ∷ xs) = decimal_value-append (acc * 10 + (x - b'0')) c xs

AllDigits-append :
    (c : ℕ) (xs : List ℕ) → AllDigits xs → b'0' ≤ c → c ≤ b'9' → AllDigits (xs ++ c ∷ [])
AllDigits-append c [] ok' lo hi = (lo, hi, tt)
AllDigits-append c (x ∷ xs) (lo', hi', more) lo hi = (lo', hi', AllDigits-append c xs more lo hi)

pub decimal-numeral :
    (fuel u : ℕ)
    → u < 10 ^ fuel
    → (decimal_value 0 (numeral fuel u 10 false) ≡ u) × AllDigits (numeral fuel u 10 false)
unfolding numeral decimal_value
decimal-numeral zero u lt = (ground arith, tt)
decimal-numeral (suc fuel) u lt =
    let c : ℕ = digit false (u % 10) in
    let (value, lo, hi) : (c - b'0' ≡ u % 10) × (b'0' ≤ c) × (c ≤ b'9') = ground arith in
    elim (Bool-cases (u / 10 == 0)) [
      | inl last ↦ rw last (ground (arith, value), (lo, hi, tt))
      | inr more ↦
          let (front, digits) = decimal-numeral fuel (u / 10) (ground arith) in
          rw more (
            decimal_value-append 0 c (numeral fuel (u / 10) 10 false) ∙ omega (arith, front, value),
            AllDigits-append c (numeral fuel (u / 10) 10 false) digits lo hi,
          )
    ]

-- The first digit of a positive number is none of 0.
pub numeral-first :
    (fuel u : ℕ)
    → 0 < u
    → u < 10 ^ fuel
    → (c : ℕ) × (cs : List ℕ) × (numeral fuel u 10 false ≡ c ∷ cs) × (b'1' ≤ c) × (c ≤ b'9')
unfolding numeral
numeral-first zero u pos lt = absurd (ground arith)
numeral-first (suc fuel) u pos lt = elim (Bool-cases (u / 10 == 0)) [
  | inl last ↦
      let (lo, hi) : (b'1' ≤ digit false (u % 10)) × (digit false (u % 10) ≤ b'9') = ground arith in
      rw last (digit false (u % 10), [], refl, lo, hi)
  | inr more ↦
      let (c, cs, front, lo, hi) = numeral-first fuel (u / 10) (ground arith) (ground arith) in
      rw more (
        c,
        cs ++ digit false (u % 10) ∷ [],
        ap (λ (xs : List ℕ). xs ++ digit false (u % 10) ∷ []) front,
        lo,
        hi,
      )
]
