-- ===== src/Print/Shorter.antt =====
-- A round of `vprintfmt` of lib/print.c takes at least a byte of the format.
use riscv_mos.Base.{
  ℕ, zero, suc, ◌+◌, ◌-◌, ◌*◌, ◌≤◌, ◌<◌, ◌≡◌, refl, ap, arith, ◌&&◌, ◌==◌, leb, Option, none, some,
  List, [], ◌∷◌, length, Bool-cases, inl, inr,
}
use riscv_mos.Print.Format.{Spec, take_flag, take_width, take_spec, conversion}
use riscv_mos.Print.Rendering.{Directive, directive, next, directives}

length-take_flag : (c : ℕ) (fmt : List ℕ) → length (take_flag c fmt).1 ≤ length fmt
length-take_flag c [] = omega arith
length-take_flag c (x ∷ xs) = elim (Bool-cases (x == c)) [
  | inl e ↦ rw e (omega arith)
  | inr e ↦ rw e (omega arith)
]

length-take_width : (width : ℕ) (fmt : List ℕ) → length (take_width width fmt).1 ≤ length fmt
unfolding take_width
length-take_width width [] = omega arith
length-take_width width (x ∷ xs) = elim (Bool-cases (leb b'0' x && leb x b'9')) [
  | inl e ↦ rw e (omega (arith, length-take_width (width * 10 + (x - b'0')) xs))
  | inr e ↦ rw e (omega arith)
]

pub length-take_spec : (fmt : List ℕ) → length (take_spec fmt).1 ≤ length fmt
unfolding take_spec
length-take_spec fmt =
    let one = (take_flag b'-' fmt).1 in
    let two = (take_flag b'0' one).1 in
    let three = (take_width 0 two).1 in
    omega (
      arith,
      length-take_flag b'-' fmt,
      length-take_flag b'0' one,
      length-take_width 0 two,
      length-take_flag b'l' three,
    )

-- A directive takes at least one of `n` bytes.
abbrev pub IsShorter : ℕ → Option (Directive × List ℕ) → Type 0
IsShorter n none = Unit {0}
IsShorter n (some (d, rest)) = length rest < n

next_spec-IsShorter :
    (n : ℕ) (spec : Spec) (rest : List ℕ)
    → length rest ≤ n
    → IsShorter
        (suc n)
        (elim rest [ [] ↦ none | c ∷ after ↦ some (directive (conversion c) spec, after) ])
next_spec-IsShorter n spec [] le = tt
next_spec-IsShorter n spec (c ∷ after) le = omega (arith, le)

pub next-IsShorter : (fmt : List ℕ) → IsShorter (length fmt) (next fmt)
next-IsShorter [] = tt
next-IsShorter (c ∷ fmt) = elim (Bool-cases (c == b'%')) [
  | inl percent ↦
      rw percent (
        next_spec-IsShorter (length fmt) (take_spec fmt).0 (take_spec fmt).1 (length-take_spec fmt))
  | inr plain ↦ rw plain (omega arith)
]

-- More fuel than bytes adds no directive.
pub directives-fuel :
    (f g : ℕ) (fmt : List ℕ) → length fmt ≤ f → length fmt ≤ g → directives f fmt ≡ directives g fmt
unfolding directives
directives-fuel zero zero fmt le le' = refl
directives-fuel zero (suc g) [] le le' = refl
directives-fuel (suc f) zero [] le le' = refl
directives-fuel zero (suc g) (c ∷ fmt) le le' = absurd (omega (arith, le))
directives-fuel (suc f) zero (c ∷ fmt) le le' = absurd (omega (arith, le'))
directives-fuel (suc f) (suc g) fmt le le' =
    from_next (directives-fuel f g) (next fmt) (next-IsShorter fmt)
  where
    from_next :
        ((fmt : List ℕ) → length fmt ≤ f → length fmt ≤ g → directives f fmt ≡ directives g fmt)
        → (o : Option (Directive × List ℕ)) → IsShorter (length fmt) o
        → (elim o [ none ↦ [] | some (d, rest) ↦ d ∷ directives f rest ])
          ≡ (elim o [ none ↦ [] | some (d, rest) ↦ d ∷ directives g rest ])
    from_next ih none small = refl
    from_next ih (some (d, rest)) small =
        ap (λ ds. d ∷ ds) (ih rest (omega (arith, le, small)) (omega (arith, le', small)))
