-- ===== src/Print/Ending.antt =====
-- The loop of `vprintfmt` of lib/print.c ends, whatever the callback does.
use mathlib.Core.Path.{subst}
use riscv_mos.Base.{
  ℕ, zero, suc, ◌≤◌, ◌<◌, ◌≢◌, arith, ◌==◌, Option, none, some, List, [], ◌∷◌, length, Bool-cases,
  inl, inr,
}
use riscv_mos.Kernel.{Outcome, ok, panic, out_of_fuel, fault, Cmd, and_then, pure, ◌>>=◌}
use riscv_mos.Print.{Sink, Buf}
use riscv_mos.Print.Format.{
  Arg, word, text, Spec, take_spec, Conversion, number, character, string, other, conversion,
  convert, switch, format_round, go_on, vprintfmt,
}
use riscv_mos.Print.Shorter.{length-take_spec}

-- Fuel was left.
abbrev Ends : {S A : Type 0} → Outcome S A → Type 0
Ends (ok a s) = Unit {0}
Ends (panic message) = Unit {0}
Ends out_of_fuel = 1 ≤ 0
Ends fault = Unit {0}

-- Fuel was left, and less than `n` bytes of the format are to go.
abbrev Shortens : {S A : Type 0} → (n : ℕ) → Outcome S (Option (List ℕ × A)) → Type 0
Shortens n (ok none s) = Unit {0}
Shortens n (ok (some (rest, a)) s) = length rest < n
Shortens n (panic message) = Unit {0}
Shortens n out_of_fuel = 1 ≤ 0
Shortens n fault = Unit {0}

module _ {S : Type 0} (out : Sink S) (buf : Buf) where
  convert-Ends :
      (conv : Conversion) (spec : Spec) (args : List Arg) (s : S)
      → Ends (convert out buf conv spec args s)
  unfolding convert
  convert-Ends (number base is_signed upcase) spec [] s = tt
  convert-Ends (number base is_signed upcase) spec (word n ∷ args) s = tt
  convert-Ends (number base is_signed upcase) spec (text t ∷ args) s = tt
  convert-Ends character spec [] s = tt
  convert-Ends character spec (word n ∷ args) s = tt
  convert-Ends character spec (text t ∷ args) s = tt
  convert-Ends string spec [] s = tt
  convert-Ends string spec (word n ∷ args) s = tt
  convert-Ends string spec (text t ∷ args) s = tt
  convert-Ends (other c) spec [] s = tt
  convert-Ends (other c) spec (word n ∷ args) s = tt
  convert-Ends (other c) spec (text t ∷ args) s = tt

  -- With the rest of the format behind a conversion.
  behind-Shortens :
      (n : ℕ) (after : List ℕ) (o : Outcome S (List Arg))
      → length after < n
      → Ends o
      → Shortens n (and_then (and_then o (λ rest. pure (after, rest))) (λ a. pure (some a)))
  behind-Shortens n after (ok a s) lt ends = lt
  behind-Shortens n after (panic message) lt ends = tt
  behind-Shortens n after out_of_fuel lt ends = ends
  behind-Shortens n after fault lt ends = tt

  switch-Shortens :
      (n : ℕ) (spec : Spec) (rest : List ℕ) (args : List Arg) (s : S)
      → length rest < n
      → Shortens n ((switch out buf spec rest args >>= λ a. pure (some a)) s)
  switch-Shortens n spec [] args s lt = lt
  switch-Shortens n spec (c ∷ after) args s lt =
      behind-Shortens n after (convert out buf (conversion c) spec args s) (omega (arith, lt))
        (convert-Ends (conversion c) spec args s)

  format_round-Shortens :
      (fmt : List ℕ) (args : List Arg) (s : S)
      → Shortens (length fmt) (format_round out buf fmt args s)
  unfolding format_round
  format_round-Shortens [] args s = tt
  format_round-Shortens (c ∷ []) args s = elim (Bool-cases (c == b'%')) [
    | inl percent ↦ rw percent tt
    | inr plain ↦ rw plain (omega arith)
  ]
  format_round-Shortens (c ∷ x ∷ xs) args s = elim (Bool-cases (c == b'%')) [
    | inl percent ↦
        let (spec, rest) = take_spec (x ∷ xs) in
        rw percent (
          switch-Shortens (length (c ∷ x ∷ xs)) spec rest args s
            (omega (arith, length-take_spec (x ∷ xs))))
    | inr plain ↦ rw plain (omega arith)
  ]

  go_on-Ends :
      (n : ℕ) (loop : List ℕ → List Arg → Cmd S (Unit {0}))
      → ((fmt : List ℕ) (args : List Arg) (s : S) → length fmt < n → Ends (loop fmt args s))
      → (o : Outcome S (Option (List ℕ × List Arg))) → Shortens n o
      → Ends (and_then o (go_on out buf loop))
  go_on-Ends n loop ends (ok none s) short = tt
  go_on-Ends n loop ends (ok (some (rest, args)) s) short = ends rest args s short
  go_on-Ends n loop ends (panic message) short = tt
  go_on-Ends n loop ends out_of_fuel short = short
  go_on-Ends n loop ends fault short = tt

  vprintfmt-Ends :
      (fuel : ℕ) (fmt : List ℕ) (args : List Arg) (s : S)
      → length fmt < fuel
      → Ends (vprintfmt out buf fuel fmt args s)
  unfolding vprintfmt
  vprintfmt-Ends zero fmt args s lt = absurd (omega (arith, lt))
  vprintfmt-Ends (suc fuel) fmt args s lt =
      go_on-Ends (length fmt) (vprintfmt out buf fuel)
        (λ rest left t short. vprintfmt-Ends fuel rest left t (omega (arith, lt, short)))
        (format_round out buf fmt args s) (format_round-Shortens fmt args s)

  Ends-ne : (o : Outcome S (Unit {0})) → Ends o → o ≢ out_of_fuel
  Ends-ne o ends e = absurd (omega (arith, subst Ends e ends))

  -- Whatever the callback does, a format shorter than the fuel does not use it up.
  pub vprintfmt-ends :
      (fuel : ℕ) (fmt : List ℕ) (args : List Arg) (s : S)
      → length fmt < fuel
      → vprintfmt out buf fuel fmt args s ≢ out_of_fuel
  vprintfmt-ends fuel fmt args s lt =
      Ends-ne (vprintfmt out buf fuel fmt args s) (vprintfmt-Ends fuel fmt args s lt)
