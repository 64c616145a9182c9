-- ===== src/Print/Written.antt =====
-- `vprintfmt` of lib/print.c prints what a format that is written down means.
use riscv_mos.Base.{
  ℕ, zero, suc, ◌-◌, ◌^◌, ◌≤◌, ◌<◌, ◌≡◌, refl, ap, ◌∙◌, arith, Bool, true, false, ◌==◌,
  if◌then◌else◌, Option, none, some, List, [], ◌∷◌, length, length-append, Bool-cases, inl, inr,
  u64,
}
use riscv_mos.Print.{Sink, Buf}
use riscv_mos.Print.Number.{numeral, layout}
use riscv_mos.Print.Format.{Arg, word, text, Spec, num_of, is_neg, conversion, vprintfmt}
use riscv_mos.Print.Rendering.{
  Directive, literal, directive, next, directives, render_one, joined, render, IsStream, printed,
}
use riscv_mos.Print.Rounds.{vprintfmt-render}
use riscv_mos.Print.Pieces.{
  Letter, binary, decimal, octal, unsigned, hex, upper_hex, one_char, chars, letter, Piece, byte,
  item, mark, width_digits, written, signed, wrapped, shown, meaning, ArePieces,
}
use riscv_mos.Print.Directive.{at_width, spec_of, take_spec-written}

-- The code's view of a number.
signed-code :
    (long : Bool) (n : ℕ)
    → let num = num_of long n in
      let neg_flag = is_neg num in
      (neg_flag ≡ (signed long n).0)
      × ((if neg_flag then u64 (2 ^ 64 - num) else num) ≡ (signed long n).1)
      × (num ≡ wrapped (signed long n))
signed-code true n = (ground arith, ground arith, ground arith)
signed-code false n = (ground arith, ground arith, ground arith)

module _ (left zeros : Bool) (width : ℕ) (long : Bool) (small : width < 2 ^ 31)
    (rest : List ℕ) where
  abbrev Shows : Letter → List Arg → Type 0
  Shows l args =
      render_one (directive (conversion (letter l)) (spec_of left zeros width long l small rest))
        args
      ≡ shown (item left zeros width long l) args

  -- A number without a sign.
  plain_number :
      (base : ℕ) (upper : Bool) (n : ℕ) (args : List Arg)
      → let pad : ℕ = if zeros then b'0' else b' ' in
        ◌≡◌ {A = Option (List ℕ × List Arg)}
          (some (layout false width left pad (numeral 64 (num_of long n) base upper), args))
          (some
            (layout false width left pad (numeral 64 (wrapped (signed long n)) base upper), args))
  plain_number base upper n args =
      ap
        (λ (v : ℕ).
          some (
            layout false width left (if zeros then b'0' else b' ') (numeral 64 v base upper),
            args,
          ))
        (signed-code long n).2

  word-Shows : (l : Letter) (n : ℕ) (args : List Arg) → Shows l (word n ∷ args)
  word-Shows binary n args = plain_number 2 false n args
  word-Shows decimal n args =
      let pad : ℕ = if zeros then b'0' else b' ' in
      let num : ℕ = num_of long n in
      let u : ℕ = if is_neg num then u64 (2 ^ 64 - num) else num in
      let (sign_same, size_same, rest_same) = signed-code long n in
      ap (λ (neg : Bool). some (layout neg width left pad (numeral 64 u 10 false), args)) sign_same
      ∙ ap (λ (v : ℕ). some (layout (signed long n).0 width left pad (numeral 64 v 10 false), args))
          size_same
  word-Shows octal n args = plain_number 8 false n args
  word-Shows unsigned n args = plain_number 10 false n args
  word-Shows hex n args = plain_number 16 false n args
  word-Shows upper_hex n args = plain_number 16 true n args
  word-Shows one_char n args = refl
  word-Shows chars n args = refl

  text-Shows : (l : Letter) (t : List ℕ) (args : List Arg) → Shows l (text t ∷ args)
  text-Shows binary t args = refl
  text-Shows decimal t args = refl
  text-Shows octal t args = refl
  text-Shows unsigned t args = refl
  text-Shows hex t args = refl
  text-Shows upper_hex t args = refl
  text-Shows one_char t args = refl
  text-Shows chars t args = refl

  nothing-Shows : (l : Letter) → Shows l []
  nothing-Shows binary = refl
  nothing-Shows decimal = refl
  nothing-Shows octal = refl
  nothing-Shows unsigned = refl
  nothing-Shows hex = refl
  nothing-Shows upper_hex = refl
  nothing-Shows one_char = refl
  nothing-Shows chars = refl

  render_one-Shows : (l : Letter) (args : List Arg) → Shows l args
  render_one-Shows l [] = nothing-Shows l
  render_one-Shows l (word n ∷ args) = word-Shows l n args
  render_one-Shows l (text t ∷ args) = text-Shows l t args

length-mark : (b : Bool) (c : ℕ) (xs : List ℕ) → length xs ≤ length (mark b c xs)
length-mark true c xs = omega arith
length-mark false c xs = omega arith

length-width_digits : (width : ℕ) (xs : List ℕ) → length xs ≤ length (width_digits width xs)
length-width_digits width xs = elim (Bool-cases (width == 0)) [
  | inl none' ↦ rw none' (omega arith)
  | inr wide ↦ rw wide (omega (arith, length-append (numeral 32 width 10 false) xs))
]

-- The first directive of a format, and what it and the rest print.
next-byte : (c : ℕ) (rest : List ℕ) → (c == b'%') ≡ false → next (c ∷ rest) ≡ some (literal c, rest)
next-byte c rest plain = rw plain refl

abbrev from_spec : Spec × List ℕ → Option (Directive × List ℕ)
from_spec (spec, rest) = elim rest [
  | [] ↦ none
  | k ∷ after ↦ some (directive (conversion k) spec, after)
]

next-item :
    (left zeros : Bool) (width : ℕ) (long : Bool) (l : Letter) (small : width < 2 ^ 31)
    (rest : List ℕ)
    → next (b'%' ∷ mark left b'-' (mark zeros b'0' (at_width left zeros width long l small rest)))
      ≡ some (directive (conversion (letter l)) (spec_of left zeros width long l small rest), rest)
next-item left zeros width long l small rest =
    ap from_spec (take_spec-written left zeros width long l small rest)

abbrev rendered_next : (fuel : ℕ) → List Arg → Option (Directive × List ℕ) → Option (List ℕ)
rendered_next fuel args o =
    render (elim o [ none ↦ [] | some (d, rest) ↦ d ∷ directives fuel rest ]) args

abbrev rendered_one : (fuel : ℕ) → List ℕ → Option (List ℕ × List Arg) → Option (List ℕ)
rendered_one fuel rest o = elim o [
  | none ↦ none
  | some (bytes, after) ↦ joined bytes (render (directives fuel rest) after)
]

render-written :
    (fuel : ℕ) (ps : List Piece) (args : List Arg)
    → length (written ps) ≤ fuel
    → ArePieces ps
    → render (directives fuel (written ps)) args ≡ meaning ps args
unfolding written meaning render directives
render-written zero [] args le h = refl
render-written (suc fuel) [] args le h = refl
render-written zero (byte c ∷ ps) args le h = absurd (omega (arith, le))
render-written (suc fuel) (byte c ∷ ps) args le (plain, h) =
    ap (rendered_next fuel args) (next-byte c (written ps) plain)
    ∙ ap (joined (c ∷ [])) (render-written fuel ps args (omega (arith, le)) h)
render-written zero (item left zeros width long l ∷ ps) args le h = absurd (omega (arith, le))
render-written (suc fuel) (item left zeros width long l ∷ ps) args le (small, h) =
    let rest : List ℕ = written ps in
    let at_letter' : List ℕ = mark long b'l' (letter l ∷ rest) in
    let shorter : length rest ≤ fuel = omega (
      arith,
      le,
      length-mark left b'-' (mark zeros b'0' (width_digits width at_letter')),
      length-mark zeros b'0' (width_digits width at_letter'),
      length-width_digits width at_letter',
      length-mark long b'l' (letter l ∷ rest),
    ) in
    ap (rendered_next fuel args) (next-item left zeros width long l small rest)
    ∙ ap (λ (o : Option (List ℕ × List Arg)). rendered_one fuel rest o)
        (render_one-Shows left zeros width long small rest l args)
    ∙ by_shown (shown (item left zeros width long l) args)
        (λ after. render-written fuel ps after shorter h)
  where
    by_shown :
        (o : Option (List ℕ × List Arg))
        → ((after : List Arg) → render (directives fuel (written ps)) after ≡ meaning ps after)
        → rendered_one fuel (written ps) o
          ≡ (elim o [ none ↦ none | some (bytes, after) ↦ joined bytes (meaning ps after) ])
    by_shown none same = refl
    by_shown (some (bytes, after)) same = ap (joined bytes) (same after)

-- For a sink to which the pieces of a text are as good as the text, a format that is written from bytes
-- other than `%` and directives, with widths below 2 ^ 31, and more fuel than the format has bytes,
-- `vprintfmt` ends. It hands the sink, in order, each byte and what each directive shows of its
-- argument: the number in the base of the letter, as a `long` or an `int`, signed for `d` and as a number
-- of 64 bits otherwise, the character, or the string, in a field of the width, with blanks or zeros, at
-- the left or the right; or it runs into an argument that is missing or of another type.
pub vprintfmt-written :
    {S : Type 0} (out : Sink S) (buf : Buf)
    → IsStream out
    → (fuel : ℕ) (ps : List Piece) (args : List Arg) (s : S) → ArePieces ps
    → length (written ps) < fuel
    → vprintfmt out buf fuel (written ps) args s ≡ printed out (meaning ps args) s
vprintfmt-written out buf stream fuel ps args s pieces lt =
    vprintfmt-render out buf stream fuel (written ps) args s lt
    ∙ ap (λ o. printed out o s) (render-written (length (written ps)) ps args (omega arith) pieces)
