-- ===== src/Print/Rendering.antt =====
-- `vprintfmt` of lib/print.c against a description of formats: the format is a list of directives, and
-- each prints one text.
use riscv_mos.Base.{
  ℕ, zero, suc, ◌-◌, ◌^◌, ◌≡◌, Bool, not, ◌&&◌, ◌==◌, if◌then◌else◌, Option, none, some, List, [],
  ◌∷◌, ◌++◌, length, u64, u8,
}
use riscv_mos.Kernel.{ok, fault, Cmd}
use riscv_mos.Print.{Sink}
use riscv_mos.Print.Buffer.{repeat}
use riscv_mos.Print.Number.{numeral, layout}
use riscv_mos.Print.Format.{
  Arg, word, text, Spec, take_spec, num_of, is_neg, Conversion, number, character, string, other,
  conversion,
}

pub data Directive : Type 0 where
  literal : ℕ → Directive
  directive : Conversion → Spec → Directive

-- The first directive, and the rest of the format. A `%` with no letter ends the format.
abbrev pub next : List ℕ → Option (Directive × List ℕ)
next [] = none
next (c ∷ fmt) =
    if not (c == b'%')
    then some (literal c, fmt)
    else let (spec, rest) = take_spec fmt in
      elim rest [ [] ↦ none | k ∷ after ↦ some (directive (conversion k) spec, after) ]

unfoldable pub directives : ℕ → List ℕ → List Directive
directives zero fmt = []
directives (suc fuel) fmt = elim (next fmt) [
  | none ↦ []
  | some (d, rest) ↦ d ∷ directives fuel rest
]

-- A format has no more directives than bytes.
abbrev pub parse : List ℕ → List Directive
parse fmt = directives (length fmt) fmt

-- A text in a field of `width` characters.
abbrev pub field : (width : ℕ) (ladjust : Bool) → List ℕ → List ℕ
field width ladjust shown =
    let blanks = repeat (width - length shown) b' ' in
    if ladjust then shown ++ blanks else blanks ++ shown

-- What a directive prints, and the arguments that it leaves; none without an argument of its type.
abbrev pub render_one : Directive → List Arg → Option (List ℕ × List Arg)
render_one (literal c) args = some (c ∷ [], args)
render_one (directive (number base is_signed upcase) spec) (word n ∷ args) =
    let num = num_of spec.long_flag n in
    let neg_flag = is_signed && is_neg num in
    let u = if neg_flag then u64 (2 ^ 64 - num) else num in
    some (layout neg_flag spec.width spec.ladjust spec.padc (numeral 64 u base upcase), args)
render_one (directive character spec) (word n ∷ args) =
    some (field spec.width spec.ladjust (u8 n ∷ []), args)
render_one (directive string spec) (text t ∷ args) = some (field spec.width spec.ladjust t, args)
render_one (directive (other c) spec) args = some (c ∷ [], args)
render_one d args = none

abbrev pub joined : List ℕ → Option (List ℕ) → Option (List ℕ)
joined shown none = none
joined shown (some more) = some (shown ++ more)

unfoldable pub render : List Directive → List Arg → Option (List ℕ)
render [] args = some []
render (d ∷ ds) args = elim (render_one d args) [
  | none ↦ none
  | some (shown, rest) ↦ joined shown (render ds rest)
]

-- It does not matter to a sink in how many pieces it gets a text.
abbrev pub IsStream : {S : Type 0} → Sink S → Type 0
IsStream {S} out =
    ((s : S) → out [] s ≡ s) × ((xs ys : List ℕ) (s : S) → out (xs ++ ys) s ≡ out ys (out xs s))

abbrev pub sent : {S A : Type 0} → Sink S → Option (List ℕ × A) → Cmd S A
sent out none s = fault
sent out (some (shown, a)) s = ok a (out shown s)

-- The whole output.
abbrev pub printed : {S : Type 0} → Sink S → Option (List ℕ) → Cmd S (Unit {0})
printed out none s = fault
printed out (some shown) s = ok tt (out shown s)
