-- ===== src/Print/Pieces.antt =====
-- Formats for `vprintfmt` of lib/print.c as they are written down, and what they mean.
use riscv_mos.Base.{
  ℕ, ◌-◌, ◌^◌, ◌<◌, ◌%◌, ◌≡◌, Bool, true, false, ◌==◌, ltb, if◌then◌else◌, Option, none, some, List,
  [], ◌∷◌, ◌++◌,
}
use riscv_mos.Print.Number.{numeral, layout}
use riscv_mos.Print.Format.{Arg, word, text}
use riscv_mos.Print.Rendering.{field, joined}

-- The letters of the conversions.
pub data Letter : Type 0 where
  binary : Letter
  decimal : Letter
  octal : Letter
  unsigned : Letter
  hex : Letter
  upper_hex : Letter
  one_char : Letter
  chars : Letter

abbrev pub letter : Letter → ℕ
letter binary = b'b'
letter decimal = b'd'
letter octal = b'o'
letter unsigned = b'u'
letter hex = b'x'
letter upper_hex = b'X'
letter one_char = b'c'
letter chars = b's'

-- A piece of a format: a byte that is no `%`, or a directive by its two flags, its width (0 for none), `l` and
-- its letter.
pub data Piece : Type 0 where
  byte : ℕ → Piece
  item : (left zeros : Bool) (width : ℕ) (long : Bool) → Letter → Piece

-- The format that the pieces make.
abbrev pub mark : Bool → (c : ℕ) → List ℕ → List ℕ
mark b c rest = if b then c ∷ rest else rest

abbrev pub width_digits : (width : ℕ) → List ℕ → List ℕ
width_digits width rest = if width == 0 then rest else numeral 32 width 10 false ++ rest

unfoldable pub written : List Piece → List ℕ
written [] = []
written (byte c ∷ ps) = c ∷ written ps
written (item left zeros width long l ∷ ps) =
    b'%'
    ∷ mark left b'-' (mark zeros b'0' (width_digits width (mark long b'l' (letter l ∷ written ps))))

-- A `long` or an `int`, by its sign and its magnitude.
abbrev pub signed : (long : Bool) → ℕ → Bool × ℕ
signed true n =
    if ltb (n % 2 ^ 64) (2 ^ 63) then (false, n % 2 ^ 64) else (true, 2 ^ 64 - n % 2 ^ 64)
signed false n =
    if ltb (n % 2 ^ 32) (2 ^ 31) then (false, n % 2 ^ 32) else (true, 2 ^ 32 - n % 2 ^ 32)

-- As a number of 64 bits without a sign: a negative one counts down from 2 ^ 64.
abbrev pub wrapped : Bool × ℕ → ℕ
wrapped (negative, magnitude) = if negative then 2 ^ 64 - magnitude else magnitude

-- What a directive shows of a number.
abbrev pub shown_number : (left zeros : Bool) (width : ℕ) (long : Bool) → Letter → ℕ → List ℕ
shown_number left zeros width long l n =
    let pad = if zeros then b'0' else b' ' in
    let plain = λ (base : ℕ) (upper : Bool).
      layout false width left pad (numeral 64 (wrapped (signed long n)) base upper) in
    elim l [
      | binary ↦ plain 2 false
      | decimal ↦ layout (signed long n).0 width left pad (numeral 64 (signed long n).1 10 false)
      | octal ↦ plain 8 false
      | unsigned ↦ plain 10 false
      | hex ↦ plain 16 false
      | upper_hex ↦ plain 16 true
      | one_char ↦ field width left (n % 256 ∷ [])
      | chars ↦ []
    ]

-- What a piece shows, and the arguments that it leaves; none without an argument of its type.
abbrev pub shown : Piece → List Arg → Option (List ℕ × List Arg)
shown (byte c) args = some (c ∷ [], args)
shown (item left zeros width long chars) (text t ∷ args) = some (field width left t, args)
shown (item left zeros width long chars) (word n ∷ args) = none
shown (item left zeros width long binary) (word n ∷ args) =
    some (shown_number left zeros width long binary n, args)
shown (item left zeros width long decimal) (word n ∷ args) =
    some (shown_number left zeros width long decimal n, args)
shown (item left zeros width long octal) (word n ∷ args) =
    some (shown_number left zeros width long octal n, args)
shown (item left zeros width long unsigned) (word n ∷ args) =
    some (shown_number left zeros width long unsigned n, args)
shown (item left zeros width long hex) (word n ∷ args) =
    some (shown_number left zeros width long hex n, args)
shown (item left zeros width long upper_hex) (word n ∷ args) =
    some (shown_number left zeros width long upper_hex n, args)
shown (item left zeros width long one_char) (word n ∷ args) =
    some (shown_number left zeros width long one_char n, args)
shown p args = none

unfoldable pub meaning : List Piece → List Arg → Option (List ℕ)
meaning [] args = some []
meaning (p ∷ ps) args = elim (shown p args) [
  | none ↦ none
  | some (bytes, rest) ↦ joined bytes (meaning ps rest)
]

-- Bytes are no `%`, and a width is an `int`.
abbrev pub IsPiece : Piece → Type 0
IsPiece (byte c) = (c == b'%') ≡ false
IsPiece (item left zeros width long l) = width < 2 ^ 31

abbrev pub ArePieces : List Piece → Type 0
ArePieces [] = Unit {0}
ArePieces (p ∷ ps) = IsPiece p × ArePieces ps
