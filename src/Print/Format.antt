-- ===== src/Print/Format.antt =====
-- `vprintfmt` of lib/print.c.
use riscv_mos.Base.{
  ℕ, zero, suc, ◌+◌, ◌-◌, ◌*◌, ◌^◌, Bool, true, false, not, ◌&&◌, ◌||◌, ◌==◌, leb, if◌then◌else◌,
  Option, none, some, List, [], ◌∷◌, u64, sign_extend, u8,
}
use riscv_mos.Kernel.{ok, out_of_fuel, fault, Cmd, ◌>>=◌, ◌>>◌, pure, modify}
use riscv_mos.Print.{Sink, Buf, print_num, print_char, print_str}

-- An argument behind the format: a number, or a pointer to a string.
pub data Arg : Type 0 where
  word : ℕ → Arg
  text : List ℕ → Arg

-- `*fmt == c`, and the format behind it.
abbrev pub take_flag : (c : ℕ) → List ℕ → Bool × List ℕ
take_flag c [] = (false, [])
take_flag c (x ∷ xs) = if x == c then (true, xs) else (false, x ∷ xs)

-- The loop that gets the width. It is not bounded; C leaves the overflow of an `int` undefined.
unfoldable pub take_width : (width : ℕ) → List ℕ → ℕ × List ℕ
take_width width [] = (width, [])
take_width width (x ∷ xs) =
    let rest = take_width (width * 10 + (x - b'0')) xs in
    if leb b'0' x && leb x b'9' then rest else (width, x ∷ xs)

-- What stands between a `%` and the letter behind it.
pub record Spec : Type 0 where
  pub ladjust : Bool
  pub padc : ℕ
  pub width : ℕ
  pub long_flag : Bool

unfoldable pub take_spec : List ℕ → Spec × List ℕ
take_spec fmt =
    let (left, fmt) = take_flag b'-' fmt in
    let (zeros, fmt) = take_flag b'0' fmt in
    let (wide, fmt) = take_width 0 fmt in
    let (long, fmt) = take_flag b'l' fmt in
    (
      record {
        ladjust = left;
        padc = if zeros then b'0' else b' ';
        width = wide;
        long_flag = long;
      },
      fmt,
    )

-- `va_arg(ap, long int)` or `va_arg(ap, int)`, as a `long`.
abbrev pub num_of : (long_flag : Bool) → ℕ → ℕ
num_of long_flag n = if long_flag then u64 n else sign_extend n

-- `num < 0`
abbrev pub is_neg : ℕ → Bool
is_neg num = leb (2 ^ 63) num

-- An argument that is missing or of another type is undefined in C.
abbrev pub take_word : {S : Type 0} → List Arg → Cmd S (ℕ × List Arg)
take_word (word n ∷ rest) s = ok (n, rest) s
take_word (text t ∷ rest) s = fault
take_word [] s = fault

abbrev pub take_text : {S : Type 0} → List Arg → Cmd S (List ℕ × List Arg)
take_text (text t ∷ rest) s = ok (t, rest) s
take_text (word n ∷ rest) s = fault
take_text [] s = fault

-- The cases of `switch (*fmt)`.
pub data Conversion : Type 0 where
  number : (base : ℕ) (is_signed upcase : Bool) → Conversion
  character string : Conversion
  other : ℕ → Conversion

abbrev pub conversion : ℕ → Conversion
conversion c =
    if c == b'b'
    then number 2 false false
    else if c == b'd' || c == b'D'
    then number 10 true false
    else if c == b'o' || c == b'O'
    then number 8 false false
    else if c == b'u' || c == b'U'
    then number 10 false false
    else if c == b'x'
    then number 16 false false
    else if c == b'X'
    then number 16 false true
    else if c == b'c'
    then character
    else if c == b's'
    then string
    else other c

module _ {S : Type 0} (out : Sink S) (buf : Buf) where
  unfoldable pub convert : Conversion → Spec → List Arg → Cmd S (List Arg)
  convert (number base is_signed upcase) spec args = take_word args >>= λ (n, rest).
      let num = num_of spec.long_flag n in
      let neg_flag = is_signed && is_neg num in
      let u = if neg_flag then u64 (2 ^ 64 - num) else num in
      modify (print_num out buf u base neg_flag spec.width spec.ladjust spec.padc upcase)
      >> pure rest
  convert character spec args = take_word args >>= λ (n, rest).
      modify (print_char out (u8 n) spec.width spec.ladjust) >> pure rest
  convert string spec args =
      take_text args >>= λ (t, rest). modify (print_str out t spec.width spec.ladjust) >> pure rest
  convert (other c) spec args = modify (out (c ∷ [])) >> pure args

  -- From the letter of a conversion on: the rest of the format, and of the arguments. At the end of the
  -- format `fmt` stays there.
  abbrev pub switch : Spec → List ℕ → List Arg → Cmd S (List ℕ × List Arg)
  switch spec [] args = pure ([], args)
  switch spec (c ∷ fmt) args = convert (conversion c) spec args >>= λ rest. pure (fmt, rest)

  -- A round of the loop; there is none after a `break`.
  unfoldable pub format_round : List ℕ → List Arg → Cmd S (Option (List ℕ × List Arg))
  format_round [] args = pure none
  format_round (c ∷ fmt) args =
      if not (c == b'%') then modify (out (c ∷ [])) >> pure (some (fmt, args)) else elim fmt [
        | [] ↦ pure none
        | x ∷ xs ↦
            let (spec, rest) = take_spec (x ∷ xs) in
            switch spec rest args >>= λ next. pure (some next)
      ]

  abbrev pub go_on :
      (List ℕ → List Arg → Cmd S (Unit {0})) → Option (List ℕ × List Arg) → Cmd S (Unit {0})
  go_on loop none = pure tt
  go_on loop (some (fmt, args)) = loop fmt args

  unfoldable pub vprintfmt : ℕ → (fmt : List ℕ) → List Arg → Cmd S (Unit {0})
  vprintfmt zero fmt args = λ s. out_of_fuel
  vprintfmt (suc fuel) fmt args = format_round fmt args >>= go_on (vprintfmt fuel)
