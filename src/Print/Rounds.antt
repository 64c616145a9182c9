-- ===== src/Print/Rounds.antt =====
-- `vprintfmt` of lib/print.c prints the directives of its format.
use riscv_mos.Base.{
  ℕ, zero, suc, ◌-◌, ◌^◌, ◌≤◌, ◌<◌, ◌≡◌, refl, ap, sym, ◌∙◌, arith, Bool, true, false, ◌&&◌, ◌==◌,
  ltb, if◌then◌else◌, Option, none, some, List, [], ◌∷◌, length, Bool-cases, inl, inr, u64, u8,
}
use riscv_mos.Kernel.{ok, fault, Cmd, and_then, ◌>>=◌, pure}
use riscv_mos.Print.{Sink, Buf, print_char, print_str, spaces, at_least}
use riscv_mos.Print.Buffer.{repeat}
use riscv_mos.Print.Number.{print_num-layout}
use riscv_mos.Print.Format.{
  Arg, word, text, Spec, take_width, take_spec, num_of, is_neg, Conversion, number, character,
  string, other, conversion, convert, switch, format_round, go_on, vprintfmt,
}
use riscv_mos.Print.Shorter.{IsShorter, next-IsShorter, directives-fuel}
use riscv_mos.Print.Rendering.{
  Directive, directive, next, directives, parse, field, render_one, joined, render, IsStream, sent,
  printed,
}

wide_gap : (width n : ℕ) → at_least width n - n ≡ width - n
wide_gap width n = ground arith

module _ {S : Type 0} (out : Sink S) (buf : Buf) (stream : IsStream out) where
  spaces-repeat : (n : ℕ) (s : S) → spaces out n s ≡ out (repeat n b' ') s
  spaces-repeat zero s = sym (stream.0 s)
  spaces-repeat (suc n) s =
      spaces-repeat n (out (b' ' ∷ []) s) ∙ sym (stream.1 (b' ' ∷ []) (repeat n b' ') s)

  print_str-field :
      (t : List ℕ) (width : ℕ) (ladjust : Bool) (s : S)
      → print_str out t width ladjust s ≡ out (field width ladjust t) s
  print_str-field t width true s = rw (wide_gap width (length t)) (
      spaces-repeat (width - length t) (out t s)
      ∙ sym (stream.1 t (repeat (width - length t) b' ') s))
  print_str-field t width false s = rw (wide_gap width (length t)) (
      ap (out t) (spaces-repeat (width - length t) s)
      ∙ sym (stream.1 (repeat (width - length t) b' ') t s))

  print_char-field :
      (c width : ℕ) (ladjust : Bool) (s : S)
      → print_char out c width ladjust s ≡ out (field width ladjust (c ∷ [])) s
  print_char-field c width true s =
      let gap : (if ltb width 1 then 1 else width) - 1 ≡ width - 1 = ground arith in
      ap (λ (n : ℕ). spaces out n (out (c ∷ []) s)) gap
      ∙ spaces-repeat (width - 1) (out (c ∷ []) s)
      ∙ sym (stream.1 (c ∷ []) (repeat (width - 1) b' ') s)
  print_char-field c width false s =
      let gap : (if ltb width 1 then 1 else width) - 1 ≡ width - 1 = ground arith in
      ap (λ (n : ℕ). out (c ∷ []) (spaces out n s)) gap
      ∙ ap (out (c ∷ [])) (spaces-repeat (width - 1) s)
      ∙ sym (stream.1 (repeat (width - 1) b' ') (c ∷ []) s)

  convert-render_one :
      (conv : Conversion) (spec : Spec) (args : List Arg) (s : S)
      → convert out buf conv spec args s ≡ sent out (render_one (directive conv spec) args) s
  unfolding convert
  convert-render_one (number base is_signed upcase) spec (word n ∷ rest) s =
      let num = num_of spec.long_flag n in
      let neg_flag = is_signed && is_neg num in
      let u = if neg_flag then u64 (2 ^ 64 - num) else num in
      ap (λ (f : S → S). ok rest (f s))
        (print_num-layout out buf u base neg_flag spec.width spec.ladjust spec.padc upcase)
  convert-render_one (number base is_signed upcase) spec (text t ∷ rest) s = refl
  convert-render_one (number base is_signed upcase) spec [] s = refl
  convert-render_one character spec (word n ∷ rest) s =
      ap (ok rest) (print_char-field (u8 n) spec.width spec.ladjust s)
  convert-render_one character spec (text t ∷ rest) s = refl
  convert-render_one character spec [] s = refl
  convert-render_one string spec (word n ∷ rest) s = refl
  convert-render_one string spec (text t ∷ rest) s =
      ap (ok rest) (print_str-field t spec.width spec.ladjust s)
  convert-render_one string spec [] s = refl
  convert-render_one (other c) spec (word n ∷ rest) s = refl
  convert-render_one (other c) spec (text t ∷ rest) s = refl
  convert-render_one (other c) spec [] s = refl

  -- The loop from a directive on, when `k` is the rest of the loop.
  abbrev then_print :
      (k : List ℕ → List Arg → Cmd S (Unit {0}))
      → Option (Directive × List ℕ)
      → List Arg
      → Cmd S (Unit {0})
  then_print k none args s = ok tt s
  then_print k (some (d, rest)) args s = elim (render_one d args) [
    | none ↦ fault
    | some (shown, left) ↦ k rest left (out shown s)
  ]

  convert-sent :
      (k : List ℕ → List Arg → Cmd S (Unit {0})) (o : Option (List ℕ × List Arg)) (after : List ℕ)
      (s : S)
      → and_then
          (and_then (and_then (sent out o s) (λ rest. pure (after, rest))) (λ a. pure (some a)))
          (go_on out buf k)
        ≡ (elim o [ none ↦ fault | some (shown, left) ↦ k after left (out shown s) ])
  convert-sent k none after s = refl
  convert-sent k (some (shown, left)) after s = refl

  round-convert :
      (k : List ℕ → List Arg → Cmd S (Unit {0})) (conv : Conversion) (spec : Spec) (after : List ℕ)
      (args : List Arg) (s : S)
      → and_then
          (and_then
            (and_then (convert out buf conv spec args s) (λ rest. pure (after, rest)))
            (λ a. pure (some a)))
          (go_on out buf k)
        ≡ then_print k (some (directive conv spec, after)) args s
  round-convert k conv spec after args s =
      ap
        (λ r.
          and_then (and_then (and_then r (λ rest. pure (after, rest))) (λ a. pure (some a)))
            (go_on out buf k))
        (convert-render_one conv spec args s)
      ∙ convert-sent k (render_one (directive conv spec) args) after s

  round-after_spec :
      (k : List ℕ → List Arg → Cmd S (Unit {0}))
      → ((args : List Arg) (s : S) → k [] args s ≡ ok tt s)
      → (spec : Spec) (rest : List ℕ) (args : List Arg) (s : S)
      → ((switch out buf spec rest args >>= λ after. pure (some after)) >>= go_on out buf k) s
        ≡ then_print k
            (elim rest [ [] ↦ none | c ∷ after ↦ some (directive (conversion c) spec, after) ])
            args
            s
  round-after_spec k stop spec [] args s = stop args s
  round-after_spec k stop spec (c ∷ after) args s = round-convert k (conversion c) spec after args s

  round-bare :
      (k : List ℕ → List Arg → Cmd S (Unit {0})) (args : List Arg) (s : S)
      → ok tt s
        ≡ then_print k
            (let (spec, rest) = take_spec [] in
              elim rest [ [] ↦ none | c ∷ after ↦ some (directive (conversion c) spec, after) ])
            args
            s
  unfolding take_spec take_width
  round-bare k args s = refl

  round-next :
      (k : List ℕ → List Arg → Cmd S (Unit {0}))
      → ((args : List Arg) (s : S) → k [] args s ≡ ok tt s)
      → (fmt : List ℕ) (args : List Arg) (s : S)
      → (format_round out buf fmt args >>= go_on out buf k) s ≡ then_print k (next fmt) args s
  unfolding format_round
  round-next k stop [] args s = refl
  round-next k stop (c ∷ []) args s = elim (Bool-cases (c == b'%')) [
    | inl percent ↦ rw percent (round-bare k args s)
    | inr plain ↦ rw plain refl
  ]
  round-next k stop (c ∷ x ∷ xs) args s = elim (Bool-cases (c == b'%')) [
    | inl percent ↦
        rw percent (round-after_spec k stop (take_spec (x ∷ xs)).0 (take_spec (x ∷ xs)).1 args s)
    | inr plain ↦ rw plain refl
  ]

  vprintfmt-stop :
      (fuel : ℕ) (args : List Arg) (s : S) → vprintfmt out buf (suc fuel) [] args s ≡ ok tt s
  unfolding vprintfmt format_round
  vprintfmt-stop fuel args s = refl

  printed-joined :
      (shown : List ℕ) (o : Option (List ℕ)) (s : S)
      → printed out o (out shown s) ≡ printed out (joined shown o) s
  printed-joined shown none s = refl
  printed-joined shown (some more) s = ap (λ (t : S). ok tt t) (sym (stream.1 shown more s))

  stopped : (args : List Arg) (s : S) → ok tt s ≡ printed out (render [] args) s
  unfolding render
  stopped args s = ap (ok tt) (sym (stream.0 s))

  abbrev Renders : ℕ → Type 0
  Renders fuel =
      (fmt : List ℕ) (args : List Arg) (s : S)
      → length fmt ≤ fuel
      → vprintfmt out buf (suc fuel) fmt args s ≡ printed out (render (directives fuel fmt) args) s

  after_render :
      (fuel : ℕ)
      → Renders fuel
      → (o : Option (List ℕ × List Arg)) (rest : List ℕ) (s : S) → length rest ≤ fuel
      → (elim o [
        | none ↦ fault
        | some (shown, left) ↦ vprintfmt out buf (suc fuel) rest left (out shown s)
      ])
        ≡ printed out
            (elim o [
              | none ↦ none
              | some (shown, left) ↦ joined shown (render (directives fuel rest) left)
            ])
            s
  after_render fuel ih none rest s le = refl
  after_render fuel ih (some (shown, left)) rest s le =
      ih rest left (out shown s) le ∙ printed-joined shown (render (directives fuel rest) left) s

  after_next :
      (fuel : ℕ)
      → Renders fuel
      → (o : Option (Directive × List ℕ)) (args : List Arg) (s : S) → IsShorter (suc fuel) o
      → then_print (vprintfmt out buf (suc fuel)) o args s
        ≡ printed out
            (render (elim o [ none ↦ [] | some (d, rest) ↦ d ∷ directives fuel rest ]) args)
            s
  unfolding render
  after_next fuel ih none args s short = stopped args s
  after_next fuel ih (some (d, rest)) args s short =
      after_render fuel ih (render_one d args) rest s (omega (arith, short))

  vprintfmt-directives : (fuel : ℕ) → Renders fuel
  unfolding vprintfmt directives
  vprintfmt-directives zero [] args s le = vprintfmt-stop zero args s ∙ stopped args s
  vprintfmt-directives zero (c ∷ fmt) args s le = absurd (omega (arith, le))
  vprintfmt-directives (suc fuel) fmt args s le =
      round-next (vprintfmt out buf (suc fuel)) (vprintfmt-stop fuel) fmt args s
      ∙ after_next fuel (vprintfmt-directives fuel) (next fmt) args s
          (shorter (next fmt) (length fmt) le (next-IsShorter fmt))
    where
      shorter :
          (o : Option (Directive × List ℕ)) (n : ℕ)
          → n ≤ suc fuel
          → IsShorter n o
          → IsShorter (suc fuel) o
      shorter none n le small = tt
      shorter (some (d, rest)) n le small = omega (arith, le, small)

-- For a sink to which the pieces of a text are as good as the text, and with more fuel than the format
-- has bytes, `vprintfmt` ends: it hands the sink the texts of the directives of the format, in order, or
-- it runs into an argument that is missing or of another type.
pub vprintfmt-render :
    {S : Type 0} (out : Sink S) (buf : Buf)
    → IsStream out
    → (fuel : ℕ) (fmt : List ℕ) (args : List Arg) (s : S) → length fmt < fuel
    → vprintfmt out buf fuel fmt args s ≡ printed out (render (parse fmt) args) s
vprintfmt-render out buf stream zero fmt args s lt = absurd (omega (arith, lt))
vprintfmt-render out buf stream (suc fuel) fmt args s lt =
    vprintfmt-directives out buf stream fuel fmt args s (omega (arith, lt))
    ∙ ap (λ ds. printed out (render ds args) s)
        (directives-fuel fuel (length fmt) fmt (omega (arith, lt)) (omega arith))
