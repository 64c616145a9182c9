-- ===== src/Print/Console.antt =====
-- The functions of kern/printk.c that print, on `printcharc` of kern/machine.c.
use mathlib.Core.List.{append-nil, append_assoc}
use riscv_mos.Base.{
  ℕ, zero, suc, ◌+◌, ◌-◌, ◌^◌, ◌≤◌, ◌<◌, ◌≡◌, refl, ap, sym, ◌∙◌, arith, Bool, true, false, ◌==◌,
  if◌then◌else◌, Option, none, some, List, [], ◌∷◌, ◌++◌, length, ◌∉◌, inl, u64,
}
use riscv_mos.Kernel.{ok, Cmd, and_then, pure, ◌>>◌}
use riscv_mos.Env.{Trapframe}
use riscv_mos.Print.{Sink, Buf}
use riscv_mos.Print.Number.{numeral, layout}
use riscv_mos.Print.Reading.{read_num, read_num-layout}
use riscv_mos.Print.Format.{Arg, word, num_of, is_neg, take_spec, take_width, vprintfmt}
use riscv_mos.Print.Rendering.{
  Directive, literal, next, directives, parse, joined, render, IsStream, printed,
}
use riscv_mos.Print.Rounds.{vprintfmt-render}

-- `printcharc` of kern/machine.c, on the bytes that have gone to the firmware's console.
abbrev pub printcharc : ℕ → List ℕ → List ℕ
printcharc ch console =
    let returned = if ch == b'\n' then console ++ b'\r' ∷ [] else console in returned ++ ch ∷ []

unfoldable pub outputk : Sink (List ℕ)
outputk [] console = console
outputk (c ∷ cs) console = outputk cs (printcharc c console)

-- `printk`, with as much fuel as the format can need.
abbrev pub printk : Buf → (fmt : List ℕ) → List Arg → Cmd (List ℕ) (Unit {0})
printk buf fmt args = vprintfmt outputk buf (length fmt + 1) fmt args

-- The formats of `print_tf`.
abbrev reg_format : List ℕ
reg_format = b'$' ∷ b'%' ∷ b'2' ∷ b'd' ∷ b' ' ∷ b'=' ∷ b' ' ∷ b'%' ∷ b'0' ∷ b'8' ∷ b'x' ∷ b'\n' ∷ []

abbrev sstatus_format : List ℕ
sstatus_format =
    b's' ∷ b's' ∷ b't' ∷ b'a' ∷ b't' ∷ b'u' ∷ b's' ∷ b' ' ∷ b' ' ∷ b'=' ∷ b' ' ∷ b'%' ∷ b'0' ∷ b'8'
    ∷ b'x' ∷ b'\n' ∷ []

abbrev sepc_format : List ℕ
sepc_format =
    b's' ∷ b'e' ∷ b'p' ∷ b'c' ∷ b' ' ∷ b' ' ∷ b'=' ∷ b' ' ∷ b'%' ∷ b'0' ∷ b'8' ∷ b'x' ∷ b'\n'
    ∷ b'\n' ∷ []

abbrev stval_format : List ℕ
stval_format =
    b's' ∷ b't' ∷ b'v' ∷ b'a' ∷ b'l' ∷ b' ' ∷ b' ' ∷ b' ' ∷ b' ' ∷ b'=' ∷ b' ' ∷ b'%' ∷ b'0' ∷ b'8'
    ∷ b'x' ∷ b'\n' ∷ []

abbrev scause_format : List ℕ
scause_format =
    b's' ∷ b'c' ∷ b'a' ∷ b'u' ∷ b's' ∷ b'e' ∷ b' ' ∷ b' ' ∷ b'=' ∷ b' ' ∷ b'%' ∷ b'0' ∷ b'8' ∷ b'x'
    ∷ b'\n' ∷ []

-- The loop over the registers from `i` on, with `left` rounds.
unfoldable pub print_regs : (left i : ℕ) → Buf → Trapframe → Cmd (List ℕ) (Unit {0})
print_regs zero i buf tf = pure tt
print_regs (suc left) i buf tf =
    printk buf reg_format (word i ∷ word (tf.regs i) ∷ []) >> print_regs left (i + 1) buf tf

unfoldable pub print_tf : Buf → Trapframe → Cmd (List ℕ) (Unit {0})
print_tf buf tf =
    print_regs 32 0 buf tf
    >> printk buf sstatus_format (word tf.sstatus ∷ [])
    >> printk buf sepc_format (word tf.sepc ∷ [])
    >> printk buf stval_format (word tf.stval ∷ [])
    >> printk buf scause_format (word tf.scause ∷ [])

abbrev pub panic_prefix : List ℕ
panic_prefix = b'p' ∷ b'a' ∷ b'n' ∷ b'i' ∷ b'c' ∷ b':' ∷ b' ' ∷ []

-- `panic`, up to its endless loop.
unfoldable pub panic : Buf → (s : List ℕ) → Cmd (List ℕ) (Unit {0})
panic buf s = printk buf panic_prefix [] >> printk buf s [] >> printk buf (b'\n' ∷ []) []

outputk-append :
    (xs ys : List ℕ) (console : List ℕ)
    → outputk (xs ++ ys) console ≡ outputk ys (outputk xs console)
unfolding outputk
outputk-append [] ys console = refl
outputk-append (x ∷ xs) ys console = outputk-append xs ys (printcharc x console)

outputk-IsStream : IsStream outputk
unfolding outputk
outputk-IsStream = (λ console. refl, outputk-append)

printk-render :
    (buf : Buf) (fmt : List ℕ) (args : List Arg) (console : List ℕ)
    → printk buf fmt args console ≡ printed outputk (render (parse fmt) args) console
printk-render buf fmt args console =
    vprintfmt-render outputk buf outputk-IsStream (length fmt + 1) fmt args console (omega arith)

-- A text without directives is its own rendering.
directives-plain :
    (fuel : ℕ) (t : List ℕ) (args : List Arg)
    → length t ≤ fuel
    → b'%' ∉ t
    → render (directives fuel t) args ≡ some t
unfolding directives render
directives-plain zero [] args le plain = refl
directives-plain (suc fuel) [] args le plain = refl
directives-plain zero (c ∷ t) args le plain = absurd (omega (arith, le))
directives-plain (suc fuel) (c ∷ t) args le plain =
    let this : (c == b'%') ≡ false = ground arith in
    let step : next (c ∷ t) ≡ some (literal c, t) = rw this refl in
    ap
      (λ (o : Option (Directive × List ℕ)).
        render (elim o [ none ↦ [] | some (d, rest) ↦ d ∷ directives fuel rest ]) args)
      step
    ∙ ap (joined (c ∷ [])) (directives-plain fuel t args (omega (arith, le)) (ground arith))

render-plain : (t : List ℕ) (args : List Arg) → b'%' ∉ t → render (parse t) args ≡ some t
render-plain t args plain = directives-plain (length t) t args (omega arith) plain

printk-plain :
    (buf : Buf) (t : List ℕ) (args : List Arg) (console : List ℕ)
    → b'%' ∉ t
    → printk buf t args console ≡ ok tt (outputk t console)
printk-plain buf t args console plain =
    printk-render buf t args console
    ∙ ap (λ o. printed outputk o console) (render-plain t args plain)

then_ok : {S : Type 0} (m n : Cmd S (Unit {0})) (s s1 : S) → m s ≡ ok tt s1 → (m >> n) s ≡ n s1
then_ok m n s s1 e = ap (λ r. and_then r (λ _. n)) e

-- The console gets a message of `panic` as it is, behind `panic: ` and with an end of line, if no `%`
-- stands in it.
pub panic-plain :
    (buf : Buf) (s : List ℕ) (console : List ℕ)
    → b'%' ∉ s
    → panic buf s console ≡ ok tt (outputk (panic_prefix ++ s ++ b'\n' ∷ []) console)
unfolding panic
panic-plain buf s console plain =
    let first = panic_prefix in
    let one = outputk first console in
    then_ok (printk buf first [] >> printk buf s []) _ _ (outputk s one) (
      then_ok (printk buf first []) _ console one (printk-plain buf first [] console refl)
      ∙ printk-plain buf s [] one plain)
    ∙ printk-plain buf (b'\n' ∷ []) [] (outputk s one) refl
    ∙ ap (ok tt) (
        sym (
          outputk-append (first ++ s) (b'\n' ∷ []) console
          ∙ ap (outputk (b'\n' ∷ [])) (outputk-append first s console)))

-- `num` for a signed conversion, as a sign and a magnitude.
abbrev pub magnitude : ℕ → Bool × ℕ
magnitude num = (is_neg num, if is_neg num then 2 ^ 64 - num else num)

abbrev pub signed_format : (long_flag : Bool) → List ℕ
signed_format true = b'%' ∷ b'l' ∷ b'd' ∷ []
signed_format false = b'%' ∷ b'd' ∷ []

-- A sink that keeps what it gets.
abbrev pub keep : Sink (List ℕ)
keep bytes sent = sent ++ bytes

pub keep-IsStream : IsStream keep
keep-IsStream = (λ sent. append-nil sent, λ xs ys sent. sym (append_assoc sent xs ys))

-- What `%d` and `%ld` print.
abbrev signed_text : (long_flag : Bool) → ℕ → List ℕ
signed_text long_flag n =
    let num = num_of long_flag n in
    layout (is_neg num) 0 false b' '
      (numeral 64 (if is_neg num then u64 (2 ^ 64 - num) else num) 10 false)

render-signed :
    (long_flag : Bool) (n : ℕ)
    → render (parse (signed_format long_flag)) (word n ∷ []) ≡ some (signed_text long_flag n)
unfolding directives render take_spec take_width
render-signed true n = ap some (append-nil (signed_text true n))
render-signed false n = ap some (append-nil (signed_text false n))

num_of-lt : (long_flag : Bool) (n : ℕ) → num_of long_flag n < 2 ^ 64
num_of-lt true n = omega arith
num_of-lt false n = ground arith

read-signed :
    (num : ℕ)
    → num < 2 ^ 64
    → read_num 10 (
        layout
          (is_neg num)
          0
          false
          b' '
          (numeral 64 (if is_neg num then u64 (2 ^ 64 - num) else num) 10 false))
      ≡ magnitude num
read-signed num lt =
    let same : (if is_neg num then u64 (2 ^ 64 - num) else num)
        ≡ (if is_neg num then 2 ^ 64 - num else num) =
      ground arith in
    read_num-layout (if is_neg num then u64 (2 ^ 64 - num) else num) 10 false
      (omega arith, omega arith) (ground arith) (is_neg num) 0 false b' ' (inl refl)
    ∙ ap (λ (v : ℕ). (is_neg num, v)) same

-- `%d` and `%ld` print what reads back as their argument, with its sign, where `%d` takes the low 32 bits
-- of the argument as a signed number.
pub vprintfmt-signed :
    (buf : Buf) (long_flag : Bool) (n : ℕ)
    → (shown : List ℕ) × (vprintfmt keep buf 4 (signed_format long_flag) (word n ∷ []) []
        ≡ ok tt shown)
      × (read_num 10 shown ≡ magnitude (num_of long_flag n))
vprintfmt-signed buf long_flag n = (
  signed_text long_flag n,
  vprintfmt-render keep buf keep-IsStream 4 (signed_format long_flag) (word n ∷ []) []
        (short long_flag)
      ∙ ap (λ o. printed keep o []) (render-signed long_flag n),
  read-signed (num_of long_flag n) (num_of-lt long_flag n),
)
  where
    short : (long_flag : Bool) → length (signed_format long_flag) < 4
    short true = omega arith
    short false = omega arith
