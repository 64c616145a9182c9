-- ===== src/Print.antt =====
-- lib/print.c. The callback `out` with its argument `data` is an operation on a state of the caller's,
-- which is given the bytes of the buffer. A string is the list of its bytes before the NUL, and a
-- pointer to a string the string that it points at.
pub mod Buffer
pub mod Format
pub mod Number
pub mod Reading
pub mod Bounds
pub mod Rendering
pub mod Shorter
pub mod Rounds
pub mod Decimal
pub mod Pieces
pub mod Directive
pub mod Written
pub mod Console
pub mod Ending
use riscv_mos.Base.{
  ℕ, zero, suc, ◌+◌, ◌-◌, ◌*◌, ◌/◌, ◌%◌, ◌^◌, Bool, true, false, not, ◌&&◌, ◌||◌, ◌==◌, ltb, leb,
  if◌then◌else◌, List, [], ◌∷◌, ◌++◌, length, u64, sign_extend,
}
use riscv_mos.Kernel.{Outcome, ok, out_of_fuel, fault, Cmd, ◌>>=◌, ◌>>◌, pure, modify}

-- `fmt_callback_t`
abbrev pub Sink : Type 0 → Type 0
Sink S = List ℕ → S → S

-- A buffer by the bytes at its indices.
abbrev pub Buf : Type 0
Buf = ℕ → ℕ

abbrev pub set : ℕ → ℕ → Buf → Buf
set i v buf j = if j == i then v else buf j

-- The first `n` bytes.
abbrev pub slice : Buf → ℕ → List ℕ
slice buf zero = []
slice buf (suc n) = slice buf n ++ buf n ∷ []

-- The character of a digit.
abbrev pub digit : (upcase : Bool) → ℕ → ℕ
digit upcase d = if leb d 9 then b'0' + d else if upcase then b'A' + d - 10 else b'a' + d - 10

-- The loop over the digits of `u` from index `p` on, with the index behind the last one. For a base from
-- 2 on it ends within as many rounds as `u` has bits, and `print_num` gives it those; for base 1 the loop
-- of the source never ends, and what stands here without fuel is no result of the source.
unfoldable pub digit_loop : ℕ → (u base : ℕ) (upcase : Bool) (p : ℕ) → Buf → ℕ × Buf
digit_loop zero u base upcase p buf = (p, buf)
digit_loop (suc fuel) u base upcase p buf =
    let rest =
      digit_loop fuel (u / base) base upcase (p + 1) (set p (digit upcase (u % base)) buf) in
    if u / base == 0 then (p + 1, set p (digit upcase (u % base)) buf) else rest

-- `for (; i < end; i++) buf[i] = c;` with `left` rounds.
unfoldable pub fill : (left i c : ℕ) → Buf → Buf
fill zero i c buf = buf
fill (suc left) i c buf = fill left (i + 1) c (set i c buf)

-- `while (end > begin)`
unfoldable pub reverse_loop : ℕ → (begin end : ℕ) → Buf → Buf
reverse_loop zero begin end buf = buf
reverse_loop (suc fuel) begin end buf =
    let rest =
      reverse_loop fuel (begin + 1) (end - 1) (set end (buf begin) (set begin (buf end) buf)) in
    if ltb begin end then rest else buf

-- `if (length < actualLength) length = actualLength;`
abbrev pub at_least : ℕ → ℕ → ℕ
at_least length actual = if ltb length actual then actual else length

-- The buffer after the padding, where `actual` bytes are in use and `len` are wanted.
unfoldable pub pad : (neg_flag ladjust : Bool) (padc actual len : ℕ) → Buf → Buf
pad neg_flag ladjust padc actual len buf =
    let c = if ladjust then b' ' else padc in
    if neg_flag && not ladjust && (c == b'0')
    then set (len - 1) b'-' (fill (len - actual) (actual - 1) c buf)
    else fill (len - actual) actual c buf

-- What `print_num` does with the digits, which end before index `p`: the length of the output, and the
-- buffer that it is the beginning of.
unfoldable pub finish_num :
    (neg_flag : Bool) (width : ℕ) (ladjust : Bool) (padc : ℕ) → ℕ × Buf → ℕ × Buf
finish_num neg_flag width ladjust padc (p, digits) =
    let actual = if neg_flag then p + 1 else p in
    let signed = if neg_flag then set p b'-' digits else digits in
    let len = at_least width actual in
    let padded = pad neg_flag ladjust padc actual len signed in
    let end = if ladjust then actual - 1 else len - 1 in (len, reverse_loop len 0 end padded)

abbrev pub bytes : ℕ × Buf → List ℕ
bytes (n, buf) = slice buf n

-- The bytes of the buffer are not set at first.
unfoldable pub print_num :
    {S : Type 0}
    → Sink S
    → (buf : Buf) (u base : ℕ) (neg_flag : Bool) (width : ℕ) (ladjust : Bool) (padc : ℕ)
      (upcase : Bool)
    → S
    → S
print_num out buf u base neg_flag width ladjust padc upcase =
    out (bytes (finish_num neg_flag width ladjust padc (digit_loop 64 u base upcase 0 buf)))

-- `for (; i < n; i++) out(data, " ", 1);` with `left` rounds.
abbrev pub spaces : {S : Type 0} → Sink S → (left : ℕ) → S → S
spaces out zero s = s
spaces out (suc left) s = spaces out left (out (b' ' ∷ []) s)

abbrev pub print_char : {S : Type 0} → Sink S → (c width : ℕ) (ladjust : Bool) → S → S
print_char out c width ladjust s =
    let length = if ltb width 1 then 1 else width in
    if ladjust
    then spaces out (length - 1) (out (c ∷ []) s)
    else out (c ∷ []) (spaces out (length - 1) s)

abbrev pub print_str : {S : Type 0} → Sink S → (text : List ℕ) (width : ℕ) (ladjust : Bool) → S → S
print_str out text width ladjust s =
    let len = length text in
    let wide = at_least width len in
    if ladjust then spaces out (wide - len) (out text s) else out text (spaces out (wide - len) s)
