-- ===== src/Tests/Print.antt =====
-- Numbers and texts that are printed.
use riscv_mos.Base.{suc, ◌≢◌, ℕ, ◌+◌, ◌≤◌, ◌≡◌, refl, arith, true, false, List, [], ◌∷◌, inr, some}
use riscv_mos.Kernel.{out_of_fuel}
use riscv_mos.Print.Ending.{vprintfmt-ends}
use riscv_mos.Print.{Buf, digit_loop, fill, finish_num, pad, print_num, reverse_loop}
use riscv_mos.Print.Number.{numeral}
use riscv_mos.Print.Reading.{read_num, read_num-print_num}
use riscv_mos.Print.Bounds.{SameFrom, finish_num-bounds}
use riscv_mos.Print.Format.{word, take_spec, take_width, text, vprintfmt}
use riscv_mos.Print.Rendering.{directives, parse, render, printed}
use riscv_mos.Print.Pieces.{Piece, byte, item, upper_hex, chars, written, meaning}
use riscv_mos.Print.Written.{vprintfmt-written}
use riscv_mos.Print.Console.{keep, keep-IsStream}

abbrev garbage : Buf
garbage i = 255

-- -255 in a field of 8, padded with zeros.
padded_run :
    print_num keep garbage 255 16 true 8 false b'0' true []
    ≡ b'-' ∷ b'0' ∷ b'0' ∷ b'0' ∷ b'0' ∷ b'0' ∷ b'F' ∷ b'F' ∷ []
unfolding print_num finish_num digit_loop reverse_loop pad fill
padded_run = refl

read_num-print_num_example :
    read_num 16 (print_num (λ bytes sent. bytes) garbage 255 16 true 8 false b'0' true [])
    ≡ (true, 255)
read_num-print_num_example =
    read_num-print_num garbage 255 16 true 8 false b'0' true (omega arith, omega arith)
      (omega arith) (inr refl)

finish_num-bounds_example :
    let (len, final) = finish_num true 8 false b'0' (digit_loop 1000 255 16 true 0 garbage) in
    (len ≤ 8 + 65) × SameFrom (8 + 65) final garbage
finish_num-bounds_example =
    finish_num-bounds 1000 255 16 true true 8 false b'0' garbage (omega arith) (omega arith)
      (omega arith)

-- "%4d|%s"
abbrev four_d_s : List ℕ
four_d_s = b'%' ∷ b'4' ∷ b'd' ∷ b'|' ∷ b'%' ∷ b's' ∷ []

-- "%-08lX" and "%s" with a byte between them.
abbrev pieces : List Piece
pieces = item true true 8 true upper_hex ∷ byte b'|' ∷ item false false 0 false chars ∷ []

vprintfmt-written_example :
    vprintfmt keep garbage 20 (written pieces) (word 48879 ∷ text (b'o' ∷ b'k' ∷ []) ∷ []) []
    ≡ printed keep (meaning pieces (word 48879 ∷ text (b'o' ∷ b'k' ∷ []) ∷ [])) []
unfolding written numeral
vprintfmt-written_example =
    vprintfmt-written keep garbage keep-IsStream 20 pieces
      (word 48879 ∷ text (b'o' ∷ b'k' ∷ []) ∷ []) [] (omega arith, (refl, (omega arith, tt)))
      (omega arith)

rendered_run :
    render (parse four_d_s) (word 42 ∷ text (b'o' ∷ b'k' ∷ []) ∷ [])
    ≡ some (b' ' ∷ b' ' ∷ b'4' ∷ b'2' ∷ b'|' ∷ b'o' ∷ b'k' ∷ [])
unfolding render directives take_spec take_width numeral
rendered_run = refl

-- A sink that counts its calls.
vprintfmt-ends_example :
    vprintfmt (λ bytes calls. suc calls) garbage 7 four_d_s (word 42 ∷ text [] ∷ []) 0 ≢ out_of_fuel
vprintfmt-ends_example =
    vprintfmt-ends (λ bytes calls. suc calls) garbage 7 four_d_s (word 42 ∷ text [] ∷ []) 0
      (omega arith)
