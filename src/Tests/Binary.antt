-- ===== src/Tests/Binary.antt =====
-- Runs of tools/bintoc.c.
use riscv_mos.Base.{ℕ, ◌≡◌, refl, none, some, List, [], ◌∷◌, ◌++◌, if◌then◌else◌}
use riscv_mos.Print.Number.{numeral}
use riscv_mos.BinToC.{ascii, same, stem, cells, declarations, Tool}

abbrev bin : List ℕ
bin = b'a' ∷ b'.' ∷ b'b' ∷ []

abbrev out : List ℕ
out = b'c' ∷ []

abbrev arguments : List (List ℕ)
arguments =
    (b'-' ∷ b'f' ∷ []) ∷ bin ∷ (b'-' ∷ b'o' ∷ []) ∷ out ∷ (b'-' ∷ b'p' ∷ []) ∷ (b'u' ∷ []) ∷ []

abbrev tool : Tool
tool = record {
  files = λ f. if same f bin then some (127 ∷ 5 ∷ []) else none;
  bin_file = none;
  out_file = none;
  prefix = none;
}

abbrev tool_read : Tool
tool_read = record tool { bin_file = some bin; out_file = some out; prefix = some (b'u' ∷ []) }

tool-text :
    declarations (b'u' ∷ []) (stem bin) 2 ++ (cells 2 0 (127 ∷ 5 ∷ []) ++ b';' ∷ 10 ∷ [])
    ≡ ascii "unsigned int binary_u_a_size = 2;\nunsigned char binary_u_a_start[] = {0x7f,0x5};\n"
unfolding declarations stem cells ascii numeral
tool-text = refl
