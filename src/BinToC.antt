-- ===== src/BinToC.antt =====
-- tools/bintoc.c: a build tool that writes a file as an array of C. A string is the list of its bytes
-- before the NUL. Files are known by their names, with `fopen`, `fread` and `fprintf` of C's library on
-- them, and are shorter than 2 ^ 31 bytes, which `size` can hold. What `help` prints is left out.
pub mod Declared
pub mod ReadBack
use Prim.Native.Char.{code}
use Prim.Native.String.{String, [] as no_chars, ◌∷◌ as ◌then◌}
use riscv_mos.Base.{
  ℕ, zero, suc, ◌+◌, ◌-◌, ◌*◌, ◌/◌, ◌%◌, ◌^◌, Bool, true, false, not, ◌&&◌, ◌||◌, ◌==◌, ltb,
  if◌then◌else◌, Option, none, some, List, [], ◌∷◌, ◌++◌, length,
}
use riscv_mos.Kernel.{Cmd, halt, pure, get, modify, ◌>>=◌, ◌>>◌}
use riscv_mos.Print.Number.{numeral}

-- The bytes of a text.
unfoldable pub ascii : String → List ℕ
ascii no_chars = []
ascii (c then s) = code c ∷ ascii s

-- `strcmp(...) == 0`
unfoldable pub same : (xs ys : List ℕ) → Bool
same [] [] = true
same [] (y ∷ ys) = false
same (x ∷ xs) [] = false
same (x ∷ xs) (y ∷ ys) = (x == y) && same xs ys

-- `BMAX`
abbrev pub bmax : ℕ
bmax = 4 * 2 ^ 25

-- The files by their names, and the options that `main` has read.
pub record Tool : Type 0 where
  pub files : List ℕ → Option (List ℕ)
  pub bin_file : Option (List ℕ)
  pub out_file : Option (List ℕ)
  pub prefix : Option (List ℕ)

-- `args[i][0] == '-'`
abbrev pub has_dash : List ℕ → Bool
has_dash [] = false
has_dash (c ∷ cs) = c == b'-'

-- What an argument asks for.
pub data Kind : Type 0 where
  plain : Kind
  bin_flag : Kind
  out_flag : Kind
  prefix_flag : Kind
  help_flag : Kind

unfoldable pub kind : List ℕ → Kind
unfolding ascii
kind arg =
    if not (has_dash arg)
    then plain
    else if same arg (ascii "-f")
    then bin_flag
    else if same arg (ascii "-o")
    then out_flag
    else if same arg (ascii "-p")
    then prefix_flag
    else help_flag

-- The options with the argument of a flag, once.
abbrev pub take_bin : List ℕ → Option (List ℕ) → Cmd Tool (Unit {0})
take_bin v none = modify λ s. record s { bin_file = some v }
take_bin v (some old) = halt "bin_file == NULL"

abbrev pub take_out : List ℕ → Option (List ℕ) → Cmd Tool (Unit {0})
take_out v none = modify λ s. record s { out_file = some v }
take_out v (some old) = halt "out_file == NULL"

abbrev pub take_prefix : List ℕ → Option (List ℕ) → Cmd Tool (Unit {0})
take_prefix v none = modify λ s. record s { prefix = some v }
take_prefix v (some old) = halt "prefix == NULL"

-- The loop of `main` over the arguments behind the name of the program: whether it goes on after it.
unfoldable pub parse : List (List ℕ) → Cmd Tool Bool
parse [] = pure true
parse (arg ∷ []) = elim (kind arg) [
  | plain ↦ pure true
  | bin_flag ↦ halt "i + 1 < argc"
  | out_flag ↦ halt "i + 1 < argc"
  | prefix_flag ↦ halt "i + 1 < argc"
  | help_flag ↦ pure false
]
parse (arg ∷ v ∷ args) = elim (kind arg) [
  | plain ↦ parse (v ∷ args)
  | bin_flag ↦ get >>= λ s. take_bin v s.bin_file >> parse args
  | out_flag ↦ get >>= λ s. take_out v s.out_file >> parse args
  | prefix_flag ↦ get >>= λ s. take_prefix v s.prefix >> parse args
  | help_flag ↦ pure false
]

-- `bin_file` up to its first full stop.
unfoldable pub stem : List ℕ → List ℕ
stem [] = []
stem (c ∷ cs) = if c == b'.' then [] else c ∷ stem cs

-- `%x` and `%d` of `fprintf` on a number below 2 ^ 31.
abbrev pub hex : ℕ → List ℕ
hex u = numeral 32 u 16 false

abbrev pub decimal : ℕ → List ℕ
decimal u = numeral 32 u 10 false

-- The loop over the bytes from index `i` on.
unfoldable pub cells : (size i : ℕ) → List ℕ → List ℕ
unfolding ascii
cells size i [] = []
cells size i (x ∷ xs) =
    ascii "0x" ++ hex x ++ (if ltb i (size - 1) then b',' else b'}') ∷ cells size (i + 1) xs

-- The first `fprintf`.
unfoldable pub declarations : (prefix name : List ℕ) (size : ℕ) → List ℕ
unfolding ascii
declarations prefix name size =
    ascii "unsigned int binary_"
    ++ prefix
    ++ ascii "_"
    ++ name
    ++ ascii "_size = "
    ++ decimal size
    ++ ascii ";\nunsigned char binary_"
    ++ prefix
    ++ ascii "_"
    ++ name
    ++ ascii "_start[] = {"

-- What the output holds at the end.
abbrev pub c_text : (prefix name data_bytes : List ℕ) → List ℕ
c_text prefix name data_bytes =
    declarations prefix name (length data_bytes)
    ++ (cells (length data_bytes) 0 data_bytes ++ b';' ∷ 10 ∷ [])

-- A file with its content in place of what it was.
abbrev pub write : (name content : List ℕ) → Tool → Tool
write name content s = record s { files = λ f. if same f name then some content else s.files f }

abbrev pub or_empty : Option (List ℕ) → List ℕ
or_empty none = []
or_empty (some p) = p

module _ (can_write : List ℕ → Bool) where
  -- From `fopen(bin_file, "rb")` on. A file that is open for writing is empty at first.
  abbrev pub copy_out : (bin out : List ℕ) → Cmd Tool (Unit {0})
  copy_out bin out s =
      let content = or_empty (s.files bin) in
      if ltb (length content) bmax
      then pure tt (write out (c_text (or_empty s.prefix) (stem bin) content) s)
      else halt "size < BMAX" s

  abbrev pub open_files : (bin out : List ℕ) → Option (List ℕ) → Cmd Tool (Unit {0})
  open_files bin out none s = halt "bin != NULL" s
  open_files bin out (some content) s =
      if can_write out then copy_out bin out (write out [] s) else halt "out != NULL" s

  abbrev pub convert_file : Option (List ℕ) → Option (List ℕ) → Cmd Tool (Unit {0})
  convert_file none out s = halt "bin_file != NULL" s
  convert_file (some bin) none s = halt "out_file != NULL" s
  convert_file (some bin) (some out) s = open_files bin out (s.files bin) s

  -- `main`
  unfoldable pub bintoc : List (List ℕ) → Cmd Tool (Unit {0})
  bintoc args = parse args >>= λ go.
      if not go then pure tt else (get >>= λ s. convert_file s.bin_file s.out_file)
