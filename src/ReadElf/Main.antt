-- ===== src/ReadElf/Main.antt =====
-- `main` of tools/readelf/main.c, without its messages. What C's library says of the file is an argument.
use riscv_mos.Base.{
  ℕ, ◌+◌, Bool, not, if◌then◌else◌, Option, none, some, List, [], ◌∷◌, ℤ, pos, negsuc,
}
use riscv_mos.Mem.{Mem, store8}
use riscv_mos.FsFormat.{put_bytes}
use riscv_mos.ReadElf.{readelf}

-- A file that `fopen` opens: whether `fseek` gets to its end, what `ftell` says there, the address that
-- `malloc` gives for it, whether `fseek` gets back, and the bytes that `fread` puts
-- there, at most as many as `ftell` says.
pub record OpenFile : Type 0 where
  pub at_end : Bool
  pub size : ℤ
  pub memory : Option ℕ
  pub at_start : Bool
  pub content : List ℕ

-- The status with which `main` ends after an error.
abbrev pub failed : ℤ × List (ℕ × ℕ)
failed = (pos 1, [])

-- From `malloc` on, with its result.
abbrev pub read_into : Mem → OpenFile → (fsize : ℕ) → Option ℕ → ℤ × List (ℕ × ℕ)
read_into m f fsize none = failed
read_into m f fsize (some p) =
    if not f.at_start
    then failed
    else readelf (store8 (put_bytes f.content p m) (p + fsize) 0) p fsize

-- The test of what `ftell` says.
abbrev pub read_size : Mem → OpenFile → ℤ → ℤ × List (ℕ × ℕ)
read_size m f (negsuc n) = failed
read_size m f (pos fsize) = read_into m f fsize f.memory

abbrev pub read_open : Mem → Option OpenFile → ℤ × List (ℕ × ℕ)
read_open m none = failed
read_open m (some f) = if not f.at_end then failed else read_size m f f.size

-- `main`, where `fopen` is a function of the name.
unfoldable pub readelf_main :
    Mem → (fopen : List ℕ → Option OpenFile) → (argv : List (List ℕ)) → ℤ × List (ℕ × ℕ)
readelf_main m fopen [] = failed
readelf_main m fopen (program ∷ []) = failed
readelf_main m fopen (program ∷ name ∷ rest) = read_open m (fopen name)
