-- ===== src/FsFormat/Host.antt =====
-- What tools/fsformat.c does with the files of the host, which are a tree here.
use riscv_mos.Base.{ℕ, zero, suc, ◌+◌, ◌-◌, Bool, not, ◌==◌, if◌then◌else◌, List, [], ◌∷◌}
use riscv_mos.Mem.{load, store32}
use riscv_mos.Kernel.{Cmd, ◌>>=◌, ◌>>◌, pure, halt, get, modify}
use riscv_mos.FsFormat.{Header, Image, put_bytes, init_disk, flush_bitmap}
use riscv_mos.FsFormat.Files.{create_file, write_file, finish_fs}

-- A file by its name, its size and what `read` gives for it; a directory by its name and its entries but
-- `.` and `..`; and a directory that `opendir` does not open.
mutual
  pub data Node : Type 0 where
    file : (fname : List ℕ) (size : ℕ) (chunks : List (List ℕ)) → Node
    directory : (name : List ℕ) (entries : Nodes) → Node
    unreadable : Node

  pub data Nodes : Type 0 where
    no_more : Nodes
    entry : Node → Nodes → Nodes

-- `strncpy` of a string: at most `n` bytes of it, and zeros behind it.
abbrev pub padded : (n : ℕ) → List ℕ → List ℕ
padded zero xs = []
padded (suc n) [] = 0 ∷ padded n []
padded (suc n) (x ∷ xs) = x ∷ padded n xs

-- An argument of the program: a file or a directory, something else, or nothing that is there.
pub data Argument : Type 0 where
  node : Node → Argument
  other_mode : Argument
  missing : Argument

module _ (H : Header) where
  -- `pdir` up to the loop over its entries.
  unfoldable pub start_directory : (dirf : ℕ) (name : List ℕ) → Cmd Image ℕ
  start_directory dirf name = create_file H dirf >>= λ pdir.
      modify
        (λ s. record s { mem = put_bytes (padded (H.maxnamelen - 1) name) (pdir + H.f_name) s.mem })
      >> get
      >>= λ s.
          (if not (load 1 s.mem (pdir + H.f_name + (H.maxnamelen - 1)) == 0)
            then halt "file name is too long"
            else pure tt)
          >> modify (λ s. record s { mem = store32 s.mem (pdir + H.f_type) H.ftype_dir })
          >> pure pdir

  -- `write_directory` or `write_file`.
  unfoldable mutual
    pub write_node : (dirf : ℕ) → Node → Cmd Image (Unit {0})
    write_node dirf (file fname size chunks) = write_file H dirf fname size chunks
    write_node dirf (directory name entries) =
        start_directory dirf name >>= λ pdir. write_nodes pdir entries
    write_node dirf unreadable = pure tt

    pub write_nodes : (dirf : ℕ) → Nodes → Cmd Image (Unit {0})
    write_nodes dirf no_more = pure tt
    write_nodes dirf (entry n rest) = write_node dirf n >> write_nodes dirf rest

  -- The loop of `main` over its arguments.
  unfoldable pub write_arguments : List Argument → Cmd Image (Unit {0})
  write_arguments [] = pure tt
  write_arguments (node n ∷ args) = write_node (H.super + H.s_root) n >> write_arguments args
  write_arguments (other_mode ∷ args) = halt "illegal file mode"
  write_arguments (missing ∷ args) = halt "r == 0"

  -- The blocks of the image that `main` writes.
  unfoldable pub main : (reverse_endian : Bool) → List Argument → Cmd Image (List (ℕ → ℕ))
  main reverse_endian [] = halt "Usage"
  main reverse_endian (arg ∷ args) =
      modify (init_disk H)
      >> write_arguments (arg ∷ args)
      >> modify (flush_bitmap H)
      >> get
      >>= λ s. pure (finish_fs H reverse_endian s)
