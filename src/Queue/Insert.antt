-- ===== src/Queue/Insert.antt =====
-- LIST_INSERT_HEAD of include/queue.h on lists.
use riscv_mos.Base.{ℕ, refl, arith, List, [], ◌∷◌, ◌∉◌}
use riscv_mos.Queue.{next, Links, insert_head}
use riscv_mos.Queue.Shape.{IsList, Linked-ext, has-ne}

-- On a well-formed list that does not hold `elm`, LIST_INSERT_HEAD makes a well-formed list with
-- `elm` in front.
pub insert_head-cons :
    (s : Links) (elm : ℕ) (xs : List ℕ)
    → IsList s xs
    → elm ∉ xs
    → IsList (insert_head s elm) (elm ∷ xs)
unfolding insert_head
insert_head-cons s elm [] h out = rw h (ground arith)
insert_head-cons s elm (x ∷ xs) (hd, pr, x_out, rest) out = rw hd (
  refl,
  ground arith,
  out,
  (
    ground arith,
    ground arith,
    x_out,
    Linked-ext s _ (next x) xs (ground arith)
        (λ y i.
          (ground (arith, has-ne y elm xs i), ground (arith, has-ne y elm xs i, has-ne y x xs i)))
        rest,
  ),
)
