-- ===== src/Env/Create/Kept.antt =====
-- A segment that `load_icode` of kern/env.c has loaded, while it loads others.
use riscv_mos.Base.{ap, ℕ, ◌+◌, ◌*◌, ◌/◌, ◌-◌, ◌≤◌, ◌<◌, ◌≡◌, ◌∙◌, arith, List, ◌∉◌, none}
use riscv_mos.Mem.{Mem, load}
use riscv_mos.Mem.Laws.{load-ext}
use riscv_mos.Kernel.{Machine, page_size, maxva, kernend}
use riscv_mos.Page.Chain.{IsFrame}
use riscv_mos.Vm.Tables.{pte_of, Place, Ordinary}
use riscv_mos.Vm.Entries.{pte_at}
use riscv_mos.Vm.Spared.{Spared}
use riscv_mos.Vm.Map.Page.{leaf}
use riscv_mos.Vm.Region.{Region}

-- The `n` pages from page number `first` on have pages of their own, with the bytes of `image`.
pub record Mapped (own root first n perm : ℕ) (image : ℕ → ℕ) (k : Machine) (places : Place)
    (rest : List ℕ) : Type 0 where
  pub frames : ℕ → ℕ
  pub frame : (j : ℕ) → j < n → IsFrame (frames j)
  pub owned : (j : ℕ) → j < n → (places (frames j) ≡ none) × (frames j ∉ rest)
  pub distinct : (i j : ℕ) → i < n → j < n → frames i ≡ frames j → i ≡ j
  pub bytes : (j b : ℕ) → j < n → b < page_size → k.mem (frames j + b) ≡ image (j * page_size + b)
  pub entries :
      (a : ℕ)
      → a < maxva
      → Ordinary own a
      → first ≤ a / 4096
      → a / 4096 < first + n
      → pte_at k root a ≡ leaf (frames (a / 4096 - first)) perm

module _ {own root first n perm : ℕ} {image : ℕ → ℕ} {k k' : Machine} {place places : Place}
    {xs rest : List ℕ} where
  pub Mapped-Region :
      Region own root first n perm image k place xs k' places rest
      → Mapped own root first n perm image k' places rest
  Mapped-Region g = record {
    frames = g.frames;
    frame = g.frame;
    owned = g.owned;
    distinct = g.distinct;
    bytes = g.bytes;
    entries = λ a h o lo hi. g.entries a h o ∙ ground arith;
  }

  -- What spares its pages and keeps its entries keeps the segment.
  pub Mapped-Spared :
      Mapped own root first n perm image k place xs
      → Spared place xs k.mem places rest k'.mem
      → ((a : ℕ)
          → a < maxva
          → Ordinary own a
          → first ≤ a / 4096
          → a / 4096 < first + n
          → pte_at k' root a ≡ pte_at k root a)
      → Mapped own root first n perm image k' places rest
  Mapped-Spared g s same = record {
    frames = g.frames;
    frame = g.frame;
    owned = λ j h.
        let (free, out) = g.owned j h in
        let (free', out', bytes) = s.page (g.frames j) (g.frame j h).aligned free out in
        (free', out');
    distinct = g.distinct;
    bytes = λ j b h hb.
        let (free, out) = g.owned j h in
        let (free', out', bytes) = s.page (g.frames j) (g.frame j h).aligned free out in
        bytes (g.frames j + b) (omega arith) (omega arith) ∙ g.bytes j b h hb;
    entries = λ a h o lo hi. same a h o lo hi ∙ g.entries a h o lo hi;
  }

-- Only the memory of the machine counts.
pub Mapped-memory :
    {own root first n perm : ℕ} {image : ℕ → ℕ} {k : Machine} {place : Place} {xs : List ℕ}
    (k' : Machine)
    → k'.mem ≡ k.mem
    → Mapped own root first n perm image k place xs
    → Mapped own root first n perm image k' place xs
Mapped-memory {root = root} k' same g = record {
  frames = g.frames;
  frame = g.frame;
  owned = g.owned;
  distinct = g.distinct;
  bytes = λ j b h hb. ap (λ (m : Mem). m (g.frames j + b)) same ∙ g.bytes j b h hb;
  entries = λ a h o lo hi. ap (λ (m : Mem). pte_of m 2 root a) same ∙ g.entries a h o lo hi;
}

pub Mapped-image :
    {own root first n perm : ℕ} {image image' : ℕ → ℕ} {k : Machine} {place : Place} {xs : List ℕ}
    → ((i : ℕ) → image i ≡ image' i)
    → Mapped own root first n perm image k place xs
    → Mapped own root first n perm image' k place xs
Mapped-image same g = record {
  frames = g.frames;
  frame = g.frame;
  owned = g.owned;
  distinct = g.distinct;
  bytes = λ j b h hb. g.bytes j b h hb ∙ same (j * page_size + b);
  entries = g.entries;
}

-- Words of the kernel's image, which lies below the pages of the heap.
pub load_same :
    (m n : Mem) (j a : ℕ)
    → ((b : ℕ) → b < kernend → n b ≡ m b)
    → a + j ≤ kernend
    → load j n a ≡ load j m a
load_same m n j a same h = load-ext j n m a (λ b lo hi. same b (omega arith))
