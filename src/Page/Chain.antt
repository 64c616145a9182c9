-- ===== src/Page/Chain.antt =====
-- The free list of kern/phypage.c as a list of pages.
use riscv_mos.Base.{
  ℕ, ◌+◌, ◌%◌, ◌≤◌, ◌<◌, ◌≡◌, ◌≢◌, refl, ap, true, false, arith, List, [], ◌∷◌, has, ◌∉◌, ◌⊎◌,
}
use riscv_mos.Mem.{Mem, load64}
use riscv_mos.Mem.Laws.{load-ext, load-zero}
use riscv_mos.Strings.{memset}
use riscv_mos.Strings.Fill.{memset-bytes}
use riscv_mos.Page.{bad_page}
use riscv_mos.Kernel.{Machine, page_size, kernend, phyend}

-- A page that the allocator may hand out.
pub record IsFrame (p : ℕ) : Type 0 where
  pub aligned : p % page_size ≡ 0
  pub low : kernend ≤ p
  pub high : p < phyend

-- From `p` the first words of the pages lead through `xs`, which are distinct, to NULL.
abbrev pub Chain : Mem → ℕ → List ℕ → Type 0
Chain m p [] = p ≡ 0
Chain m p (x ∷ xs) = (p ≡ x) × IsFrame x × (x ∉ xs) × Chain m (load64 m x) xs

-- `kmem.freelist` stands for the pages `xs`, in order.
abbrev pub HasFree : Machine → List ℕ → Type 0
HasFree k xs = Chain k.mem k.freelist xs

pub Chain-ext :
    (m n : Mem) (xs : List ℕ) (p : ℕ)
    → ((x : ℕ) → IsFrame x → has x xs ≡ true → load64 n x ≡ load64 m x)
    → Chain m p xs
    → Chain n p xs
Chain-ext m n [] p same c = c
Chain-ext m n (x ∷ xs) p same (e, f, out, c) = (
  e,
  f,
  out,
  rw (same x f (ground arith))
      (Chain-ext m n xs (load64 m x) (λ y fy i. same y fy (ground arith)) c),
)

-- The head of a chain is NULL exactly when the chain is empty.
pub Chain-nil : (m : Mem) (xs : List ℕ) → Chain m 0 xs → xs ≡ []
Chain-nil m [] c = refl
Chain-nil m (x ∷ xs) (e, f, out, c) = absurd (omega (arith, f.low))

pub bad_page-false : {p : ℕ} → IsFrame p → bad_page p ≡ false
bad_page-false f = ground (arith, f.aligned, f.low, f.high)

pub IsFrame-of_good : (p : ℕ) → bad_page p ≡ false → IsFrame p
IsFrame-of_good p h = record { aligned = ground arith; low = ground arith; high = ground arith }

-- Every byte of the page is zero; every byte off the page is the same.
abbrev pub IsZeroed : Mem → ℕ → Type 0
IsZeroed m p = (a : ℕ) → p ≤ a → a < p + page_size → m a ≡ 0

abbrev pub SameOff : ℕ → Mem → Mem → Type 0
SameOff p m n = (a : ℕ) → (a < p) ⊎ (p + page_size ≤ a) → n a ≡ m a

pub memset-IsZeroed : (m : Mem) (p : ℕ) → IsZeroed (memset p 0 page_size m).1 p
memset-IsZeroed m p a low high = ground (arith, memset-bytes p 0 page_size a m)

pub memset-SameOff : (m : Mem) (p : ℕ) → SameOff p m (memset p 0 page_size m).1
memset-SameOff m p a off = ground (arith, memset-bytes p 0 page_size a m)

pub load-IsZeroed :
    (m : Mem) (p a : ℕ) → IsZeroed m p → p ≤ a → a + 8 ≤ p + page_size → load64 m a ≡ 0
load-IsZeroed m p a z low high = load-zero 8 m a (λ b g h. z b (omega arith) (omega arith))

pub load-SameOff :
    (m n : Mem) (p a : ℕ)
    → SameOff p m n
    → (a + 8 ≤ p) ⊎ (p + page_size ≤ a)
    → load64 n a ≡ load64 m a
load-SameOff m n p a same off = load-ext 8 n m a (λ b g h. same b (ground arith))

-- The first words of the other free pages stay when one page changes.
pub Chain-SameOff :
    (m n : Mem) (q p : ℕ) (xs : List ℕ)
    → IsFrame p
    → p ∉ xs
    → SameOff p m n
    → Chain m q xs
    → Chain n q xs
Chain-SameOff m n q p xs f out same =
    Chain-ext m n xs q
      λ x fx i. load-SameOff m n p x same (ground (arith, f.aligned, fx.aligned, apart x i))
  where
    apart : (x : ℕ) → has x xs ≡ true → p ≢ x
    apart x i e = cc (ap (λ y. has y xs) e)

-- What lies below the heap is not on the list.
pub Chain-below : (m : Mem) (p q : ℕ) (xs : List ℕ) → Chain m p xs → q < kernend → q ∉ xs
Chain-below m p q [] c low = refl
Chain-below m p q (x ∷ xs) (e, f, out, c) low =
    ground (arith, f.low, Chain-below m (load64 m x) q xs c low)
