-- ===== src/Vm/Spared.antt =====
-- Pages of memory that are neither tables nor free: kern/vm.c leaves their bytes.
use riscv_mos.Base.{
  ℕ, zero, suc, ◌/◌, Option, ◌+◌, ◌*◌, ◌%◌, ◌≤◌, ◌<◌, ◌≡◌, ◌≢◌, refl, ◌∙◌, ap, arith, List, ◌∉◌,
  none, some, has, true,
}
use riscv_mos.Mem.{Mem, load64, store64}
use riscv_mos.Mem.Laws.{store-outside, load-ext}
use riscv_mos.Kernel.{Machine, page_size, kernend}
use riscv_mos.Page.Chain.{HasFree, Chain-below}
use riscv_mos.Vm.{entry}
use riscv_mos.Vm.Pte.{vpn, pte2pa}
use riscv_mos.Vm.Tables.{Place, IsTable, Ordinary, ordinary, pte_of, pte_of-step, vpn-lt}

abbrev pub SamePage : ℕ → Mem → Mem → Type 0
SamePage q m n = (a : ℕ) → q ≤ a → a < q + page_size → n a ≡ m a

-- What is neither a table nor free stays so, and keeps its bytes; what is free was free.
pub record Spared (place : Place) (xs : List ℕ) (m : Mem) (places : Place) (rest : List ℕ) (n : Mem)
    : Type 0 where
  pub page :
      (q : ℕ)
      → q % page_size ≡ 0
      → place q ≡ none
      → q ∉ xs
      → (places q ≡ none) × (q ∉ rest) × SamePage q m n
  pub from_free : (q : ℕ) → has q rest ≡ true → has q xs ≡ true

pub Spared-refl : (place : Place) (xs : List ℕ) (m : Mem) → Spared place xs m place xs m
Spared-refl place xs m = record {
  page = λ q al free out. (free, out, λ a lo hi. refl);
  from_free = λ q h. h;
}

pub Spared-trans :
    {p1 p2 p3 : Place} {xs1 xs2 xs3 : List ℕ} {m1 m2 m3 : Mem}
    → Spared p1 xs1 m1 p2 xs2 m2
    → Spared p2 xs2 m2 p3 xs3 m3
    → Spared p1 xs1 m1 p3 xs3 m3
Spared-trans s t = record {
  page = λ q al free out.
      let (free', out', same) = s.page q al free out in
      let (free'', out'', same') = t.page q al free' out' in
      (free'', out'', λ a lo hi. same' a lo hi ∙ same a lo hi);
  from_free = λ q h. s.from_free q (t.from_free q h);
}

-- A page that is a table is not one that is none.
pub placed-apart :
    (place : Place) (p q l pre : ℕ) → place p ≡ some (l, pre) → place q ≡ none → p ≢ q
placed-apart place p q l pre at free e = cc (ap place e)

-- A word of a page that is spared.
pub load-SamePage :
    (m n : Mem) (q i : ℕ) → SamePage q m n → i < 512 → load64 n (q + 8 * i) ≡ load64 m (q + 8 * i)
load-SamePage m n q i same hi =
    load-ext 8 n m (q + 8 * i) (λ b g h. same b (omega arith) (omega arith))

-- A write to a slot of the page `p` spares every other page.
pub slot-SamePage :
    (m : Mem) (p q i w : ℕ)
    → p % page_size ≡ 0
    → q % page_size ≡ 0
    → i < 512
    → p ≢ q
    → SamePage q m (store64 m (p + 8 * i) w)
slot-SamePage m p q i w alp alq hi ne a lo hi' = store-outside 8 m (p + 8 * i) w a (ground arith)

-- Tables whose pages keep their bytes are the same tables, whatever happens elsewhere.
module _ {own : ℕ} {m : Mem} (n : Mem) {root : ℕ} {place : Place} {xs : List ℕ}
    (t : IsTable own m root place xs)
    (same : (q l pre : ℕ) → place q ≡ some (l, pre) → SamePage q m n) where
  pub IsTable-ext :
      (ys : List ℕ)
      → ((q l pre : ℕ) → place q ≡ some (l, pre) → q ∉ ys)
      → IsTable own n root place ys
  IsTable-ext ys unused = record {
    root_place = t.root_place;
    frame = t.frame;
    used = unused;
    child = λ p l pre i at hi o v.
        let word = load-SamePage m n p i (same p (suc l) pre at) hi in
        rw word (t.child p l pre i at hi o (rw word at v));
  }

  pub pte_of-ext :
      (l p pre a : ℕ) → place p ≡ some (l, pre) → Ordinary own a → pte_of n l p a ≡ pte_of m l p a
  unfolding pte_of
  pte_of-ext zero p pre a at o = load-SamePage m n p (vpn 0 a) (same p 0 pre at) (vpn-lt 0 a)
  pte_of-ext (suc l) p pre a at o =
      pte_of-step m n l p a
        (load-SamePage m n p (vpn (suc l) a) (same p (suc l) pre at) (vpn-lt (suc l) a))
        λ v.
          pte_of-ext l (pte2pa (load64 m (entry p (suc l) a))) (pre * 512 + vpn (suc l) a) a
            (t.child p l pre (vpn (suc l) a) at (vpn-lt (suc l) a) (ordinary l a o) v) o

-- The kernel's image, which lies below the pages of the heap, stays as it is.
pub image_same :
    {own root : ℕ} {place places : Place} {xs rest : List ℕ} (k : Machine) (n : Mem) (a : ℕ)
    → IsTable own k.mem root place xs
    → HasFree k xs
    → Spared place xs k.mem places rest n
    → a < kernend
    → n a ≡ k.mem a
image_same {place = place} {xs = xs} k n a t c s h =
    let q : ℕ = a / 4096 * 4096 in
    let (free, out, same) =
      s.page q (omega arith) (not_placed q (omega arith) (place q) refl)
        (Chain-below k.mem k.freelist q xs c (omega arith)) in
    same a (omega arith) (omega arith)
  where
    not_placed : (q : ℕ) → q < kernend → (o : Option (ℕ × ℕ)) → place q ≡ o → place q ≡ none
    not_placed q h none e = e
    not_placed q h (some (l, pre)) e = absurd (omega (arith, (t.frame q l pre e).low))
