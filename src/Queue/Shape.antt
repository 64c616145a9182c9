-- ===== src/Queue/Shape.antt =====
-- The list that a store of the entries of include/queue.h stands for.
use riscv_mos.Base.{
  ℕ, ◌≡◌, ◌≢◌, ◌∙◌, ap, true, false, ◌==◌, arith, if◌then◌else◌, List, [], ◌∷◌, ◌++◌, has, ◌∉◌,
  none, some, inl, inr, Bool-cases,
}
use riscv_mos.Queue.{Link, first, next, Links, read, Tailq}

-- From the pointer at `l` the entries lead through the distinct elements `xs` to NULL, and each
-- entry knows the pointer that points at it.
abbrev pub Linked : Links → Link → List ℕ → Type 0
Linked s l [] = read s l ≡ none
Linked s l (x ∷ xs) = (read s l ≡ some x) × (s.le_prev x ≡ l) × (x ∉ xs) × Linked s (next x) xs

abbrev pub IsList : Links → List ℕ → Type 0
IsList s xs = Linked s first xs

-- The pointer that ends the list.
abbrev pub last_link : Link → List ℕ → Link
last_link l [] = l
last_link l (x ∷ xs) = last_link (next x) xs

pub record IsTailq (q : Tailq) (xs : List ℕ) : Type 0 where
  pub list : IsList q.links xs
  pub last : q.tqh_last ≡ last_link first xs

-- `erase` takes the first occurrence out.
abbrev pub erase : ℕ → List ℕ → List ℕ
erase a [] = []
erase a (x ∷ xs) = if a == x then xs else x ∷ erase a xs

-- The pointer is not the `next` of an element of the list.
abbrev pub Fresh : Link → List ℕ → Type 0
Fresh first xs = Unit {0}
Fresh (next i) xs = i ∉ xs

pub Fresh-tail : (l : Link) (x : ℕ) (xs : List ℕ) → Fresh l (x ∷ xs) → Fresh l xs
Fresh-tail first x xs h = tt
Fresh-tail (next i) x xs h = ground arith

-- A member differs from what is no member.
pub has-ne : (a b : ℕ) (xs : List ℕ) → has a xs ≡ true → has b xs ≡ false → (a == b) ≡ false
has-ne a b xs i o = elim (Bool-cases (a == b)) [
  | inl e ↦ let e' : a ≡ b = ground arith in absurd (cc (ap (λ y. has y xs) e'))
  | inr e ↦ e
]

pub Fresh-ne : (l : Link) (w : ℕ) (xs : List ℕ) → Fresh l xs → has w xs ≡ true → l ≢ next w
Fresh-ne first w xs h i e = cc
Fresh-ne (next j) w xs h i e = ground (arith, has-ne w j xs i h)

pub not_mem-append : (x y : ℕ) (xs : List ℕ) → x ∉ xs → (x == y) ≡ false → x ∉ (xs ++ y ∷ [])
not_mem-append x y [] h ne = ground arith
not_mem-append x y (z ∷ zs) h ne = ground (arith, not_mem-append x y zs)

-- A change that spares the entries of the elements, and the pointer before them, spares the list.
pub Linked-ext :
    (s t : Links) (l : Link) (xs : List ℕ)
    → read t l ≡ read s l
    → ((x : ℕ) → has x xs ≡ true → (t.le_next x ≡ s.le_next x) × (t.le_prev x ≡ s.le_prev x))
    → Linked s l xs
    → Linked t l xs
Linked-ext s t l [] e same h = e ∙ h
Linked-ext s t l (x ∷ xs) e same (hd, pr, out, rest) = (
  e ∙ hd,
  (same x (ground arith)).1 ∙ pr,
  out,
  Linked-ext s t (next x) xs (same x (ground arith)).0 (λ y i. same y (ground arith)) rest,
)
