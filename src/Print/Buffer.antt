-- ===== src/Print/Buffer.antt =====
-- The buffer of `print_num` of lib/print.c as the list of its first bytes.
use mathlib.Core.List.{append-nil, append_assoc}
use riscv_mos.Base.{
  ℕ, zero, suc, ◌+◌, ◌-◌, ◌≤◌, ◌<◌, ◌≡◌, refl, ap, sym, ◌∙◌, arith, ◌&&◌, ◌==◌, ltb, leb,
  if◌then◌else◌, List, [], ◌∷◌, ◌++◌, length, length-append, Bool-cases, inl, inr,
}
use riscv_mos.Print.{Buf, set, slice, fill, reverse_loop}

-- `n` times `c`.
abbrev pub repeat : (n c : ℕ) → List ℕ
repeat zero c = []
repeat (suc n) c = c ∷ repeat n c

abbrev pub rev : List ℕ → List ℕ
rev [] = []
rev (x ∷ xs) = rev xs ++ x ∷ []

pub length-repeat : (n c : ℕ) → length (repeat n c) ≡ n
length-repeat zero c = refl
length-repeat (suc n) c = omega (arith, length-repeat n c)

pub repeat-push : (n c : ℕ) → repeat n c ++ c ∷ [] ≡ c ∷ repeat n c
repeat-push zero c = refl
repeat-push (suc n) c = ap (λ xs. c ∷ xs) (repeat-push n c)

pub rev-push : (xs : List ℕ) (x : ℕ) → rev (xs ++ x ∷ []) ≡ x ∷ rev xs
rev-push [] x = refl
rev-push (y ∷ xs) x = rw (rev-push xs x) refl

pub rev-append : (xs ys : List ℕ) → rev (xs ++ ys) ≡ rev ys ++ rev xs
rev-append [] ys = sym (append-nil (rev ys))
rev-append (x ∷ xs) ys = rw (rev-append xs ys) (append_assoc (rev ys) (rev xs) (x ∷ []))

pub rev-repeat : (n c : ℕ) → rev (repeat n c) ≡ repeat n c
rev-repeat zero c = refl
rev-repeat (suc n) c = rw (rev-repeat n c) (repeat-push n c)

pub slice-ext : (f g : Buf) (n : ℕ) → ((j : ℕ) → j < n → f j ≡ g j) → slice f n ≡ slice g n
slice-ext f g zero same = refl
slice-ext f g (suc n) same =
    rw (slice-ext f g n (λ j lt. same j (omega arith)), same n (omega arith)) refl

-- A byte at or behind the end does not matter.
pub slice-set : (f : Buf) (n i v : ℕ) → n ≤ i → slice (set i v f) n ≡ slice f n
slice-set f n i v le = slice-ext (set i v f) f n (λ j lt. ground arith)

pub slice-push : (f : Buf) (n v : ℕ) → slice (set n v f) (n + 1) ≡ slice f n ++ v ∷ []
slice-push f n v =
    let at : n + 1 ≡ suc n = omega arith in
    let last : set n v f n ≡ v = ground arith in
    rw at (rw (slice-set f n n v (omega arith)) (rw last refl))

pub slice-fill :
    (left i c : ℕ) (f : Buf) → slice (fill left i c f) (i + left) ≡ slice f i ++ repeat left c
unfolding fill
slice-fill zero i c f = let at : i + 0 ≡ i = omega arith in rw at (sym (append-nil (slice f i)))
slice-fill (suc left) i c f =
    let at : i + suc left ≡ i + 1 + left = omega arith in
    rw (at, slice-fill left (i + 1) c (set i c f), slice-push f i c)
      (append_assoc (slice f i) (c ∷ []) (repeat left c))

pub fill-below : (left i c : ℕ) (f : Buf) (j : ℕ) → j < i → fill left i c f j ≡ f j
unfolding fill
fill-below zero i c f j lt = refl
fill-below (suc left) i c f j lt =
    fill-below left (i + 1) c (set i c f) j (omega arith) ∙ ground arith

pub slice-plus : (f : Buf) (n m : ℕ) → slice f (n + m) ≡ slice f n ++ slice (λ j. f (n + j)) m
slice-plus f n zero = let at : n + 0 ≡ n = omega arith in rw at (sym (append-nil (slice f n)))
slice-plus f n (suc m) =
    let at : n + suc m ≡ suc (n + m) = omega arith in
    rw (at, slice-plus f n m) (append_assoc (slice f n) (slice (λ j. f (n + j)) m) (f (n + m) ∷ []))

pub slice-cons : (f : Buf) (n : ℕ) → slice f (suc n) ≡ f 0 ∷ slice (λ j. f (suc j)) n
slice-cons f zero = refl
slice-cons f (suc n) = ap (λ xs. xs ++ f (suc n) ∷ []) (slice-cons f n)

-- The first `n` bytes from the last to the first.
pub slice-mirror : (f : Buf) (n : ℕ) → slice (λ j. f (n - 1 - j)) n ≡ rev (slice f n)
slice-mirror f zero = refl
slice-mirror f (suc n) =
    let g = λ (j : ℕ). f (suc j) in
    let most : slice (λ j. f (suc n - 1 - j)) n ≡ slice (λ j. g (n - 1 - j)) n =
      slice-ext _ _ n (λ j lt. ap f (omega arith)) in
    let first : f (suc n - 1 - n) ≡ f 0 = ap f (omega arith) in
    rw (most, first, slice-mirror g n) (sym (ap rev (slice-cons f n)))

turned-trivial :
    (b e : ℕ) (f : Buf) (j : ℕ) → e ≤ b → f j ≡ (if leb b j && leb j e then f (b + e - j) else f j)
turned-trivial b e f j le = elim (Bool-cases (leb b j && leb j e)) [
  | inl inside ↦ rw inside (ap f (ground arith))
  | inr outside ↦ rw outside refl
]

turned-ends :
    (b e : ℕ) (f : Buf) (j : ℕ)
    → b < e
    → (if leb (b + 1) j && leb j (e - 1)
        then set e (f b) (set b (f e) f) (b + 1 + (e - 1) - j)
        else set e (f b) (set b (f e) f) j)
      ≡ (if leb b j && leb j e then f (b + e - j) else f j)
turned-ends b e f j lt =
    let at : b + 1 + (e - 1) - j ≡ b + e - j = omega (arith, lt) in
    elim (Bool-cases (j == b)) [
      | inl first ↦
          let j_is : j ≡ b = ground arith in
          let last : b + e - b ≡ e = omega arith in rw (at, j_is, last) (ground arith)
      | inr later ↦ elim (Bool-cases (j == e)) [
        | inl end ↦
            let j_is : j ≡ e = ground arith in
            let start : b + e - e ≡ b = omega arith in rw (at, j_is, start) (ground arith)
        | inr before ↦ rw at (ground arith)
      ]
    ]

-- The loop turns the bytes from `b` to `e` around.
pub reverse_loop-at :
    (fuel b e : ℕ) (f : Buf) (j : ℕ)
    → e ≤ b + fuel
    → reverse_loop fuel b e f j ≡ (if leb b j && leb j e then f (b + e - j) else f j)
unfolding reverse_loop
reverse_loop-at zero b e f j le = turned-trivial b e f j (omega arith)
reverse_loop-at (suc fuel) b e f j le = elim (Bool-cases (ltb b e)) [
  | inl more ↦
      rw more (
        reverse_loop-at fuel (b + 1) (e - 1) _ j (ground arith)
        ∙ turned-ends b e f j (ground arith))
  | inr done ↦ rw done (turned-trivial b e f j (ground arith))
]

pub length-rev : (xs : List ℕ) → length (rev xs) ≡ length xs
length-rev [] = refl
length-rev (x ∷ xs) = omega (arith, length-rev xs, length-append (rev xs) (x ∷ []))

pub length-slice : (f : Buf) (n : ℕ) → length (slice f n) ≡ n
length-slice f zero = refl
length-slice f (suc n) = omega (arith, length-slice f n, length-append (slice f n) (f n ∷ []))

pub slice-reverse :
    (fuel n : ℕ) (f : Buf) → n ≤ fuel → slice (reverse_loop fuel 0 (n - 1) f) n ≡ rev (slice f n)
slice-reverse fuel n f le =
    slice-ext _ (λ j. f (n - 1 - j)) n
      (λ j lt. reverse_loop-at fuel 0 (n - 1) f j (omega arith) ∙ turned f j lt)
    ∙ slice-mirror f n
  where
    turned :
        (f : Buf) (j : ℕ)
        → j < n
        → (if leb 0 j && leb j (n - 1) then f (0 + (n - 1) - j) else f j) ≡ f (n - 1 - j)
    turned f j lt = ground arith

fill-inside : (left i c : ℕ) (f : Buf) (j : ℕ) → i ≤ j → j < i + left → fill left i c f j ≡ c
unfolding fill
fill-inside zero i c f j le lt = absurd (omega arith)
fill-inside (suc left) i c f j le lt = elim (Bool-cases (j == i)) [
  | inl e ↦
      let j_is : j ≡ i = ground arith in
      rw j_is (fill-below left (i + 1) c (set i c f) i (omega arith) ∙ ground arith)
  | inr ne ↦ fill-inside left (i + 1) c (set i c f) j (ground arith) (omega arith)
]

slice-const : (n c : ℕ) → slice (λ _. c) n ≡ repeat n c
slice-const zero c = refl
slice-const (suc n) c = rw (slice-const n c) (repeat-push n c)

-- Only the bytes before the padding are turned around.
pub slice-reverse-fill :
    (fuel n left c : ℕ) (f : Buf)
    → 0 < n
    → n ≤ fuel
    → slice (reverse_loop fuel 0 (n - 1) (fill left n c f)) (n + left)
      ≡ rev (slice f n) ++ repeat left c
slice-reverse-fill fuel n left c f pos le =
    let g = fill left n c f in
    let turned = reverse_loop fuel 0 (n - 1) g in
    let front : slice g n ≡ slice f n = slice-ext g f n (λ j lt. fill-below left n c f j lt) in
    let back : slice (λ j. turned (n + j)) left ≡ repeat left c =
      slice-ext _ (λ _. c) left
        (λ j lt. kept g j ∙ fill-inside left n c f (n + j) (omega arith) (omega arith))
      ∙ slice-const left c in
    slice-plus turned n left
    ∙ ap (λ xs. xs ++ slice (λ j. turned (n + j)) left) (slice-reverse fuel n g le ∙ ap rev front)
    ∙ ap (λ ys. rev (slice f n) ++ ys) back
  where
    kept : (g : Buf) (j : ℕ) → reverse_loop fuel 0 (n - 1) g (n + j) ≡ g (n + j)
    kept g j = reverse_loop-at fuel 0 (n - 1) g (n + j) (omega arith) ∙ ground arith
