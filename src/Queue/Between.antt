-- ===== src/Queue/Between.antt =====
-- LIST_INSERT_AFTER and TAILQ_INSERT_AFTER of include/queue.h on lists.
use mathlib.Core.Path.{subst}
use riscv_mos.Base.{
  ℕ, ◌≡◌, refl, ◌∙◌, sym, true, false, ◌==◌, arith, if◌then◌else◌, List, [], ◌∷◌, has, ◌∉◌, none,
  some, inl, inr, Bool-cases, Option-cases,
}
use riscv_mos.Queue.{
  Link, first, next, Links, Tailq, read, is_none, insert_after, tailq_insert_after,
}
use riscv_mos.Queue.Shape.{Linked, IsList, IsTailq, Linked-ext, Fresh, has-ne, last_link}
use riscv_mos.Queue.Remove.{Linked-Inside}

-- `elm` behind the first occurrence of `a`.
abbrev pub put_behind : (a elm : ℕ) → List ℕ → List ℕ
put_behind a elm [] = []
put_behind a elm (x ∷ xs) = if a == x then x ∷ elm ∷ xs else x ∷ put_behind a elm xs

module _ (s : Links) (a elm : ℕ) (ne : (a == elm) ≡ false) where
  next-after :
      (j : ℕ)
      → (insert_after s a elm).le_next j
        ≡ (if j == a then some elm else if j == elm then s.le_next a else s.le_next j)
  unfolding insert_after
  next-after j = elim (Option-cases (s.le_next a)) [
    | inl e ↦ rw e (ground (arith, ne))
    | inr (y, e) ↦ rw e (ground (arith, ne))
  ]

  head-after : (insert_after s a elm).head ≡ s.head
  unfolding insert_after
  head-after = elim (Option-cases (s.le_next a)) [
    | inl e ↦ rw (e, ne) (ground (arith, e))
    | inr (y, e) ↦ rw (e, ne) (ground (arith, e))
  ]

  prev-after_end :
      s.le_next a ≡ none
      → (j : ℕ) → (insert_after s a elm).le_prev j ≡ (if j == elm then next a else s.le_prev j)
  unfolding insert_after
  prev-after_end e j = rw (e, ne) (ground (arith, e))

  prev-after :
      (y : ℕ)
      → s.le_next a ≡ some y
      → (j : ℕ)
      → (insert_after s a elm).le_prev j
        ≡ (if j == elm then next a else if j == y then next elm else s.le_prev j)
  unfolding insert_after
  prev-after y e j = rw (e, ne) (ground (arith, e))

  read-after : (l : Link) → Fresh l (a ∷ elm ∷ []) → read (insert_after s a elm) l ≡ read s l
  read-after first fr = head-after
  read-after (next j) fr = next-after j ∙ ground arith

-- Neither of the two is behind the pointer.
Fresh-two :
    (l : Link) (a elm x : ℕ) (xs : List ℕ)
    → Fresh l (elm ∷ x ∷ xs)
    → has a (x ∷ xs) ≡ true
    → Fresh l (a ∷ elm ∷ [])
Fresh-two first a elm x xs fr i = tt
Fresh-two (next j) a elm x xs fr i =
    let other : (a == j) ≡ false = has-ne a j (x ∷ xs) i (ground arith) in ground (arith, other)

-- Behind the first element.
insert_here :
    (s : Links) (l : Link) (a elm : ℕ) (xs : List ℕ)
    → Fresh l (elm ∷ a ∷ xs)
    → Linked s l (a ∷ xs)
    → elm ∉ (a ∷ xs)
    → Linked (insert_after s a elm) l (a ∷ elm ∷ xs)
insert_here s l a elm [] fr (hd, pr, out, rest) elm_out =
    let ne : (a == elm) ≡ false = ground arith in
    (
      read-after s a elm ne l (Fresh-two l a elm a [] fr (ground arith)) ∙ hd,
      prev-after_end s a elm ne rest a ∙ ground arith,
      ground arith,
      (
        next-after s a elm ne a ∙ ground arith,
        prev-after_end s a elm ne rest elm ∙ ground arith,
        refl,
        next-after s a elm ne elm ∙ ground (arith, rest),
      ),
    )
insert_here s l a elm (y ∷ ys) fr (hd, pr, out, (hd', pr', out', rest)) elm_out =
    let ne : (a == elm) ≡ false = ground arith in
    let prev = prev-after s a elm ne y hd' in
    let nx = next-after s a elm ne in
    (
      read-after s a elm ne l (Fresh-two l a elm a (y ∷ ys) fr (ground arith)) ∙ hd,
      prev a ∙ ground (arith, pr),
      ground arith,
      (
        nx a ∙ ground arith,
        prev elm ∙ ground arith,
        ground arith,
        (
          nx elm ∙ ground (arith, hd'),
          prev y ∙ ground arith,
          out',
          Linked-ext s (insert_after s a elm) (next y) ys (nx y ∙ ground arith)
              (λ z i. (
                nx z ∙ ground (arith, has-ne z elm ys i, has-ne z a ys i),
                prev z ∙ ground (arith, has-ne z elm ys i, has-ne z y ys i),
              ))
              rest,
        ),
      ),
    )

not_mem-put_behind :
    (x a elm : ℕ) (xs : List ℕ) → x ∉ xs → (x == elm) ≡ false → x ∉ put_behind a elm xs
not_mem-put_behind x a elm [] out ne = refl
not_mem-put_behind x a elm (y ∷ ys) out ne = ground (arith, not_mem-put_behind x a elm ys)

-- The entry of an element before `a` keeps its pointer back.
prev-before :
    (s : Links) (l : Link) (x a elm : ℕ) (xs : List ℕ)
    → Linked s l (x ∷ xs)
    → has a xs ≡ true
    → (a == elm) ≡ false
    → (x == elm) ≡ false
    → (insert_after s a elm).le_prev x ≡ s.le_prev x
prev-before s l x a elm xs h i ne x_ne = elim (Option-cases (s.le_next a)) [
  | inl e ↦ prev-after_end s a elm ne e x ∙ ground arith
  | inr (y, e) ↦
      let inside = (Linked-Inside s l a x xs h i).after y e in
      prev-after s a elm ne y e x ∙ ground (arith, has-ne y x xs inside.1 h.2)
]

Linked-insert_after :
    (s : Links) (l : Link) (a elm : ℕ) (xs : List ℕ)
    → Fresh l (elm ∷ xs)
    → Linked s l xs
    → elm ∉ xs
    → has a xs ≡ true
    → Linked (insert_after s a elm) l (put_behind a elm xs)
Linked-insert_after s l a elm [] fr h out i = cc
Linked-insert_after s l a elm (x ∷ xs) fr (hd, pr, x_out, rest) out i = elim (Bool-cases (a == x)) [
  | inl e ↦
      let is : a ≡ x = ground arith in
      rw e (
        subst (λ v. Linked (insert_after s v elm) l (x ∷ elm ∷ xs)) (sym is)
          (insert_here s l x elm xs fr (hd, pr, x_out, rest) out))
  | inr e ↦
      let inside : has a xs ≡ true = ground arith in
      let ne : (a == elm) ≡ false = has-ne a elm xs inside (ground arith) in
      rw e (
        read-after s a elm ne l (Fresh-two l a elm x xs fr i) ∙ hd,
        prev-before s l x a elm xs (hd, pr, x_out, rest) inside ne (ground arith) ∙ pr,
        not_mem-put_behind x a elm xs x_out (ground arith),
        Linked-insert_after s (next x) a elm xs (ground arith) rest (ground arith) inside,
      )
]

-- On a well-formed list that holds `a` and not `elm`, LIST_INSERT_AFTER makes a well-formed list with `elm`
-- behind `a` and the other elements in their order.
pub insert_after-put_behind :
    (s : Links) (a elm : ℕ) (xs : List ℕ)
    → IsList s xs
    → elm ∉ xs
    → has a xs ≡ true
    → IsList (insert_after s a elm) (put_behind a elm xs)
insert_after-put_behind s a elm xs h out i = Linked-insert_after s first a elm xs tt h out i

-- The end of a queue that does not end with `a`.
last-put_behind :
    (s : Links) (l : Link) (a elm : ℕ) (xs : List ℕ)
    → Linked s l xs
    → has a xs ≡ true
    → last_link l (put_behind a elm xs)
      ≡ (if is_none (s.le_next a) then next elm else last_link l xs)
last-put_behind s l a elm [] h i = cc
last-put_behind s l a elm (x ∷ []) (hd, pr, out, rest) i =
    let is : a ≡ x = ground arith in rw is (rw rest (ground arith))
last-put_behind s l a elm (x ∷ y ∷ ys) (hd, pr, out, rest) i = elim (Bool-cases (a == x)) [
  | inl e ↦ let is : a ≡ x = ground arith in rw e (rw is (rw (rest.0) refl))
  | inr e ↦ rw e (last-put_behind s (next x) a elm (y ∷ ys) rest (ground arith))
]

-- On a well-formed queue that holds `a` and not `elm`, TAILQ_INSERT_AFTER makes a well-formed queue with
-- `elm` behind `a`, its end pointer included, and the other elements in their order.
pub tailq_insert_after-put_behind :
    (q : Tailq) (a elm : ℕ) (xs : List ℕ)
    → IsTailq q xs
    → elm ∉ xs
    → has a xs ≡ true
    → IsTailq (tailq_insert_after q a elm) (put_behind a elm xs)
unfolding tailq_insert_after
tailq_insert_after-put_behind q a elm xs h out i = record {
  list = insert_after-put_behind q.links a elm xs h.list out i;
  last = rw h.last (sym (last-put_behind q.links first a elm xs h.list i));
}
