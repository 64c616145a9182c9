-- ===== src/Queue/Remove.antt =====
-- LIST_REMOVE of include/queue.h on lists.
use mathlib.Core.Path.{subst}
use riscv_mos.Base.{
  ℕ, ◌≡◌, refl, ◌∙◌, sym, true, false, ◌==◌, arith, List, [], ◌∷◌, has, ◌∉◌, Option, none, some,
  inl, inr, Bool-cases, Option-cases,
}
use riscv_mos.Queue.{Link, first, next, Links, read, write, set_prev, remove}
use riscv_mos.Queue.Shape.{Linked, IsList, Linked-ext, has-ne, Fresh, Fresh-tail, erase}

pub read-write : (s : Links) (l : Link) (v : Option ℕ) → read (write s l v) l ≡ v
read-write s first v = refl
read-write s (next i) v = ground arith

pub write-prev :
    (s : Links) (l : Link) (v : Option ℕ) (x : ℕ) → (write s l v).le_prev x ≡ s.le_prev x
write-prev s first v x = refl
write-prev s (next i) v x = refl

write-next :
    (s : Links) (l : Link) (v : Option ℕ) (x : ℕ) (xs : List ℕ)
    → Fresh l xs
    → has x xs ≡ true
    → (write s l v).le_next x ≡ s.le_next x
write-next s first v x xs fr i = refl
write-next s (next j) v x xs fr i = ground (arith, has-ne x j xs i fr)

-- What the macro does to an element with a successor, and to one without.
remove-some :
    (s : Links) (x y : ℕ) (l : Link)
    → s.le_next x ≡ some y
    → s.le_prev x ≡ l
    → (x == y) ≡ false
    → remove s x ≡ write (set_prev s y l) l (some y)
unfolding remove
remove-some s x y l n p ne = rw (n, p, ne, n)

remove-none :
    (s : Links) (x : ℕ) (l : Link)
    → s.le_next x ≡ none
    → s.le_prev x ≡ l
    → remove s x ≡ write s l none
unfolding remove
remove-none s x l n p = rw (n, p, n)

-- The element stands right behind the pointer `l`.
remove_here :
    (s : Links) (l : Link) (x : ℕ) (xs : List ℕ)
    → Fresh l (x ∷ xs)
    → Linked s l (x ∷ xs)
    → Linked (remove s x) l xs
remove_here s l x [] fr (hd, pr, out, rest) = rw (remove-none s x l rest pr) (read-write s l none)
remove_here s l x (y ∷ ys) fr (hd, pr, out, (hd', pr', out', rest)) =
    let s1 : Links = set_prev s y l in
    let s2 : Links = write s1 l (some y) in
    let fr' : Fresh l (y ∷ ys) = Fresh-tail l x (y ∷ ys) fr in
    subst (λ t. Linked t l (y ∷ ys)) (sym (remove-some s x y l hd' pr (ground arith)))
      (
        read-write s1 l (some y),
        write-prev s1 l (some y) y ∙ ground arith,
        out',
        Linked-ext s s2 (next y) ys (write-next s1 l (some y) y (y ∷ ys) fr' (ground arith))
            (λ z i. (
              write-next s1 l (some y) z ys (Fresh-tail l y ys fr') i,
              write-prev s1 l (some y) z ∙ ground (arith, has-ne z y ys i),
            ))
            rest,
      )

-- An element further down: the pointer before it belongs to an element of the list, and what
-- follows it is another element behind the first.
pub record Inside (s : Links) (x : ℕ) (xs : List ℕ) (a : ℕ) : Type 0 where
  pub before : ℕ
  pub points : s.le_prev a ≡ next before
  pub member : has before (x ∷ xs) ≡ true
  pub after : (y : ℕ) → s.le_next a ≡ some y → ((a == y) ≡ false) × (has y xs ≡ true)

first_Inside :
    (s : Links) (x y : ℕ) (ys : List ℕ) → Linked s (next x) (y ∷ ys) → Inside s x (y ∷ ys) y
first_Inside s x y [] (hd, pr, out, rest) = record {
  before = x;
  points = pr;
  member = ground arith;
  after = λ z e. cc;
}
first_Inside s x y (z ∷ zs) (hd, pr, out, (hd', pr', out', rest)) = record {
  before = x;
  points = pr;
  member = ground arith;
  after = λ v e. ground arith;
}

pub Linked-Inside :
    (s : Links) (l : Link) (a x : ℕ) (xs : List ℕ)
    → Linked s l (x ∷ xs)
    → has a xs ≡ true
    → Inside s x xs a
Linked-Inside s l a x [] h i = cc
Linked-Inside s l a x (y ∷ ys) (hd, pr, out, rest) i = elim (Bool-cases (a == y)) [
  | inl e ↦ let e' : a ≡ y = ground arith in rw e' (first_Inside s x y ys rest)
  | inr e ↦
      let r = Linked-Inside s (next x) a y ys rest (ground arith) in
      record {
        before = r.before;
        points = r.points;
        member = ground (arith, r.member);
        after = λ z n. ((r.after z n).0, ground (arith, r.after z n));
      }
]

-- Removing such an element touches neither the pointer before the list nor the first entry.
module _ (s : Links) (l : Link) (x : ℕ) (xs : List ℕ) (a : ℕ) (fr : Fresh l (x ∷ xs)) (out : x ∉ xs)
    (r : Inside s x xs a) where
  read-write_other : (t : Links) (v : Option ℕ) → read (write t (next r.before) v) l ≡ read t l
  read-write_other = by_link l fr
    where
      by_link :
          (l : Link)
          → Fresh l (x ∷ xs)
          → (t : Links) (v : Option ℕ) → read (write t (next r.before) v) l ≡ read t l
      by_link first fr t v = refl
      by_link (next j) fr t v = ground (arith, has-ne r.before j (x ∷ xs) r.member fr)

  remove-before : (read (remove s a) l ≡ read s l) × ((remove s a).le_prev x ≡ s.le_prev x)
  remove-before = elim (Option-cases (s.le_next a)) [
    | inl e ↦
        subst (λ t. (read t l ≡ read s l) × (t.le_prev x ≡ s.le_prev x))
          (sym (remove-none s a (next r.before) e r.points)) (read-write_other s none, refl)
    | inr (y, e) ↦
        let (ne, m) = r.after y e in
        let s1 : Links = set_prev s y (next r.before) in
        subst (λ t. (read t l ≡ read s l) × (t.le_prev x ≡ s.le_prev x))
          (sym (remove-some s a y (next r.before) e r.points ne))
          (read-write_other s1 (some y) ∙ same_read l y, ground (arith, has-ne y x xs m out))
  ]
    where
      same_read : (l : Link) (y : ℕ) → read (set_prev s y (next r.before)) l ≡ read s l
      same_read first y = refl
      same_read (next j) y = refl

erase-not_mem : (x a : ℕ) (xs : List ℕ) → x ∉ xs → x ∉ erase a xs
erase-not_mem x a [] h = refl
erase-not_mem x a (y ∷ ys) h = ground (arith, erase-not_mem x a ys)

Linked-remove :
    (s : Links) (l : Link) (a : ℕ) (xs : List ℕ)
    → Fresh l xs
    → Linked s l xs
    → has a xs ≡ true
    → Linked (remove s a) l (erase a xs)
Linked-remove s l a [] fr h i = cc
Linked-remove s l a (x ∷ xs) fr (hd, pr, out, rest) i = elim (Bool-cases (a == x)) [
  | inl e ↦
      let e' : a ≡ x = ground arith in rw e (rw e' (remove_here s l x xs fr (hd, pr, out, rest)))
  | inr e ↦
      let inside : has a xs ≡ true = ground arith in
      let (rd, pv) =
        remove-before s l x xs a fr out (Linked-Inside s l a x xs (hd, pr, out, rest) inside) in
      rw e
        (rd ∙ hd, pv ∙ pr, erase-not_mem x a xs out, Linked-remove s (next x) a xs out rest inside)
]

-- On a well-formed list that holds `a`, LIST_REMOVE makes a well-formed list of the other
-- elements, in their order.
pub remove-erase :
    (s : Links) (a : ℕ) (xs : List ℕ)
    → IsList s xs
    → has a xs ≡ true
    → IsList (remove s a) (erase a xs)
remove-erase s a xs h i = Linked-remove s first a xs tt h i
