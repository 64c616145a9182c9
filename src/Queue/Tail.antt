-- ===== src/Queue/Tail.antt =====
-- The tail queue operations of include/queue.h on queues.
use riscv_mos.Base.{
  ℕ, ◌≡◌, ◌≢◌, refl, ◌∙◌, sym, true, false, ◌==◌, arith, if◌then◌else◌, List, [], ◌∷◌, ◌++◌, has,
  ◌∉◌, none, some, inl, inr, Bool-cases, eq→==, ne→==,
}
use riscv_mos.Queue.{
  Link, first, next, Links, Tailq, read, write, is_none, set_next, set_prev, tailq_insert_head,
  tailq_insert_tail, tailq_remove,
}
use riscv_mos.Queue.Shape.{
  Linked, IsTailq, Fresh, Fresh-tail, Fresh-ne, not_mem-append, last_link, erase,
}
use riscv_mos.Queue.Insert.{insert_head-cons}
use riscv_mos.Queue.Remove.{remove-erase, read-write, write-prev}

-- On a well-formed queue that does not hold `elm`, TAILQ_INSERT_HEAD makes a well-formed queue
-- with `elm` in front.
pub tailq_insert_head-cons :
    (q : Tailq) (elm : ℕ) (xs : List ℕ)
    → IsTailq q xs
    → elm ∉ xs
    → IsTailq (tailq_insert_head q elm) (elm ∷ xs)
unfolding tailq_insert_head
tailq_insert_head-cons q elm [] h out = record {
  list = insert_head-cons q.links elm [] h.list out;
  last = rw h.list;
}
tailq_insert_head-cons q elm (x ∷ xs) h out = record {
  list = insert_head-cons q.links elm (x ∷ xs) h.list out;
  last = rw (h.list.0) h.last;
}

-- The end pointer of a list that is not empty belongs to an element.
last_link-inside :
    (x : ℕ) (xs : List ℕ) → (w : ℕ) × (last_link (next x) xs ≡ next w) × (has w (x ∷ xs) ≡ true)
last_link-inside x [] = (x, refl, ground arith)
last_link-inside x (y ∷ ys) = let (w, e, i) = last_link-inside y ys in (w, e, ground arith)

last_link-ne : (l : Link) (x : ℕ) (xs : List ℕ) → Fresh l (x ∷ xs) → l ≢ last_link (next x) xs
last_link-ne l x xs fr e =
    let (w, e', i) = last_link-inside x xs in Fresh-ne l w (x ∷ xs) fr i (e ∙ e')

-- Writing through the end pointer appends.
append_at :
    (s t : Links) (l : Link) (elm : ℕ) (xs : List ℕ)
    → Linked s l xs
    → elm ∉ xs
    → Fresh l (elm ∷ xs)
    → read t (last_link l xs) ≡ some elm
    → t.le_next elm ≡ none
    → t.le_prev elm ≡ last_link l xs
    → ((m : Link) → m ≢ last_link l xs → m ≢ next elm → read t m ≡ read s m)
    → ((x : ℕ) → (x == elm) ≡ false → t.le_prev x ≡ s.le_prev x)
    → Linked t l (xs ++ elm ∷ [])
append_at s t l elm [] h out fr rd nx pv same_next same_prev = (rd, pv, refl, nx)
append_at s t l elm (x ∷ xs) (hd, pr, x_out, rest) out fr rd nx pv same_next same_prev =
    let ne : (x == elm) ≡ false = ground arith in
    (
      same_next l (last_link-ne l x xs (Fresh-tail l elm (x ∷ xs) fr))
            (Fresh-ne l elm (elm ∷ x ∷ xs) fr (ground arith))
          ∙ hd,
      same_prev x ne ∙ pr,
      not_mem-append x elm xs x_out ne,
      append_at s t (next x) elm xs rest (ground arith) (ground arith) rd nx pv same_next same_prev,
    )

last_link-append : (l : Link) (elm : ℕ) (xs : List ℕ) → last_link l (xs ++ elm ∷ []) ≡ next elm
last_link-append l elm [] = refl
last_link-append l elm (x ∷ xs) = last_link-append (next x) elm xs

-- The entries after TAILQ_INSERT_TAIL, for the end pointer `end`.
module _ (s : Links) (elm : ℕ) where
  tail_written : Link → Links
  tail_written end = write (set_prev (set_next s elm none) elm end) end (some elm)

  tail_written-next : (end : Link) → end ≢ next elm → (tail_written end).le_next elm ≡ none
  unfolding tail_written
  tail_written-next first ne = ground arith
  tail_written-next (next j) ne =
      let other : (elm == j) ≡ false = ne→== elm j (λ e. ne (cc)) in ground arith

  tail_written-prev : (end : Link) → (tail_written end).le_prev elm ≡ end
  unfolding tail_written
  tail_written-prev end =
      write-prev (set_prev (set_next s elm none) elm end) end (some elm) elm ∙ ground arith

  tail_written-read : (end m : Link) → m ≢ end → m ≢ next elm → read (tail_written end) m ≡ read s m
  unfolding tail_written
  tail_written-read first first a b = absurd (a refl)
  tail_written-read first (next i) a b =
      let other : (i == elm) ≡ false = ne→== i elm (λ e. b (cc)) in ground arith
  tail_written-read (next j) first a b = refl
  tail_written-read (next j) (next i) a b =
      let other : (i == elm) ≡ false = ne→== i elm (λ e. b (cc)) in
      let other' : (i == j) ≡ false = ne→== i j (λ e. a (cc)) in ground arith

  tail_written-same_prev :
      (end : Link) (x : ℕ) → (x == elm) ≡ false → (tail_written end).le_prev x ≡ s.le_prev x
  unfolding tail_written
  tail_written-same_prev end x ne =
      write-prev (set_prev (set_next s elm none) elm end) end (some elm) x ∙ ground arith

end-ne : (elm : ℕ) (xs : List ℕ) → elm ∉ xs → last_link first xs ≢ next elm
end-ne elm [] out e = cc
end-ne elm (x ∷ xs) out e =
    let (w, e', i) = last_link-inside x xs in Fresh-ne (next elm) w (x ∷ xs) out i (sym e ∙ e')

-- On a well-formed queue that does not hold `elm`, TAILQ_INSERT_TAIL makes a well-formed queue
-- with `elm` at the end.
pub tailq_insert_tail-append :
    (q : Tailq) (elm : ℕ) (xs : List ℕ)
    → IsTailq q xs
    → elm ∉ xs
    → IsTailq (tailq_insert_tail q elm) (xs ++ elm ∷ [])
unfolding tailq_insert_tail tail_written
tailq_insert_tail-append q elm xs h out =
    let end = last_link first xs in
    rw h.last (record {
      list =
          append_at q.links (tail_written q.links elm end) first elm xs h.list out tt
            (read-write (set_prev (set_next q.links elm none) elm end) end (some elm))
            (tail_written-next q.links elm end (end-ne elm xs out))
            (tail_written-prev q.links elm end) (tail_written-read q.links elm end)
            (tail_written-same_prev q.links elm end);
      last = sym (last_link-append first elm xs);
    })

-- The end pointer after a removal.
last_link-erase :
    (s : Links) (l : Link) (a : ℕ) (xs : List ℕ)
    → Linked s l xs
    → has a xs ≡ true
    → last_link l (erase a xs) ≡ (if is_none (s.le_next a) then s.le_prev a else last_link l xs)
last_link-erase s l a [] h i = cc
last_link-erase s l a (x ∷ []) (hd, pr, out, rest) i =
    let e : a ≡ x = ground arith in rw (e, eq→== x x refl, rest) (sym pr)
last_link-erase s l a (x ∷ y ∷ ys) (hd, pr, out, rest) i = elim (Bool-cases (a == x)) [
  | inl e ↦ let e' : a ≡ x = ground arith in rw e (rw (e', rest.0))
  | inr e ↦ rw e (last_link-erase s (next x) a (y ∷ ys) rest (ground arith))
]

-- On a well-formed queue that holds `a`, at any place, TAILQ_REMOVE makes a well-formed queue of
-- the other elements, in their order.
pub tailq_remove-erase :
    (q : Tailq) (a : ℕ) (xs : List ℕ)
    → IsTailq q xs
    → has a xs ≡ true
    → IsTailq (tailq_remove q a) (erase a xs)
unfolding tailq_remove
tailq_remove-erase q a xs h i = record {
  list = remove-erase q.links a xs h.list i;
  last = rw (last_link-erase q.links first a xs h.list i, h.last);
}
