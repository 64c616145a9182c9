-- ===== src/Queue.antt =====
-- include/queue.h: intrusive doubly linked lists (LIST) and tail queues (TAILQ). An element is the
-- number of the structure that holds the entry; an entry's `prev` is the address of the pointer
-- that points at it, which is the head's or another entry's `next`. One store holds the entries of
-- one field of all the structures, with the head; a tail queue adds `tqh_last` to it.
pub mod Shape
pub mod Insert
pub mod Remove
pub mod Tail
pub mod Between
use riscv_mos.Base.{ℕ, Bool, true, false, ◌==◌, if◌then◌else◌, Option, none, some}

-- The address of a pointer: `&(head)->lh_first`, or `&(elm)->field.le_next`.
pub data Link : Type 0 where
  first : Link
  next : ℕ → Link

pub record Links : Type 0 where
  pub head : Option ℕ
  pub le_next : ℕ → Option ℕ
  pub le_prev : ℕ → Link

abbrev pub update {ℓ} : {A : Type ℓ} → (ℕ → A) → ℕ → A → ℕ → A
update f i v j = if j == i then v else f j

-- `*link` and `*link = v`
abbrev pub read : Links → Link → Option ℕ
read s first = s.head
read s (next i) = s.le_next i

abbrev pub write : Links → Link → Option ℕ → Links
write s first v = record s { head = v }
write s (next i) v = record s { le_next = update s.le_next i v }

abbrev pub set_next : Links → ℕ → Option ℕ → Links
set_next s i v = record s { le_next = update s.le_next i v }

abbrev pub set_prev : Links → ℕ → Link → Links
set_prev s i l = record s { le_prev = update s.le_prev i l }

-- `p->field.le_prev = l`, for a `p` that may be NULL, under the test `p != NULL`
abbrev pub set_prev_of : Links → Option ℕ → Link → Links
set_prev_of s none l = s
set_prev_of s (some i) l = set_prev s i l

-- LIST_INIT, LIST_EMPTY
abbrev pub list_init : Links → Links
list_init s = record s { head = none }

abbrev pub is_none : Option ℕ → Bool
is_none none = true
is_none (some i) = false

abbrev pub list_empty : Links → Bool
list_empty s = is_none s.head

-- LIST_INSERT_HEAD
unfoldable pub insert_head : Links → ℕ → Links
insert_head s elm =
    let s1 = set_next s elm s.head in
    let s2 = set_prev_of s1 s1.head (next elm) in
    let s3 = record s2 { head = some elm } in set_prev s3 elm first

-- LIST_INSERT_AFTER
unfoldable pub insert_after : Links → (listelm elm : ℕ) → Links
insert_after s listelm elm =
    let s1 = set_next s elm (s.le_next listelm) in
    let s2 = set_prev_of s1 (s1.le_next listelm) (next elm) in
    let s3 = set_next s2 listelm (some elm) in set_prev s3 elm (next listelm)

-- LIST_INSERT_BEFORE
unfoldable pub insert_before : Links → (listelm elm : ℕ) → Links
insert_before s listelm elm =
    let s1 = set_prev s elm (s.le_prev listelm) in
    let s2 = set_next s1 elm (some listelm) in
    let s3 = write s2 (s2.le_prev listelm) (some elm) in set_prev s3 listelm (next elm)

-- LIST_REMOVE
unfoldable pub remove : Links → ℕ → Links
remove s elm =
    let s1 = set_prev_of s (s.le_next elm) (s.le_prev elm) in
    write s1 (s1.le_prev elm) (s1.le_next elm)

pub record Tailq : Type 0 where
  pub links : Links
  pub tqh_last : Link

-- TAILQ_INIT
abbrev pub tailq_init : Tailq → Tailq
tailq_init q = record { links = record (q.links) { head = none }; tqh_last = first }

-- TAILQ_INSERT_HEAD: its `else` branch moves the end of an empty queue.
unfoldable pub tailq_insert_head : Tailq → ℕ → Tailq
tailq_insert_head q elm = record {
  links = insert_head q.links elm;
  tqh_last = if is_none q.links.head then next elm else q.tqh_last;
}

-- TAILQ_INSERT_TAIL
unfoldable pub tailq_insert_tail : Tailq → ℕ → Tailq
tailq_insert_tail q elm =
    let s1 = set_next q.links elm none in
    let s2 = set_prev s1 elm q.tqh_last in
    record { links = write s2 q.tqh_last (some elm); tqh_last = next elm }

-- TAILQ_REMOVE
unfoldable pub tailq_remove : Tailq → ℕ → Tailq
tailq_remove q elm = record {
  links = remove q.links elm;
  tqh_last = if is_none (q.links.le_next elm) then q.links.le_prev elm else q.tqh_last;
}

-- TAILQ_INSERT_AFTER
unfoldable pub tailq_insert_after : Tailq → (listelm elm : ℕ) → Tailq
tailq_insert_after q listelm elm = record {
  links = insert_after q.links listelm elm;
  tqh_last = if is_none (q.links.le_next listelm) then next elm else q.tqh_last;
}

-- TAILQ_INSERT_BEFORE
unfoldable pub tailq_insert_before : Tailq → (listelm elm : ℕ) → Tailq
tailq_insert_before q listelm elm = record q { links = insert_before q.links listelm elm }
