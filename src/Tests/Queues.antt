-- ===== src/Tests/Queues.antt =====
-- Runs of the queue code on queues that it builds.
use riscv_mos.Base.{ℕ, refl, List, [], ◌∷◌, none}
use riscv_mos.Queue.{Links, Tailq, first, tailq_insert_tail, tailq_remove}
use riscv_mos.Queue.Shape.{IsTailq}
use riscv_mos.Queue.Tail.{tailq_insert_tail-append, tailq_remove-erase}

-- Entries that point nowhere in particular.
abbrev pub blank : Links
blank = record { head = none; le_next = λ i. none; le_prev = λ i. first }

abbrev pub empty_queue : Tailq
empty_queue = record { links = blank; tqh_last = first }

pub empty_queue-IsTailq : IsTailq empty_queue []
empty_queue-IsTailq = record { list = refl; last = refl }

abbrev pub numbers : List ℕ
numbers = 1 ∷ 2 ∷ 3 ∷ []

-- The queue that inserting 1, 2 and 3 at the tail makes.
abbrev pub queue_of_numbers : Tailq
queue_of_numbers = tailq_insert_tail (tailq_insert_tail (tailq_insert_tail empty_queue 1) 2) 3

pub queue_of_numbers-IsTailq : IsTailq queue_of_numbers numbers
queue_of_numbers-IsTailq =
    tailq_insert_tail-append _ 3 (1 ∷ 2 ∷ [])
      (tailq_insert_tail-append _ 2 (1 ∷ [])
        (tailq_insert_tail-append _ 1 [] empty_queue-IsTailq refl) refl)
      refl

tailq_remove-erase_example : IsTailq (tailq_remove queue_of_numbers 3) (1 ∷ 2 ∷ [])
tailq_remove-erase_example =
    tailq_remove-erase queue_of_numbers 3 numbers queue_of_numbers-IsTailq refl
