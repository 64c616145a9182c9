-- ===== src/Sched/Runs.antt =====
-- The states that the scheduler of kern/sched.c moves between.
use riscv_mos.Base.{
  ℕ, ◌+◌, ◌-◌, ◌^◌, ◌≡◌, inl, inr, refl, arith, true, ◌||◌, ◌==◌, Option, none, some, u32, List, [],
  ◌∷◌, ◌++◌, has, ◌∉◌, eq→==, Bool-cases,
}
use riscv_mos.Kernel.{Outcome, ok}
use riscv_mos.Queue.{Link, Links, first, next, tailq_remove}
use riscv_mos.Queue.Shape.{IsTailq, Linked, erase}
use riscv_mos.Queue.Tail.{tailq_remove-erase, tailq_insert_tail-append}
use riscv_mos.Vm.User.{make_satp}
use riscv_mos.Env.{Os, env_runnable, update_env}
use riscv_mos.Env.Life.{env_run, save_context}
use riscv_mos.Sched.{requeue, pick}

-- The queue holds the environments `xs`, all of them runnable.
pub record Ready (s : Os) (xs : List ℕ) : Type 0 where
  pub queue : IsTailq s.env_sched_list xs
  pub runnable : (e : ℕ) → has e xs ≡ true → (s.envs e).env_status ≡ env_runnable

-- The outcome of a call that leaves environment `e` running, with `left` slices left and the queue
-- `xs`, in its address space and with every priority and page table as before.
pub record Runs (s : Os) (e left : ℕ) (xs : List ℕ) (o : Outcome Os (Unit {0})) : Type 0 where
  pub after : Os
  pub returns : o ≡ ok tt after
  pub ready : Ready after xs
  pub current : after.curenv ≡ some e
  pub slices : after.count ≡ left
  pub space : after.machine.satp ≡ make_satp (s.envs e).env_pgtable
  pub memory : after.machine.mem ≡ s.machine.mem
  pub priority : (i : ℕ) → (after.envs i).env_pri ≡ (s.envs i).env_pri
  pub table : (i : ℕ) → (after.envs i).env_pgtable ≡ (s.envs i).env_pgtable

-- What saving the context of an environment leaves alone.
module _ (s : Os) where
  saved-status :
      (o : Option ℕ) (i : ℕ) → ((save_context o s).envs i).env_status ≡ (s.envs i).env_status
  saved-status none i = refl
  saved-status (some c) i = ground arith

  saved-priority : (o : Option ℕ) (i : ℕ) → ((save_context o s).envs i).env_pri ≡ (s.envs i).env_pri
  saved-priority none i = refl
  saved-priority (some c) i = ground arith

  saved-table :
      (o : Option ℕ) (i : ℕ) → ((save_context o s).envs i).env_pgtable ≡ (s.envs i).env_pgtable
  saved-table none i = refl
  saved-table (some c) i = ground arith

  saved-queue : (o : Option ℕ) → (save_context o s).env_sched_list ≡ s.env_sched_list
  saved-queue none = refl
  saved-queue (some c) = refl

  saved-memory : (o : Option ℕ) → (save_context o s).machine.mem ≡ s.machine.mem
  saved-memory none = refl
  saved-memory (some c) = refl

  saved-count : (o : Option ℕ) → (save_context o s).count ≡ s.count
  saved-count none = refl
  saved-count (some c) = refl

-- The state that `env_run` leaves.
abbrev ran : ℕ → Os → Os
ran e s =
    let s2 = record (save_context s.curenv s) { curenv = some e } in
    let s3 = update_env s2 e (record (s2.envs e) { env_runs = u32 ((s2.envs e).env_runs + 1) }) in
    record s3 { machine = record (s3.machine) { satp = make_satp (s3.envs e).env_pgtable } }

env_run-ran :
    (s : Os) (e : ℕ) → (s.envs e).env_status ≡ env_runnable → env_run e s ≡ ok tt (ran e s)
env_run-ran s e r = ground arith

pub ran-Runs :
    (s : Os) (e : ℕ) (xs : List ℕ)
    → Ready s xs
    → (s.envs e).env_status ≡ env_runnable
    → Runs s e s.count xs (env_run e s)
ran-Runs s e xs h r = record {
  after = ran e s;
  returns = env_run-ran s e r;
  ready = record {
    queue = rw (saved-queue s s.curenv) h.queue;
    runnable =
        λ i m. ground (arith, saved-status s s.curenv i, saved-status s s.curenv e, h.runnable i m);
  };
  current = refl;
  slices = saved-count s s.curenv;
  space = ground (arith, saved-table s s.curenv e);
  memory = saved-memory s s.curenv;
  priority = λ i. ground (arith, saved-priority s s.curenv i, saved-priority s s.curenv e);
  table = λ i. ground (arith, saved-table s s.curenv i, saved-table s s.curenv e);
}

-- An element of a queue stands in it once.
erased : (l : Links) (p : Link) (c : ℕ) (xs : List ℕ) → Linked l p xs → c ∉ erase c xs
erased l p c [] h = refl
erased l p c (x ∷ xs) (r, q, out, rest) = elim (Bool-cases (c == x)) [
  | inl e ↦ let e' : c ≡ x = ground arith in rw (e', eq→== x x refl) out
  | inr e ↦ ground (arith, erased l (next x) c xs rest)
]

has-append : (i : ℕ) (xs ys : List ℕ) → has i (xs ++ ys) ≡ (has i xs || has i ys)
has-append i [] ys = refl
has-append i (x ∷ xs) ys = ground (arith, has-append i xs ys)

requeued-has :
    (c i : ℕ) (xs : List ℕ)
    → has c xs ≡ true
    → has i (erase c xs ++ c ∷ []) ≡ true
    → has i xs ≡ true
requeued-has c i [] h m = absurd (ground arith)
requeued-has c i (x ∷ xs) h m = elim (Bool-cases (c == x)) [
  | inl e ↦
      let e' : c ≡ x = ground arith in
      let m' : has i (xs ++ x ∷ []) ≡ true = ground arith in
      ground (arith, has-append i xs (x ∷ []))
  | inr e ↦ ground (arith, requeued-has c i xs)
]

-- Moving the environment `c` to the end of the queue.
pub requeue-Ready :
    (s : Os) (c : ℕ) (xs : List ℕ)
    → Ready s xs
    → has c xs ≡ true
    → Ready (requeue (some c) s) (erase c xs ++ c ∷ [])
requeue-Ready s c xs h i = rw (h.runnable c i) (record {
  queue =
      tailq_insert_tail-append (tailq_remove s.env_sched_list c) c (erase c xs)
        (tailq_remove-erase s.env_sched_list c xs h.queue i)
        (erased s.env_sched_list.links first c xs h.queue.list);
  runnable = λ j m. h.runnable j (requeued-has c j xs i m);
})

-- The head of the queue runs next, for as many slices as its priority says.
pub pick-Runs :
    (s : Os) (e : ℕ) (ys : List ℕ) (o : Option ℕ)
    → Ready s (e ∷ ys)
    → o ≡ some e
    → Runs s e (u32 ((s.envs e).env_pri + (2 ^ 32 - 1))) (e ∷ ys) (pick o s)
pick-Runs s e ys o h p =
    let t = record s { count = u32 ((s.envs e).env_pri + (2 ^ 32 - 1)) } in
    let r =
      ran-Runs t e (e ∷ ys) (record { queue = h.queue; runnable = h.runnable })
        (h.runnable e (ground arith)) in
    rw p (record {
      after = r.after;
      returns = r.returns;
      ready = r.ready;
      current = r.current;
      slices = r.slices;
      space = r.space;
      memory = r.memory;
      priority = r.priority;
      table = r.table;
    })
