-- ===== src/Sched/Round.antt =====
-- What the scheduler of kern/sched.c does to the queue.
use riscv_mos.Base.{
  ℕ, ◌+◌, ◌-◌, ◌^◌, ◌<◌, ◌≡◌, ◌⊎◌, inl, refl, sym, ap, ◌∙◌, arith, Bool, true, false, some, u32,
  List, [], ◌∷◌, ◌++◌, length, get_elem?, has, eq→==,
}
use riscv_mos.Kernel.{Outcome, Cmd, ok, panic, pure, ◌>>◌}
use riscv_mos.Queue.Shape.{erase}
use riscv_mos.Vm.User.{make_satp}
use riscv_mos.Timer.{do_timer, timer_set_next_event}
use riscv_mos.Env.{Os, env_runnable}
use riscv_mos.Sched.{is_runnable, requeue, start_slice, pick, schedule}
use riscv_mos.Sched.Runs.{Ready, Runs, ran-Runs, requeue-Ready, pick-Runs}

-- The state that a call of `schedule` starts from: that of its call of `do_timer`.
Ready-do_timer : (now : ℕ) (s : Os) (xs : List ℕ) → Ready s xs → Ready (do_timer now s) xs
unfolding do_timer timer_set_next_event
Ready-do_timer now s xs h = record { queue = h.queue; runnable = h.runnable }

requeue-envs : (c : ℕ) (s : Os) → (requeue (some c) s).envs ≡ s.envs
requeue-envs c s = ground arith

requeue-memory : (c : ℕ) (s : Os) → (requeue (some c) s).machine.mem ≡ s.machine.mem
requeue-memory c s = ground arith

-- `Runs` from another state with the same priorities and page tables.
Runs-of :
    (s t : Os) (e : ℕ) (xs : List ℕ) (o o' : Outcome Os (Unit {0})) {left left' : ℕ}
    → Runs t e left xs o
    → o' ≡ o
    → left ≡ left'
    → ((i : ℕ) → (t.envs i).env_pri ≡ (s.envs i).env_pri)
    → ((i : ℕ) → (t.envs i).env_pgtable ≡ (s.envs i).env_pgtable)
    → t.machine.mem ≡ s.machine.mem
    → Runs s e left' xs o'
Runs-of s t e xs o o' r go slices pri table memory = record {
  after = r.after;
  returns = go ∙ r.returns;
  ready = r.ready;
  current = r.current;
  slices = r.slices ∙ slices;
  space = r.space ∙ ap make_satp (table e);
  memory = r.memory ∙ memory;
  priority = λ i. r.priority i ∙ pri i;
  table = λ i. r.table i ∙ table i;
}

-- The queue is well formed and its environments are runnable. The environment `c` that runs is
-- runnable, `schedule` is not called to yield and slices are left: `c` goes on in its address
-- space with one slice less. The queue, the priorities and the page tables stay.
pub schedule-stays :
    (now c : ℕ) (s : Os) (xs : List ℕ)
    → Ready s xs
    → s.curenv ≡ some c
    → (s.envs c).env_status ≡ env_runnable
    → 0 < s.count
    → s.count < 2 ^ 32
    → Runs s c (s.count - 1) xs (schedule now false s)
unfolding schedule do_timer timer_set_next_event
schedule-stays now c s xs h cur run pos bound =
    let t = do_timer now s in
    let go : schedule now false s ≡ start_slice (some c) t = ground (arith, cur, run) in
    let r =
      ran-Runs (record t { count = u32 (t.count + (2 ^ 32 - 1)) }) c xs
        (record { queue = h.queue; runnable = h.runnable }) run in
    Runs-of s _ c xs _ _ r (go) (omega arith) (λ i. refl) (λ i. refl) refl

-- The queue is well formed and its environments are runnable. The environment `c` that runs is in
-- the queue, but `schedule` is called to yield or no slices are left: `c` goes to the end of the
-- queue, and what is then its head runs in its address space, for as many slices as its priority
-- says less the one that starts. The priorities and the page tables stay.
pub schedule-rotates :
    (now c e : ℕ) (yield : Bool) (s : Os) (xs ys : List ℕ)
    → Ready s xs
    → s.curenv ≡ some c
    → has c xs ≡ true
    → (yield ≡ true) ⊎ (s.count ≡ 0)
    → (erase c xs ++ c ∷ []) ≡ e ∷ ys
    → Runs s e (u32 ((s.envs e).env_pri + (2 ^ 32 - 1))) (e ∷ ys) (schedule now yield s)
unfolding schedule do_timer timer_set_next_event
schedule-rotates now c e yield s xs ys h cur i switch front =
    let t = do_timer now s in
    let a = requeue (some c) t in
    let go : schedule now yield s ≡ pick a.env_sched_list.links.head a =
      ground (arith, cur, h.runnable c i, switch) in
    let ready : Ready a (e ∷ ys) =
      rw (sym front) (requeue-Ready t c xs (Ready-do_timer now s xs h) i) in
    let r = pick-Runs a e ys _ ready (ready.queue.list.0) in
    Runs-of s _ e (e ∷ ys) _ _ r go
      (ap (λ envs. u32 ((envs e).env_pri + (2 ^ 32 - 1))) (requeue-envs c t))
      (λ i. ap (λ envs. (envs i).env_pri) (requeue-envs c t))
      (λ i. ap (λ envs. (envs i).env_pgtable) (requeue-envs c t)) (requeue-memory c t)

-- The queue is well formed, its environments are runnable, and nothing that is runnable runs: the
-- head of the queue runs in its address space, for as many slices as its priority says less the
-- one that starts. The queue, the priorities and the page tables stay.
pub schedule-picks :
    (now e : ℕ) (yield : Bool) (s : Os) (ys : List ℕ)
    → Ready s (e ∷ ys)
    → is_runnable s s.curenv ≡ false
    → Runs s e (u32 ((s.envs e).env_pri + (2 ^ 32 - 1))) (e ∷ ys) (schedule now yield s)
unfolding schedule do_timer timer_set_next_event
schedule-picks now e yield s ys h idle =
    let t = do_timer now s in
    let go : schedule now yield s ≡ pick t.env_sched_list.links.head t = ground (arith, idle) in
    let r = pick-Runs t e ys _ (Ready-do_timer now s (e ∷ ys) h) (h.queue.list.0) in
    Runs-of s _ e (e ∷ ys) _ _ r go refl (λ i. refl) (λ i. refl) refl

-- With no runnable environment in the queue or running, `schedule` panics.
pub schedule-panic :
    (now : ℕ) (yield : Bool) (s : Os)
    → Ready s []
    → is_runnable s s.curenv ≡ false
    → schedule now yield s ≡ panic "schedule: no runnable envs"
unfolding schedule do_timer timer_set_next_event
schedule-panic now yield s h idle = ground (arith, idle, h.queue.list)

-- Calls of `schedule` that yield, at the times of a list.
abbrev pub yields : List ℕ → Cmd Os (Unit {0})
yields [] = pure tt
yields (now ∷ later) = schedule now true >> yields later

append-nil : (xs : List ℕ) → xs ++ [] ≡ xs
append-nil [] = refl
append-nil (x ∷ xs) = ap (λ ys. x ∷ ys) (append-nil xs)

append_assoc : (xs ys zs : List ℕ) → (xs ++ ys) ++ zs ≡ xs ++ (ys ++ zs)
append_assoc [] ys zs = refl
append_assoc (x ∷ xs) ys zs = ap (λ l. x ∷ l) (append_assoc xs ys zs)

split-head : (xs : List ℕ) (e : ℕ) (ys : List ℕ) → (y : ℕ) × (zs : List ℕ) × (xs ++ e ∷ ys ≡ y ∷ zs)
split-head [] e ys = (e, ys, refl)
split-head (x ∷ xs) e ys = (x, xs ++ e ∷ ys, refl)

-- The queue is well formed, its environments are runnable and its head runs: as many calls that
-- yield as there are environments before `e` in the queue return, with `e` running and those
-- before it moved, in their order, to the end of the queue.
pub yields-turn :
    (times : List ℕ) (e : ℕ) (s : Os) (xs ys : List ℕ)
    → length times ≡ length xs
    → Ready s (xs ++ e ∷ ys)
    → s.curenv ≡ get_elem? (xs ++ e ∷ ys) 0
    → (t : Os) × (yields times s ≡ ok tt t) × Ready t (e ∷ ys ++ xs) × (t.curenv ≡ some e)
yields-turn [] e s [] ys len h cur = (s, refl, rw (append-nil ys) h, cur)
yields-turn [] e s (x ∷ xs) ys len h cur = absurd (omega arith)
yields-turn (now ∷ later) e s [] ys len h cur = absurd (omega arith)
yields-turn (now ∷ later) e s (x ∷ xs) ys len h cur =
    let (y, zs, front) = split-head xs e (ys ++ (x ∷ [])) in
    let assoc : ((xs ++ (e ∷ ys)) ++ (x ∷ [])) ≡ (y ∷ zs) =
      append_assoc xs (e ∷ ys) (x ∷ []) ∙ front in
    let moved : (erase x (x ∷ xs ++ e ∷ ys) ++ x ∷ []) ≡ y ∷ zs = rw (eq→== x x refl) assoc in
    let r =
      schedule-rotates now x y true s (x ∷ xs ++ e ∷ ys) zs h cur (ground (arith)) (inl refl)
        moved in
    let (t, returns, ready, current) =
      yields-turn later e r.after xs (ys ++ x ∷ []) (omega arith) (rw front r.ready)
        (rw front r.current) in
    (t, rw r.returns returns, rw (sym (append_assoc ys (x ∷ []) xs)) ready, current)
