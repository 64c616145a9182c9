-- ===== src/Env/Init.antt =====
-- `env_init` of kern/env.c.
use riscv_mos.Base.{ℕ, zero, suc, ◌+◌, ◌<◌, ◌≡◌, refl, arith, List, [], ◌∷◌, ◌∉◌}
use riscv_mos.Queue.{Links, list_init, tailq_init, insert_head}
use riscv_mos.Queue.Shape.{IsList, IsTailq}
use riscv_mos.Queue.Insert.{insert_head-cons}
use riscv_mos.Env.{Os, nenv}

-- `for (i = NENV; i >= 0; i--) LIST_INSERT_HEAD(&env_free_list, &envs[i], env_link);` from `i`
pub init_loop : ℕ → Links → Links
init_loop zero l = insert_head l 0
init_loop (suc i) l = init_loop i (insert_head l (suc i))

pub env_init : Os → Os
env_init s = record s {
  env_free_list = init_loop nenv (list_init s.env_free_list);
  env_sched_list = tailq_init s.env_sched_list;
}

-- The numbers from `i` on, `n` of them.
abbrev pub count_up : (i n : ℕ) → List ℕ
count_up i zero = []
count_up i (suc n) = i ∷ count_up (suc i) n

count_up-not_mem : (a i n : ℕ) → a < i → a ∉ count_up i n
count_up-not_mem a i zero h = refl
count_up-not_mem a i (suc n) h = ground (arith, count_up-not_mem a (suc i) n)

init_loop-IsList :
    (i n total : ℕ) (l : Links)
    → total ≡ suc i + n
    → IsList l (count_up (suc i) n)
    → IsList (init_loop i l) (count_up 0 total)
unfolding init_loop
init_loop-IsList zero n total l e h =
    let e' : total ≡ suc n = omega arith in
    rw e' (insert_head-cons l 0 (count_up 1 n) h (count_up-not_mem 0 1 n (omega arith)))
init_loop-IsList (suc i) n total l e h =
    init_loop-IsList i (suc n) total (insert_head l (suc i)) (omega arith) (
      insert_head-cons l (suc i) (count_up (suc (suc i)) n) h
        (count_up-not_mem (suc i) (suc (suc i)) n (omega arith)))

-- `env_init` empties the queue of runnable environments, and makes the list of free ones: the
-- environments in the order of the table, and then one more, NENV, which lies behind the end of
-- the table, since the loop starts at NENV.
pub env_init-IsList :
    (s : Os)
    → IsList (env_init s).env_free_list (count_up 0 (nenv + 1))
      × IsTailq (env_init s).env_sched_list []
unfolding env_init
env_init-IsList s = (
  init_loop-IsList nenv 0 (nenv + 1) (list_init s.env_free_list) (omega arith) refl,
  record { list = refl; last = refl },
)
