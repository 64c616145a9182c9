-- ===== src/Timer.antt =====
-- kern/timer.c. The time that `r_time` reads is an argument; the time that is handed to the firmware
-- by `sbi_set_timer` is kept in the state.
use riscv_mos.Base.{
  ℕ, ◌+◌, ◌%◌, ◌<◌, ◌≡◌, arith, ◌==◌, if◌then◌else◌, u32, u64, List, [], ◌∷◌, length,
}
use riscv_mos.Env.{Os}

-- `TIMEBASE`
abbrev pub timebase : ℕ
timebase = 1000000

unfoldable pub timer_set_next_event : (now : ℕ) → Os → Os
timer_set_next_event now s = record s { next_event = u64 (now + timebase) }

unfoldable pub do_timer : (now : ℕ) → Os → Os
unfolding timer_set_next_event
do_timer now s =
    let t = timer_set_next_event now s in
    let n = u32 (t.ticks + 1) in record t { ticks = if n == 100 then 0 else n }

-- `timerinit`; the bit that it sets in the register `sie` is not part of the state.
abbrev pub timerinit : (now : ℕ) → Os → Os
timerinit now s = timer_set_next_event now (record s { ticks = 0 })

-- The timer after calls of `do_timer` at the times of a list.
abbrev pub run_timer : List ℕ → Os → Os
run_timer [] s = s
run_timer (now ∷ later) s = run_timer later (do_timer now s)

-- From a tick counter below 100, the counter counts the calls of `do_timer` modulo 100, whatever
-- the times of the calls.
pub run_timer-ticks :
    (times : List ℕ) (s : Os)
    → s.ticks < 100
    → (run_timer times s).ticks ≡ (s.ticks + length times) % 100
unfolding do_timer
run_timer-ticks [] s h = omega arith
run_timer-ticks (now ∷ later) s h = ground (arith, run_timer-ticks later (do_timer now s))
