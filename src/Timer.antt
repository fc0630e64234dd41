-- ===== src/Timer.antt =====
-- src/core/timer.c, timer.h: the two clocks, the lists of periodic tasks, and the timer thread.
-- A tick hands the due tasks to `put_task` in the order of the list; the model returns those calls.
mod Tests
pub mod Periodic
pub mod Clocks
use opensips_ng.Prelude.{
  ℕ, zero, suc, ◌+◌, ◌*◌, ◌/◌, ◌%◌, ◌^◌, Bool, true, false, Option, none, some, List, [], ◌∷◌, ◌++◌,
  ltb, leb, ◌==◌, if◌then◌else◌, not, ◌>>=◌,
}
use opensips_ng.Prelude.Int.{ℤ, pos, negsuc}
use opensips_ng.Dispatcher.{HeapNode, Dispatcher, put_task}

-- utime_t is unsigned long long; an interval and the result of get_ticks are unsigned int.
abbrev pub u64_mod : ℕ
u64_mod = 2 ^ 64

abbrev pub u32_mod : ℕ
u32_mod = 2 ^ 32

-- `struct timer_task`; the list stands for the `next` pointers.
pub record TimerTask : Type 0 where
  pub task : HeapNode
  pub interval : ℕ
  pub runtime : ℕ

-- The static variables of the file.
pub record Timer : Type 0 where
  pub jiffies : ℕ
  pub ujiffies : ℕ
  pub ttasks : List TimerTask
  pub uttasks : List TimerTask

-- `build_ttask`: last_reactor is not set by the source, and is `garbage` here.
unfoldable pub build_ttask : Bool → ℕ → ℕ → ℕ → ℕ → Option TimerTask
build_ttask alloc_ok garbage f param interval =
    if alloc_ok
    then some (record {
      task = record {
        fd = pos 0;
        priority = pos 100;
        flags = pos 0;
        cb = f;
        cb_param = param;
        last_reactor = garbage;
      };
      interval = interval;
      runtime = interval;
    })
    else none

-- `register_timer` and `register_utimer`: the new task goes to the end of its list.
unfoldable pub register_timer : Option TimerTask → Timer → ℤ × Timer
register_timer none s = (negsuc 0, s)
register_timer (some tt) s = (pos 0, record s { ttasks = s.ttasks ++ tt ∷ [] })

unfoldable pub register_utimer : Option TimerTask → Timer → ℤ × Timer
register_utimer none s = (negsuc 0, s)
register_utimer (some tt) s = (pos 0, record s { uttasks = s.uttasks ++ tt ∷ [] })

-- The body of the `for` of a ticker for one task, at the clock `now`.
unfoldable pub is_due : ℕ → TimerTask → Bool
is_due now t = leb t.runtime now

unfoldable pub tick_task : ℕ → TimerTask → TimerTask
unfolding is_due
tick_task now t = if is_due now t then record t { runtime = (now + t.interval) % u64_mod } else t

-- The `for` of a ticker: the tasks after it, and the calls of `put_task`.
unfoldable pub tick_tasks : ℕ → List TimerTask → List TimerTask × List HeapNode
unfolding tick_task is_due
tick_tasks now [] = ([], [])
tick_tasks now (t ∷ ts) =
    let (ts', calls) = tick_tasks now ts in
    (tick_task now t ∷ ts', if is_due now t then t.task ∷ calls else calls)

abbrev pub timer_tick : ℕ
timer_tick = 1

-- UTIMER_TICK is the text `100*1000`.
abbrev pub utimer_tick : ℕ
utimer_tick = 100 * 1000

unfoldable pub timer_ticker : Timer → Timer × List HeapNode
unfolding tick_tasks
timer_ticker s =
    let now = (s.jiffies + timer_tick) % u64_mod in
    let (ts, calls) = tick_tasks now s.ttasks in (record s { jiffies = now; ttasks = ts }, calls)

unfoldable pub utimer_ticker : Timer → Timer × List HeapNode
unfolding tick_tasks
utimer_ticker s =
    let now = (s.ujiffies + utimer_tick) % u64_mod in
    let (ts, calls) = tick_tasks now s.uttasks in (record s { ujiffies = now; uttasks = ts }, calls)

-- The calls of `put_task` on the dispatcher of `reactor_in`.
unfoldable pub put_all : Dispatcher → List HeapNode → Option Dispatcher
put_all d [] = some d
put_all d (n ∷ calls) = do d' ← put_task d n; put_all d' calls

unfoldable pub get_ticks : Timer → ℕ
get_ticks s = s.jiffies % u32_mod

unfoldable pub get_uticks : Timer → ℕ
get_uticks s = s.ujiffies

-- `multiple` of timer_thread, with the text of the macros put in:
-- (( TIMER_TICK * 1000000 ) / 100*1000 ) / 1000000.
abbrev pub multiple : ℕ
multiple = ((timer_tick * 1000000) / 100 * 1000) / 1000000

-- The four loops of timer_thread.
pub data Mode : Type 0 where
  timer_only utimer_only same_rate : Mode
  every : ℕ → Mode

-- The timer thread between two rounds, with `cnt` of the last loop.
pub record Thread : Type 0 where
  pub cnt : ℕ
  pub timer : Timer

-- The choice of the loop, by `uttasks` and `ttasks`.
unfoldable pub mode_by : List TimerTask → List TimerTask → Mode
mode_by [] ts = timer_only
mode_by (u ∷ us) [] = utimer_only
mode_by (u ∷ us) (t ∷ ts) = if multiple == 1 then same_rate else every multiple

-- `timer_thread`: the loop, and the first round's `cnt`.
unfoldable pub timer_thread : Timer → Mode × Thread
unfolding mode_by
timer_thread s = (mode_by s.uttasks s.ttasks, record { cnt = 1; timer = s })

-- One round, after select has returned: the thread, and the calls of `put_task`.
unfoldable pub round : Mode → Thread → Thread × List HeapNode
unfolding timer_ticker utimer_ticker
round timer_only th = let (s, calls) = timer_ticker th.timer in (record th { timer = s }, calls)
round utimer_only th = let (s, calls) = utimer_ticker th.timer in (record th { timer = s }, calls)
round same_rate th =
    let (s, calls) = timer_ticker th.timer in
    let (s', calls') = utimer_ticker s in (record th { timer = s' }, calls ++ calls')
round (every m) th =
    let (s, calls) = utimer_ticker th.timer in
    if th.cnt == m
    then (let (s', calls') = timer_ticker s in
        (record { cnt = 0 + 1; timer = s' }, calls ++ calls'))
    else (record { cnt = th.cnt + 1; timer = s }, calls)

unfoldable pub rounds : ℕ → Mode → Thread → Thread
unfolding round
rounds zero mode th = th
rounds (suc n) mode th = rounds n mode (round mode th).0

-- `start_timer_thread`, up to the creation of the thread, which may fail. The tests are on the text of
-- the macros.
unfoldable pub start_timer_thread : Bool → Timer → ℤ × Timer
start_timer_thread thread_ok s =
    if ltb (timer_tick * 1000000) utimer_tick
    then (negsuc 0, s)
    else if not (((timer_tick * 1000000) % 100 * 1000) == 0)
    then (negsuc 0, s)
    else (if thread_ok then pos 0 else negsuc 0, record s { jiffies = 0; ujiffies = 0 })

-- Both lists are freed.
unfoldable pub destroy_timer : Timer → Timer
destroy_timer s = record s { ttasks = []; uttasks = [] }
