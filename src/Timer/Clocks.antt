-- ===== src/Timer/Clocks.antt =====
-- The two clocks of src/core/timer.c while the timer thread runs.
use mathlib.Core.Path.{subst}
use opensips_ng.Prelude.{ℕ, zero, suc, ◌+◌, ◌*◌, ◌/◌, true, ◌≤◌, ◌<◌, ◌≡◌, refl, List, ◌∷◌, arith}
use opensips_ng.Timer.{
  TimerTask, Timer, u64_mod, utimer_tick, every, mode_by, timer_thread, Thread, round, rounds,
  timer_ticker, utimer_ticker, start_timer_thread,
}

-- After `n` rounds of the loop with both clocks and ten micro ticks in a tick.
record IsAt (n : ℕ) (th : Thread) : Type 0 where
  micros : th.timer.ujiffies ≡ n * utimer_tick
  ticks : th.timer.jiffies * 10 + th.cnt ≡ n + 1
  cnt_pos : 1 ≤ th.cnt
  cnt_le : th.cnt ≤ 10

round-IsAt :
    (n : ℕ) (th : Thread)
    → IsAt n th
    → (n + 1) * utimer_tick < u64_mod
    → IsAt (suc n) (round (every 10) th).0
unfolding round timer_ticker utimer_ticker
round-IsAt n th h small = ground (arith, h.micros, h.ticks)

rounds-IsAt :
    (m n k : ℕ) (th : Thread)
    → n + m ≡ k
    → IsAt n th
    → k * utimer_tick < u64_mod
    → IsAt k (rounds m (every 10) th)
unfolding rounds
rounds-IsAt zero n k th e h small = subst (λ j. IsAt j th) (omega arith) h
rounds-IsAt (suc m) n k th e h small =
    rounds-IsAt m (suc n) k (round (every 10) th).0 (omega arith) (round-IsAt n th h (omega arith))
      small

-- The thread over tasks of both kinds, from the start of the timer.
abbrev pub run : ℕ → Timer → Thread
run n s = let (mode, th) = timer_thread (start_timer_thread true s).1 in rounds n mode th

mode_both :
    {t u : TimerTask} {ts us tts uts : List TimerTask}
    → tts ≡ t ∷ ts
    → uts ≡ u ∷ us
    → mode_by uts tts ≡ every 10
unfolding mode_by
mode_both e e' = rw (e, e', mode_by)

-- With tasks of both kinds, after `n` rounds of 100 milliseconds get_uticks has counted `n` of them, in
-- microseconds, and get_ticks the whole seconds, as long as the microseconds fit in 64 bits.
pub clocks_agree :
    (s : Timer) (t u : TimerTask) (ts us : List TimerTask) (n : ℕ)
    → s.ttasks ≡ t ∷ ts
    → s.uttasks ≡ u ∷ us
    → n * utimer_tick < u64_mod
    → ((run n s).timer.ujiffies ≡ n * utimer_tick) × ((run n s).timer.jiffies ≡ n / 10)
unfolding timer_thread start_timer_thread
clocks_agree s t u ts us n e e' small =
    rw (mode_both e e') (agree (rounds-IsAt n 0 n begin (omega arith) begins small))
  where
    begin : Thread
    begin = record { cnt = 1; timer = record s { jiffies = 0; ujiffies = 0 } }

    begins : IsAt 0 begin
    begins = record {
      micros = refl;
      ticks = omega arith;
      cnt_pos = omega arith;
      cnt_le = omega arith;
    }

    agree :
        {th : Thread}
        → IsAt n th
        → (th.timer.ujiffies ≡ n * utimer_tick) × (th.timer.jiffies ≡ n / 10)
    agree h = (h.micros, omega (arith, h.ticks, h.cnt_pos, h.cnt_le))
