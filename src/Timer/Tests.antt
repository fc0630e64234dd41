-- ===== src/Timer/Tests.antt =====
-- src/core/timer.c with two tasks.
use opensips_ng.Prelude.{ℕ, ◌+◌, ◌*◌, ◌/◌, ◌≡◌, refl, [], ◌∷◌, arith}
use opensips_ng.Prelude.Int.{pos}
use opensips_ng.Dispatcher.{HeapNode}
use opensips_ng.Timer.{TimerTask, Timer, timer_ticker, utimer_tick}
use opensips_ng.Timer.Periodic.{dividing, ticked, ticker_periodic}
use opensips_ng.Timer.Clocks.{run, clocks_agree}

abbrev callback : ℕ → HeapNode
callback f = record {
  fd = pos 0;
  priority = pos 100;
  flags = pos 0;
  cb = f;
  cb_param = 0;
  last_reactor = 0;
}

abbrev task : ℕ → ℕ → TimerTask
task f interval = record { task = callback f; interval = interval; runtime = interval }

abbrev sample : Timer
sample = record {
  jiffies = 0;
  ujiffies = 0;
  ttasks = task 1 2 ∷ task 2 3 ∷ [];
  uttasks = task 3 200000 ∷ [];
}

ticker_periodic_example : (timer_ticker (ticked 5 sample)).1 ≡ dividing (5 + 1) sample.ttasks
ticker_periodic_example =
    ticker_periodic sample 5 refl ((omega arith, refl), ((omega arith, refl), tt))
      (omega arith, (omega arith, tt)) (omega arith)

clocks_agree_example :
    ((run 25 sample).timer.ujiffies ≡ 25 * utimer_tick) × ((run 25 sample).timer.jiffies ≡ 25 / 10)
clocks_agree_example =
    clocks_agree sample (task 1 2) (task 3 200000) (task 2 3 ∷ []) [] 25 refl refl (omega arith)
