-- ===== src/Timer/Periodic.antt =====
-- When the tasks of src/core/timer.c run.
use native.Mathlib.Nat.{mul-mod_left, add-mul-mod_self_right, mod-eq_of_lt}
use native.Mathlib.Numerals.{add-one}
use mathlib.Core.Path.{subst}
use mathlib.Core.Option.{some-injective}
use opensips_ng.Prelude.Int.{pos}
use opensips_ng.Prelude.{
  ℕ, zero, suc, ◌+◌, ◌-◌, ◌*◌, ◌%◌, ◌≤◌, ◌<◌, ◌≡◌, ◌≢◌, refl, ap, ◌∙◌, true, inl, inr, List, [],
  ◌∷◌, arith, All, All-imp, All-append, some, ◌++◌, leb, leb→le, ◌==◌, Bool-cases, if◌then◌else◌,
}
use opensips_ng.Dispatcher.{HeapNode}
use opensips_ng.Timer.{
  TimerTask, Timer, u64_mod, timer_tick, is_due, tick_task, tick_tasks, timer_ticker, build_ttask,
  register_timer,
}

-- At the clock `now` the task has run `k` times, once at each multiple of its interval so far.
pub record OnSchedule (now : ℕ) (t : TimerTask) (k : ℕ) : Type 0 where
  pub positive : 0 < t.interval
  pub started : k * t.interval ≤ now
  pub waiting : now < k * t.interval + t.interval
  pub next : t.runtime ≡ k * t.interval + t.interval

abbrev pub IsOnSchedule : ℕ → TimerTask → Type 0
IsOnSchedule now t = (k : ℕ) × OnSchedule now t k

-- The next two runs of the task come before the 64-bit clock wraps round.
abbrev pub HasRoom : ℕ → TimerTask → Type 0
HasRoom now t = now + 1 + t.interval < u64_mod

mod_between : (k i n : ℕ) → k * i < n → n < k * i + i → n % i ≢ 0
mod_between k i n lo hi z =
    let split : n ≡ (n - k * i) + k * i = omega arith in
    let rest = ap (λ (x : ℕ). x % i) split ∙ add-mul-mod_self_right (n - k * i) k i in
    let small = mod-eq_of_lt {n = n - k * i} {m = i} (omega arith) in omega (arith, z, rest, small)

mod_multiple : (k i n : ℕ) → n ≡ k * i + i → n % i ≡ 0
mod_multiple k i n e =
    let e' : n ≡ suc k * i = omega arith in ap (λ (x : ℕ). x % i) e' ∙ mul-mod_left (suc k) i

module _ (now : ℕ) (t : TimerTask) (k : ℕ) where
  -- The task is due when the clock reaches a multiple of its interval.
  due_iff : OnSchedule now t k → is_due (now + 1) t ≡ ((now + 1) % t.interval == 0)
  unfolding is_due
  due_iff s = ground (
    arith,
    mod_between k t.interval (now + 1) (omega (arith, s.started)),
    mod_multiple k t.interval (now + 1),
  )

  tick-IsOnSchedule :
      OnSchedule now t k → HasRoom now t → IsOnSchedule (now + 1) (tick_task (now + 1) t)
  unfolding tick_task is_due
  tick-IsOnSchedule s room = elim (Bool-cases (leb t.runtime (now + 1))) [
    | inl e ↦ rw e (
      suc k,
      record {
        positive = s.positive;
        started = ground (arith, s.next, s.waiting);
        waiting = ground (arith, s.next, s.waiting, s.positive);
        next = ground (arith, s.next, s.waiting, leb→le _ _ e);
      },
    )
    | inr e ↦ rw e (
      k,
      record {
        positive = s.positive;
        started = omega (arith, s.started);
        waiting = ground (arith, s.next, s.waiting);
        next = s.next;
      },
    )
  ]

-- The calls at the clock `now`: the tasks whose interval divides it, in the order of the list.
abbrev pub dividing : ℕ → List TimerTask → List HeapNode
dividing now [] = []
dividing now (t ∷ ts) = if now % t.interval == 0 then t.task ∷ dividing now ts else dividing now ts

tick_tasks-dividing :
    (now : ℕ) (ts : List TimerTask)
    → All (IsOnSchedule now) ts
    → All (HasRoom now) ts
    → ((tick_tasks (now + 1) ts).1 ≡ dividing (now + 1) ts)
      × All (IsOnSchedule (now + 1)) (tick_tasks (now + 1) ts).0
unfolding tick_tasks
tick_tasks-dividing now [] s r = (refl, tt)
tick_tasks-dividing now (t ∷ ts) ((k, s), ss) (r, rs) =
    let (calls, later) = tick_tasks-dividing now ts ss rs in
    ((rw (due_iff now t k s, calls) refl), (tick-IsOnSchedule now t k s r, later))

-- The tasks keep their places, callbacks and intervals.
dividing-tick_tasks :
    (now m : ℕ) (ts : List TimerTask) → dividing m (tick_tasks now ts).0 ≡ dividing m ts
unfolding tick_tasks tick_task
dividing-tick_tasks now m [] = refl
dividing-tick_tasks now m (t ∷ ts) = ground (arith, dividing-tick_tasks now m ts)

All-HasRoom_tick :
    (n m now : ℕ) (ts : List TimerTask)
    → All (HasRoom n) ts
    → m ≤ n
    → All (HasRoom m) (tick_tasks now ts).0
unfolding tick_tasks tick_task
All-HasRoom_tick n m now [] r h = tt
All-HasRoom_tick n m now (t ∷ ts) (r, rs) h = (
  elim (Bool-cases (is_due now t)) [
    | inl e ↦ rw e (omega (arith, r))
    | inr e ↦ rw e (omega (arith, r))
  ],
  All-HasRoom_tick n m now ts rs h,
)

-- The state after `n` calls of `timer_ticker`.
unfoldable pub ticked : ℕ → Timer → Timer
unfolding timer_ticker
ticked zero s = s
ticked (suc n) s = (timer_ticker (ticked n s)).0

-- A task as `build_ttask` makes it, with an interval that is not 0.
abbrev pub IsFresh : TimerTask → Type 0
IsFresh t = (0 < t.interval) × (t.runtime ≡ t.interval)

fresh-IsOnSchedule : (t : TimerTask) → IsFresh t → IsOnSchedule 0 t
fresh-IsOnSchedule t (p, e) =
    (0, record { positive = p; started = omega arith; waiting = omega arith; next = omega arith })

-- What holds of the timer after `n` ticks from its start.
record Ticked (s : Timer) (n : ℕ) (s' : Timer) : Type 0 where
  clock : s'.jiffies ≡ n
  schedule : All (IsOnSchedule n) s'.ttasks
  same : (m : ℕ) → dividing m s'.ttasks ≡ dividing m s.ttasks
  room : (m : ℕ) → All (HasRoom m) s.ttasks → All (HasRoom m) s'.ttasks

All-HasRoom_le : (n m : ℕ) (ts : List TimerTask) → All (HasRoom n) ts → m ≤ n → All (HasRoom m) ts
All-HasRoom_le n m ts r h = All-imp _ (λ t x. omega (arith, x)) ts r

tick-Ticked :
    (s : Timer) (n : ℕ) (s' : Timer)
    → Ticked s n s'
    → All (HasRoom n) s.ttasks
    → n + 1 < u64_mod
    → ((timer_ticker s').1 ≡ dividing (n + 1) s.ttasks) × Ticked s (suc n) (timer_ticker s').0
unfolding timer_ticker
tick-Ticked s n s' h room small =
    let now : (s'.jiffies + timer_tick) % u64_mod ≡ n + 1 = omega (arith, h.clock) in
    let (calls, later) = tick_tasks-dividing n s'.ttasks h.schedule (h.room n room) in
    rw now (
      calls ∙ h.same (n + 1),
      record {
        clock = omega arith;
        schedule =
            subst (λ k. All (IsOnSchedule k) (tick_tasks (n + 1) s'.ttasks).0) (add-one n) later;
        same = λ m. dividing-tick_tasks (n + 1) m s'.ttasks ∙ h.same m;
        room = λ m r. All-HasRoom_tick m m (n + 1) s'.ttasks (h.room m r) (omega arith);
      },
    )

ticked-Ticked :
    (s : Timer) (n : ℕ)
    → s.jiffies ≡ 0
    → All IsFresh s.ttasks
    → All (HasRoom n) s.ttasks
    → n < u64_mod
    → Ticked s n (ticked n s)
unfolding ticked
ticked-Ticked s zero z f r small = record {
  clock = z;
  schedule = All-imp _ fresh-IsOnSchedule s.ttasks f;
  same = λ m. refl;
  room = λ m x. x;
}
ticked-Ticked s (suc n) z f r small =
    let r' = All-HasRoom_le (suc n) n s.ttasks r (omega arith) in
    (tick-Ticked s n (ticked n s) (ticked-Ticked s n z f r' (omega arith)) r' (omega arith)).1

-- With tasks registered before the start, each with an interval above 0, tick `n + 1` calls `put_task` for
-- exactly those tasks whose interval divides `n + 1`, in the order of their registration, as long as the next
-- runs come before the 64-bit clock wraps round.
pub ticker_periodic :
    (s : Timer) (n : ℕ)
    → s.jiffies ≡ 0
    → All IsFresh s.ttasks
    → All (HasRoom n) s.ttasks
    → n + 1 < u64_mod
    → (timer_ticker (ticked n s)).1 ≡ dividing (n + 1) s.ttasks
ticker_periodic s n z f r small =
    (tick-Ticked s n (ticked n s) (ticked-Ticked s n z f r (omega arith)) r small).0

-- A task that is registered goes behind the others, and is fresh if its interval is not 0.
pub register_timer-IsFresh :
    (s : Timer) (garbage f param interval : ℕ) {t : TimerTask}
    → build_ttask true garbage f param interval ≡ some t
    → 0 < interval
    → All IsFresh s.ttasks
    → let (code, s') = register_timer (some t) s in
      (code ≡ pos 0)
      × (s'.ttasks ≡ s.ttasks ++ t ∷ [])
      × All IsFresh s'.ttasks
      × (s'.uttasks ≡ s.uttasks)
unfolding build_ttask register_timer
register_timer-IsFresh s garbage f param interval e p h = (
  refl,
  refl,
  All-append IsFresh s.ttasks _ h (subst IsFresh (some-injective _ _ e) (p, refl), tt),
  refl,
)
