-- ===== src/Dispatcher/Tests.antt =====
-- src/core/dispatcher/dispatcher.c on small queues.
use opensips_ng.Prelude.{ℕ, ◌+◌, ◌≡◌, refl, Option, some, arith, Yields, ◌>>=◌}
use opensips_ng.Prelude.Int.{ℤ, pos, negsuc}
use opensips_ng.Dispatcher.{
  HeapNode, Nodes, Dispatcher, new_dispatcher, write, sift_up, put_locked, get_locked, put_task,
  get_task, sem_wait, sem_post,
}
use opensips_ng.Dispatcher.Calls.{IsQueue, Added, put_locked-Added, Taken, get_locked-Taken}
use opensips_ng.Dispatcher.Threads.{
  System, Reach, here, next, insert, post, wait, IsConsistent, Reach-IsConsistent, start,
  take_succeeds,
}

abbrev task : ℕ → ℤ → HeapNode
task cb priority = record {
  fd = negsuc 0;
  priority = priority;
  flags = pos 0;
  cb = cb;
  cb_param = 0;
  last_reactor = 0;
}

abbrev garbage : Nodes
garbage i = task 0 (pos 0)

abbrev empty : Dispatcher
empty = record { size = 0; nodes = garbage; sem = 0 }

abbrev one : Dispatcher
one = record { size = 1; nodes = garbage; sem = 1 }

empty-IsQueue : IsQueue empty
empty-IsQueue = record { heap = λ c p h. elim h [ ]; bounded = omega arith }

one-IsQueue : IsQueue one
one-IsQueue = record { heap = λ c p h. absurd (omega arith); bounded = omega arith }

put_locked-Added_example : Yields (Added (task 1 (pos 5)) empty) (put_locked empty (task 1 (pos 5)))
put_locked-Added_example = put_locked-Added empty (task 1 (pos 5)) empty-IsQueue (omega arith)

get_locked-Taken_example : Yields (Taken one) (get_locked one)
get_locked-Taken_example = get_locked-Taken one one-IsQueue (omega arith)

-- One thread adds a task and posts it, and another passes sem_wait.
abbrev added : Dispatcher
added = record {
  size = 0 + 1;
  nodes = sift_up (0 + 1) (write garbage 0 (task 1 (pos 5))) 0;
  sem = 0;
}

abbrev waiting : System
waiting = record { disp = record added { sem = 0 }; posting = 0; taking = 1 }

waiting_reached : Reach (start empty) waiting
unfolding put_locked sem_post sem_wait
waiting_reached =
    next
      (next (next here (insert {d = added} (task 1 (pos 5)) (omega arith) refl))
        (post (omega arith)))
      (wait {d = record added { sem = 0 }} refl)

initial-IsConsistent : IsConsistent (start empty)
initial-IsConsistent = record { queue = empty-IsQueue; accounted = refl }

Reach-IsConsistent_example : IsConsistent waiting
Reach-IsConsistent_example = Reach-IsConsistent initial-IsConsistent waiting_reached

take_succeeds_example : Yields (Taken waiting.disp) (get_locked waiting.disp)
unfolding new_dispatcher
take_succeeds_example =
    take_succeeds garbage {d = empty} {s = waiting} refl waiting_reached (omega arith)

-- Three tasks come out with the highest priority first.
abbrev served : Option (ℕ × ℕ × ℕ)
served = do
  d1 ← put_task empty (task 1 (pos 5))
  d2 ← put_task d1 (task 2 (pos 9))
  d3 ← put_task d2 (task 3 (pos 7))
  (a, d4) ← get_task d3
  (b, d5) ← get_task d4
  (c, d6) ← get_task d5
  some (a.cb, b.cb, c.cb)

served_result : served ≡ some (2, 3, 1)
unfolding put_task get_task
served_result = refl
