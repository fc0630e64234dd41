-- ===== src/Dispatcher/Threads.antt =====
-- `put_task` and `get_task` of src/core/dispatcher/dispatcher.c called by many threads. A call can be
-- interrupted between the lock and the semaphore: `put_task` is the part under the lock and then
-- sem_post, `get_task` is sem_wait and then the part under the lock.
use mathlib.Core.Path.{subst}
use mathlib.Core.Option.{some-injective}
use opensips_ng.Prelude.{
  ℕ, ◌+◌, ◌-◌, ◌<◌, ◌≡◌, some, arith, ltb, Yields, yielded, Bool-cases, inl, inr, true, ltb→lt,
}
use opensips_ng.Dispatcher.{
  HeapNode, Dispatcher, max_tasks, put_locked, sem_post, sem_wait, get_locked, new_dispatcher,
  Nodes,
}
use opensips_ng.Dispatcher.Calls.{IsQueue, Added, put_locked-Added, Taken, get_locked-Taken}

-- The queue, the number of threads that have added a task and not yet posted, and of those that have
-- passed sem_wait and not yet taken a task.
pub record System : Type 0 where
  pub disp : Dispatcher
  pub posting : ℕ
  pub taking : ℕ

pub data Step : System → System → Type 0 where
  insert :
      {s : System} {d : Dispatcher} (n : HeapNode)
      → s.disp.size < max_tasks
      → put_locked s.disp n ≡ some d
      → Step s (record s { disp = d; posting = s.posting + 1 })
  post :
      {s : System}
      → 0 < s.posting
      → Step s (record s { disp = sem_post s.disp; posting = s.posting - 1 })
  wait :
      {s : System} {d : Dispatcher}
      → sem_wait s.disp ≡ some d
      → Step s (record s { disp = d; taking = s.taking + 1 })
  take :
      {s : System} {n : HeapNode} {d : Dispatcher}
      → 0 < s.taking
      → get_locked s.disp ≡ some (n, d)
      → Step s (record s { disp = d; taking = s.taking - 1 })

pub data Reach (s : System) : System → Type 0 where
  here : Reach s s
  next : {t u : System} → Reach s t → Step t u → Reach s u

-- Every task is accounted for once: in the semaphore, with a thread that will post it, or with a thread
-- that will take it.
pub record IsConsistent (s : System) : Type 0 where
  pub queue : IsQueue s.disp
  pub accounted : s.disp.size ≡ s.disp.sem + s.posting + s.taking

posted : (d : Dispatcher) → IsQueue d → IsQueue (sem_post d)
unfolding sem_post
posted d q = record { heap = q.heap; bounded = q.bounded }

accounted_post :
    (s : System)
    → IsConsistent s
    → 0 < s.posting
    → (sem_post s.disp).size ≡ (sem_post s.disp).sem + (s.posting - 1) + s.taking
unfolding sem_post
accounted_post s c p = omega (arith, c.accounted)

waited :
    (s : System) {d : Dispatcher}
    → sem_wait s.disp ≡ some d
    → IsConsistent s
    → IsConsistent (record s { disp = d; taking = s.taking + 1 })
unfolding sem_wait
waited s e c = elim (Bool-cases (ltb 0 s.disp.sem)) [
  | inl h ↦
      let e' = rw h at e in
      subst (λ d. IsConsistent (record s { disp = d; taking = s.taking + 1 }))
        (some-injective _ _ e')
        (record {
          queue = record { heap = c.queue.heap; bounded = c.queue.bounded };
          accounted = omega (arith, c.accounted, ltb→lt 0 s.disp.sem h);
        })
  | inr h ↦ let e' = rw h at e in cc
]

Step-IsConsistent : {s t : System} → Step s t → IsConsistent s → IsConsistent t
Step-IsConsistent {s = s} (insert n room e) c =
    let a = yielded (Added n s.disp) e (put_locked-Added s.disp n c.queue room) in
    record { queue = a.valid; accounted = omega (arith, a.grown, a.same_sem, c.accounted) }
Step-IsConsistent {s = s} (post p) c = record {
  queue = posted s.disp c.queue;
  accounted = accounted_post s c p;
}
Step-IsConsistent {s = s} (wait e) c = waited s e c
Step-IsConsistent {s = s} (take {n = n} {d = d} p e) c =
    let a =
      yielded (Taken s.disp) e (get_locked-Taken s.disp c.queue (omega (arith, c.accounted))) in
    record { queue = a.valid; accounted = omega (arith, a.shrunk, a.same_sem, c.accounted) }

-- Every state that threads reach from a consistent one is consistent, as long as `put_task` is called only while the
-- queue has fewer than MAX_TASKS entries.
pub Reach-IsConsistent : {s t : System} → IsConsistent s → Reach s t → IsConsistent t
Reach-IsConsistent c here = c
Reach-IsConsistent c (next r st) = Step-IsConsistent st (Reach-IsConsistent c r)

-- The queue of `new_dispatcher`, before any thread has called.
abbrev pub start : Dispatcher → System
start d = record { disp = d; posting = 0; taking = 0 }

start-IsConsistent :
    (garbage : Nodes) {d : Dispatcher}
    → new_dispatcher true true garbage ≡ some d
    → IsConsistent (start d)
unfolding new_dispatcher
start-IsConsistent garbage {d = d} e =
    yielded (λ x. IsConsistent (start x)) e
      (record {
        queue = record { heap = λ c p h. elim h [ ]; bounded = omega arith };
        accounted = omega arith;
      })

-- In every state that the threads can reach from a new dispatcher, a thread that has passed sem_wait
-- finds a task in the queue, and takes one of the highest priority.
pub take_succeeds :
    (garbage : Nodes) {d : Dispatcher} {s : System}
    → new_dispatcher true true garbage ≡ some d
    → Reach (start d) s
    → 0 < s.taking
    → Yields (Taken s.disp) (get_locked s.disp)
take_succeeds garbage {s = s} e r t =
    let c = Reach-IsConsistent (start-IsConsistent garbage e) r in
    get_locked-Taken s.disp c.queue (omega (arith, c.accounted))
