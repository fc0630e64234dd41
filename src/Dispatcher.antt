-- ===== src/Dispatcher.antt =====
-- src/core/dispatcher/dispatcher.c, dispatcher.h: the task queue of a reactor, a binary max-heap on the
-- priorities in an array of MAX_TASKS entries, with a lock and a semaphore.
mod Tests
pub mod Order
pub mod Put
pub mod Get
pub mod Content
pub mod Calls
pub mod Threads
use opensips_ng.Prelude.{
  ℕ, zero, suc, ◌+◌, ◌-◌, ◌*◌, ◌/◌, Bool, Option, none, some, ltb, ◌==◌, ◌&&◌, if◌then◌else◌,
}
use opensips_ng.Prelude.Int.{ℤ, pos, negsuc, ltb_ℤ}

-- `struct fd_map`; the pointers are addresses.
pub record HeapNode : Type 0 where
  pub fd : ℤ
  pub priority : ℤ
  pub flags : ℤ
  pub cb : ℕ
  pub cb_param : ℕ
  pub last_reactor : ℕ

abbrev pub max_tasks : ℕ
max_tasks = 2048

-- The contents of an array of nodes, at every index.
abbrev pub Nodes : Type 0
Nodes = ℕ → HeapNode

-- `dispatcher_t`, with the value of the semaphore. The lock is held where the operations below run.
pub record Dispatcher : Type 0 where
  pub size : ℕ
  pub nodes : Nodes
  pub sem : ℕ

-- `new_dispatcher`: the two allocations may fail; the nodes are not initialised.
unfoldable pub new_dispatcher : Bool → Bool → Nodes → Option Dispatcher
new_dispatcher disp_ok lock_ok garbage =
    if disp_ok
    then (if lock_ok then some (record { size = 0; nodes = garbage; sem = 0 }) else none)
    else none

-- `nodes[i] = n`.
unfoldable pub write : Nodes → ℕ → HeapNode → Nodes
write a i n j = if i == j then n else a j

-- The three assignments that exchange two entries.
unfoldable pub swap : Nodes → ℕ → ℕ → Nodes
unfolding write
swap a i j = write (write a i (a j)) j (a i)

abbrev pub priority_at : Nodes → ℕ → ℤ
priority_at a i = (a i).priority

-- The loop of `put_task`: while (cur > 0), with `fuel` rounds.
unfoldable pub sift_up : ℕ → Nodes → ℕ → Nodes
unfolding swap
sift_up zero a cur = a
sift_up (suc fuel) a cur =
    let parent = (cur - 1) / 2 in
    let rest = sift_up fuel (swap a cur parent) parent in
    if ltb 0 cur then (if ltb_ℤ (priority_at a parent) (priority_at a cur) then rest else a) else a

-- The part of `put_task` under the lock. `none` is a write past the end of `nodes`: the source has no
-- test. A round for each index up to `size` is enough, since `cur` falls.
unfoldable pub put_locked : Dispatcher → HeapNode → Option Dispatcher
unfolding sift_up
put_locked d n =
    if ltb d.size max_tasks
    then some (record d {
      size = d.size + 1;
      nodes = sift_up (d.size + 1) (write d.nodes d.size n) d.size;
    })
    else none

unfoldable pub sem_post : Dispatcher → Dispatcher
sem_post d = record d { sem = d.sem + 1 }

-- `put_task`.
unfoldable pub put_task : Dispatcher → HeapNode → Option Dispatcher
unfolding put_locked sem_post
put_task d n = elim (put_locked d n) [ none ↦ none | some d' ↦ some (sem_post d') ]

-- `maxi` of one round of `get_task`: `cur` or a child of higher priority.
unfoldable pub max_child : Nodes → ℕ → ℕ → ℕ
max_child a size cur =
    let son1 = cur * 2 + 1 in
    let son2 = cur * 2 + 2 in
    let maxi = if ltb_ℤ (priority_at a cur) (priority_at a son1) then son1 else cur in
    if ltb son2 size && ltb_ℤ (priority_at a maxi) (priority_at a son2) then son2 else maxi

-- The loop of `get_task`: while (cur * 2 + 1 < size), with `fuel` rounds.
unfoldable pub sift_down : ℕ → Nodes → ℕ → ℕ → Nodes
unfolding max_child swap
sift_down zero a size cur = a
sift_down (suc fuel) a size cur =
    let maxi = max_child a size cur in
    let rest = sift_down fuel (swap a cur maxi) size maxi in
    if ltb (cur * 2 + 1) size then (if maxi == cur then a else rest) else a

-- The part of `get_task` under the lock: the first task, and the queue without it. `none` is the access
-- before the array that an empty queue would make (`nodes[d->size - 1]` with size 0).
unfoldable pub get_locked : Dispatcher → Option (HeapNode × Dispatcher)
unfolding sift_down
get_locked d =
    if ltb 0 d.size
    then some (
      d.nodes 0,
      record d {
        size = d.size - 1;
        nodes = sift_down d.size (write d.nodes 0 (d.nodes (d.size - 1))) (d.size - 1) 0;
      },
    )
    else none

-- `sem_wait`: `none` is a thread that blocks.
unfoldable pub sem_wait : Dispatcher → Option Dispatcher
sem_wait d = if ltb 0 d.sem then some (record d { sem = d.sem - 1 }) else none

-- `get_task`, where it does not block.
unfoldable pub get_task : Dispatcher → Option (HeapNode × Dispatcher)
unfolding sem_wait get_locked
get_task d = elim (sem_wait d) [ none ↦ none | some d' ↦ get_locked d' ]

-- `put_task_simple`: no fd, no flags, no reactor.
unfoldable pub put_task_simple : Dispatcher → ℤ → ℕ → ℕ → Option Dispatcher
unfolding put_task
put_task_simple d priority cb cb_param = put_task d (record {
  fd = negsuc 0;
  priority = priority;
  flags = pos 0;
  cb = cb;
  cb_param = cb_param;
  last_reactor = 0;
})
