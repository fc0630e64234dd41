-- ===== src/Dispatcher/Calls.antt =====
-- What one call of `put_task` or `get_task` of src/core/dispatcher/dispatcher.c does to the queue.
use native.Mathlib.Numerals.{add-one}
use mathlib.Core.Path.{subst}
use opensips_ng.Prelude.{
  ℕ, zero, suc, ◌+◌, ◌-◌, ◌≤◌, ◌<◌, ◌≡◌, refl, ap, ◌∙◌, Bool, arith, lt→ltb, Yields,
}
use opensips_ng.Prelude.Int.{◌≤ℤ◌}
use opensips_ng.Dispatcher.{
  HeapNode, Nodes, Dispatcher, max_tasks, write, priority_at, sift_up, sift_down, put_locked,
  get_locked,
}
use opensips_ng.Dispatcher.Order.{IsHeap, root_greatest}
use opensips_ng.Dispatcher.Put.{sift_up-IsHeap, append-Rising}
use opensips_ng.Dispatcher.Get.{sift_down-IsHeap, replace-Sinking}
use opensips_ng.Dispatcher.Content.{
  bit, count, count-write_beyond, count-write, count-sift_up, count-sift_down, write_lem,
}

pub record IsQueue (d : Dispatcher) : Type 0 where
  pub heap : IsHeap d.size d.nodes
  pub bounded : d.size ≤ max_tasks

-- How many queued tasks pass the test.
abbrev pub queued : (HeapNode → Bool) → Dispatcher → ℕ
queued p d = count p d.nodes d.size

pub record Added (n : HeapNode) (d d' : Dispatcher) : Type 0 where
  pub valid : IsQueue d'
  pub grown : d'.size ≡ suc d.size
  pub content : (p : HeapNode → Bool) → queued p d' ≡ queued p d + bit (p n)
  pub same_sem : d'.sem ≡ d.sem

-- The new entry behind the others, and the queue put in order again.
count_added :
    (p : HeapNode → Bool) (a : Nodes) (n : HeapNode) (fuel size : ℕ)
    → count p (sift_up fuel (write a size n) size) (suc size) ≡ count p a size + bit (p n)
unfolding count
count_added p a n fuel size =
    let new : write a size n size ≡ n = ground (arith, write_lem a size n size) in
    count-sift_up p fuel (write a size n) size (suc size) (omega arith)
    ∙ omega (
      arith,
      count-write_beyond p a size n size (omega arith),
      ap (λ (x : HeapNode). bit (p x)) new,
    )

-- While there is room, the task is added, and nothing is lost.
pub put_locked-Added :
    (d : Dispatcher) (n : HeapNode)
    → IsQueue d
    → d.size < max_tasks
    → Yields (Added n d) (put_locked d n)
unfolding put_locked
put_locked-Added d n v h =
    let a = write d.nodes d.size n in
    rw (lt→ltb _ _ h) (record {
      valid = record {
        heap =
            sift_up-IsHeap (d.size + 1) (d.size + 1) a d.size (omega arith) (omega arith)
              (append-Rising d.size d.nodes n v.heap);
        bounded = omega arith;
      };
      grown = omega arith;
      content = λ p.
          ap (count p (sift_up (d.size + 1) a d.size)) (add-one d.size)
          ∙ count_added p d.nodes n (d.size + 1) d.size;
      same_sem = refl;
    })

pub record Taken (d : Dispatcher) (r : HeapNode × Dispatcher) : Type 0 where
  pub valid : IsQueue r.1
  pub shrunk : d.size ≡ suc r.1.size
  pub content : (p : HeapNode → Bool) → queued p d ≡ queued p r.1 + bit (p r.0)
  pub greatest : (i : ℕ) → i < d.size → priority_at d.nodes i ≤ℤ r.0.priority
  pub same_sem : r.1.sem ≡ d.sem

-- The first entry replaced by the last, and the queue put in order again.
count_taken :
    (p : HeapNode → Bool) (a : Nodes) (fuel n : ℕ)
    → count p a (suc n) ≡ count p (sift_down fuel (write a 0 (a n)) n 0) n + bit (p (a 0))
unfolding count
count_taken p a fuel zero = omega arith
count_taken p a fuel (suc n) = omega (
  arith,
  count-sift_down p fuel (write a 0 (a (suc n))) (suc n) 0 (suc n) (omega arith) (omega arith),
  count-write p a 0 (a (suc n)) (suc n) (omega arith),
)

-- From a queue that is not empty a task of the highest priority is taken, and nothing else.
pub get_locked-Taken : (d : Dispatcher) → IsQueue d → 0 < d.size → Yields (Taken d) (get_locked d)
unfolding get_locked
get_locked-Taken d v h = rw (lt→ltb _ _ h) (taken (d.size - 1) (omega arith))
  where
    taken :
        (n : ℕ)
        → d.size ≡ suc n
        → Taken d (
          d.nodes 0,
          record d { size = n; nodes = sift_down d.size (write d.nodes 0 (d.nodes n)) n 0 },
        )
    taken n e = record {
      valid = record {
        heap =
            sift_down-IsHeap d.size n (write d.nodes 0 (d.nodes n)) 0 (omega arith)
              (replace-Sinking n d.nodes (subst (λ k. IsHeap k d.nodes) e v.heap));
        bounded = omega arith;
      };
      shrunk = e;
      content = λ p. ap (count p d.nodes) e ∙ count_taken p d.nodes d.size n;
      greatest = λ i hi. root_greatest d.size d.nodes i v.heap hi;
      same_sem = refl;
    }
