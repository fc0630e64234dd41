-- ===== src/Dispatcher/Put.antt =====
-- `put_task` of src/core/dispatcher/dispatcher.c keeps the heap order.
use opensips_ng.Prelude.{ℕ, zero, suc, ◌+◌, ◌<◌, ◌≡◌, ◌≢◌, inl, inr, true, arith, ltb, Bool-cases}
use opensips_ng.Prelude.Int.{◌≤ℤ◌, ltb_ℤ}
use opensips_ng.Dispatcher.{HeapNode, Nodes, write, swap, priority_at, sift_up}
use opensips_ng.Dispatcher.Order.{parent, IsHeap, swap_lem}

-- Only the entry at `i` may be over its parent, and its children are not over its parent.
pub record Rising (size : ℕ) (a : Nodes) (i : ℕ) : Type 0 where
  pub edges : (c : ℕ) → 0 < c → c < size → c ≢ i → priority_at a c ≤ℤ priority_at a (parent c)
  pub bridged :
      (c : ℕ)
      → 0 < c
      → c < size
      → parent c ≡ i
      → 0 < i
      → priority_at a c ≤ℤ priority_at a (parent i)

swap-Rising :
    (size : ℕ) (a : Nodes) (i : ℕ)
    → Rising size a i
    → 0 < i
    → i < size
    → ltb_ℤ (priority_at a (parent i)) (priority_at a i) ≡ true
    → Rising size (swap a i (parent i)) (parent i)
swap-Rising size a i r p q over = record {
  edges = λ c pc sc ne. ground (
    arith,
    swap_lem a i (parent i) c,
    swap_lem a i (parent i) (parent c),
    r.edges c,
    r.bridged c,
    r.edges i,
  );
  bridged = λ c pc sc e pi. ground (
    arith,
    swap_lem a i (parent i) c,
    swap_lem a i (parent i) (parent (parent i)),
    r.edges c,
    r.edges (parent i),
  );
}

pub sift_up-IsHeap :
    (fuel size : ℕ) (a : Nodes) (cur : ℕ)
    → cur < fuel
    → cur < size
    → Rising size a cur
    → IsHeap size (sift_up fuel a cur)
unfolding sift_up
sift_up-IsHeap zero size a cur f s r = absurd (omega arith)
sift_up-IsHeap (suc fuel) size a cur f s r = elim (Bool-cases (ltb 0 cur)) [
  | inl p ↦ rw p (elim (Bool-cases (ltb_ℤ (priority_at a (parent cur)) (priority_at a cur))) [
    | inl over ↦ rw over (
        sift_up-IsHeap fuel size (swap a cur (parent cur)) (parent cur) (ground arith)
          (ground arith) (swap-Rising size a cur r (ground arith) s over))
    | inr kept ↦ rw kept (λ c pc sc. ground (arith, r.edges c))
  ])
  | inr root ↦ rw root (λ c pc sc. r.edges c pc sc (ground arith))
]

-- The new entry goes behind the others.
pub append-Rising :
    (size : ℕ) (a : Nodes) (n : HeapNode) → IsHeap size a → Rising (size + 1) (write a size n) size
unfolding write
append-Rising size a n h = record {
  edges = λ c pc sc ne. ground (arith, h c);
  bridged = λ c pc sc e pi. absurd (omega arith);
}
