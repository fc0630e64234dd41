-- ===== src/Dispatcher/Get.antt =====
-- `get_task` of src/core/dispatcher/dispatcher.c keeps the heap order.
use opensips_ng.Prelude.{
  ℕ, zero, suc, ◌+◌, ◌*◌, ◌<◌, ◌≡◌, ◌≢◌, ◌⊎◌, inl, inr, arith, ltb, ◌==◌, Bool-cases,
}
use opensips_ng.Prelude.Int.{◌≤ℤ◌}
use opensips_ng.Dispatcher.{Nodes, write, swap, priority_at, max_child, sift_down}
use opensips_ng.Dispatcher.Order.{parent, IsHeap, swap_lem}

-- Only the children of `i` may be over it, and they are not over its parent.
pub record Sinking (size : ℕ) (a : Nodes) (i : ℕ) : Type 0 where
  pub edges :
      (c : ℕ) → 0 < c → c < size → parent c ≢ i → priority_at a c ≤ℤ priority_at a (parent c)
  pub bridged :
      (c : ℕ)
      → 0 < c
      → c < size
      → parent c ≡ i
      → 0 < i
      → priority_at a c ≤ℤ priority_at a (parent i)

-- `maxi` is `cur` or a child of it, and neither `cur` nor a child has a priority over it.
record Greatest (size : ℕ) (a : Nodes) (i m : ℕ) : Type 0 where
  place : (m ≡ i) ⊎ ((m ≡ i * 2 + 1) ⊎ (m ≡ i * 2 + 2))
  inside : m < size
  over : priority_at a i ≤ℤ priority_at a m
  sons : (c : ℕ) → 0 < c → c < size → parent c ≡ i → priority_at a c ≤ℤ priority_at a m

sons_of : (c i : ℕ) → 0 < c → parent c ≡ i → (c ≡ i * 2 + 1) ⊎ (c ≡ i * 2 + 2)
sons_of c i p e = omega arith

max_child-Greatest :
    (size : ℕ) (a : Nodes) (i : ℕ) → i * 2 + 1 < size → Greatest size a i (max_child a size i)
unfolding max_child
max_child-Greatest size a i h = record {
  place = ground arith;
  inside = ground arith;
  over = ground arith;
  sons = λ c p s e. ground (arith, sons_of c i p e);
}

swap-Sinking :
    (size : ℕ) (a : Nodes) (i m : ℕ)
    → Sinking size a i
    → Greatest size a i m
    → m ≢ i
    → Sinking size (swap a i m) m
swap-Sinking size a i m v g ne = record {
  edges = λ c p s q. ground (
    arith,
    swap_lem a i m c,
    swap_lem a i m (parent c),
    v.edges c,
    v.bridged m,
    g.sons c,
    g.over,
  );
  bridged = λ c p s e q. ground (arith, swap_lem a i m c, swap_lem a i m (parent m), v.edges c);
}

pub sift_down-IsHeap :
    (fuel size : ℕ) (a : Nodes) (i : ℕ)
    → size < i + fuel
    → Sinking size a i
    → IsHeap size (sift_down fuel a size i)
unfolding sift_down
sift_down-IsHeap zero size a i f v = λ c p s. ground (arith, v.edges c)
sift_down-IsHeap (suc fuel) size a i f v = elim (Bool-cases (ltb (i * 2 + 1) size)) [
  | inl inside ↦
      let g = max_child-Greatest size a i (ground arith) in
      rw inside (elim (Bool-cases (max_child a size i == i)) [
        | inl same ↦ rw same (λ c p s. ground (arith, v.edges c, g.sons c))
        | inr other ↦ rw other (
            sift_down-IsHeap fuel size (swap a i (max_child a size i)) (max_child a size i)
              (ground (arith, g.place)) (swap-Sinking size a i _ v g (ground arith)))
      ])
  | inr leaf ↦ rw leaf (λ c p s. ground (arith, v.edges c))
]

-- The last entry in place of the first.
pub replace-Sinking :
    (size : ℕ) (a : Nodes) → IsHeap (suc size) a → Sinking size (write a 0 (a size)) 0
unfolding write
replace-Sinking size a h = record {
  edges = λ c p s ne. ground (arith, h c);
  bridged = λ c p s e q. absurd (omega arith);
}
