-- ===== src/Dispatcher/Content.antt =====
-- The tasks in the dispatcher's queue, counted: `put_task` adds one, `get_task` takes one out, and the
-- loops only move them.
use opensips_ng.Prelude.{
  ℕ, zero, suc, ◌+◌, ◌-◌, ◌*◌, ◌/◌, ◌≤◌, ◌<◌, ◌≡◌, refl, ap, ◌∙◌, inl, inr, Bool, true, false,
  arith, ltb, ◌==◌, if◌then◌else◌, Bool-cases,
}
use opensips_ng.Prelude.Int.{ltb_ℤ}
use opensips_ng.Dispatcher.{
  HeapNode, Nodes, write, swap, priority_at, sift_up, max_child, sift_down,
}

abbrev pub bit : Bool → ℕ
bit true = 1
bit false = 0

-- How many of the first `n` entries pass the test.
unfoldable pub count : (HeapNode → Bool) → Nodes → ℕ → ℕ
count p a zero = 0
count p a (suc n) = count p a n + bit (p (a n))

pub write_lem :
    (a : Nodes) (i : ℕ) (v : HeapNode) (j : ℕ) → write a i v j ≡ (if i == j then v else a j)
unfolding write
write_lem a i v j = refl

max_child-lt : (a : Nodes) (size cur : ℕ) → cur * 2 + 1 < size → max_child a size cur < size
unfolding max_child
max_child-lt a size cur h = ground arith

module _ (p : HeapNode → Bool) where
  pub count-write_beyond :
      (a : Nodes) (i : ℕ) (v : HeapNode) (n : ℕ) → n ≤ i → count p (write a i v) n ≡ count p a n
  unfolding count write
  count-write_beyond a i v zero h = refl
  count-write_beyond a i v (suc n) h = ground (arith, count-write_beyond a i v n)

  -- A write trades the old entry for the new one.
  pub count-write :
      (a : Nodes) (i : ℕ) (v : HeapNode) (n : ℕ)
      → i < n
      → count p (write a i v) n + bit (p (a i)) ≡ count p a n + bit (p v)
  unfolding count write
  count-write a i v zero h = elim h [ ]
  count-write a i v (suc n) h = elim (Bool-cases (i == n)) [
    | inl e ↦
        let same : i ≡ n = ground arith in
        let new : write a i v n ≡ v = rw (e, write) in
        omega (
          arith,
          count-write_beyond a i v n (omega arith),
          ap (λ (x : HeapNode). bit (p x)) new,
          ap (λ (j : ℕ). bit (p (a j))) same,
        )
    | inr ne ↦
        let kept : write a i v n ≡ a n = rw (ne, write) in
        omega (arith, count-write a i v n (ground arith), ap (λ (x : HeapNode). bit (p x)) kept)
  ]

  -- An exchange keeps what is in the queue.
  pub count-swap : (a : Nodes) (i j n : ℕ) → i < n → j < n → count p (swap a i j) n ≡ count p a n
  unfolding swap
  count-swap a i j n hi hj =
      let kept : write a i (a j) j ≡ a j = ground (arith, write_lem a i (a j) j) in
      omega (
        arith,
        count-write a i (a j) n hi,
        count-write (write a i (a j)) j (a i) n hj,
        ap (λ (x : HeapNode). bit (p x)) kept,
      )

  pub count-sift_up :
      (fuel : ℕ) (a : Nodes) (cur n : ℕ) → cur < n → count p (sift_up fuel a cur) n ≡ count p a n
  unfolding sift_up
  count-sift_up zero a cur n h = refl
  count-sift_up (suc fuel) a cur n h = elim (Bool-cases (ltb 0 cur)) [
    | inl e ↦ rw e (elim (Bool-cases (ltb_ℤ (priority_at a ((cur - 1) / 2)) (priority_at a cur))) [
      | inl over ↦ rw over (
          count-sift_up fuel (swap a cur ((cur - 1) / 2)) ((cur - 1) / 2) n (omega arith)
          ∙ count-swap a cur ((cur - 1) / 2) n h (omega arith))
      | inr kept ↦ rw kept
    ])
    | inr e ↦ rw e
  ]

  pub count-sift_down :
      (fuel : ℕ) (a : Nodes) (size cur n : ℕ)
      → cur < n
      → size ≤ n
      → count p (sift_down fuel a size cur) n ≡ count p a n
  unfolding sift_down
  count-sift_down zero a size cur n h s = refl
  count-sift_down (suc fuel) a size cur n h s = elim (Bool-cases (ltb (cur * 2 + 1) size)) [
    | inl e ↦ rw e (elim (Bool-cases (max_child a size cur == cur)) [
      | inl same ↦ rw same
      | inr other ↦
          let m = max_child a size cur in
          let inside : m < n = omega (arith, max_child-lt a size cur (ground arith)) in
          rw other
            (count-sift_down fuel (swap a cur m) size m n inside s ∙ count-swap a cur m n h inside)
    ])
    | inr e ↦ rw e
  ]
