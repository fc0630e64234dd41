-- ===== src/Dispatcher/Order.antt =====
-- The heap order of the dispatcher's queue.
use opensips_ng.Prelude.{ℕ, zero, suc, ◌-◌, ◌/◌, ◌<◌, ◌≡◌, refl, arith, ◌==◌, if◌then◌else◌}
use opensips_ng.Prelude.Int.{◌≤ℤ◌}
use opensips_ng.Dispatcher.{Nodes, write, swap, priority_at}

abbrev pub parent : ℕ → ℕ
parent c = (c - 1) / 2

-- No entry below `size` has a priority over its parent's.
abbrev pub IsHeap : ℕ → Nodes → Type 0
IsHeap size a = (c : ℕ) → 0 < c → c < size → priority_at a c ≤ℤ priority_at a (parent c)

pub swap_lem :
    (a : Nodes) (i j c : ℕ) → swap a i j c ≡ (if j == c then a i else if i == c then a j else a c)
unfolding swap write
swap_lem a i j c = refl

pub root_greatest_below :
    (fuel size : ℕ) (a : Nodes) (i : ℕ)
    → IsHeap size a
    → i < fuel
    → i < size
    → priority_at a i ≤ℤ priority_at a 0
root_greatest_below zero size a i h f p = absurd (omega arith)
root_greatest_below (suc fuel) size a zero h f p = omega arith
root_greatest_below (suc fuel) size a (suc i) h f p =
    let above : parent (suc i) < fuel = omega arith in
    omega (
      arith,
      h (suc i) (omega arith) p,
      root_greatest_below fuel size a (parent (suc i)) h above (omega arith),
    )

-- The first entry of a heap has the highest priority.
pub root_greatest :
    (size : ℕ) (a : Nodes) (i : ℕ) → IsHeap size a → i < size → priority_at a i ≤ℤ priority_at a 0
root_greatest size a i h p = root_greatest_below (suc i) size a i h (omega arith) p
