-- ===== src/Mem/Realloc/Counters.antt =====
-- src/core/mem/q_malloc.c: the counters after `qm_realloc` to a smaller size.
use opensips_ng.Prelude.{bit, ℕ, ◌+◌, ◌-◌, ◌≤◌, ◌<◌, ◌≡◌, ◌⊎◌, Bool}
use opensips_ng.Mem.Frag.{Frag, frag_header, frag_overhead, sum}
use opensips_ng.Mem.Free.{malloc_optimize}
use opensips_ng.Mem.Qm.{Block}
use opensips_ng.Mem.Qm.Heap.{held, in_use}

-- The fragment at `at` is `lost` bytes smaller, and `size` bytes long; `used` is as it was.
pub record Shrunk (q : Block) (at size lost : ℕ) (r : ℕ × Block) : Type 0 where
  pub pointer : r.0 ≡ at + frag_header
  pub same : r.1.used ≡ q.used
  pub excess : r.1.used ≡ sum held r.1.frags + lost
  pub content :
      (t : ℕ → ℕ → Bool)
      → sum (in_use t) r.1.frags + bit (t at (size + lost))
        ≡ sum (in_use t) q.frags + bit (t at size)

-- There is room for another fragment behind the first `size` bytes.
abbrev pub Splits : ℕ → ℕ → Type 0
Splits old size =
    (frag_overhead + malloc_optimize < old - size) ⊎ (frag_overhead + size ≤ old - size)
