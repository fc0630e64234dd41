-- ===== src/Mem/Qm/Cycle.antt =====
-- src/core/mem/q_malloc.c: `qm_malloc` and then `qm_free`.
use mathlib.Core.Option.{some-injective}
use mathlib.Core.Path.{subst}
use opensips_ng.Prelude.{bit, ℕ, ◌+◌, ◌≡◌, ◌≢◌, sym, ap, Bool, arith, Option, none, some, Yields}
use opensips_ng.Mem.Word.{round_up}
use opensips_ng.Mem.Frag.{frag_header, sum}
use opensips_ng.Mem.Qm.{Block, qm_malloc, qm_free}
use opensips_ng.Mem.Qm.Heap.{in_use, IsHeap}
use opensips_ng.Mem.Qm.Malloc.{Answer, refused, served, Served, qm_malloc-Answer}
use opensips_ng.Mem.Qm.Release.{Holds, is_at, Freed, qm_free-Freed}

-- A heap that holds the same fragments for its callers as another one.
pub record Restored (q q' : Block) : Type 0 where
  pub valid : IsHeap q'
  pub content : (t : ℕ → ℕ → Bool) → sum (in_use t) q'.frags ≡ sum (in_use t) q.frags

holds_new : (at n : ℕ) → bit (is_at at n at n) ≡ 1
holds_new at n = ground arith

qm_free-Restored :
    (join : Bool) (q : Block) (size : ℕ) (r : ℕ × Block)
    → Served q size r
    → Yields (Restored q) (qm_free join r.1 r.0)
qm_free-Restored join q size r s =
    let holds : Holds r.1 s.at s.length =
      omega (arith, s.content (is_at s.at s.length), holds_new s.at s.length) in
    rw s.pointer (
      go (qm_free join r.1 (s.at + frag_header))
        (qm_free-Freed join r.1 s.at s.length s.valid holds))
  where
    go : (o : Option Block) → Yields (Freed r.1 s.at s.length) o → Yields (Restored q) o
    go none y = y
    go (some q') y = record {
      valid = y.valid;
      content = λ t. omega (arith, y.content t, s.content t);
    }

-- What `qm_malloc` on a heap gives out can be freed, and then the heap holds for its callers what it held
-- before.
pub qm_free-qm_malloc :
    (join : Bool) (q : Block) (size : ℕ) {r : ℕ × Block}
    → IsHeap q
    → qm_malloc q size ≡ some r
    → r.0 ≢ 0
    → Yields (Restored q) (qm_free join r.1 r.0)
qm_free-qm_malloc join q size {r = r} v e ne = go (qm_malloc-Answer q size v) e
  where
    go :
        {o : Option (ℕ × Block)}
        → Answer q (round_up size) o
        → o ≡ some r
        → Yields (Restored q) (qm_free join r.1 r.0)
    go refused h = absurd (ne (sym (ap (λ x. x.0) (some-injective _ _ h))))
    go (served s) h =
        qm_free-Restored join q (round_up size) r
          (subst (Served q (round_up size)) (some-injective _ _ h) s)
