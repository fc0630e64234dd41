-- ===== src/Mem/Tests.antt =====
-- src/core/mem/q_malloc.c on a block of 2^20 bytes at the address 4096.
use mathlib.Core.Path.{subst}
use mathlib.Core.Option.{some-injective}
use opensips_ng.Prelude.{ℕ, ◌+◌, ◌≡◌, ◌≢◌, refl, true, Option, none, some, Yields, arith, sym, ap}
use opensips_ng.Mem.Word.{round_up}
use opensips_ng.Mem.Frag.{locate, frag_header, sum}
use opensips_ng.Mem.Free.{find_free, get_hash, big_hash_idx}
use opensips_ng.Mem.Qm.{Block, init_block, qm_malloc, take, free_at, release_at, qm_free}
use opensips_ng.Mem.Qm.Heap.{IsHeap, IsEmpty, init_block-IsEmpty, in_use}
use opensips_ng.Mem.Qm.Malloc.{Answer, refused, served, Served, qm_malloc-Answer}
use opensips_ng.Mem.Qm.Fit.{has_room, qm_malloc_serves}
use opensips_ng.Mem.Qm.Release.{Freed, Holds, is_at, qm_free-Freed}
use opensips_ng.Mem.Qm.Cycle.{Restored, qm_free-qm_malloc}
use opensips_ng.Mem.Realloc.Grow.{Reply, qm_realloc-Reply}
use opensips_ng.Mem.Realloc.{qm_realloc}

init_block-Yields : Yields IsEmpty (init_block 4096 1048576)
init_block-Yields = init_block-IsEmpty 4096 1048576 (omega arith) (omega arith)

-- What the option holds.
abbrev the : (P : Block → Type 0) (o : Option Block) → Yields P o → Block
the P none y = absurd y
the P (some q) y = q

abbrev empty : Block
empty = the IsEmpty (init_block 4096 1048576) init_block-Yields

yielded : (P : Block → Type 0) (o : Option Block) (y : Yields P o) → P (the P o y)
yielded P none y = absurd y
yielded P (some q) y = y

empty-IsHeap : IsHeap empty
empty-IsHeap = let e = yielded IsEmpty (init_block 4096 1048576) init_block-Yields in e.heap

qm_malloc-Answer_example : Answer empty (round_up 100) (qm_malloc empty 100)
qm_malloc-Answer_example = qm_malloc-Answer empty 100 empty-IsHeap

one_has_room : sum (has_room (round_up 100)) empty.frags ≡ 1
unfolding init_block sum
one_has_room = refl

qm_malloc_serves_example : Yields (Served empty (round_up 100)) (qm_malloc empty 100)
qm_malloc_serves_example = qm_malloc_serves empty 100 empty-IsHeap (omega (arith, one_has_room))

-- Two fragments, of which the first is in use.
abbrev one_used : ℕ × Block
unfolding init_block qm_malloc
one_used = elim (qm_malloc empty 1000) [ none ↦ (0, empty) | some r ↦ r ]

gives_one : qm_malloc empty 1000 ≡ some one_used
unfolding qm_malloc init_block find_free get_hash big_hash_idx locate
gives_one = refl

pointer : one_used.0 ≡ 222488
unfolding qm_malloc init_block find_free get_hash big_hash_idx locate take
pointer = refl

pointer_ne : one_used.0 ≢ 0
pointer_ne e = omega (arith, e, pointer)

qm_free-qm_malloc_example : Yields (Restored empty) (qm_free true one_used.1 one_used.0)
qm_free-qm_malloc_example = qm_free-qm_malloc true empty 1000 empty-IsHeap gives_one pointer_ne

answered-IsHeap :
    (q : Block) (n : ℕ) (r : ℕ × Block) (o : Option (ℕ × Block))
    → Answer q n o
    → o ≡ some r
    → r.0 ≢ 0
    → IsHeap r.1
answered-IsHeap q n r _ refused e ne = absurd (ne (sym (ap (λ x. x.0) (some-injective _ _ e))))
answered-IsHeap q n r _ (served s) e ne = subst (λ r. IsHeap r.1) (some-injective _ _ e) s.valid

one_used-IsHeap : IsHeap one_used.1
one_used-IsHeap =
    answered-IsHeap empty (round_up 1000) one_used _ (qm_malloc-Answer empty 1000 empty-IsHeap)
      gives_one pointer_ne

counts_one : sum (in_use (is_at 222440 1000)) one_used.1.frags ≡ 1
unfolding qm_malloc init_block sum find_free get_hash big_hash_idx locate take
counts_one = refl

one_used-Holds : Holds one_used.1 222440 1000
one_used-Holds = omega (arith, counts_one)

qm_free-Freed_example :
    Yields (Freed one_used.1 222440 1000) (qm_free true one_used.1 (222440 + frag_header))
qm_free-Freed_example = qm_free-Freed true one_used.1 222440 1000 one_used-IsHeap one_used-Holds

qm_realloc-Reply_example :
    Reply one_used.1 222440 1000
      (round_up 5000)
      (qm_realloc true one_used.1 (222440 + frag_header) 5000)
qm_realloc-Reply_example =
    qm_realloc-Reply true one_used.1 222440 1000 5000 one_used-IsHeap one_used-Holds (omega arith)
      (omega arith)

-- After the pointer is freed, all memory is one free fragment again.
joined_again : Yields (λ q. q.frags ≡ empty.frags) (qm_free true one_used.1 one_used.0)
unfolding qm_malloc qm_free init_block find_free get_hash big_hash_idx locate take free_at
    release_at
joined_again = refl
