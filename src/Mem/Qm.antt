-- ===== src/Mem/Qm.antt =====
-- src/core/mem/q_malloc.c: `qm_malloc_init`, `split_frag`, `qm_malloc`, `qm_free`, `qm_info`, as
-- Makefile.defs builds them, with DBG_QM_MALLOC; QM_JOIN_FREE is the parameter `join`. The check patterns
-- are not modelled. `none` is an abort or a pointer to memory that no fragment starts at. The counters of the
-- block wrap round; the sizes of fragments are those of memory that is there, and do not.
pub mod Heap
pub mod Split
pub mod Malloc
pub mod Fit
pub mod Join
pub mod Release
pub mod Cycle
use opensips_ng.Prelude.{
  ℕ, zero, suc, ◌+◌, ◌-◌, ◌*◌, ◌/◌, ◌%◌, ◌^◌, ◌≤◌, ◌<◌, Bool, true, false, not, ◌&&◌, ◌||◌, Option,
  none, some, List, [], ◌∷◌, ltb, leb, ◌==◌, if◌then◌else◌, ◌>>=◌,
}
use opensips_ng.Mem.Word.{u64_mod, add64, sub64, round_up, round_down, round_to}
use opensips_ng.Mem.Frag.{Frag, frag_header, frag_overhead, Place, locate, rebuild, size_at}
use opensips_ng.Mem.Free.{
  FreeHash, get_hash, insert_free, detach_free, count_down, find_free, malloc_optimize, hash_size,
}

-- `struct qm_block`; the fragments stand for the memory from `first_frag` to the end.
pub record Block : Type 0 where
  pub size : ℕ
  pub used : ℕ
  pub real_used : ℕ
  pub max_real_used : ℕ
  pub first_frag : ℕ
  pub frags : List Frag
  pub free_hash : FreeHash

-- ROUNDUP(sizeof(struct qm_block)).
abbrev pub block_header : ℕ
block_header = 218344

abbrev pub no_lists : FreeHash
no_lists = record { heads = λ h. []; no = λ h. 0 }

-- `qm_malloc_init`, where `start` and `size` are what is left of the arguments.
unfoldable pub init_block : ℕ → ℕ → Option Block
unfolding insert_free
init_block start size =
    let init_overhead = block_header + frag_overhead in
    let first : Frag = record {
      at = start + block_header;
      size = size - init_overhead;
      is_free = true;
    } in
    if ltb size init_overhead
    then none
    else some (record {
      size = size;
      used = 0;
      real_used = init_overhead;
      max_real_used = init_overhead;
      first_frag = start + block_header;
      frags = first ∷ [];
      free_hash = insert_free (first ∷ []) first.at first.size no_lists;
    })

-- MIN_FRAG_SIZE is ROUNDTO.
unfoldable pub qm_malloc_init : ℕ → ℕ → Option Block
unfolding init_block
qm_malloc_init address size =
    let start = round_up address in
    let left = size - sub64 start address in
    if ltb size (sub64 start address)
    then none
    else if ltb left (round_to + frag_overhead)
    then none
    else init_block start (round_down left)

-- `split_frag`: what the fragment `f` becomes, and the new fragment behind it; `none` is the return of -1.
-- The callers give a `new_size` that is not above the size.
unfoldable pub split_frag : Frag → ℕ → Option (Frag × Frag)
split_frag f new_size =
    let rest = f.size - new_size in
    if ltb (frag_overhead + malloc_optimize) rest || leb (frag_overhead + new_size) rest
    then some (
      record f { size = new_size },
      record { at = f.at + new_size + frag_overhead; size = rest - frag_overhead; is_free = true },
    )
    else none

-- The block after `split_frag` of a fragment that is in use, between `before` and `behind`.
unfoldable pub after_split : Block → List Frag → List Frag → Frag → Option (Frag × Frag) → Block
unfolding rebuild insert_free
after_split q before behind f none = record q { frags = rebuild before (f ∷ behind) }
after_split q before behind f (some (g, n)) =
    let memory = rebuild before (g ∷ (n ∷ behind)) in
    record q {
      real_used = add64 q.real_used frag_overhead;
      frags = memory;
      free_hash = insert_free memory n.at n.size q.free_hash;
    }

-- The size of the fragment after `split_frag`.
unfoldable pub split_size : Frag → Option (Frag × Frag) → ℕ
split_size f none = f.size
split_size f (some (g, n)) = g.size

-- `if (qm->max_real_used<qm->real_used) qm->max_real_used=qm->real_used;`
unfoldable pub raise_max : Block → Block
raise_max q =
    if ltb q.max_real_used q.real_used then record q { max_real_used = q.real_used } else q

-- `qm_malloc` once a fragment is found on the list `hash`.
unfoldable pub take : Block → ℕ → ℕ → Place → ℕ × Block
unfolding split_frag after_split split_size raise_max detach_free count_down
take q size hash p =
    let f : Frag = record p.frag { is_free = false } in
    let parts = split_frag f size in
    let q1 =
      after_split (record q { free_hash = count_down hash (detach_free f.at q.free_hash) }) p.before
        p.behind f parts in
    let taken = split_size f parts in
    (
      f.at + frag_header,
      raise_max (record q1 { real_used = add64 q1.real_used taken; used = add64 q1.used taken }),
    )

-- The pointer, 0 for NULL, and the block.
unfoldable pub qm_malloc : Block → ℕ → Option (ℕ × Block)
qm_malloc q size0 =
    let size = round_up size0 in
    if ltb (sub64 q.size q.real_used) size
    then some (0, q)
    else elim (find_free q.frags q.free_hash size) [
      | none ↦ some (0, q)
      | some (a, hash) ↦ elim (locate a [] q.frags) [
        | none ↦ none
        | some p ↦ some (take q size hash p)
      ]
    ]

-- QM_JOIN_FREE: the fragment behind, if it is free, is taken off its list and joined.
unfoldable pub join_next : Bool → Block → Frag → List Frag → Block × Frag × List Frag
unfolding detach_free count_down
join_next join q f [] = (q, f, [])
join_next join q f (n ∷ behind) =
    if join && n.is_free
    then (
      record q {
        real_used = sub64 q.real_used frag_overhead;
        free_hash = count_down (get_hash n.size) (detach_free n.at q.free_hash);
      },
      record f { size = f.size + (n.size + frag_overhead) },
      behind,
    )
    else (q, f, n ∷ behind)

-- The same for the fragment before, where the joined fragment starts.
unfoldable pub join_prev : Bool → Block → Frag → List Frag → Block × Frag × List Frag
unfolding detach_free count_down
join_prev join q f [] = (q, f, [])
join_prev join q f (n ∷ before) =
    if join && n.is_free
    then (
      record q {
        real_used = sub64 q.real_used frag_overhead;
        free_hash = count_down (get_hash n.size) (detach_free n.at q.free_hash);
      },
      record f { at = n.at; size = f.size + (n.size + frag_overhead) },
      before,
    )
    else (q, f, n ∷ before)

-- The end of `qm_free`: `qm_insert_free`.
unfoldable pub put_back : Block → Frag → List Frag → List Frag → Block
unfolding rebuild insert_free
put_back q f before behind =
    let g : Frag = record f { is_free = true } in
    let memory = rebuild before (g ∷ behind) in
    record q { frags = memory; free_hash = insert_free memory g.at g.size q.free_hash }

-- `qm_free` of the fragment at a place.
unfoldable pub release_at : Bool → Block → Place → Block
unfolding join_next join_prev put_back
release_at join q p =
    let q0 : Block = record q {
      used = sub64 q.used p.frag.size;
      real_used = sub64 q.real_used p.frag.size;
    } in
    let (q1, f1, behind) = join_next join q0 p.frag p.behind in
    let (q2, f2, before) = join_prev join q1 f1 p.before in put_back q2 f2 before behind

-- A fragment that is free already makes it abort.
unfoldable pub free_at : Bool → Block → Place → Option Block
free_at join q p = if p.frag.is_free then none else some (release_at join q p)

-- With DBG_QM_MALLOC a pointer before the first fragment, NULL too, makes it abort before it is compared
-- with NULL.
unfoldable pub qm_free : Bool → Block → ℕ → Option Block
qm_free join q p = if ltb p q.first_frag then none else elim (locate (p - frag_header) [] q.frags) [
  | none ↦ none
  | some place ↦ free_at join q place
]

-- `struct mem_info`, the fields that `qm_info` fills.
pub record MemInfo : Type 0 where
  pub total_size : ℕ
  pub free : ℕ
  pub used : ℕ
  pub real_used : ℕ
  pub max_used : ℕ
  pub min_frag : ℕ
  pub total_frags : ℕ

-- The `for` of `qm_info`, over the first `n` lists.
unfoldable pub count_frags : ℕ → FreeHash → ℕ
count_frags zero q = 0
count_frags (suc n) q = count_frags n q + q.no n

unfoldable pub qm_info : Block → MemInfo
unfolding count_frags
qm_info q = record {
  total_size = q.size;
  free = sub64 q.size q.real_used;
  used = q.used;
  real_used = q.real_used;
  max_used = q.max_real_used;
  min_frag = round_to;
  total_frags = count_frags hash_size q.free_hash;
}
