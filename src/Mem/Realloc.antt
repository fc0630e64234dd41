-- ===== src/Mem/Realloc.antt =====
-- src/core/mem/q_malloc.c: `qm_realloc`. `none` is an abort, or a pointer to memory that no fragment starts at.
pub mod Counters
pub mod Grow
use opensips_ng.Prelude.{
  ℕ, zero, suc, ◌+◌, ◌-◌, ◌*◌, ◌/◌, ◌%◌, ◌^◌, ◌≤◌, ◌<◌, Bool, true, false, not, ◌&&◌, ◌||◌, Option,
  none, some, List, [], ◌∷◌, ltb, leb, ◌==◌, if◌then◌else◌, ◌>>=◌,
}
use opensips_ng.Mem.Word.{u64_mod, add64, sub64, round_up, round_down, round_to}
use opensips_ng.Mem.Frag.{Frag, frag_header, frag_overhead, Place, locate, rebuild, size_at}
use opensips_ng.Mem.Free.{
  FreeHash, get_hash, insert_free, detach_free, count_down, find_free, malloc_optimize, hash_size,
}
use opensips_ng.Mem.Qm.{Block, split_frag, after_split, split_size, qm_malloc, qm_free}

-- `qm_realloc` where the next fragment is joined: what becomes of the fragment `f` and the block, with the
-- fragments behind the two.
unfoldable pub grow : Block → ℕ → List Frag → Frag → Frag → List Frag → ℕ × Block
unfolding split_frag after_split split_size detach_free count_down
grow q size before f n behind =
    let joined : Frag = record f { size = f.size + (n.size + frag_overhead) } in
    let parts = if ltb size joined.size then split_frag joined size else none in
    let q1 : Block = record q {
      real_used = sub64 q.real_used frag_overhead;
      free_hash = count_down (get_hash n.size) (detach_free n.at q.free_hash);
    } in
    let q2 = after_split q1 before behind joined parts in
    let more = sub64 (split_size joined parts) f.size in
    (
      f.at + frag_header,
      record q2 { real_used = add64 q2.real_used more; used = add64 q2.used more },
    )

-- Where it cannot be joined: a new fragment, and the old one is freed.
unfoldable pub move : Bool → Block → ℕ → ℕ → Option (ℕ × Block)
move join q p size = do
  (new, q1) ← qm_malloc q size
  q2 ← (if new == 0 then some q1 else qm_free join q1 p)
  some (new, q2)

unfoldable pub grow_or_move : Bool → Block → ℕ → ℕ → Place → Option (ℕ × Block)
unfolding grow
grow_or_move join q p size place = elim place.behind [
  | [] ↦ move join q p size
  | n ∷ behind ↦
      if n.is_free && leb (size - place.frag.size) (n.size + frag_overhead)
      then some (grow q size place.before place.frag n behind)
      else move join q p size
]

-- The shrinking of a fragment, by the result of `split_frag`. Where that returns 0, the counters are left as they
-- are; where it returns -1, they are changed, as in the source.
unfoldable pub shrunk : Block → Place → Option (Frag × Frag) → ℕ × Block
unfolding after_split
shrunk q place none =
    let f = place.frag in
    let q1 = after_split q place.before place.behind f none in
    (
      f.at + frag_header,
      record q1 {
        real_used = sub64 q1.real_used (sub64 (f.size - f.size) frag_overhead);
        used = sub64 q1.used (f.size - f.size);
      },
    )
shrunk q place (some parts) =
    (place.frag.at + frag_header, after_split q place.before place.behind place.frag (some parts))

unfoldable pub shrink : Block → ℕ → Place → ℕ × Block
unfolding shrunk
shrink q size place = shrunk q place (split_frag place.frag size)

-- `qm_realloc` of a fragment that is in use, by the sizes.
unfoldable pub realloc_used : Bool → Block → ℕ → ℕ → Place → Option (ℕ × Block)
realloc_used join q p size place =
    let other = grow_or_move join q p size place in
    if ltb size place.frag.size
    then some (shrink q size place)
    else if ltb place.frag.size size
    then other
    else some (p, q)

-- A fragment that is free makes it abort.
unfoldable pub realloc_at : Bool → Block → ℕ → ℕ → Place → Option (ℕ × Block)
realloc_at join q p size place =
    if place.frag.is_free then none else realloc_used join q p size place

unfoldable pub qm_realloc : Bool → Block → ℕ → ℕ → Option (ℕ × Block)
qm_realloc join q p size =
    if not (p == 0) && ltb p q.first_frag
    then none
    else if size == 0
    then (if p == 0 then some (0, q) else (qm_free join q p >>= λ q'. some (0, q')))
    else if p == 0
    then qm_malloc q size
    else elim (locate (p - frag_header) [] q.frags) [
      | none ↦ none
      | some place ↦ realloc_at join q p (round_up size) place
    ]
