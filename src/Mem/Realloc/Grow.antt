-- ===== src/Mem/Realloc/Grow.antt =====
-- src/core/mem/q_malloc.c: `qm_realloc` to a size that is not smaller.
use mathlib.Core.Path.{subst}
use opensips_ng.Prelude.{
  bit, ℕ, ◌+◌, ◌-◌, ◌≤◌, ◌<◌, ◌≡◌, refl, sym, ap, Bool, true, false, ◌&&◌, List, [], ◌∷◌, arith,
  ltb, leb, ◌==◌, if◌then◌else◌, Option, none, some, Bool-cases, inl, inr, Yields, ◌>>=◌,
}
use opensips_ng.Mem.Word.{sub64, round_up}
use opensips_ng.Mem.Frag.{Frag, Place, frag_header, frag_overhead, sum, TilesBack-le, rebuild}
use opensips_ng.Mem.Free.{get_hash, detach_free, count_down}
use opensips_ng.Mem.Free.Listed.{listed}
use opensips_ng.Mem.Qm.{Block, split_frag, split_size, qm_malloc, qm_free}
use opensips_ng.Mem.Qm.Heap.{held, cost, extent, in_use, IsHeap, Around}
use opensips_ng.Mem.Qm.Split.{
  Open, SplitAt, unsplit, split, split_frag-SplitAt, charge-IsHeap, charge_content,
  split_size_enough, held_busy,
}
use opensips_ng.Mem.Qm.Malloc.{Answer, refused, served, Served, qm_malloc-Answer}
use opensips_ng.Mem.Qm.Join.{join_next-Open, in_use_free}
use opensips_ng.Mem.Qm.Release.{Freed, Holds, is_at, held_fragment, qm_free-Freed, in_use_busy}
use opensips_ng.Mem.Realloc.{grow, move, grow_or_move, realloc_used, realloc_at, qm_realloc}

-- The block holds a fragment of at least `size` bytes in place of the one at `at`.
pub record Resized (q : Block) (at old size : ℕ) (r : ℕ × Block) : Type 0 where
  pub valid : IsHeap r.1
  pub new_at : ℕ
  pub length : ℕ
  pub pointer : r.0 ≡ new_at + frag_header
  pub enough : size ≤ length
  pub content :
      (t : ℕ → ℕ → Bool)
      → sum (in_use t) r.1.frags + bit (t at old) ≡ sum (in_use t) q.frags + bit (t new_at length)

-- What `qm_realloc` can come to: NULL and the block as it was, or a fragment.
pub data Reply (q : Block) (at old size : ℕ) : Option (ℕ × Block) → Type 0 where
  kept : Reply q at old size (some (0, q))
  resized : {r : ℕ × Block} → Resized q at old size r → Reply q at old size (some r)

-- A fragment in use is open as it stands.
held-Open :
    (q : Block) (p : Place)
    → IsHeap q
    → Around q p.before p.frag p.behind
    → p.frag.is_free ≡ false
    → Open q p.before p.frag p.behind p.frag.size
held-Open q p v a busy = record {
  small = v.small;
  whole = omega (arith, v.whole, a.sums extent);
  used = omega (arith, v.used, a.sums held, held_busy p.frag busy);
  real_used = omega (arith, v.real_used, a.sums cost, held_busy p.frag busy);
  end = a.end;
  left = a.left;
  right = a.right;
  each = λ h x. ground (arith, v.lists.each h x, a.sums (listed h x), busy);
  counted = v.lists.counted;
  busy = busy;
}

cut-SplitAt :
    (f : Frag) (size : ℕ) → SplitAt f size (if ltb size f.size then split_frag f size else none)
cut-SplitAt f size = elim (Bool-cases (ltb size f.size)) [
  | inl e ↦ rw e (split_frag-SplitAt f size (ground arith))
  | inr e ↦ rw e unsplit
]

split_size-le :
    (f : Frag) (size : ℕ) (parts : Option (Frag × Frag))
    → SplitAt f size parts
    → split_size f parts ≤ f.size
unfolding split_size
split_size-le f size none unsplit = omega arith
split_size-le f size (some (g, n)) (split a b c d e s) = omega (arith, s)

grow-Resized :
    (q : Block) (size : ℕ) (before : List Frag) (f n : Frag) (behind : List Frag)
    → Open q before f (n ∷ behind) f.size
    → n.is_free ≡ true
    → f.size ≤ size
    → size ≤ f.size + (n.size + frag_overhead)
    → ((t : ℕ → ℕ → Bool)
        → sum (in_use t) q.frags
          ≡ sum (in_use t) before + (bit (t f.at f.size) + sum (in_use t) behind))
    → Resized q f.at f.size size (grow q size before f n behind)
unfolding grow sum
grow-Resized q size before f n behind o free more room content =
    let joined : Frag = record f { size = f.size + (n.size + frag_overhead) } in
    let parts = if ltb size joined.size then split_frag joined size else none in
    let s = cut-SplitAt joined size in
    let q1 : Block = record q {
      real_used = sub64 q.real_used frag_overhead;
      free_hash = count_down (get_hash n.size) (detach_free n.at q.free_hash);
    } in
    let o1 = join_next-Open q before f n behind f.size o (omega arith) free in
    let enough = split_size_enough joined size parts s room in
    record {
      valid =
          charge-IsHeap q1 before joined behind f.size (sub64 (split_size joined parts) f.size) o1
            size parts s
            (omega (arith, enough, more, split_size-le joined size parts s, o.whole, o.small));
      new_at = f.at;
      length = split_size joined parts;
      pointer = refl;
      enough = enough;
      content = λ t. omega (
        arith,
        content t,
        charge_content q1 before joined behind f.size (sub64 (split_size joined parts) f.size) o1
            size parts t s,
      );
    }

-- A new fragment is given out, and the old one is freed.
moved-Resized :
    (join : Bool) (q : Block) (at old size : ℕ) (r : ℕ × Block)
    → Holds q at old
    → Served q size r
    → Yields (λ q2. Resized q at old size (r.0, q2)) (qm_free join r.1 (at + frag_header))
moved-Resized join q at old size r h s =
    go (qm_free join r.1 (at + frag_header))
      (qm_free-Freed join r.1 at old s.valid (omega (arith, h, s.content (is_at at old))))
  where
    go :
        (o : Option Block)
        → Yields (Freed r.1 at old) o
        → Yields (λ q2. Resized q at old size (r.0, q2)) o
    go none y = y
    go (some q2) y = record {
      valid = y.valid;
      new_at = s.at;
      length = s.length;
      pointer = s.pointer;
      enough = s.enough;
      content = λ t. omega (arith, y.content t, s.content t);
    }

move-Reply :
    (join : Bool) (q : Block) (at old size : ℕ)
    → IsHeap q
    → Holds q at old
    → round_up size ≡ size
    → Reply q at old size (move join q (at + frag_header) size)
unfolding move
move-Reply join q at old size v h e = go (qm_malloc q size) (rw e at (qm_malloc-Answer q size v))
  where
    freed :
        (r : ℕ × Block) (o : Option Block)
        → Yields (λ q2. Resized q at old size (r.0, q2)) o
        → Reply q at old size (o >>= λ q2. some (r.0, q2))
    freed r none y = absurd y
    freed r (some q2) y = resized y

    go :
        (o : Option (ℕ × Block))
        → Answer q size o
        → Reply q at old size (do
          (new, q1) ← o
          q2 ← (if new == 0 then some q1 else qm_free join q1 (at + frag_header))
          some (new, q2))
    go _ refused = kept
    go (some r) (served s) =
        let ne : (r.0 == 0) ≡ false = ground (arith, s.pointer) in
        rw ne
          (freed r (qm_free join r.1 (at + frag_header)) (moved-Resized join q at old size r h s))

joinable :
    (n : Frag) (size old : ℕ)
    → (n.is_free && leb (size - old) (n.size + frag_overhead)) ≡ true
    → (n.is_free ≡ true) × (size - old ≤ n.size + frag_overhead)
joinable n size old e = ground arith

grow_or_move-Reply :
    (join : Bool) (q : Block) (size : ℕ) (p : Place)
    → IsHeap q
    → Around q p.before p.frag p.behind
    → p.frag.is_free ≡ false
    → Holds q p.frag.at p.frag.size
    → p.frag.size ≤ size
    → round_up size ≡ size
    → Reply q p.frag.at p.frag.size size (grow_or_move join q (p.frag.at + frag_header) size p)
unfolding grow_or_move sum
grow_or_move-Reply join q size p v a busy h more e = go p.behind refl
  where
    go :
        (behind : List Frag)
        → p.behind ≡ behind
        → Reply q p.frag.at p.frag.size size (elim behind [
          | [] ↦ move join q (p.frag.at + frag_header) size
          | n ∷ rest ↦
              if n.is_free && leb (size - p.frag.size) (n.size + frag_overhead)
              then some (grow q size p.before p.frag n rest)
              else move join q (p.frag.at + frag_header) size
        ])
    go [] k = move-Reply join q p.frag.at p.frag.size size v h e
    go (n ∷ rest) k =
        elim (Bool-cases (n.is_free && leb (size - p.frag.size) (n.size + frag_overhead))) [
          | inl t ↦
              let (free, room) = joinable n size p.frag.size t in
              rw t (
                resized (
                  grow-Resized q size p.before p.frag n rest
                    (subst (λ b. Open q p.before p.frag b p.frag.size) k (held-Open q p v a busy))
                    free more (omega (arith, room))
                    (λ t. omega (
                      arith,
                      a.sums (in_use t),
                      ap (sum (in_use t)) k,
                      in_use_busy t p.frag busy,
                      in_use_free t n free,
                    ))))
          | inr t ↦ rw t (move-Reply join q p.frag.at p.frag.size size v h e)
        ]

realloc_used-Reply :
    (join : Bool) (q : Block) (size : ℕ) (p : Place)
    → IsHeap q
    → Around q p.before p.frag p.behind
    → p.frag.is_free ≡ false
    → Holds q p.frag.at p.frag.size
    → p.frag.size ≤ size
    → round_up size ≡ size
    → Reply q p.frag.at p.frag.size size (realloc_used join q (p.frag.at + frag_header) size p)
unfolding realloc_used
realloc_used-Reply join q size p v a busy h more e =
    let no_shrink : ltb size p.frag.size ≡ false = ground arith in
    rw no_shrink (elim (Bool-cases (ltb p.frag.size size)) [
      | inl k ↦ rw k (grow_or_move-Reply join q size p v a busy h more e)
      | inr k ↦ rw k (
          resized (record {
            valid = v;
            new_at = p.frag.at;
            length = p.frag.size;
            pointer = refl;
            enough = ground arith;
            content = λ t. refl;
          }))
    ])

round_up_idem : (s : ℕ) → round_up (round_up s) ≡ round_up s
round_up_idem s = omega arith

-- `qm_realloc` of a fragment that the heap holds for a caller, to a size that is not 0 and when rounded not below the
-- fragment's, does not abort: it returns NULL and changes nothing, or it keeps the heap and puts one fragment of
-- at least the rounded size in the place of the old one.
pub qm_realloc-Reply :
    (join : Bool) (q : Block) (at old size : ℕ)
    → IsHeap q
    → Holds q at old
    → old ≤ round_up size
    → 0 < size
    → Reply q at old (round_up size) (qm_realloc join q (at + frag_header) size)
unfolding qm_realloc realloc_at rebuild
qm_realloc-Reply join q at old size v h more pos =
    let (p, e, a, busy, at_p, size_p) = held_fragment q at old v h in
    let inside = TilesBack-le q.first_frag p.frag.at p.before a.left in
    let test : ltb (at + frag_header) q.first_frag ≡ false = ground (arith, inside, at_p) in
    let some_size : (size == 0) ≡ false = ground arith in
    let some_p : (at + frag_header == 0) ≡ false = ground arith in
    let back : at + frag_header - frag_header ≡ at = omega arith in
    let h' =
      subst (λ x. Holds q x p.frag.size) (sym at_p) (subst (λ n. Holds q at n) (sym size_p) h) in
    let reply =
      realloc_used-Reply join q (round_up size) p v a busy h' (omega (arith, more, size_p))
        (round_up_idem size) in
    rw (some_p, test, some_size, back, e)
      (rw busy (
        subst
          (λ x.
            Reply q x old (round_up size) (realloc_used join q (x + frag_header) (round_up size) p))
          at_p
          (subst
            (λ n.
              Reply q p.frag.at n (round_up size)
                (realloc_used join q (p.frag.at + frag_header) (round_up size) p))
            size_p reply)))
