-- ===== src/Mem/Qm/Release.antt =====
-- src/core/mem/q_malloc.c: `qm_free`.
use opensips_ng.Prelude.{
  bit, ℕ, ◌+◌, ◌-◌, ◌<◌, ◌≡◌, ◌≢◌, refl, sym, ◌∙◌, Bool, true, false, ◌&&◌, List, [], ◌∷◌, arith,
  ltb, ◌==◌, some, Yields,
}
use opensips_ng.Mem.Word.{sub64}
use opensips_ng.Mem.Frag.{
  Frag, frag_header, Place, locate, located, locate-some, sum, Tiles, TilesBack-le, Tiles-rebuild,
  rebuild, sum-rebuild,
}
use opensips_ng.Mem.Free.Listed.{listed, insert-Listed}
use opensips_ng.Mem.Qm.{Block, join_next, join_prev, put_back, release_at, free_at, qm_free}
use opensips_ng.Mem.Qm.Heap.{
  held, cost, extent, in_use, IsHeap, cost-le, held-le, Around, IsHeap-Around,
}
use opensips_ng.Mem.Qm.Split.{Open, held_busy}
use opensips_ng.Mem.Qm.Join.{around-Listed, join_next-Step, join_prev-Step}

put_back-IsHeap :
    (q : Block) (before : List Frag) (f : Frag) (behind : List Frag)
    → Open q before f behind 0
    → IsHeap (put_back q f before behind)
unfolding put_back sum Tiles
put_back-IsHeap q before f behind o =
    let g : Frag = record f { is_free = true } in
    let memory = rebuild before (g ∷ behind) in
    record {
      small = o.small;
      whole = omega (arith, o.whole, sum-rebuild extent before (g ∷ behind));
      used = omega (arith, o.used, sum-rebuild held before (g ∷ behind));
      real_used = omega (arith, o.real_used, sum-rebuild cost before (g ∷ behind));
      end = o.end;
      tiles = Tiles-rebuild q.first_frag o.end g.at before (g ∷ behind) (o.left, (refl, o.right));
      lists =
          insert-Listed q.free_hash memory memory (rebuild before behind) g
            (around-Listed q before f behind 0 o) refl
            (λ h a. omega (
              arith,
              sum-rebuild (listed h a) before (g ∷ behind),
              sum-rebuild (listed h a) before behind,
            ));
    }

-- The fragment that is freed, no longer counted as used.
discounted :
    (q : Block) (p : Place)
    → IsHeap q
    → Around q p.before p.frag p.behind
    → p.frag.is_free ≡ false
    → Open
        (record q { used = sub64 q.used p.frag.size; real_used = sub64 q.real_used p.frag.size })
        p.before
        p.frag
        p.behind
        0
discounted q p v a busy = record {
  small = v.small;
  whole = omega (arith, v.whole, a.sums extent);
  used = omega (
    arith,
    v.used,
    v.whole,
    v.small,
    a.sums held,
    held_busy p.frag busy,
    cost-le q.frags,
    held-le q.frags,
  );
  real_used =
      omega
        (arith, v.real_used, v.whole, v.small, a.sums cost, held_busy p.frag busy, cost-le q.frags);
  end = a.end;
  left = a.left;
  right = a.right;
  each = λ h x. ground (arith, v.lists.each h x, a.sums (listed h x), busy);
  counted = v.lists.counted;
  busy = busy;
}

pub in_use_busy :
    (t : ℕ → ℕ → Bool) (f : Frag) → f.is_free ≡ false → in_use t f ≡ bit (t f.at f.size)
in_use_busy t f e = ground arith

in_use-put_back :
    (t : ℕ → ℕ → Bool) (q : Block) (f : Frag) (before behind : List Frag)
    → sum (in_use t) (put_back q f before behind).frags
      ≡ sum (in_use t) before + sum (in_use t) behind
unfolding put_back sum
in_use-put_back t q f before behind =
    omega (arith, sum-rebuild (in_use t) before (record f { is_free = true } ∷ behind))

-- What `qm_free` of the fragment at an address gives: one fragment in use less.
pub record Freed (q : Block) (at size : ℕ) (q' : Block) : Type 0 where
  pub valid : IsHeap q'
  pub content :
      (t : ℕ → ℕ → Bool) → sum (in_use t) q.frags ≡ sum (in_use t) q'.frags + bit (t at size)

release_at-Freed :
    (join : Bool) (q : Block) (p : Place)
    → IsHeap q
    → Around q p.before p.frag p.behind
    → p.frag.is_free ≡ false
    → Freed q p.frag.at p.frag.size (release_at join q p)
unfolding release_at
release_at-Freed join q p v a busy =
    let q0 : Block = record q {
      used = sub64 q.used p.frag.size;
      real_used = sub64 q.real_used p.frag.size;
    } in
    let (q1, f1, behind) = join_next join q0 p.frag p.behind in
    let s1 = join_next-Step join q0 p.before p.frag p.behind (discounted q p v a busy) in
    let (q2, f2, before) = join_prev join q1 f1 p.before in
    let s2 = join_prev-Step join q1 p.before f1 behind s1.opens in
    record {
      valid = put_back-IsHeap q2 before f2 behind s2.opens;
      content = λ t. omega (
        arith,
        a.sums (in_use t),
        in_use_busy t p.frag busy,
        s1.same t,
        s2.same t,
        in_use-put_back t q2 f2 before behind,
      );
    }

pub qm_free-located :
    (join : Bool) (q : Block) (p : Place)
    → IsHeap q
    → locate p.frag.at [] q.frags ≡ some p
    → qm_free join q (p.frag.at + frag_header) ≡ free_at join q p
unfolding qm_free rebuild
qm_free-located join q p v e =
    let a = IsHeap-Around q p.before p.frag p.behind v (located p.frag.at [] q.frags e).1 in
    let inside = TilesBack-le q.first_frag p.frag.at p.before a.left in
    let test : ltb (p.frag.at + frag_header) q.first_frag ≡ false = ground (arith, inside) in
    let back : p.frag.at + frag_header - frag_header ≡ p.frag.at = omega arith in
    rw (test, back, e) refl

-- The fragments at an address with a size.
abbrev pub is_at : ℕ → ℕ → ℕ → ℕ → Bool
is_at at size a n = a == at && n == size

-- The block holds a fragment of the size at the address for a caller.
abbrev pub Holds : Block → ℕ → ℕ → Type 0
Holds q at size = 0 < sum (in_use (is_at at size)) q.frags

holds_off : (at size : ℕ) (f : Frag) → f.at ≢ at → in_use (is_at at size) f ≡ 0
holds_off at size f ne = ground arith

holds_here :
    (at size : ℕ) (f : Frag)
    → 0 < in_use (is_at at size) f
    → (f.is_free ≡ false) × (f.at ≡ at) × (f.size ≡ size)
holds_here at size f h = ground arith

-- It is found in memory.
pub held_fragment :
    (q : Block) (at size : ℕ)
    → IsHeap q
    → Holds q at size
    → (p : Place) × (locate at [] q.frags ≡ some p)
      × Around q p.before p.frag p.behind
      × (p.frag.is_free ≡ false)
      × (p.frag.at ≡ at)
      × (p.frag.size ≡ size)
unfolding rebuild
held_fragment q at size v h =
    let (p, e) =
      locate-some (in_use (is_at at size)) at [] q.frags (λ f ne. holds_off at size f ne) h in
    let (here, whole) = located at [] q.frags e in
    let w = IsHeap-Around q p.before p.frag p.behind v whole in
    let (busy, at_p, size_p) = holds_here at size p.frag (
      omega (
        arith,
        h,
        w.sums (in_use (is_at at size)),
        w.alone (in_use (is_at at size)) (λ g ne. holds_off at size g (λ x. ne (x ∙ sym here))),
      )) in
    (p, e, w, busy, at_p, size_p)

-- `qm_free` of a pointer behind the header of a fragment that the block holds for a caller keeps the heap,
-- and takes exactly this fragment out of use, with or without QM_JOIN_FREE.
pub qm_free-Freed :
    (join : Bool) (q : Block) (at size : ℕ)
    → IsHeap q
    → Holds q at size
    → Yields (Freed q at size) (qm_free join q (at + frag_header))
unfolding free_at
qm_free-Freed join q at size v h =
    let (p, e, a, busy, at_p, size_p) = held_fragment q at size v h in
    let e' = rw (← at_p) at e in
    rw (← at_p, ← size_p)
      (rw (qm_free-located join q p v e', busy) (release_at-Freed join q p v a busy))
