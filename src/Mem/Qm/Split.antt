-- ===== src/Mem/Qm/Split.antt =====
-- src/core/mem/q_malloc.c: `split_frag` of a fragment that is being given out.
use opensips_ng.Prelude.{
  bit, count, ℕ, ◌+◌, ◌-◌, ◌≤◌, ◌<◌, ◌≡◌, refl, ◌∙◌, Bool, true, false, ◌||◌, List, ◌∷◌, arith, ltb,
  leb, Option, none, some, Bool-cases, inl, inr, length,
}
use opensips_ng.Mem.Word.{u64_mod, add64}
use opensips_ng.Mem.Frag.{
  Frag, frag_overhead, frag_next, sum, Tiles, TilesBack, Tiles-rebuild, rebuild, sum-rebuild,
}
use opensips_ng.Mem.Free.{malloc_optimize}
use opensips_ng.Mem.Free.Listed.{listed, insert-Listed}
use opensips_ng.Mem.Qm.{Block, block_header, split_frag, after_split, split_size}
use opensips_ng.Mem.Qm.Heap.{held, cost, extent, in_use, IsHeap, cost-le, held-le}

-- The two parts of a fragment in use: `new_size` bytes of it, and a free one behind.
pub data SplitAt (f : Frag) (new_size : ℕ) : Option (Frag × Frag) → Type 0 where
  unsplit : SplitAt f new_size none
  split :
      {g n : Frag}
      → g.at ≡ f.at
      → g.size ≡ new_size
      → g.is_free ≡ f.is_free
      → n.at ≡ frag_next g
      → n.is_free ≡ true
      → g.size + (n.size + frag_overhead) ≡ f.size
      → SplitAt f new_size (some (g, n))

pub split_frag-SplitAt : (f : Frag) (size : ℕ) → size ≤ f.size → SplitAt f size (split_frag f size)
unfolding split_frag
split_frag-SplitAt f size h =
    elim (Bool-cases (
      ltb (frag_overhead + malloc_optimize) (f.size - size)
      || leb (frag_overhead + size) (f.size - size))) [
        | inl e ↦ rw e (split refl refl refl refl refl (ground arith))
        | inr e ↦ rw e unsplit
      ]

-- A heap with the fragment `f` taken out of the free lists, and `had` bytes of it counted as used.
pub record Open (q : Block) (before : List Frag) (f : Frag) (behind : List Frag) (had : ℕ)
    : Type 0 where
  pub small : q.size < u64_mod
  pub whole : block_header + (sum extent before + (extent f + sum extent behind)) ≡ q.size
  pub used : q.used ≡ sum held before + (had + sum held behind)
  pub real_used :
      q.real_used ≡ block_header + (sum cost before + (frag_overhead + had + sum cost behind))
  pub end : ℕ
  pub left : TilesBack q.first_frag before f.at
  pub right : Tiles (frag_next f) behind end
  pub each :
      (h a : ℕ) → count a (q.free_hash.heads h) ≡ sum (listed h a) before + sum (listed h a) behind
  pub counted : (h : ℕ) → q.free_hash.no h ≡ length (q.free_hash.heads h)
  pub busy : f.is_free ≡ false

pub held_busy : (f : Frag) → f.is_free ≡ false → held f ≡ f.size
held_busy f e = ground arith

pub held_free : (f : Frag) → f.is_free ≡ true → held f ≡ 0
held_free f e = ground arith

-- The block with `more` bytes counted as used.
abbrev pub charge : ℕ → Block → Block
charge more q = record q { real_used = add64 q.real_used more; used = add64 q.used more }

module _ (q : Block) (before : List Frag) (f : Frag) (behind : List Frag) (had more : ℕ)
    (o : Open q before f behind had) where
  charge_whole :
      had + more ≡ f.size → IsHeap (charge more (record q { frags = rebuild before (f ∷ behind) }))
  unfolding sum Tiles
  charge_whole e = record {
    small = o.small;
    whole = omega (arith, o.whole, sum-rebuild extent before (f ∷ behind));
    used = omega (
      arith,
      e,
      o.used,
      o.whole,
      o.small,
      sum-rebuild held before (f ∷ behind),
      held_busy f o.busy,
      cost-le before,
      held-le before,
      cost-le behind,
      held-le behind,
    );
    real_used = omega (
      arith,
      e,
      o.real_used,
      o.whole,
      o.small,
      sum-rebuild cost before (f ∷ behind),
      held_busy f o.busy,
      cost-le before,
      cost-le behind,
    );
    end = o.end;
    tiles = Tiles-rebuild q.first_frag o.end f.at before (f ∷ behind) (o.left, (refl, o.right));
    lists = record {
      each =
          λ h a. ground (arith, o.each h a, sum-rebuild (listed h a) before (f ∷ behind), o.busy);
      counted = o.counted;
    };
  }

  charge_split :
      (g n : Frag)
      → g.at ≡ f.at
      → g.is_free ≡ f.is_free
      → n.at ≡ frag_next g
      → n.is_free ≡ true
      → g.size + (n.size + frag_overhead) ≡ f.size
      → had + more ≡ g.size
      → IsHeap (charge more (after_split q before behind f (some (g, n))))
  unfolding after_split sum Tiles
  charge_split g n at_g busy at_n free sizes e =
      let memory = rebuild before (g ∷ (n ∷ behind)) in
      let busy_g : g.is_free ≡ false = busy ∙ o.busy in
      let next_f : frag_next n ≡ frag_next f = omega (arith, at_g, at_n, sizes) in
      record {
        small = o.small;
        whole = omega (arith, o.whole, sizes, sum-rebuild extent before (g ∷ (n ∷ behind)));
        used = omega (
          arith,
          e,
          sizes,
          o.used,
          o.whole,
          o.small,
          sum-rebuild held before (g ∷ (n ∷ behind)),
          held_busy g busy_g,
          held_free n free,
          cost-le before,
          held-le before,
          cost-le behind,
          held-le behind,
        );
        real_used = omega (
          arith,
          e,
          sizes,
          o.real_used,
          o.whole,
          o.small,
          sum-rebuild cost before (g ∷ (n ∷ behind)),
          held_busy g busy_g,
          held_free n free,
          cost-le before,
          cost-le behind,
        );
        end = o.end;
        tiles =
            Tiles-rebuild q.first_frag o.end g.at before (g ∷ (n ∷ behind))
              (rw at_g o.left, (refl, (at_n, rw next_f o.right)));
        lists =
            insert-Listed q.free_hash memory memory (rebuild before behind) n
              (record {
                each = λ h a. omega (arith, o.each h a, sum-rebuild (listed h a) before behind);
                counted = o.counted;
              })
              free
              (λ h a. ground (
                arith,
                busy_g,
                sum-rebuild (listed h a) before behind,
                sum-rebuild (listed h a) before (g ∷ (n ∷ behind)),
              ));
      }

  -- The fragment is charged for as it is after `split_frag`.
  pub charge-IsHeap :
      (size : ℕ) (parts : Option (Frag × Frag))
      → SplitAt f size parts
      → had + more ≡ split_size f parts
      → IsHeap (charge more (after_split q before behind f parts))
  unfolding after_split split_size
  charge-IsHeap size none unsplit e = charge_whole e
  charge-IsHeap size (some (g, n)) (split a b c d free sizes) e =
      charge_split g n a c d free sizes e

  pub charge_content :
      (size : ℕ) (parts : Option (Frag × Frag)) (p : ℕ → ℕ → Bool)
      → SplitAt f size parts
      → sum (in_use p) (after_split q before behind f parts).frags
        ≡ sum (in_use p) before + (bit (p f.at (split_size f parts)) + sum (in_use p) behind)
  unfolding after_split split_size sum
  charge_content size none p unsplit =
      ground (arith, sum-rebuild (in_use p) before (f ∷ behind), o.busy)
  charge_content size (some (g, n)) p (split a b c d free sizes) =
      ground (arith, sum-rebuild (in_use p) before (g ∷ (n ∷ behind)), o.busy, a, c, free)

pub split_size_enough :
    (f : Frag) (size : ℕ) (parts : Option (Frag × Frag))
    → SplitAt f size parts
    → size ≤ f.size
    → size ≤ split_size f parts
unfolding split_size
split_size_enough f size none unsplit h = h
split_size_enough f size (some (g, n)) (split a b c d e s) h = omega (arith, b)
