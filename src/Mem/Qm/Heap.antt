-- ===== src/Mem/Qm/Heap.antt =====
-- src/core/mem/q_malloc.c: what a block looks like between two calls.
use opensips_ng.Prelude.{
  bit, ℕ, ◌+◌, ◌-◌, ◌≤◌, ◌<◌, ◌≡◌, ◌≢◌, refl, Bool, true, false, List, [], ◌∷◌, arith, ltb,
  if◌then◌else◌, Yields,
}
use opensips_ng.Mem.Word.{u64_mod}
use opensips_ng.Mem.Frag.{
  Frag, frag_overhead, frag_next, sum, Tiles, TilesBack, Tiles-of_rebuild, rebuild, sum-rebuild,
  sum-above, sum-below,
}
use opensips_ng.Mem.Free.Listed.{Listed, insert-Listed}
use opensips_ng.Mem.Qm.{Block, block_header, init_block, no_lists}

-- The bytes in use of a fragment, and what it takes from the memory that can still be used.
abbrev pub held : Frag → ℕ
held f = if f.is_free then 0 else f.size

abbrev pub cost : Frag → ℕ
cost f = frag_overhead + held f

abbrev pub extent : Frag → ℕ
extent f = f.size + frag_overhead

-- How many fragments in use pass a test on address and size: what a block holds for its callers.
abbrev pub in_use : (ℕ → ℕ → Bool) → Frag → ℕ
in_use p f = if f.is_free then 0 else bit (p f.at f.size)

-- The fragments fill the memory, the counters are exact, and the lists hold the free fragments.
pub record IsHeap (q : Block) : Type 0 where
  pub small : q.size < u64_mod
  pub whole : block_header + sum extent q.frags ≡ q.size
  pub used : q.used ≡ sum held q.frags
  pub real_used : q.real_used ≡ block_header + sum cost q.frags
  pub end : ℕ
  pub tiles : Tiles q.first_frag q.frags end
  pub lists : Listed q.free_hash q.frags

pub sum-le : (v w : Frag → ℕ) (fs : List Frag) → ((f : Frag) → v f ≤ w f) → sum v fs ≤ sum w fs
unfolding sum
sum-le v w [] h = omega arith
sum-le v w (f ∷ fs) h = omega (arith, h f, sum-le v w fs h)

pub cost-le : (fs : List Frag) → sum cost fs ≤ sum extent fs
cost-le fs = sum-le cost extent fs (λ f. ground arith)

pub held-le : (fs : List Frag) → sum held fs ≤ sum cost fs
held-le fs = sum-le held cost fs (λ f. ground arith)

no_lists-Listed : Listed no_lists []
unfolding sum
no_lists-Listed = record { each = λ h a. refl; counted = λ h. refl }

-- A heap with nothing in use: one free fragment, behind the structure of the block and in front of its own end.
pub record IsEmpty (q : Block) : Type 0 where
  pub heap : IsHeap q
  pub free : Frag
  pub alone : q.frags ≡ free ∷ []
  pub is_free : free.is_free ≡ true
  pub all : block_header + frag_overhead + free.size ≡ q.size
  pub unused : q.used ≡ 0

-- A block that `qm_malloc_init` sets up is one free fragment.
pub init_block-IsEmpty :
    (start size : ℕ)
    → block_header + frag_overhead ≤ size
    → size < u64_mod
    → Yields IsEmpty (init_block start size)
unfolding init_block sum Tiles
init_block-IsEmpty start size h small =
    let first : Frag = record {
      at = start + block_header;
      size = size - (block_header + frag_overhead);
      is_free = true;
    } in
    let e : ltb size (block_header + frag_overhead) ≡ false = ground arith in
    rw e (record {
      heap = record {
        small = small;
        whole = omega arith;
        used = refl;
        real_used = refl;
        end = first.at + first.size + frag_overhead;
        tiles = (refl, refl);
        lists =
            insert-Listed no_lists (first ∷ []) (first ∷ []) [] first no_lists-Listed refl
              (λ h a. omega arith);
      };
      free = first;
      alone = refl;
      is_free = refl;
      all = omega arith;
      unused = refl;
    })

-- A heap around one of its fragments.
pub record Around (q : Block) (before : List Frag) (f : Frag) (behind : List Frag) : Type 0 where
  pub sums : (w : Frag → ℕ) → sum w q.frags ≡ sum w before + (w f + sum w behind)
  pub end : ℕ
  pub left : TilesBack q.first_frag before f.at
  pub right : Tiles (frag_next f) behind end
  -- No other fragment starts there.
  pub alone :
      (w : Frag → ℕ) → ((g : Frag) → g.at ≢ f.at → w g ≡ 0) → sum w before + sum w behind ≡ 0

pub IsHeap-Around :
    (q : Block) (before : List Frag) (f : Frag) (behind : List Frag)
    → IsHeap q
    → rebuild before (f ∷ behind) ≡ q.frags
    → Around q before f behind
unfolding sum Tiles
IsHeap-Around q before f behind v e =
    let (m, c) = Tiles-of_rebuild q.first_frag v.end before (f ∷ behind) (rw e v.tiles) in
    let at_m : f.at ≡ m = c.1.0 in
    record {
      sums = λ w. rw (← e) (sum-rebuild w before (f ∷ behind));
      end = v.end;
      left = rw at_m c.0;
      right = c.1.1;
      alone = λ w z. omega (
        arith,
        sum-below w f.at q.first_frag m before (λ g h. z g (λ x. omega (arith, x, h))) (omega arith)
            c.0,
        sum-above w f.at (frag_next f) v.end behind (λ g h. z g (λ x. omega (arith, x, h)))
            (omega arith) c.1.1,
      );
    }
