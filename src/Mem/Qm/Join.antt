-- ===== src/Mem/Qm/Join.antt =====
-- src/core/mem/q_malloc.c: the two joins of `qm_free`.
use mathlib.Core.Path.{subst}
use opensips_ng.Prelude.{
  ℕ, ◌+◌, ◌≤◌, ◌≡◌, refl, sym, ◌∙◌, Bool, true, false, ◌&&◌, List, [], ◌∷◌, arith, Bool-cases, inl,
  inr,
}
use opensips_ng.Mem.Word.{sub64}
use opensips_ng.Mem.Frag.{
  Frag, frag_overhead, frag_next, sum, Tiles, TilesBack, rebuild, sum-rebuild, sum-above, sum-below,
}
use opensips_ng.Mem.Free.{get_hash, detach_free, count_down}
use opensips_ng.Mem.Free.Listed.{Listed, listed, listed_off, detach-Listed}
use opensips_ng.Mem.Qm.{Block, join_next, join_prev}
use opensips_ng.Mem.Qm.Heap.{in_use, cost-le}
use opensips_ng.Mem.Qm.Split.{Open, held_free}

-- The lists hold the fragments around an open one.
pub around-Listed :
    (q : Block) (before : List Frag) (f : Frag) (behind : List Frag) (had : ℕ)
    → Open q before f behind had
    → Listed q.free_hash (rebuild before behind)
around-Listed q before f behind had o = record {
  each = λ h a. o.each h a ∙ sym (sum-rebuild (listed h a) before behind);
  counted = o.counted;
}

-- The open fragment has taken in its free neighbour behind.
pub join_next-Open :
    (q : Block) (before : List Frag) (f n : Frag) (behind : List Frag) (had : ℕ)
    → Open q before f (n ∷ behind) had
    → had ≤ f.size
    → n.is_free ≡ true
    → Open
        (record q {
          real_used = sub64 q.real_used frag_overhead;
          free_hash = count_down (get_hash n.size) (detach_free n.at q.free_hash);
        })
        before
        (record f { size = f.size + (n.size + frag_overhead) })
        behind
        had
unfolding sum Tiles
join_next-Open q before f n behind had o fits free =
    let l =
      detach-Listed q.free_hash (rebuild before (n ∷ behind)) (rebuild before behind) n
        (around-Listed q before f (n ∷ behind) had o) free
        (λ h a. omega (
          arith,
          sum-rebuild (listed h a) before (n ∷ behind),
          sum-rebuild (listed h a) before behind,
        ))
        (λ h. omega (
          arith,
          sum-rebuild (listed h n.at) before behind,
          sum-below (listed h n.at) n.at q.first_frag f.at before
              (λ g lt. listed_off h n.at g (λ x. omega (arith, x, lt))) (omega (arith, o.right.0))
              o.left,
          sum-above (listed h n.at) n.at (frag_next n) o.end behind
              (λ g lt. listed_off h n.at g (λ x. omega (arith, x, lt))) (omega arith) o.right.1,
        )) in
    record {
      small = o.small;
      whole = omega (arith, o.whole);
      used = omega (arith, o.used, held_free n free);
      real_used =
          omega (
            arith,
            o.real_used,
            o.whole,
            o.small,
            held_free n free,
            cost-le before,
            cost-le behind,
          );
      end = o.end;
      left = o.left;
      right = subst (λ s. Tiles s behind o.end) (omega (arith, o.right.0)) o.right.1;
      each = λ h a. l.each h a ∙ sum-rebuild (listed h a) before behind;
      counted = l.counted;
      busy = o.busy;
    }

-- Or the one before.
join_prev-Open :
    (q : Block) (before : List Frag) (f n : Frag) (behind : List Frag)
    → Open q (n ∷ before) f behind 0
    → n.is_free ≡ true
    → Open
        (record q {
          real_used = sub64 q.real_used frag_overhead;
          free_hash = count_down (get_hash n.size) (detach_free n.at q.free_hash);
        })
        before
        (record f { at = n.at; size = f.size + (n.size + frag_overhead) })
        behind
        0
unfolding sum TilesBack rebuild
join_prev-Open q before f n behind o free =
    let l =
      detach-Listed q.free_hash (rebuild (n ∷ before) behind) (rebuild before behind) n
        (around-Listed q (n ∷ before) f behind 0 o) free
        (λ h a. omega (
          arith,
          sum-rebuild (listed h a) before (n ∷ behind),
          sum-rebuild (listed h a) before behind,
        ))
        (λ h. omega (
          arith,
          sum-rebuild (listed h n.at) before behind,
          sum-below (listed h n.at) n.at q.first_frag n.at before
              (λ g lt. listed_off h n.at g (λ x. omega (arith, x, lt))) (omega arith) o.left.1,
          sum-above (listed h n.at) n.at (frag_next f) o.end behind
              (λ g lt. listed_off h n.at g (λ x. omega (arith, x, lt))) (omega (arith, o.left.0))
              o.right,
        )) in
    record {
      small = o.small;
      whole = omega (arith, o.whole);
      used = omega (arith, o.used, held_free n free);
      real_used =
          omega (
            arith,
            o.real_used,
            o.whole,
            o.small,
            held_free n free,
            cost-le before,
            cost-le behind,
          );
      end = o.end;
      left = o.left.1;
      right = subst (λ s. Tiles s behind o.end) (omega (arith, o.left.0)) o.right;
      each = λ h a. l.each h a ∙ sum-rebuild (listed h a) before behind;
      counted = l.counted;
      busy = o.busy;
    }

-- An open fragment with the two runs around it, as a step of `qm_free` leaves them.
pub record Step (q : Block) (before behind : List Frag) (q' : Block) (before' : List Frag)
    (f' : Frag) (behind' : List Frag) : Type 0 where
  pub opens : Open q' before' f' behind' 0
  pub same :
      (t : ℕ → ℕ → Bool)
      → sum (in_use t) before' + sum (in_use t) behind'
        ≡ sum (in_use t) before + sum (in_use t) behind

pub in_use_free : (t : ℕ → ℕ → Bool) (f : Frag) → f.is_free ≡ true → in_use t f ≡ 0
in_use_free t f e = ground arith

and_left : (a b : Bool) → (a && b) ≡ true → b ≡ true
and_left true b e = e
and_left false b e = cc

pub join_next-Step :
    (join : Bool) (q : Block) (before : List Frag) (f : Frag) (behind : List Frag)
    → Open q before f behind 0
    → (let (q1, f1, behind1) = join_next join q f behind in
        Step q before behind q1 before f1 behind1)
unfolding join_next sum
join_next-Step join q before f [] o = record { opens = o; same = λ t. refl }
join_next-Step join q before f (n ∷ behind) o = elim (Bool-cases (join && n.is_free)) [
  | inl e ↦
      let free = and_left join n.is_free e in
      rw e (record {
        opens = join_next-Open q before f n behind 0 o (omega arith) free;
        same = λ t. omega (arith, in_use_free t n free);
      })
  | inr e ↦ rw e (record { opens = o; same = λ t. refl })
]

pub join_prev-Step :
    (join : Bool) (q : Block) (before : List Frag) (f : Frag) (behind : List Frag)
    → Open q before f behind 0
    → (let (q1, f1, before1) = join_prev join q f before in
        Step q before behind q1 before1 f1 behind)
unfolding join_prev sum
join_prev-Step join q [] f behind o = record { opens = o; same = λ t. refl }
join_prev-Step join q (n ∷ before) f behind o = elim (Bool-cases (join && n.is_free)) [
  | inl e ↦
      let free = and_left join n.is_free e in
      rw e (record {
        opens = join_prev-Open q before f n behind o free;
        same = λ t. omega (arith, in_use_free t n free);
      })
  | inr e ↦ rw e (record { opens = o; same = λ t. refl })
]
