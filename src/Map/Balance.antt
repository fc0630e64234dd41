-- ===== src/Map/Balance.antt =====
-- The balance of the tree of src/core/map.c: heights, the AVL condition, and the rotations.
pub mod Grow
pub mod Shrink
use Prim.Native.Nat.{max}
use opensips_ng.Prelude.{
  ℕ, zero, suc, ◌+◌, ◌≤◌, ◌≡◌, refl, inl, inr, List, [], ◌∷◌, arith, Ordering-cases, Yields,
}
use opensips_ng.Prelude.Int.{ℤ, pos, negsuc, pos_part, neg_part, ◌==ℤ◌}
use opensips_ng.Map.Key.{Str, str_cmp}
use opensips_ng.Map.Tree.{Ptr, Tree, null, node, Frame, via_left, via_right, link, plug, store}
use opensips_ng.Map.Insert.{double}

abbrev pub height : Tree → ℕ
height null = 0
height (node l k v b r) = suc (max (height l) (height r))

-- A balance factor is the height of the right subtree less that of the left, and is -1, 0 or +1.
pub record Balances (b : ℤ) (m n : ℕ) : Type 0 where
  pub differ : pos_part b + m ≡ neg_part b + n
  pub right_le : pos_part b ≤ 1
  pub left_le : neg_part b ≤ 1

pub balanced :
    {m n : ℕ} (b : ℤ)
    → pos_part b + m ≡ neg_part b + n
    → pos_part b ≤ 1
    → neg_part b ≤ 1
    → Balances b m n
balanced b d r l = record { differ = d; right_le = r; left_le = l }

abbrev pub IsAvl : Tree → Type 0
IsAvl null = Unit
IsAvl (node l k v b r) = Balances b (height l) (height r) × IsAvl l × IsAvl r

-- The nodes of a path are balanced if its open link gets a subtree of height `h`.
abbrev pub Fits : List Frame → ℕ → Type 0
Fits [] h = Unit
Fits (via_left k v b r ∷ path) h =
    Balances b h (height r) × IsAvl r × Fits path (suc (max h (height r)))
Fits (via_right l k v b ∷ path) h =
    Balances b (height l) h × IsAvl l × Fits path (suc (max (height l) h))

pub plug-IsAvl :
    (path : List Frame) (t : Tree) → IsAvl t → Fits path (height t) → IsAvl (plug path t)
unfolding plug link
plug-IsAvl [] t a f = a
plug-IsAvl (via_left k v b r ∷ path) t a (x, y, f) = plug-IsAvl path (node t k v b r) (x, a, y) f
plug-IsAvl (via_right l k v b ∷ path) t a (x, y, f) = plug-IsAvl path (node l k v b t) (x, y, a) f

abbrev pub AvlOf : ℕ → Tree → Type 0
AvlOf n w = IsAvl w × (height w ≡ n)

-- The store of a value changes no height.
pub height-store : (t : Tree) (q : Str) (w : Ptr) → height (store t q w) ≡ height t
unfolding store
height-store null q w = refl
height-store (node l k v b r) q w = ground (arith, height-store l q w, height-store r q w)

pub store-IsAvl : (t : Tree) (q : Str) (w : Ptr) → IsAvl t → IsAvl (store t q w)
unfolding store
store-IsAvl null q w a = a
store-IsAvl (node l k v b r) q w (x, al, ar) = elim (Ordering-cases (str_cmp q k)) [
  | inl e ↦ rw (e, store, height-store) (x, store-IsAvl l q w al, ar)
  | inr (inl e) ↦ rw (e, store) (x, al, ar)
  | inr (inr e) ↦ rw (e, store, height-store) (x, al, store-IsAvl r q w ar)
]

-- The double rotation joins two subtrees of height `n` and one of height `n + 1` between them.
pub double-AvlOf :
    (n : ℕ) (l : Tree) (k : Str) (v : Ptr) (m : Tree) (k' : Str) (v' : Ptr) (r : Tree)
    → IsAvl l
    → IsAvl m
    → IsAvl r
    → height l ≡ n
    → height r ≡ n
    → height m ≡ suc n
    → Yields (AvlOf (suc (suc n))) (double l k v m k' v' r)
unfolding double
double-AvlOf n l k v null k' v' r al am ar hl hr hm = omega arith
double-AvlOf n l k v (node wl wk wv (pos zero) wr) k' v' r al am ar hl hr hm = ground arith
double-AvlOf n l k v (node wl wk wv (pos (suc zero)) wr) k' v' r al am ar hl hr hm = ground arith
double-AvlOf n l k v (node wl wk wv (pos (suc (suc x))) wr) k' v' r al am ar hl hr hm =
    absurd (omega arith)
double-AvlOf n l k v (node wl wk wv (negsuc zero) wr) k' v' r al am ar hl hr hm = ground arith
double-AvlOf n l k v (node wl wk wv (negsuc (suc x)) wr) k' v' r al am ar hl hr hm =
    absurd (omega arith)
