-- ===== src/Map/Balance/Grow.antt =====
-- `map_get` of src/core/map.c keeps the tree balanced: the assertions of the rotations hold.
use mathlib.Core.Path.{subst}
use opensips_ng.Prelude.{
  ℕ, zero, suc, ◌≡◌, ◌≢◌, ◌⊎◌, refl, sym, inl, inr, Bool, true, false, Option, none, some, List, [],
  ◌∷◌, ◌++◌, arith, if◌then◌else◌, Ordering-cases, Yields, ◌>>=◌,
}
use opensips_ng.Prelude.Int.{ℤ, pos, negsuc, inc, dec, ◌==ℤ◌}
use opensips_ng.Map.Key.{Str, str_cmp}
use opensips_ng.Map.Tree.{Ptr, Tree, null, node, Frame, via_left, via_right, link, plug}
use opensips_ng.Map.Insert.{
  Descent, hit, miss, descend, bump, retrace, rotate_left_heavy, rotate_right_heavy, rebalance,
  attach,
}
use opensips_ng.Map.Balance.{
  height, Balances, balanced, IsAvl, Fits, plug-IsAvl, AvlOf, double-AvlOf,
}

abbrev balance : Frame → ℤ
balance (via_left k v b r) = b
balance (via_right l k v b) = b

-- `y` is the last frame of `below`: under it all nodes are in balance, and it is out of balance or
-- the root.
abbrev pub IsTrail : List Frame → List Frame → Type 0
IsTrail above [] = above ≡ []
IsTrail above (f ∷ []) = (balance f ≢ pos 0) ⊎ (above ≡ [])
IsTrail above (f ∷ g ∷ below) = (balance f ≡ pos 0) × IsTrail above (g ∷ below)

abbrev pub Open : Descent → Type 0
Open (hit v) = Unit
Open (miss above below) = IsTrail above below × Fits (below ++ above) 0

-- The test of the balance in the descent.
step-IsTrail :
    (f : Frame) (c : Bool) (above below : List Frame)
    → (c ≡ true → balance f ≡ pos 0)
    → (c ≡ false → balance f ≢ pos 0)
    → IsTrail above below
    → IsTrail (if c then above else below ++ above) (f ∷ (if c then below else []))
step-IsTrail f true above [] z n t = inr t
step-IsTrail f true above (g ∷ below) z n t = (z refl, t)
step-IsTrail f false above below z n t = inl (n refl)

path_kept :
    (c : Bool) (below above : List Frame)
    → (if c then below else []) ++ (if c then above else below ++ above) ≡ below ++ above
path_kept true below above = refl
path_kept false below above = refl

zero_test : (b : ℤ) → (b ==ℤ pos 0) ≡ true → b ≡ pos 0
zero_test b h = ground arith

zero_test_ne : (b : ℤ) → (b ==ℤ pos 0) ≡ false → b ≢ pos 0
zero_test_ne b h e = ground arith

pub descend-Open :
    (q : Str) (t : Tree) (above below : List Frame)
    → IsTrail above below
    → IsAvl t
    → Fits (below ++ above) (height t)
    → Open (descend q t above below)
unfolding descend
descend-Open q null above below tr a f = (tr, f)
descend-Open q (node l k v b r) above below tr (x, al, ar) f =
    let kept = path_kept (b ==ℤ pos 0) below above in
    elim (Ordering-cases (str_cmp q k)) [
      | inl h ↦
          rw (h, descend)
            (descend-Open q l _ _
              (step-IsTrail (via_left k v b r) _ above below (zero_test b) (zero_test_ne b) tr) al
              (x, ar, rw kept f))
      | inr (inl h) ↦ rw (h, descend) tt
      | inr (inr h) ↦
          rw (h, descend)
            (descend-Open q r _ _
              (step-IsTrail (via_right l k v b) _ above below (zero_test b) (zero_test_ne b) tr) ar
              (x, al, rw kept f))
    ]

-- A subtree that was `h` high and has grown by one. Its root leans to one side, unless it is new.
abbrev Leans : ℕ → Tree → Type 0
Leans h null = ⊥
Leans h (node l k v b r) = (b ≢ pos 0) ⊎ (h ≡ 0)

record Grown (h : ℕ) (t : Tree) : Type 0 where
  avl : IsAvl t
  high : height t ≡ suc h
  leans : Leans h t

-- Under `y` the growth goes on.
bump-Grown :
    (f : Frame) (h : ℕ) (t : Tree) (path : List Frame)
    → balance f ≡ pos 0
    → Grown h t
    → Fits (f ∷ path) h
    → Grown (suc h) (link (bump f) t) × Fits path (suc h)
unfolding bump link dec inc
bump-Grown (via_left k v (pos zero) r) h t path z g (x, a, f) =
    (grown_left g x a, subst (Fits path) (omega arith) f)
  where
    grown_left :
        Grown h t
        → Balances (pos 0) h (height r)
        → IsAvl r
        → Grown (suc h) (node t k v (negsuc 0) r)
    grown_left g x a = record {
      avl = (balanced (negsuc 0) (omega arith) (omega arith) (omega arith), g.avl, a);
      high = omega arith;
      leans = inl (λ e. ground arith);
    }
bump-Grown (via_left k v b r) h t path z g (x, a, f) = ground arith
bump-Grown (via_right l k v (pos zero)) h t path z g (x, a, f) =
    (grown_right g x a, subst (Fits path) (omega arith) f)
  where
    grown_right :
        Grown h t → Balances (pos 0) (height l) h → IsAvl l → Grown (suc h) (node l k v (pos 1) t)
    grown_right g x a = record {
      avl = (balanced (pos 1) (omega arith) (omega arith) (omega arith), a, g.avl);
      high = omega arith;
      leans = inl (λ e. ground arith);
    }
bump-Grown (via_right l k v b) h t path z g (x, a, f) = ground arith

-- At `y` the rotation takes the growth back, unless `y` was in balance.
left_heavy-AvlOf :
    (n : ℕ) (l : Tree) (k : Str) (v : Ptr) (r : Tree)
    → Grown (suc n) l
    → IsAvl r
    → height r ≡ n
    → Yields (AvlOf (suc (suc n))) (rotate_left_heavy l k v r)
unfolding rotate_left_heavy
left_heavy-AvlOf n null k v r g a e = ground arith
left_heavy-AvlOf n (node xl kx vx (pos zero) xr) k v r g a e = ground arith
left_heavy-AvlOf n (node xl kx vx (pos (suc zero)) xr) k v r g a e =
    let (x, al, ar) = g.avl in
    double-AvlOf n xl kx vx xr k v r al ar a (omega (arith, x.differ, g.high)) e
      (omega (arith, x.differ, g.high))
left_heavy-AvlOf n (node xl kx vx (pos (suc (suc m))) xr) k v r g a e =
    absurd (omega (arith, g.avl.0.right_le))
left_heavy-AvlOf n (node xl kx vx (negsuc zero) xr) k v r g a e =
    let (x, al, ar) = g.avl in ground (arith, x.differ, g.high)
left_heavy-AvlOf n (node xl kx vx (negsuc (suc m)) xr) k v r g a e =
    absurd (omega (arith, g.avl.0.left_le))

right_heavy-AvlOf :
    (n : ℕ) (l : Tree) (k : Str) (v : Ptr) (r : Tree)
    → IsAvl l
    → Grown (suc n) r
    → height l ≡ n
    → Yields (AvlOf (suc (suc n))) (rotate_right_heavy l k v r)
unfolding rotate_right_heavy
right_heavy-AvlOf n l k v null a g e = ground arith
right_heavy-AvlOf n l k v (node xl kx vx (pos zero) xr) a g e = ground arith
right_heavy-AvlOf n l k v (node xl kx vx (pos (suc zero)) xr) a g e =
    let (x, al, ar) = g.avl in ground (arith, x.differ, g.high)
right_heavy-AvlOf n l k v (node xl kx vx (pos (suc (suc m))) xr) a g e =
    absurd (omega (arith, g.avl.0.right_le))
right_heavy-AvlOf n l k v (node xl kx vx (negsuc zero) xr) a g e =
    let (x, al, ar) = g.avl in
    double-AvlOf n l k v xl kx vx xr a al ar e (omega (arith, x.differ, g.high))
      (omega (arith, x.differ, g.high))
right_heavy-AvlOf n l k v (node xl kx vx (negsuc (suc m)) xr) a g e =
    absurd (omega (arith, g.avl.0.left_le))

abbrev Whole : List Frame → Tree → Type 0
Whole above w = IsAvl (plug above w)

at_root : (above : List Frame) (w : Tree) → above ≡ [] → IsAvl w → Whole above w
unfolding plug
at_root [] w e a = a
at_root (f ∷ above) w e a = cc

-- A subtree as high as before fits where it was.
refit :
    (n : ℕ) (above : List Frame) (o : Option Tree)
    → Yields (AvlOf n) o
    → Fits above n
    → Yields (Whole above) o
refit n above none y f = y
refit n above (some w) (a, e) f = plug-IsAvl above w a (subst (Fits above) (sym e) f)

-- The subtree at `y` is rebalanced, and fits where it was.
settle :
    (f : Frame) (h : ℕ) (t : Tree) (above : List Frame)
    → (balance f ≢ pos 0) ⊎ (above ≡ [])
    → Grown h t
    → Fits (f ∷ above) h
    → Yields (Whole above) (rebalance (link (bump f) t))
unfolding bump link rebalance dec inc
settle (via_left k v (pos zero) r) h t above (inl n) g (x, a, f) = absurd (n refl)
settle (via_left k v (pos zero) r) h t above (inr e) g (x, a, f) =
    at_root above _ e (balanced (negsuc 0) (omega arith) (omega arith) (omega arith), g.avl, a)
settle (via_left k v (pos (suc zero)) r) h t above s g (x, a, f) =
    plug-IsAvl above _ (balanced (pos 0) (omega arith) (omega arith) (omega arith), g.avl, a)
      (subst (Fits above) (omega arith) f)
settle (via_left k v (pos (suc (suc n))) r) h t above s g (x, a, f) = absurd (omega arith)
settle (via_left k v (negsuc zero) r) h t above s g (x, a, f) =
    let e : h ≡ suc (height r) = omega arith in
    refit (suc (suc (height r))) above _
      (left_heavy-AvlOf (height r) t k v r (subst (λ m. Grown m t) e g) a refl)
      (subst (Fits above) (omega arith) f)
settle (via_left k v (negsuc (suc n)) r) h t above s g (x, a, f) = absurd (omega arith)
settle (via_right l k v (pos zero)) h t above (inl n) g (x, a, f) = absurd (n refl)
settle (via_right l k v (pos zero)) h t above (inr e) g (x, a, f) =
    at_root above _ e (balanced (pos 1) (omega arith) (omega arith) (omega arith), a, g.avl)
settle (via_right l k v (negsuc zero)) h t above s g (x, a, f) =
    plug-IsAvl above _ (balanced (pos 0) (omega arith) (omega arith) (omega arith), a, g.avl)
      (subst (Fits above) (omega arith) f)
settle (via_right l k v (negsuc (suc n))) h t above s g (x, a, f) = absurd (omega arith)
settle (via_right l k v (pos (suc zero))) h t above s g (x, a, f) =
    let e : h ≡ suc (height l) = omega arith in
    refit (suc (suc (height l))) above _
      (right_heavy-AvlOf (height l) l k v t a (subst (λ m. Grown m t) e g) refl)
      (subst (Fits above) (omega arith) f)
settle (via_right l k v (pos (suc (suc n)))) h t above s g (x, a, f) = absurd (omega arith)

retrace-Whole :
    (f : Frame) (below above : List Frame) (h : ℕ) (t : Tree)
    → IsTrail above (f ∷ below)
    → Grown h t
    → Fits ((f ∷ below) ++ above) h
    → Yields (Whole above) (rebalance (retrace (f ∷ below) t))
unfolding retrace
retrace-Whole f [] above h t tr g fits = settle f h t above tr g fits
retrace-Whole f (f' ∷ below) above h t (z, tr) g fits =
    let (g', fits') = bump-Grown f h t (f' ∷ below ++ above) z g fits in
    retrace-Whole f' below above (suc h) (link (bump f) t) tr g' fits'

-- The insertion does not fail, and its result is balanced.
pub attach-IsAvl :
    (q : Str) (above below : List Frame)
    → IsTrail above below
    → Fits (below ++ above) 0
    → Yields IsAvl (attach q above below)
unfolding attach
attach-IsAvl q above [] tr f =
    at_root above _ tr (balanced (pos 0) (omega arith) (omega arith) (omega arith), tt, tt)
attach-IsAvl q above (f ∷ below) tr fits = finish (rebalance (retrace (f ∷ below) leaf)) (
    retrace-Whole f below above 0 leaf tr
      (record {
        avl = (balanced (pos 0) (omega arith) (omega arith) (omega arith), tt, tt);
        high = omega arith;
        leans = inr refl;
      })
      fits)
  where
    leaf : Tree
    leaf = node null q 0 (pos 0) null

    finish :
        (o : Option Tree) → Yields (Whole above) o → Yields IsAvl (o >>= λ w. some (plug above w))
    finish none y = y
    finish (some w) y = y
