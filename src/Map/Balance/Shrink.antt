-- ===== src/Map/Balance/Shrink.antt =====
-- `map_remove` and `delete_node` of src/core/map.c keep the tree balanced, and follow no NULL link.
use Prim.Native.Nat.{max}
use mathlib.Core.Path.{subst}
use opensips_ng.Prelude.{
  ℕ, zero, suc, ◌≡◌, refl, sym, ap, inl, inr, Option, none, some, List, [], ◌∷◌, ◌++◌, arith,
  Ordering-cases, Yields,
}
use opensips_ng.Prelude.Int.{ℤ, pos, negsuc, inc, dec}
use opensips_ng.Map.Key.{Str, str_cmp}
use opensips_ng.Map.Tree.{Ptr, Tree, null, node, Frame, via_left, via_right, plug}
use opensips_ng.Map.Remove.{
  Location, at, locate, leftmost, replace, unlink, Round, stop, climb, fault, climb_or_fault,
  shift_left, shift_right, round, shrink,
}
use opensips_ng.Map.Balance.{height, Balances, IsAvl, Fits, plug-IsAvl, AvlOf, double-AvlOf}

-- A round ends with a subtree as high as the old one, `n`, or goes on with one that is lower by one.
abbrev Restores : ℕ → Round → Type 0
Restores n (stop w) = AvlOf n w
Restores n (climb w) = IsAvl w × (suc (height w) ≡ n)
Restores n fault = ⊥

climb_or_fault-Restores :
    (n : ℕ) (o : Option Tree) → Yields (AvlOf n) o → Restores (suc n) (climb_or_fault o)
unfolding climb_or_fault
climb_or_fault-Restores n none y = y
climb_or_fault-Restores n (some w) (a, e) = (a, ap suc e)

module _ (h : ℕ) (k : Str) (v : Ptr) where
  shift_left-Restores :
      (l r : Tree)
      → AvlOf h l
      → AvlOf (suc (suc h)) r
      → Restores (suc (suc (suc h))) (shift_left l k v r)
  unfolding shift_left
  shift_left-Restores l null al ar = ground arith
  shift_left-Restores l (node xl kx vx (negsuc zero) xr) (a, e) ((x, xa, ya), e') =
      climb_or_fault-Restores (suc (suc h)) _ (
        double-AvlOf h l k v xl kx vx xr a xa ya e (omega (arith, x.differ))
          (omega (arith, x.differ)))
  shift_left-Restores l (node xl kx vx (negsuc (suc n)) xr) (a, e) ((x, xa, ya), e') =
      absurd (omega (arith, x.left_le))
  shift_left-Restores l (node xl kx vx (pos zero) xr) (a, e) ((x, xa, ya), e') =
      ground (arith, x.differ)
  shift_left-Restores l (node xl kx vx (pos (suc zero)) xr) (a, e) ((x, xa, ya), e') =
      ground (arith, x.differ)
  shift_left-Restores l (node xl kx vx (pos (suc (suc n))) xr) (a, e) ((x, xa, ya), e') =
      absurd (omega (arith, x.right_le))

  shift_right-Restores :
      (l r : Tree)
      → AvlOf (suc (suc h)) l
      → AvlOf h r
      → Restores (suc (suc (suc h))) (shift_right l k v r)
  unfolding shift_right
  shift_right-Restores null r al ar = ground arith
  shift_right-Restores (node xl kx vx (pos (suc zero)) xr) r ((x, xa, ya), e') (a, e) =
      climb_or_fault-Restores (suc (suc h)) _ (
        double-AvlOf h xl kx vx xr k v r xa ya a (omega (arith, x.differ)) e
          (omega (arith, x.differ)))
  shift_right-Restores (node xl kx vx (pos (suc (suc n))) xr) r ((x, xa, ya), e') (a, e) =
      absurd (omega (arith, x.right_le))
  shift_right-Restores (node xl kx vx (pos zero) xr) r ((x, xa, ya), e') (a, e) =
      ground (arith, x.differ)
  shift_right-Restores (node xl kx vx (negsuc zero) xr) r ((x, xa, ya), e') (a, e) =
      ground (arith, x.differ)
  shift_right-Restores (node xl kx vx (negsuc (suc n)) xr) r ((x, xa, ya), e') (a, e) =
      absurd (omega (arith, x.left_le))

-- The height that a frame had, and the frames above it.
abbrev old_height : Frame → ℕ → ℕ
old_height (via_left k v b r) h = suc (max h (height r))
old_height (via_right l k v b) h = suc (max (height l) h)

round-Restores :
    (f : Frame) (path : List Frame) (t : Tree)
    → IsAvl t
    → Fits (f ∷ path) (suc (height t))
    → Restores (old_height f (suc (height t))) (round f t)
unfolding round inc dec
round-Restores (via_left k v (pos zero) r) path t a (x, ar, f) = ground (arith, x.differ)
round-Restores (via_left k v (pos (suc zero)) r) path t a (x, ar, f) =
    let e : height r ≡ suc (suc (height t)) = omega (arith, x.differ) in
    subst (λ n. Restores n (shift_left t k v r)) (omega arith)
      (shift_left-Restores (height t) k v t r (a, refl) (ar, e))
round-Restores (via_left k v (pos (suc (suc n))) r) path t a (x, ar, f) =
    absurd (omega (arith, x.right_le))
round-Restores (via_left k v (negsuc zero) r) path t a (x, ar, f) = ground (arith, x.differ)
round-Restores (via_left k v (negsuc (suc n)) r) path t a (x, ar, f) =
    absurd (omega (arith, x.left_le))
round-Restores (via_right l k v (pos zero)) path t a (x, al, f) = ground (arith, x.differ)
round-Restores (via_right l k v (pos (suc zero))) path t a (x, al, f) = ground (arith, x.differ)
round-Restores (via_right l k v (pos (suc (suc n)))) path t a (x, al, f) =
    absurd (omega (arith, x.right_le))
round-Restores (via_right l k v (negsuc zero)) path t a (x, al, f) =
    let e : height l ≡ suc (suc (height t)) = omega (arith, x.differ) in
    subst (λ n. Restores n (shift_right l k v t)) (omega arith)
      (shift_right-Restores (height t) k v l t (al, e) (a, refl))
round-Restores (via_right l k v (negsuc (suc n))) path t a (x, al, f) =
    absurd (omega (arith, x.left_le))

Fits-tail : (f : Frame) (path : List Frame) (h : ℕ) → Fits (f ∷ path) h → Fits path (old_height f h)
Fits-tail (via_left k v b r) path h (x, a, f) = f
Fits-tail (via_right l k v b) path h (x, a, f) = f

-- The loop ends with a balanced tree.
pub shrink-IsAvl :
    (path : List Frame) (t : Tree)
    → IsAvl t
    → Fits path (suc (height t))
    → Yields IsAvl (shrink path t)
unfolding shrink
shrink-IsAvl [] t a f = a
shrink-IsAvl (f ∷ path) t a fits =
    go (round f t) (round-Restores f path t a fits) (Fits-tail f path (suc (height t)) fits)
      (shrink-IsAvl path)
  where
    n : ℕ
    n = old_height f (suc (height t))

    go :
        (x : Round)
        → Restores n x
        → Fits path n
        → ((w : Tree) → IsAvl w → Fits path (suc (height w)) → Yields IsAvl (shrink path w))
        → Yields IsAvl
            (elim x [ stop w ↦ some (plug path w) | climb w ↦ shrink path w | fault ↦ none ])
    go (stop w) (a, e) fit rec = plug-IsAvl path w a (subst (Fits path) (sym e) fit)
    go (climb w) (a, e) fit rec = rec w a (subst (Fits path) (sym e) fit)
    go fault r fit rec = r

-- A location in a balanced tree.
abbrev pub IsAvlAt : Location → Type 0
IsAvlAt (at l k v b r path) =
    Balances b (height l) (height r)
    × IsAvl l
    × IsAvl r
    × Fits path (suc (max (height l) (height r)))

abbrev pub EachAvlAt : Option Location → Type 0
EachAvlAt none = Unit
EachAvlAt (some p) = IsAvlAt p

pub locate-IsAvlAt :
    (q : Str) (t : Tree) (path : List Frame)
    → IsAvl t
    → Fits path (height t)
    → EachAvlAt (locate q t path)
unfolding locate
locate-IsAvlAt q null path a f = tt
locate-IsAvlAt q (node l k v b r) path (x, al, ar) f = elim (Ordering-cases (str_cmp q k)) [
  | inl h ↦ rw (h, locate) (locate-IsAvlAt q l (via_left k v b r ∷ path) al (x, ar, f))
  | inr (inl h) ↦ rw (h, locate) (x, al, ar, f)
  | inr (inr h) ↦ rw (h, locate) (locate-IsAvlAt q r (via_right l k v b ∷ path) ar (x, al, f))
]

-- The height of the whole subtree under a relative path.
top : List Frame → ℕ → ℕ
top [] h = h
top (f ∷ low) h = top low (old_height f h)

Fits-append :
    (low path : List Frame) (h : ℕ) → Fits low h → Fits path (top low h) → Fits (low ++ path) h
unfolding top
Fits-append [] path h f g = g
Fits-append (via_left k v b r ∷ low) path h (x, a, f) g =
    (x, a, Fits-append low path (suc (max h (height r))) f g)
Fits-append (via_right l k v b ∷ low) path h (x, a, f) g =
    (x, a, Fits-append low path (suc (max (height l) h)) f g)

-- The leftmost node of a balanced subtree of height `n`.
abbrev IsLow : ℕ → Location → Type 0
IsLow n (at l k v b r low) = IsAvl r × Fits low (suc (height r)) × (top low (suc (height r)) ≡ n)

leftmost-IsLow :
    (n : ℕ) (l : Tree) (k : Str) (v : Ptr) (b : ℤ) (r : Tree) (low : List Frame)
    → IsAvl (node l k v b r)
    → Fits low (height (node l k v b r))
    → top low (height (node l k v b r)) ≡ n
    → IsLow n (leftmost l k v b r low)
unfolding leftmost top
leftmost-IsLow n null k v b r low (x, al, ar) f e =
    let h : suc (height r) ≡ suc (max 0 (height r)) = omega arith in (ar, rw h f, rw h e)
leftmost-IsLow n (node ll lk lv lb lr) k v b r low (x, al, ar) f e =
    leftmost-IsLow n ll lk lv lb lr (via_left k v b r ∷ low) al (x, ar, f) e

-- The subtree that is one lower than the frames above it expect.
abbrev pub Lowered : Tree × List Frame → Type 0
Lowered (t, path) = IsAvl t × Fits path (suc (height t))

replace-Lowered :
    (l : Tree) (b : ℤ) (n : ℕ) (path : List Frame) (s : Location)
    → IsLow n s
    → Balances b (height l) n
    → IsAvl l
    → Fits path (suc (max (height l) n))
    → Lowered (replace l b path s)
unfolding replace
replace-Lowered l b n path (at sl sk sv sb sr low) (a, f, e) x al g =
    let whole : Fits (via_right l sk sv b ∷ path) n = (x, al, g) in
    (a, Fits-append low _ _ f (subst (Fits (via_right l sk sv b ∷ path)) (sym e) whole))

pub unlink-Lowered :
    (l : Tree) (k : Str) (v : Ptr) (b : ℤ) (r : Tree) (path : List Frame)
    → IsAvlAt (at l k v b r path)
    → Lowered (unlink (at l k v b r path))
unfolding unlink top
unlink-Lowered l k v b null path (x, al, ar, f) = (al, subst (Fits path) (omega arith) f)
unlink-Lowered l k v b (node null rk rv rb rr) path (x, al, ar, f) =
    let h : suc (max 0 (height rr)) ≡ suc (height rr) = omega arith in
    (ar.2, subst (Fits (via_right l rk rv b ∷ path)) h (x, al, f))
unlink-Lowered l k v b (node (node sl sk sv sb sr) rk rv rb rr) path (x, al, (y, ay, ary), f) =
    replace-Lowered l b (height (node (node sl sk sv sb sr) rk rv rb rr)) path _
      (leftmost-IsLow _ sl sk sv sb sr (via_left rk rv rb rr ∷ []) ay (y, ary, tt) refl) x al f
