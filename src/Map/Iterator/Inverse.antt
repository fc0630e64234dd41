-- ===== src/Map/Iterator/Inverse.antt =====
-- `iterator_next` and `iterator_prev` of src/core/map.c.
use mathlib.Core.Option.{some-injective}
use opensips_ng.Prelude.{◌≡◌, refl, some, List, [], ◌∷◌}
use opensips_ng.Prelude.Int.{ℤ}
use opensips_ng.Map.Key.{Str}
use opensips_ng.Map.Tree.{Ptr, Tree, null, node, Frame, via_left, via_right}
use opensips_ng.Map.Remove.{Location, at, leftmost}
use opensips_ng.Map.Iterator.{rightmost, up_next, next, up_prev, prev}

prev-leftmost :
    (l : Tree) (k : Str) (v : Ptr) (b : ℤ) (r : Tree) (path : List Frame)
    → prev (leftmost l k v b r path) ≡ up_prev (node l k v b r) path
unfolding prev leftmost up_prev
prev-leftmost null k v b r path = refl
prev-leftmost (node ll lk lv lb lr) k v b r path =
    prev-leftmost ll lk lv lb lr (via_left k v b r ∷ path)

-- The node that `up_next` climbs to has the start of the climb at the right end of its left subtree.
prev-up_next :
    (l : Tree) (k : Str) (v : Ptr) (b : ℤ) (r : Tree) (path : List Frame) {p : Location}
    → up_next (node l k v b r) path ≡ some p
    → prev p ≡ some (rightmost l k v b r path)
unfolding prev up_next rightmost
prev-up_next l k v b r [] e = cc
prev-up_next l k v b r (via_left k' v' b' r' ∷ path) e = rw (← some-injective _ _ e)
prev-up_next l k v b r (via_right l' k' v' b' ∷ path) {p = p} e =
    prev-up_next l' k' v' b' (node l k v b r) path {p = p} e

-- Where there is a next node, going back from it leads to the node again.
pub prev-next : (p : Location) {s : Location} → next p ≡ some s → prev s ≡ some p
unfolding next rightmost up_prev
prev-next (at l k v b null path) e = prev-up_next l k v b null path e
prev-next (at l k v b (node rl rk rv rb rr) path) e =
    rw (← some-injective _ _ e) (prev-leftmost rl rk rv rb rr (via_right l k v b ∷ path))
