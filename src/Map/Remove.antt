-- ===== src/Map/Remove.antt =====
-- src/core/map.c: `delete_node` and `map_remove`.
use Prim.Native.Nat.Ordering.{lt, eq, gt}
use opensips_ng.Prelude.{◌-◌, Option, none, some, List, [], ◌∷◌, ◌++◌, if◌then◌else◌, ◌>>=◌}
use opensips_ng.Prelude.Int.{ℤ, pos, negsuc, inc, dec, ◌==ℤ◌}
use opensips_ng.Map.Key.{Str, str_cmp}
use opensips_ng.Map.Tree.{Ptr, Tree, null, node, Frame, via_left, via_right, plug, Map}
use opensips_ng.Map.Insert.{double}

-- A pointer to a node: its fields (left, key, value, balance, right) and the frames above it.
pub data Location : Type 0 where
  at : Tree → Str → Ptr → ℤ → Tree → List Frame → Location

-- The descent of `map_remove`; `none` is the early `return NULL`.
unfoldable pub locate : Str → Tree → List Frame → Option Location
locate q null path = none
locate q (node l k v b r) path = elim (str_cmp q k) [
  | eq ↦ some (at l k v b r path)
  | lt ↦ locate q l (via_left k v b r ∷ path)
  | gt ↦ locate q r (via_right l k v b ∷ path)
]

-- `while (s->avl_link[0] != NULL) s = s->avl_link[0];`
unfoldable pub leftmost : Tree → Str → Ptr → ℤ → Tree → List Frame → Location
leftmost null k v b r path = at null k v b r path
leftmost (node ll lk lv lb lr) k v b r path = leftmost ll lk lv lb lr (via_left k v b r ∷ path)

-- The successor `s` takes the place of `p` (left subtree `l`, balance `b`): what is left of `s` is its
-- right subtree, and the path runs from the old parent of `s` over its new place to the root.
unfoldable pub replace : Tree → ℤ → List Frame → Location → Tree × List Frame
replace l b path (at sl sk sv sb sr low) = (sr, low ++ via_right l sk sv b ∷ path)

-- The node unlinked: the subtree that is one lower now, and the frames above it (the head is `q`, on
-- the side `dir`).
unfoldable pub unlink : Location → Tree × List Frame
unfolding leftmost replace
unlink (at l k v b null path) = (l, path)
unlink (at l k v b (node null rk rv rb rr) path) = (rr, via_right l rk rv b ∷ path)
unlink (at l k v b (node (node sl sk sv sb sr) rk rv rb rr) path) =
    replace l b path (leftmost sl sk sv sb sr (via_left rk rv rb rr ∷ []))

-- One round of the loop that rebalances: leave it by `break`, go on with the parent, or a NULL link.
pub data Round : Type 0 where
  stop : Tree → Round
  climb : Tree → Round
  fault : Round

unfoldable pub climb_or_fault : Option Tree → Round
climb_or_fault none = fault
climb_or_fault (some w) = climb w

-- The left side of `y` is lower and its balance is +2: x = y->avl_link[1].
unfoldable pub shift_left : Tree → Str → Ptr → Tree → Round
unfolding double climb_or_fault
shift_left yl ky vy null = fault
shift_left yl ky vy (node xl kx vx bx xr) =
    if bx ==ℤ negsuc 0
    then climb_or_fault (double yl ky vy xl kx vx xr)
    else if bx ==ℤ pos 0
    then stop (node (node yl ky vy (pos 1) xl) kx vx (negsuc 0) xr)
    else climb (node (node yl ky vy (pos 0) xl) kx vx (pos 0) xr)

-- The right side of `y` is lower and its balance is -2: x = y->avl_link[0].
unfoldable pub shift_right : Tree → Str → Ptr → Tree → Round
unfolding double climb_or_fault
shift_right null ky vy yr = fault
shift_right (node xl kx vx bx xr) ky vy yr =
    if bx ==ℤ pos 1
    then climb_or_fault (double xl kx vx xr ky vy yr)
    else if bx ==ℤ pos 0
    then stop (node xl kx vx (pos 1) (node xr ky vy (negsuc 0) yr))
    else climb (node xl kx vx (pos 0) (node xr ky vy (pos 0) yr))

unfoldable pub round : Frame → Tree → Round
unfolding shift_left shift_right
round (via_left k v b r) t =
    if inc b ==ℤ pos 1
    then stop (node t k v (inc b) r)
    else if inc b ==ℤ pos 2
    then shift_left t k v r
    else climb (node t k v (inc b) r)
round (via_right l k v b) t =
    if dec b ==ℤ negsuc 0
    then stop (node l k v (dec b) t)
    else if dec b ==ℤ negsuc 1
    then shift_right l k v t
    else climb (node l k v (dec b) t)

-- `while (q != &tree->avl_root)`.
unfoldable pub shrink : List Frame → Tree → Option Tree
unfolding round plug
shrink [] t = some t
shrink (f ∷ path) t = elim (round f t) [
  | stop w ↦ some (plug path w)
  | climb w ↦ shrink path w
  | fault ↦ none
]

-- The value of the node and the map without it.
unfoldable pub value_at : Location → Ptr
value_at (at l k v b r path) = v

unfoldable pub delete_node : Map → Location → Option (Ptr × Map)
unfolding unlink shrink value_at
delete_node m p = do
  t ← shrink (unlink p).1 (unlink p).0
  some (value_at p, record m { root = t; count = m.count - 1 })

-- NULL, and the map as it was, if no key matches.
unfoldable pub map_remove : Map → Str → Option (Ptr × Map)
unfolding locate delete_node
map_remove m q = elim (locate q m.root []) [ none ↦ some (0, m) | some p ↦ delete_node m p ]
