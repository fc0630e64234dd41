-- ===== src/Map/Insert.antt =====
-- src/core/map.c: `map_get` and `map_put`.
use Prim.Native.Nat.Ordering.{lt, eq, gt}
use opensips_ng.Prelude.{
  ◌+◌, Bool, not, Option, none, some, List, [], ◌∷◌, ◌++◌, length, ◌==◌, if◌then◌else◌, ◌&&◌, ◌>>=◌,
}
use opensips_ng.Prelude.Int.{ℤ, pos, negsuc, inc, dec, ◌==ℤ◌}
use opensips_ng.Map.Key.{Str, str_cmp}
use opensips_ng.Map.Tree.{
  Ptr, Tree, null, node, Frame, via_left, via_right, link, plug, Map, no_duplicate, store,
}

-- Where the descent ends: at the slot of an equal key, or at a NULL link. `y` is the last node on the
-- way down that is out of balance, or the root: `above` are the frames over it, `below` are those from
-- the NULL link up to and with `y`.
pub data Descent : Type 0 where
  hit : Ptr → Descent
  miss : List Frame → List Frame → Descent

-- `if (p->avl_balance != 0) y = p;` moves the frames gathered so far above the new `y`.
unfoldable pub descend : Str → Tree → List Frame → List Frame → Descent
descend q null above below = miss above below
descend q (node l k v b r) above below =
    let above' = if b ==ℤ pos 0 then above else below ++ above in
    let below' = if b ==ℤ pos 0 then below else [] in
    elim (str_cmp q k) [
      | eq ↦ hit v
      | lt ↦ descend q l above' (via_left k v b r ∷ below')
      | gt ↦ descend q r above' (via_right l k v b ∷ below')
    ]

-- `q->avl_balance--` or `++`, by the side on which the subtree grew.
unfoldable pub bump : Frame → Frame
bump (via_left k v b r) = via_left k v (dec b) r
bump (via_right l k v b) = via_right l k v (inc b)

-- `for (p = n; p != y; p = q)`: the subtree at `y` with its balances updated.
unfoldable pub retrace : List Frame → Tree → Tree
unfolding bump link
retrace [] t = t
retrace (f ∷ below) t = retrace below (link (bump f) t)

-- The balances of the lower left and the lower right node after a double rotation, by that of `w`.
unfoldable pub low_balance : ℤ → ℤ
low_balance bw = if bw ==ℤ pos 1 then negsuc 0 else pos 0

unfoldable pub high_balance : ℤ → ℤ
high_balance bw = if bw ==ℤ negsuc 0 then pos 1 else pos 0

-- `w` takes the place of its grandparent: `l` is the subtree left of the lower left node `k`, `r` the
-- one right of the lower right node `k'`. `none` is a NULL `w`.
unfoldable pub double : Tree → Str → Ptr → Tree → Str → Ptr → Tree → Option Tree
unfolding low_balance high_balance
double l k v null k' v' r = none
double l k v (node wl wk wv bw wr) k' v' r =
    some (node (node l k v (low_balance bw) wl) wk wv (pos 0) (node wr k' v' (high_balance bw) r))

-- `y->avl_balance == -2`, with x = y->avl_link[0]. `none` is a NULL `x` or the failed assertion.
unfoldable pub rotate_left_heavy : Tree → Str → Ptr → Tree → Option Tree
unfolding double
rotate_left_heavy null ky vy yr = none
rotate_left_heavy (node xl kx vx bx xr) ky vy yr =
    if bx ==ℤ negsuc 0
    then some (node xl kx vx (pos 0) (node xr ky vy (pos 0) yr))
    else if bx ==ℤ pos 1
    then double xl kx vx xr ky vy yr
    else none

-- `y->avl_balance == +2`, with x = y->avl_link[1].
unfoldable pub rotate_right_heavy : Tree → Str → Ptr → Tree → Option Tree
unfolding double
rotate_right_heavy yl ky vy null = none
rotate_right_heavy yl ky vy (node xl kx vx bx xr) =
    if bx ==ℤ pos 1
    then some (node (node yl ky vy (pos 0) xl) kx vx (pos 0) xr)
    else if bx ==ℤ negsuc 0
    then double yl ky vy xl kx vx xr
    else none

-- The rotation at `y`, if its balance has become -2 or +2.
unfoldable pub rebalance : Tree → Option Tree
unfolding rotate_left_heavy rotate_right_heavy
rebalance null = some null
rebalance (node l k v b r) =
    if b ==ℤ negsuc 1
    then rotate_left_heavy l k v r
    else if b ==ℤ pos 2
    then rotate_right_heavy l k v r
    else some (node l k v b r)

-- The new node linked in and the tree balanced.
unfoldable pub attach : Str → List Frame → List Frame → Option Tree
unfolding retrace rebalance plug
attach q above below = do
  w ← rebalance (retrace below (node null q 0 (pos 0) null))
  some (plug above w)

-- The two calls of `avl_malloc`: for the node, and for the copy of the key.
pub record Alloc : Type 0 where
  pub node_ok : Bool
  pub key_ok : Bool

-- From where the descent ended: the slot's value (`none` is NULL) and the new map; the outer `none` is
-- a fault: the memcpy of at least a byte into a key copy that was not allocated, or a failed assertion.
unfoldable pub get_at : Alloc → Map → Str → Descent → Option (Option Ptr × Map)
unfolding attach
get_at a m q (hit v) = some (some v, m)
get_at a m q (miss above below) =
    if not a.node_ok
    then some (none, m)
    else if not (no_duplicate m.flags) && (not a.key_ok && not (length q == 0))
    then none
    else (attach q above below >>= λ t. some (some 0, record m { root = t; count = m.count + 1 }))

unfoldable pub map_get : Alloc → Map → Str → Option (Option Ptr × Map)
unfolding descend get_at
map_get a m q = get_at a m q (descend q m.root [] [])

-- `*p = item`; the result is NULL or the value that was replaced.
unfoldable pub put_slot : Str → Ptr → Option Ptr × Map → Ptr × Map
put_slot q item (none, m) = (0, m)
put_slot q item (some old, m) =
    (if old == item then 0 else old, record m { root = store m.root q item })

unfoldable pub map_put : Alloc → Map → Str → Ptr → Option (Ptr × Map)
unfolding map_get put_slot store
map_put a m q item = do s ← map_get a m q; some (put_slot q item s)
