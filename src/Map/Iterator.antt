-- ===== src/Map/Iterator.antt =====
-- src/core/map.c: `map_first`, `map_last`, `iterator_next`, `iterator_prev`, `iterator_key`,
-- `iterator_val`, `iterator_is_valid`, `iterator_delete`. The `node` field of an iterator is a location,
-- or `none` for NULL; its `map` and the iterator itself are not NULL.
pub mod Order
pub mod Inverse
use opensips_ng.Prelude.{Bool, true, false, Option, none, some, List, [], ◌∷◌, ◌>>=◌}
use opensips_ng.Prelude.Int.{ℤ, pos, negsuc}
use opensips_ng.Map.Key.{Str}
use opensips_ng.Map.Tree.{Ptr, Tree, null, node, Frame, via_left, via_right, Map}
use opensips_ng.Map.Remove.{Location, at, leftmost, delete_node}

-- `while (it->node->avl_link[1]) it->node = it->node->avl_link[1];`
unfoldable pub rightmost : Tree → Str → Ptr → ℤ → Tree → List Frame → Location
rightmost l k v b null path = at l k v b null path
rightmost l k v b (node rl rk rv rb rr) path = rightmost rl rk rv rb rr (via_right l k v b ∷ path)

unfoldable pub first_of_tree : Tree → Option Location
unfolding leftmost
first_of_tree null = none
first_of_tree (node l k v b r) = some (leftmost l k v b r [])

unfoldable pub map_first : Map → Option Location
unfolding first_of_tree
map_first m = first_of_tree m.root

unfoldable pub last_of_tree : Tree → Option Location
unfolding rightmost
last_of_tree null = none
last_of_tree (node l k v b r) = some (rightmost l k v b r [])

unfoldable pub map_last : Map → Option Location
unfolding last_of_tree
map_last m = last_of_tree m.root

-- `for (p = it->node, q = p->avl_parent ; ; p = q, q = q->avl_parent)` up to a `q` with p on its left.
unfoldable pub up_next : Tree → List Frame → Option Location
up_next t [] = none
up_next t (via_left k v b r ∷ path) = some (at t k v b r path)
up_next t (via_right l k v b ∷ path) = up_next (node l k v b t) path

unfoldable pub next : Location → Option Location
unfolding leftmost up_next
next (at l k v b null path) = up_next (node l k v b null) path
next (at l k v b (node rl rk rv rb rr) path) =
    some (leftmost rl rk rv rb rr (via_right l k v b ∷ path))

-- The return code, and the iterator after the call.
unfoldable pub iterator_next : Option Location → ℤ × Option Location
unfolding next
iterator_next none = (negsuc 0, none)
iterator_next (some p) = (pos 0, next p)

unfoldable pub up_prev : Tree → List Frame → Option Location
up_prev t [] = none
up_prev t (via_right l k v b ∷ path) = some (at l k v b t path)
up_prev t (via_left k v b r ∷ path) = up_prev (node t k v b r) path

unfoldable pub prev : Location → Option Location
unfolding rightmost up_prev
prev (at null k v b r path) = up_prev (node null k v b r) path
prev (at (node ll lk lv lb lr) k v b r path) =
    some (rightmost ll lk lv lb lr (via_left k v b r ∷ path))

unfoldable pub iterator_prev : Option Location → ℤ × Option Location
unfolding prev
iterator_prev none = (negsuc 0, none)
iterator_prev (some p) = (pos 0, prev p)

unfoldable pub iterator_is_valid : Option Location → Bool
iterator_is_valid none = false
iterator_is_valid (some p) = true

-- The key and the value of the node, through the pointers that `iterator_key` and `iterator_val` return.
unfoldable pub entry_at : Location → Str × Ptr
entry_at (at l k v b r path) = (k, v)

-- The value, the map and the iterator after the call; the value is NULL for an invalid iterator.
unfoldable pub iterator_delete : Map → Option Location → Option (Ptr × Map × Option Location)
unfolding delete_node
iterator_delete m none = some (0, m, none)
iterator_delete m (some p) = do (v, m') ← delete_node m p; some (v, m', none)
