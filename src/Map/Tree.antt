-- ===== src/Map/Tree.antt =====
-- src/core/map.h, src/core/map.c: the node and the table, `map_create`, `map_find`, `map_size`.
-- A position in the tree is a zipper: the node's fields, and one frame for each node on the way up by
-- `avl_parent`. So the parent pointers are the path, and agree with `avl_link`.
use Prim.Native.Nat.Ordering.{lt, eq, gt}
use opensips_ng.Prelude.{ℕ, ◌/◌, ◌%◌, Bool, Option, none, some, List, [], ◌∷◌, ◌==◌, if◌then◌else◌}
use opensips_ng.Prelude.Int.{ℤ}
use opensips_ng.Map.Key.{Str, str_cmp}

-- An address, with 0 for NULL.
abbrev pub Ptr : Type 0
Ptr = ℕ

-- `struct avl_node`: avl_link[0], key, val, avl_balance, avl_link[1].
pub data Tree : Type 0 where
  null : Tree
  node : Tree → Str → Ptr → ℤ → Tree → Tree

-- A node seen from one of its links: avl_link[0] (`via_left`) or avl_link[1] (`via_right`).
pub data Frame : Type 0 where
  via_left : Str → Ptr → ℤ → Tree → Frame
  via_right : Tree → Str → Ptr → ℤ → Frame

-- The node of a frame with a subtree on the open link.
unfoldable pub link : Frame → Tree → Tree
link (via_left k v b r) t = node t k v b r
link (via_right l k v b) t = node l k v b t

-- The whole tree, from a subtree and the frames above it, the innermost first.
unfoldable pub plug : List Frame → Tree → Tree
unfolding link
plug [] t = t
plug (f ∷ path) t = plug path (link f t)

-- `struct avl_table`.
pub record Map : Type 0 where
  pub root : Tree
  pub count : ℕ
  pub flags : ℕ
  pub ret_code : ℕ

-- `flags & MAP_NO_DUPLICATE`, with MAP_NO_DUPLICATE = 2.
abbrev pub no_duplicate : ℕ → Bool
no_duplicate flags = (flags / 2) % 2 == 1

-- `avl_malloc` may fail; ret_code is not set by the source, and is `garbage` here.
unfoldable pub map_create : Bool → ℕ → ℕ → Option Map
map_create alloc_ok garbage flags =
    if alloc_ok
    then some (record { root = null; count = 0; flags = flags; ret_code = garbage })
    else none

-- The value in the slot that is found; `none` is NULL.
unfoldable pub find : Tree → Str → Option Ptr
find null q = none
find (node l k v b r) q = elim (str_cmp q k) [ lt ↦ find l q | gt ↦ find r q | eq ↦ some v ]

unfoldable pub map_find : Map → Str → Option Ptr
unfolding find
map_find m q = find m.root q

unfoldable pub map_size : Map → ℕ
map_size m = m.count

-- The store `*p = item` through the pointer to the slot of key `q`.
unfoldable pub store : Tree → Str → Ptr → Tree
store null q item = null
store (node l k v b r) q item = elim (str_cmp q k) [
  | lt ↦ node (store l q item) k v b r
  | gt ↦ node l k v b (store r q item)
  | eq ↦ node l k item b r
]
