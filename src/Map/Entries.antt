-- ===== src/Map/Entries.antt =====
-- The abstract view of src/core/map.c: the entries of the tree from left to right, and the operations
-- on sorted lists of entries that the map implements.
pub mod Sorted
pub mod Find
pub mod Grow
pub mod Shrink
pub mod Store
use Prim.Native.Nat.Ordering.{lt, eq, gt}
use mathlib.Core.List.{append_assoc, append-nil}
use opensips_ng.Prelude.{◌≡◌, refl, Option, none, some, List, [], ◌∷◌, ◌++◌, All}
use opensips_ng.Map.Key.{Str, str_cmp}
use opensips_ng.Map.Tree.{Ptr, Tree, null, node, Frame, via_left, via_right, link, plug}

abbrev pub Entry : Type 0
Entry = Str × Ptr

infix 50 ◌≺◌
abbrev pub ◌≺◌ : Str → Str → Type 0
s ≺ t = str_cmp s t ≡ lt

-- In-order traversal.
unfoldable pub entries : Tree → List Entry
entries null = []
entries (node l k v b r) = entries l ++ (k, v) ∷ entries r

-- What stands left and right of the open link of a path.
unfoldable pub before : List Frame → List Entry
before [] = []
before (via_left k v b r ∷ path) = before path
before (via_right l k v b ∷ path) = before path ++ (entries l ++ (k, v) ∷ [])

unfoldable pub after : List Frame → List Entry
after [] = []
after (via_left k v b r ∷ path) = (k, v) ∷ entries r ++ after path
after (via_right l k v b ∷ path) = after path

pub entries-plug :
    (path : List Frame) (t : Tree)
    → entries (plug path t) ≡ before path ++ (entries t ++ after path)
unfolding entries before after plug
entries-plug [] t = rw append-nil
entries-plug (via_left k v b r ∷ path) t =
    simp (entries-plug path (node t k v b r), entries, append_assoc)
entries-plug (via_right l k v b ∷ path) t =
    simp (entries-plug path (node l k v b t), entries, append_assoc)

pub plug-append : (p q : List Frame) (t : Tree) → plug (p ++ q) t ≡ plug q (plug p t)
unfolding plug
plug-append [] q t = refl
plug-append (f ∷ p) q t = plug-append p q (link f t)

abbrev pub Under : Str → List Entry → Type 0
Under q es = All (λ e. e.0 ≺ q) es

abbrev pub Over : Str → List Entry → Type 0
Over q es = All (λ e. q ≺ e.0) es

abbrev pub IsSorted : List Entry → Type 0
IsSorted [] = Unit
IsSorted (e ∷ es) = Over e.0 es × IsSorted es

-- The specification: a sorted association list.
unfoldable pub lookup : Str → List Entry → Option Ptr
lookup q [] = none
lookup q ((k, v) ∷ es) = elim (str_cmp q k) [ eq ↦ some v | lt ↦ lookup q es | gt ↦ lookup q es ]

unfoldable pub insert : Str → Ptr → List Entry → List Entry
insert q w [] = (q, w) ∷ []
insert q w ((k, v) ∷ es) = elim (str_cmp q k) [
  | lt ↦ (q, w) ∷ (k, v) ∷ es
  | eq ↦ (k, w) ∷ es
  | gt ↦ (k, v) ∷ insert q w es
]

unfoldable pub erase : Str → List Entry → List Entry
erase q [] = []
erase q ((k, v) ∷ es) = elim (str_cmp q k) [
  | eq ↦ es
  | lt ↦ (k, v) ∷ erase q es
  | gt ↦ (k, v) ∷ erase q es
]
