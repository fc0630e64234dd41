-- ===== src/Map/Refine/Remove.antt =====
-- `map_remove` of src/core/map.c against the sorted association list.
use Prim.Native.Nat.Ordering.{lt, eq, gt}
use mathlib.Core.Path.{subst}
use opensips_ng.Prelude.{
  ◌-◌, ◌≡◌, refl, sym, ap, ◌∙◌, Option, none, some, [], arith, Each, Yields, ◌>>=◌,
}
use opensips_ng.Map.Key.{Str, str_cmp}
use opensips_ng.Map.Tree.{Ptr, Tree, Map, map_find}
use opensips_ng.Map.Remove.{Location, at, locate, unlink, shrink, delete_node, value_at, map_remove}
use opensips_ng.Map.Entries.{entries, lookup, erase}
use opensips_ng.Map.Entries.Sorted.{erase-IsSorted}
use opensips_ng.Map.Entries.Grow.{SameEntries}
use opensips_ng.Map.Entries.Shrink.{Finds, locate-Finds, unlink-Hangs, entries-shrink}
use opensips_ng.Map.Entries.Store.{length-erase, lookup-erase}
use opensips_ng.Map.Balance.{IsAvl}
use opensips_ng.Map.Balance.Shrink.{EachAvlAt, locate-IsAvlAt, unlink-Lowered, shrink-IsAvl}
use opensips_ng.Map.Refine.{IsValid, or_null, both, map_find-eq-lookup}

abbrev pub Removed : Str → Map → Ptr × Map → Type 0
Removed q m (p, m') =
    (p ≡ or_null (lookup q (entries m.root)))
    × IsValid m'
    × (entries m'.root ≡ erase q (entries m.root))
    × (m'.flags ≡ m.flags)

cut :
    (m : Map) (q : Str) (p : Ptr) (o : Option Tree)
    → IsValid m
    → lookup q (entries m.root) ≡ some p
    → Yields (λ t. IsAvl t × (entries t ≡ erase q (entries m.root))) o
    → Yields (Removed q m) (o >>= λ t. some (p, record m { root = t; count = m.count - 1 }))
cut m q p none v e y = y
cut m q p (some t) v e (a, g) = (
  rw e,
  record {
    sorted = rw g (erase-IsSorted q _ v.sorted);
    balanced = a;
    counted = rw g (omega (arith, v.counted, length-erase q (entries m.root) e));
  },
  g,
  refl,
)

-- `map_remove` does not fault, takes the entry of the key out, and keeps the invariant.
pub map_remove-Removed : (m : Map) (q : Str) → IsValid m → Yields (Removed q m) (map_remove m q)
unfolding map_remove delete_node value_at
map_remove-Removed m q v =
    go (locate q m.root []) (locate-Finds q m.root v.sorted)
      (locate-IsAvlAt q m.root [] v.balanced tt)
  where
    go :
        (o : Option Location)
        → Finds q (entries m.root) o
        → EachAvlAt o
        → Yields (Removed q m) (elim o [ none ↦ some (0, m) | some p ↦ delete_node m p ])
    go none (e, f) a = (rw e, v, sym f, refl)
    go (some (at l k w b r path)) (e, f) a =
        let (t, low) = unlink-Lowered l k w b r path a in
        let u = unlink (at l k w b r path) in
        cut m q w (shrink u.1 u.0) v e (
          both _ _ (shrink-IsAvl u.1 u.0 t low) (
            subst (λ es. Each (SameEntries es) (shrink u.1 u.0))
              (unlink-Hangs l k w b r path ∙ sym f) (entries-shrink u.1 u.0)))

-- What a lookup reads after a `map_remove`: nothing at the keys equal to the one removed, the old value
-- at all others.
pub map_find-map_remove :
    (m : Map) (q p : Str)
    → IsValid m
    → Yields
        (λ r.
          map_find r.1 p ≡ elim (str_cmp p q) [ eq ↦ none | lt ↦ map_find m p | gt ↦ map_find m p ])
        (map_remove m q)
map_find-map_remove m q p v = go (map_remove m q) (map_remove-Removed m q v)
  where
    go :
        (o : Option (Ptr × Map))
        → Yields (Removed q m) o
        → Yields
            (λ r.
              map_find r.1 p
              ≡ elim (str_cmp p q) [ eq ↦ none | lt ↦ map_find m p | gt ↦ map_find m p ])
            o
    go none y = y
    go (some (_, m')) (_, v', e, _) =
        map_find-eq-lookup m' p v'
        ∙ ap (lookup p) e
        ∙ lookup-erase q p (entries m.root) v.sorted
        ∙ ap (λ (x : Option Ptr). elim (str_cmp p q) [ eq ↦ none | lt ↦ x | gt ↦ x ])
            (sym (map_find-eq-lookup m p v))
