-- ===== src/Map/Refine.antt =====
-- The map of src/core/map.c against a sorted association list: its invariant, `map_get` and `map_find`.
pub mod Put
pub mod Memory
pub mod Remove
use opensips_ng.Prelude.{
  ◌+◌, ◌-◌, ◌≡◌, refl, sym, ap, ◌∙◌, true, false, Bool, not, ◌&&◌, ◌==◌, Option, none, some, List,
  [], ◌∷◌, ◌++◌, arith, length, length-append, Each, Yields, ◌>>=◌,
}
use opensips_ng.Map.Key.{Str}
use opensips_ng.Map.Tree.{Ptr, Tree, Map, map_find, no_duplicate}
use opensips_ng.Map.Insert.{Alloc, Descent, hit, miss, descend, attach, get_at, map_get}
use opensips_ng.Map.Entries.{Entry, entries, Under, Over, IsSorted, lookup, insert}
use opensips_ng.Map.Entries.Sorted.{insert-IsSorted, lookup-Under, lookup-Over_nil}
use opensips_ng.Map.Entries.Find.{find-eq-lookup}
use opensips_ng.Map.Entries.Grow.{SameEntries, Lands, descend-Lands, entries-attach}
use opensips_ng.Map.Entries.Store.{insert_between}
use opensips_ng.Map.Balance.{IsAvl}
use opensips_ng.Map.Balance.Grow.{Open, descend-Open, attach-IsAvl}

-- Sorted, balanced, and counted.
pub record IsValid (m : Map) : Type 0 where
  pub sorted : IsSorted (entries m.root)
  pub balanced : IsAvl m.root
  pub counted : m.count ≡ length (entries m.root)

-- The entries with a slot for the key.
abbrev pub with_slot : Str → List Entry → List Entry
with_slot q es = elim (lookup q es) [ some v ↦ es | none ↦ insert q 0 es ]

-- The value that a lookup gives, NULL for a missing key.
abbrev pub or_null : Option Ptr → Ptr
or_null none = 0
or_null (some v) = v

-- A balanced tree with the right entries.
pub both :
    (es : List Entry) (o : Option Tree)
    → Yields IsAvl o
    → Each (SameEntries es) o
    → Yields (λ t. IsAvl t × (entries t ≡ es)) o
both es none y e = y
both es (some t) y e = (y, e)

-- The memory that `map_get` asks for is there.
abbrev pub Allocates : Alloc → Map → Type 0
Allocates a m = (a.node_ok ≡ true) × ((not (no_duplicate m.flags) && not a.key_ok) ≡ false)

abbrev pub Got : Str → Map → Option Ptr × Map → Type 0
Got q m (p, m') =
    (p ≡ some (or_null (lookup q (entries m.root))))
    × IsValid m'
    × (entries m'.root ≡ with_slot q (entries m.root))
    × (m'.flags ≡ m.flags)

-- The new node in place.
linked :
    (m : Map) (q : Str) (xs ys : List Entry) (o : Option Tree)
    → IsValid m
    → xs ++ ys ≡ entries m.root
    → Under q xs
    → Over q ys
    → Yields (λ t. IsAvl t × (entries t ≡ xs ++ (q, 0) ∷ ys)) o
    → Yields (Got q m) (o >>= λ t. some (some 0, record m { root = t; count = m.count + 1 }))
linked m q xs ys none v e u o y = y
linked m q xs ys (some t) v e u o (a, g) =
    let missing : lookup q (entries m.root) ≡ none =
      rw (← e) (lookup-Under q xs ys u ∙ lookup-Over_nil q ys o) in
    let grown : entries t ≡ insert q 0 (entries m.root) =
      g ∙ sym (insert_between q 0 xs ys u o) ∙ ap (insert q 0) e in
    (
      rw missing,
      record {
        sorted = rw grown (insert-IsSorted q 0 _ v.sorted);
        balanced = a;
        counted = rw g (
            omega
              (arith, v.counted, ap length e, length-append xs ys, length-append xs ((q, 0) ∷ ys)));
      },
      rw (missing, with_slot) grown,
      refl,
    )

-- An empty copy of the key is as good as one that was allocated.
key_copied : (d k e : Bool) → (not d && not k) ≡ false → (not d && (not k && not e)) ≡ false
key_copied d k e h = ground (arith, h)

-- With memory, `map_get` does not fault; it returns the slot of the key, which is new and holds NULL
-- if the key was missing, and keeps the invariant.
pub map_get-Got :
    (a : Alloc) (m : Map) (q : Str) → IsValid m → Allocates a m → Yields (Got q m) (map_get a m q)
unfolding map_get get_at
map_get-Got a m q v al =
    go (descend q m.root [] []) (descend-Lands q m.root v.sorted)
      (descend-Open q m.root [] [] refl v.balanced tt)
  where
    go : (d : Descent) → Lands q (entries m.root) d → Open d → Yields (Got q m) (get_at a m q d)
    go (hit w) e o = (rw e, v, rw (e, with_slot), refl)
    go (miss above below) (e, u, o) (trail, f) =
        let copied = key_copied (no_duplicate m.flags) a.key_ok (length q == 0) al.1 in
        rw (al.0, copied)
          (linked m q _ _ (attach q above below) v e u o
            (both _ _ (attach-IsAvl q above below trail f) (entries-attach q above below)))

-- A lookup on the entries.
pub map_find-eq-lookup : (m : Map) (q : Str) → IsValid m → map_find m q ≡ lookup q (entries m.root)
unfolding map_find
map_find-eq-lookup m q v = find-eq-lookup m.root q v.sorted
