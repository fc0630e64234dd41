-- ===== src/Map/Refine/Put.antt =====
-- `map_put` of src/core/map.c against the sorted association list.
use Prim.Native.Nat.Ordering.{lt, eq, gt}
use mathlib.Core.Option.{some-injective}
use opensips_ng.Prelude.{
  ◌≡◌, sym, ap, ◌∙◌, inl, inr, Option, none, some, List, ◌==◌, if◌then◌else◌, Option-cases, Yields,
  ◌>>=◌,
}
use opensips_ng.Map.Key.{Str, str_cmp}
use opensips_ng.Map.Tree.{Ptr, Map, map_find}
use opensips_ng.Map.Insert.{Alloc, map_get, put_slot, map_put}
use opensips_ng.Map.Entries.{Entry, entries, lookup, insert}
use opensips_ng.Map.Entries.Sorted.{insert-IsSorted}
use opensips_ng.Map.Entries.Store.{
  entries-store, length-insert_found, lookup-insert_self, insert-insert, lookup-insert,
}
use opensips_ng.Map.Balance.{store-IsAvl}
use opensips_ng.Map.Refine.{
  IsValid, with_slot, or_null, Allocates, Got, map_get-Got, map_find-eq-lookup,
}

-- What `map_put` returns: the value replaced, and NULL if there was none or it is the new one.
abbrev pub replaced : Ptr → Option Ptr → Ptr
replaced item old = if or_null old == item then 0 else or_null old

abbrev pub Put : Str → Ptr → Map → Ptr × Map → Type 0
Put q item m (p, m') =
    (p ≡ replaced item (lookup q (entries m.root)))
    × IsValid m'
    × (entries m'.root ≡ insert q item (entries m.root))
    × (m'.flags ≡ m.flags)

lookup-with_slot :
    (q : Str) (es : List Entry) → lookup q (with_slot q es) ≡ some (or_null (lookup q es))
lookup-with_slot q es = elim (Option-cases (lookup q es)) [
  | inl e ↦ rw (e, with_slot) (lookup-insert_self q 0 es)
  | inr (v, e) ↦ rw (e, with_slot) e
]

insert-with_slot :
    (q : Str) (w : Ptr) (es : List Entry) → insert q w (with_slot q es) ≡ insert q w es
insert-with_slot q w es = elim (Option-cases (lookup q es)) [
  | inl e ↦ rw (e, with_slot) (insert-insert q w 0 es)
  | inr (v, e) ↦ rw (e, with_slot)
]

put_slot-Put :
    (q : Str) (item : Ptr) (m : Map) (r : Option Ptr × Map)
    → Got q m r
    → Put q item m (put_slot q item r)
unfolding put_slot
put_slot-Put q item m (none, m') (p, v, e, f) = cc
put_slot-Put q item m (some old, m') (p, v, e, f) =
    let es = entries m.root in
    let slot : lookup q (entries m'.root) ≡ some old = rw e (lookup-with_slot q es ∙ sym p) in
    let stored = entries-store m'.root q item v.sorted slot in
    (
      rw (some-injective _ _ p),
      record {
        sorted = rw stored (insert-IsSorted q item _ v.sorted);
        balanced = store-IsAvl m'.root q item v.balanced;
        counted =
            rw stored
              (v.counted ∙ sym (length-insert_found q item (entries m'.root) slot v.sorted));
      },
      stored ∙ ap (insert q item) e ∙ insert-with_slot q item es,
      f,
    )

-- With memory, `map_put` writes the entry of the key and keeps the invariant.
pub map_put-Put :
    (a : Alloc) (m : Map) (q : Str) (item : Ptr)
    → IsValid m
    → Allocates a m
    → Yields (Put q item m) (map_put a m q item)
unfolding map_put
map_put-Put a m q item v al = go (map_get a m q) (map_get-Got a m q v al)
  where
    go :
        (o : Option (Option Ptr × Map))
        → Yields (Got q m) o
        → Yields (Put q item m) (o >>= λ s. some (put_slot q item s))
    go none y = y
    go (some r) y = put_slot-Put q item m r y

-- What a lookup reads after a `map_put`: the new value at the keys equal to the one put, the old value
-- at all others.
pub map_find-map_put :
    (a : Alloc) (m : Map) (q p : Str) (item : Ptr)
    → IsValid m
    → Allocates a m
    → Yields
        (λ r.
          map_find r.1 p
          ≡ elim (str_cmp p q) [ eq ↦ some item | lt ↦ map_find m p | gt ↦ map_find m p ])
        (map_put a m q item)
map_find-map_put a m q p item v al = go (map_put a m q item) (map_put-Put a m q item v al)
  where
    go :
        (o : Option (Ptr × Map))
        → Yields (Put q item m) o
        → Yields
            (λ r.
              map_find r.1 p
              ≡ elim (str_cmp p q) [ eq ↦ some item | lt ↦ map_find m p | gt ↦ map_find m p ])
            o
    go none y = y
    go (some (_, m')) (_, v', e, _) =
        map_find-eq-lookup m' p v'
        ∙ ap (lookup p) e
        ∙ lookup-insert q p item (entries m.root)
        ∙ ap (λ (x : Option Ptr). elim (str_cmp p q) [ eq ↦ some item | lt ↦ x | gt ↦ x ])
            (sym (map_find-eq-lookup m p v))
