-- ===== src/Map/Entries/Find.antt =====
-- The descents of src/core/map.c against the entries: `find` and `store`.
use opensips_ng.Prelude.{◌≡◌, refl, sym, ◌∙◌, inl, inr, ◌∷◌, Ordering-cases}
use opensips_ng.Map.Key.{Str, str_cmp, lt_of_gt}
use opensips_ng.Map.Tree.{Tree, null, node, find}
use opensips_ng.Map.Entries.{entries, IsSorted, lookup}
use opensips_ng.Map.Entries.Sorted.{
  Under-trans, Over-trans, Under-congr, IsSorted-split, lookup-Under, lookup-Over,
}

-- `map_find` reads the entries as an association list.
pub find-eq-lookup : (t : Tree) (q : Str) → IsSorted (entries t) → find t q ≡ lookup q (entries t)
unfolding find entries lookup
find-eq-lookup null q s = refl
find-eq-lookup (node l k v b r) q s =
    let (u, sl, o, sr) = IsSorted-split (entries l) k v (entries r) s in
    elim (Ordering-cases (str_cmp q k)) [
      | inl h ↦
          rw (h, find)
            (find-eq-lookup l q sl
              ∙ sym (lookup-Over q (entries l) ((k, v) ∷ entries r) (h, Over-trans q k _ h o)))
      | inr (inl h) ↦
          rw (h, find)
            (sym (
              lookup-Under q (entries l) ((k, v) ∷ entries r) (Under-congr q k _ h u)
              ∙ rw (h, lookup)))
      | inr (inr h) ↦
          rw (h, find)
            (sym (
              lookup-Under q (entries l) ((k, v) ∷ entries r) (Under-trans q k _ (lt_of_gt q k h) u)
              ∙ rw (h, lookup) (sym (find-eq-lookup r q sr))))
    ]
