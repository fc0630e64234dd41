-- ===== src/Map/Walk/Release.antt =====
-- `map_destroy` of src/core/map.c against the entries.
use mathlib.Core.List.{append_assoc, append-nil}
use opensips_ng.Prelude.{
  ℕ, zero, suc, ◌+◌, ◌*◌, ◌<◌, ◌≤◌, ◌≡◌, refl, sym, ap, ◌∙◌, Bool, true, false, not, ◌&&◌, ◌==◌,
  if◌then◌else◌, some, List, [], ◌∷◌, ◌++◌, arith, length, length-append,
}
use opensips_ng.Map.Key.{Str}
use opensips_ng.Map.Tree.{Ptr, Tree, null, node, Map, no_duplicate}
use opensips_ng.Map.Entries.{Entry, entries}
use opensips_ng.Map.Walk.{
  Event, destroy_value, free_key, free_node, free_map, release, destroy_loop, map_destroy,
}

-- What has to happen to the value of an entry: nothing to a NULL value, or with no function to destroy it.
abbrev value_event : Bool → Ptr → List Event
value_event false v = []
value_event true zero = []
value_event true (suc v) = destroy_value (suc v) ∷ []

-- And to its key: nothing where the keys are the caller's.
abbrev key_event : Bool → Str → List Event
key_event true k = []
key_event false k = free_key k ∷ []

-- What has to happen to the entries, one after the other.
abbrev pub releases : Bool → ℕ → List Entry → List Event
releases d flags [] = []
releases d flags ((k, v) ∷ es) =
    value_event d v ++ (key_event (no_duplicate flags) k ++ (free_node k ∷ releases d flags es))

release-releases :
    (d : Bool) (flags : ℕ) (k : Str) (v : Ptr) (es : List Entry)
    → release d flags k v ++ releases d flags es ≡ releases d flags ((k, v) ∷ es)
unfolding release
release-releases d flags k v es = go d (no_duplicate flags) v
  where
    go :
        (d' b : Bool) (v : Ptr)
        → ((if d' && not (v == 0) then destroy_value v ∷ [] else [])
              ++ ((if b then [] else free_key k ∷ []) ++ (free_node k ∷ [])))
            ++ releases d flags es
          ≡ value_event d' v ++ (key_event b k ++ (free_node k ∷ releases d flags es))
    go false false v = refl
    go false true v = refl
    go true false zero = refl
    go true true zero = refl
    go true false (suc v) = let e : (suc v == 0) ≡ false = ground arith in rw e refl
    go true true (suc v) = let e : (suc v == 0) ≡ false = ground arith in rw e refl

-- The rounds that the loop needs: a node that is not on the right spine is turned over once.
weight : Tree → ℕ
weight null = 0
weight (node l k v b r) = 1 + 2 * length (entries l) + weight r

weight-le : (t : Tree) → weight t ≤ 2 * length (entries t)
unfolding weight entries
weight-le null = omega arith
weight-le (node l k v b r) =
    omega (arith, weight-le r, length-append (entries l) ((k, v) ∷ entries r))

destroy_loop-releases :
    (n : ℕ) (d : Bool) (flags : ℕ) (t : Tree) (acc : List Event)
    → weight t < n
    → destroy_loop n d flags t acc ≡ some (acc ++ releases d flags (entries t))
unfolding destroy_loop entries weight
destroy_loop-releases zero d flags t acc h = elim h [ ]
destroy_loop-releases (suc n) d flags null acc h = rw append-nil
destroy_loop-releases (suc n) d flags (node null k v b r) acc h =
    destroy_loop-releases n d flags r (acc ++ release d flags k v) (omega arith)
    ∙ ap some (append_assoc acc (release d flags k v) (releases d flags (entries r)))
    ∙ ap (λ l. some (acc ++ l)) (release-releases d flags k v (entries r))
destroy_loop-releases (suc n) d flags (node (node ll lk lv lb lr) k v b r) acc h =
    destroy_loop-releases n d flags (node ll lk lv lb (node lr k v b r)) acc
      (omega (arith, length-append (entries ll) ((lk, lv) ∷ entries lr)))
    ∙ ap (λ (es : List Entry). some (acc ++ releases d flags es))
        (sym (append_assoc (entries ll) ((lk, lv) ∷ entries lr) ((k, v) ∷ entries r)))

-- With more than two rounds for each node, the loop ends. In the order of the keys, for each entry once, it destroys
-- the value if it is not NULL and there is a function for that, frees the key if the map has duplicated it, and
-- frees the node; the map is freed last.
pub map_destroy-releases :
    (m : Map) (d : Bool) (fuel : ℕ)
    → 2 * length (entries m.root) < fuel
    → map_destroy fuel d m ≡ some (releases d m.flags (entries m.root) ++ free_map ∷ [])
unfolding map_destroy
map_destroy-releases m d fuel h =
    rw (
      destroy_loop-releases fuel d m.flags m.root [] (omega (arith, weight-le m.root)),
      map_destroy,
    )
