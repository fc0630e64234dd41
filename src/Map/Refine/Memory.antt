-- ===== src/Map/Refine/Memory.antt =====
-- `map_get` of src/core/map.c where memory runs out.
use opensips_ng.Prelude.{◌≡◌, false, none, some, []}
use opensips_ng.Map.Key.{Str}
use opensips_ng.Map.Tree.{Map}
use opensips_ng.Map.Insert.{Alloc, Descent, hit, miss, descend, get_at, map_get}
use opensips_ng.Map.Entries.{entries, lookup}
use opensips_ng.Map.Entries.Grow.{Lands, descend-Lands}
use opensips_ng.Map.Refine.{IsValid}

-- Without memory for a node a missing key is not added: `map_get` returns NULL and changes nothing.
pub map_get_no_memory :
    (a : Alloc) (m : Map) (q : Str)
    → IsValid m
    → a.node_ok ≡ false
    → lookup q (entries m.root) ≡ none
    → map_get a m q ≡ some (none, m)
unfolding map_get get_at
map_get_no_memory a m q v n e = go (descend q m.root [] []) (descend-Lands q m.root v.sorted)
  where
    go : (d : Descent) → Lands q (entries m.root) d → get_at a m q d ≡ some (none, m)
    go (hit w) l = cc
    go (miss above below) l = rw n
