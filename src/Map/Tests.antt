-- ===== src/Map/Tests.antt =====
-- src/core/map.c on small maps.
use Prim.Native.Nat.Ordering.{lt, eq, gt}
use opensips_ng.Prelude.{
  ℕ, ◌+◌, ◌≡◌, refl, true, false, Option, some, [], ◌∷◌, ◌++◌, ◌>>=◌, arith, Yields,
}
use opensips_ng.Prelude.Int.{pos, negsuc, inc}
use opensips_ng.Map.Key.{Str, str_cmp}
use opensips_ng.Map.Tree.{Ptr, null, node, via_left, Map, map_create, map_find}
use opensips_ng.Map.Insert.{Alloc, map_get, map_put}
use opensips_ng.Map.Remove.{Location, at, map_remove}
use opensips_ng.Map.Entries.{entries, lookup}
use opensips_ng.Map.Refine.{IsValid, Got, map_get-Got, map_find-eq-lookup}
use opensips_ng.Map.Refine.Put.{Put, map_put-Put, map_find-map_put}
use opensips_ng.Map.Refine.Remove.{Removed, map_remove-Removed}
use opensips_ng.Map.Iterator.{map_first, next, prev}
use opensips_ng.Map.Iterator.Order.{forwards, forwards-first}
use opensips_ng.Map.Iterator.Inverse.{prev-next}
use opensips_ng.Map.Walk.{free_map, map_destroy, map_for_each}
use opensips_ng.Map.Walk.Release.{releases, map_destroy-releases}
use opensips_ng.Map.Walk.Visit.{Spined, run_over, map_for_each-run_over, map_for_each-left_spine}

abbrev a_key : Str
a_key = b'a' ∷ []

abbrev b_key : Str
b_key = b'b' ∷ []

abbrev c_key : Str
c_key = b'c' ∷ []

abbrev d_key : Str
d_key = b'd' ∷ []

-- The keys "a" and "b", with "a" at the root's left.
abbrev two : Map
two = record {
  root = node (node null a_key 7 (pos 0) null) b_key 8 (negsuc 0) null;
  count = 2;
  flags = 0;
  ret_code = 0;
}

two-IsValid : IsValid two
unfolding str_cmp entries
two-IsValid = record {
  sorted = ((refl, tt), (tt, tt));
  balanced = (
    record { differ = refl; right_le = omega arith; left_le = omega arith },
    (record { differ = refl; right_le = omega arith; left_le = omega arith }, tt, tt),
    tt,
  );
  counted = refl;
}

abbrev memory : Alloc
memory = record { node_ok = true; key_ok = true }

abbrev no_memory : Alloc
no_memory = record { node_ok = false; key_ok = false }

map_get-Got_example : Yields (Got c_key two) (map_get memory two c_key)
map_get-Got_example = map_get-Got memory two c_key two-IsValid (refl, refl)

map_put-Put_example : Yields (Put c_key 9 two) (map_put memory two c_key 9)
map_put-Put_example = map_put-Put memory two c_key 9 two-IsValid (refl, refl)

map_remove-Removed_example : Yields (Removed b_key two) (map_remove two b_key)
map_remove-Removed_example = map_remove-Removed two b_key two-IsValid

map_find-eq-lookup_example : map_find two a_key ≡ lookup a_key (entries two.root)
map_find-eq-lookup_example = map_find-eq-lookup two a_key two-IsValid

map_find-map_put_example :
    Yields
      (λ r. map_find r.1 c_key ≡ elim (str_cmp c_key c_key) [
        | eq ↦ some 9
        | lt ↦ map_find two c_key
        | gt ↦ map_find two c_key
      ])
      (map_put memory two c_key 9)
map_find-map_put_example = map_find-map_put memory two c_key c_key 9 two-IsValid (refl, refl)

forwards-first_example : forwards 2 (map_first two) ≡ entries two.root
unfolding entries
forwards-first_example = forwards-first two 2 (omega arith)

abbrev first_node : Location
first_node = at null a_key 7 (pos 0) null (via_left b_key 8 (negsuc 0) null ∷ [])

abbrev second_node : Location
second_node = at (node null a_key 7 (pos 0) null) b_key 8 (negsuc 0) null []

prev-next_example : prev second_node ≡ some first_node
unfolding next
prev-next_example = prev-next first_node refl

map_destroy-releases_example :
    map_destroy 5 true two ≡ some (releases true two.flags (entries two.root) ++ free_map ∷ [])
unfolding entries
map_destroy-releases_example = map_destroy-releases two true 5 (omega arith)

-- A callback that adds the values up.
abbrev adds : ℕ → Str → Ptr → ℕ × ℕ
adds s k v = (s + v, 0)

map_for_each-run_over_example : map_for_each adds 0 two ≡ (run_over adds (entries two.root) 0, two)
unfolding entries
map_for_each-run_over_example = map_for_each-run_over adds 0 two ((λ s. refl), ((λ s. refl), tt))

-- One that adds the values up, and fails.
abbrev fails : ℕ → Str → Ptr → ℕ × ℕ
fails s k v = (s + v, 1)

map_for_each-left_spine_example :
    Spined fails two.root 0 ((map_for_each fails 0 two).0, (map_for_each fails 0 two).1.ret_code)
map_for_each-left_spine_example =
    map_for_each-left_spine fails 0 two ((λ s. omega arith), ((λ s. omega arith), tt))

-- The runs of the code: three keys put in order turn into a tree with the second at the root.
abbrev built : Option Map
built = do
  m ← map_create true 0 0
  (_, m1) ← map_put memory m a_key 1
  (_, m2) ← map_put memory m1 b_key 2
  (_, m3) ← map_put memory m2 c_key 3
  some m3

built_result :
    built
    ≡ some (record {
      root = node (node null a_key 1 (pos 0) null) b_key 2 (pos 0) (node null c_key 3 (pos 0) null);
      count = 3;
      flags = 0;
      ret_code = 0;
    })
unfolding map_create map_put map_get str_cmp inc
built_result = refl
