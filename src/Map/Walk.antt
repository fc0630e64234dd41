-- ===== src/Map/Walk.antt =====
-- src/core/map.c: `map_for_each` with `process_all`, and `map_destroy`.
pub mod Visit
pub mod Release
use Prim.Native.Nat.{bit_or}
use opensips_ng.Prelude.{
  ℕ, zero, suc, Bool, not, ◌&&◌, Option, none, some, List, [], ◌∷◌, ◌++◌, ◌==◌, if◌then◌else◌,
}
use opensips_ng.Map.Key.{Str}
use opensips_ng.Map.Tree.{Ptr, Tree, null, node, Map, no_duplicate}

-- The callback `f( param, p->key, p->val)` over the state `S` that it works on; the result is its
-- return code, an int as its bit pattern.
module _ {S : Type 0} (f : S → Str → Ptr → S × ℕ) where
  -- The state, and `tree->ret_code`. The call for a NULL subtree is guarded by the caller.
  unfoldable pub process_all : Tree → S × ℕ → S × ℕ
  process_all null s = s
  process_all (node l k v b r) s =
      if s.1 == 0
      then (let s₁ = process_all l s in
          let called = f s₁.0 k v in process_all r (called.0, bit_or s₁.1 called.1))
      else s

  unfoldable pub map_for_each : S → Map → S × Map
  unfolding process_all
  map_for_each s m =
      let done = process_all m.root (s, 0) in (done.0, record m { ret_code = done.1 })

-- What `map_destroy` does with memory.
pub data Event : Type 0 where
  destroy_value : Ptr → Event
  free_key : Str → Event
  free_node : Str → Event
  free_map : Event

-- The release of one node: `destroy_given` is `destroy != NULL`.
unfoldable pub release : Bool → ℕ → Str → Ptr → List Event
release destroy_given flags k v =
    (if destroy_given && not (v == 0) then destroy_value v ∷ [] else [])
    ++ ((if no_duplicate flags then [] else free_key k ∷ []) ++ free_node k ∷ [])

-- The loop of `map_destroy`: it frees a node with no left child, and turns any other to the right.
-- `none` means that the fuel ran out.
unfoldable pub destroy_loop : ℕ → Bool → ℕ → Tree → List Event → Option (List Event)
unfolding release
destroy_loop zero d flags t acc = none
destroy_loop (suc n) d flags null acc = some acc
destroy_loop (suc n) d flags (node null k v b r) acc =
    destroy_loop n d flags r (acc ++ release d flags k v)
destroy_loop (suc n) d flags (node (node ll lk lv lb lr) k v b r) acc =
    destroy_loop n d flags (node ll lk lv lb (node lr k v b r)) acc

unfoldable pub map_destroy : ℕ → Bool → Map → Option (List Event)
unfolding destroy_loop
map_destroy fuel d m = elim (destroy_loop fuel d m.flags m.root []) [
  | none ↦ none
  | some events ↦ some (events ++ free_map ∷ [])
]
