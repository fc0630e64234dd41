-- ===== src/Map/Iterator/Order.antt =====
-- The iterators of src/core/map.c against the entries.
use mathlib.Core.List.{append_assoc, append-nil}
use opensips_ng.Prelude.{
  ℕ, zero, suc, ◌≤◌, ◌≡◌, refl, sym, ap, ◌∙◌, Option, none, some, List, [], ◌∷◌, ◌++◌, arith,
  length, length-append,
}
use opensips_ng.Prelude.Int.{ℤ}
use opensips_ng.Map.Key.{Str}
use opensips_ng.Map.Tree.{Ptr, Tree, null, node, Frame, via_left, via_right, Map}
use opensips_ng.Map.Remove.{Location, at, leftmost}
use opensips_ng.Map.Entries.{Entry, entries, before, after}
use opensips_ng.Map.Iterator.{
  rightmost, first_of_tree, last_of_tree, map_first, map_last, up_next, next, up_prev, prev,
  iterator_next, iterator_prev, entry_at,
}

-- The entries from the iterator on.
abbrev pub upcoming : Option Location → List Entry
upcoming none = []
upcoming (some (at l k v b r path)) = (k, v) ∷ (entries r ++ after path)

-- The entries up to and with the iterator's.
abbrev pub passed : Option Location → List Entry
passed none = []
passed (some (at l k v b r path)) = before path ++ (entries l ++ (k, v) ∷ [])

upcoming-leftmost :
    (l : Tree) (k : Str) (v : Ptr) (b : ℤ) (r : Tree) (path : List Frame)
    → upcoming (some (leftmost l k v b r path)) ≡ entries (node l k v b r) ++ after path
unfolding leftmost entries after
upcoming-leftmost null k v b r path = refl
upcoming-leftmost (node ll lk lv lb lr) k v b r path =
    upcoming-leftmost ll lk lv lb lr (via_left k v b r ∷ path) ∙ simp append_assoc

passed-rightmost :
    (l : Tree) (k : Str) (v : Ptr) (b : ℤ) (r : Tree) (path : List Frame)
    → passed (some (rightmost l k v b r path)) ≡ before path ++ entries (node l k v b r)
unfolding rightmost entries before
passed-rightmost l k v b null path = refl
passed-rightmost l k v b (node rl rk rv rb rr) path =
    passed-rightmost rl rk rv rb rr (via_right l k v b ∷ path) ∙ simp append_assoc

upcoming-up_next : (t : Tree) (path : List Frame) → upcoming (up_next t path) ≡ after path
unfolding up_next after
upcoming-up_next t [] = refl
upcoming-up_next t (via_left k v b r ∷ path) = refl
upcoming-up_next t (via_right l k v b ∷ path) = upcoming-up_next (node l k v b t) path

passed-up_prev : (t : Tree) (path : List Frame) → passed (up_prev t path) ≡ before path
unfolding up_prev before
passed-up_prev t [] = refl
passed-up_prev t (via_right l k v b ∷ path) = refl
passed-up_prev t (via_left k v b r ∷ path) = passed-up_prev (node t k v b r) path

pub upcoming-next : (p : Location) → upcoming (some p) ≡ entry_at p ∷ upcoming (next p)
unfolding next entry_at entries after
upcoming-next (at l k v b null path) =
    ap (◌∷◌ (k, v)) (sym (upcoming-up_next (node l k v b null) path))
upcoming-next (at l k v b (node rl rk rv rb rr) path) =
    ap (◌∷◌ (k, v)) (sym (upcoming-leftmost rl rk rv rb rr (via_right l k v b ∷ path)))

pub passed-prev : (p : Location) → passed (some p) ≡ passed (prev p) ++ entry_at p ∷ []
unfolding prev entry_at entries before
passed-prev (at null k v b r path) =
    ap (λ (es : List Entry). es ++ (k, v) ∷ []) (sym (passed-up_prev (node null k v b r) path))
passed-prev (at (node ll lk lv lb lr) k v b r path) =
    rw (passed-rightmost ll lk lv lb lr (via_left k v b r ∷ path)) (simp append_assoc)

pub upcoming-first : (m : Map) → upcoming (map_first m) ≡ entries m.root
unfolding map_first entries before after
upcoming-first m = go m.root
  where
    go : (t : Tree) → upcoming (first_of_tree t) ≡ entries t
    go null = refl
    go (node l k v b r) = upcoming-leftmost l k v b r [] ∙ append-nil _

pub passed-last : (m : Map) → passed (map_last m) ≡ entries m.root
unfolding map_last entries before after
passed-last m = go m.root
  where
    go : (t : Tree) → passed (last_of_tree t) ≡ entries t
    go null = refl
    go (node l k v b r) = passed-rightmost l k v b r []

-- What a loop from `map_first` by `iterator_next` sees in `n` rounds.
unfoldable pub forwards : ℕ → Option Location → List Entry
unfolding iterator_next entry_at
forwards zero it = []
forwards (suc n) none = []
forwards (suc n) (some p) = entry_at p ∷ forwards n (iterator_next (some p)).1

unfoldable pub backwards : ℕ → Option Location → List Entry
unfolding iterator_prev entry_at
backwards zero it = []
backwards (suc n) none = []
backwards (suc n) (some p) = backwards n (iterator_prev (some p)).1 ++ entry_at p ∷ []

forwards-eq-upcoming :
    (n : ℕ) (it : Option Location) → length (upcoming it) ≤ n → forwards n it ≡ upcoming it
unfolding forwards
forwards-eq-upcoming zero none h = refl
forwards-eq-upcoming zero (some (at l k v b r path)) h = absurd (omega arith)
forwards-eq-upcoming (suc n) none h = refl
forwards-eq-upcoming (suc n) (some p) h =
    ap (◌∷◌ (entry_at p))
      (forwards-eq-upcoming n (next p) (omega (arith, ap length (upcoming-next p))))
    ∙ sym (upcoming-next p)

backwards-eq-passed :
    (n : ℕ) (it : Option Location) → length (passed it) ≤ n → backwards n it ≡ passed it
unfolding backwards
backwards-eq-passed zero none h = refl
backwards-eq-passed zero (some (at l k v b r path)) h = absurd (
    omega (
      arith,
      length-append (before path) (entries l ++ (k, v) ∷ []),
      length-append (entries l) ((k, v) ∷ []),
    ))
backwards-eq-passed (suc n) none h = refl
backwards-eq-passed (suc n) (some p) h =
    ap (λ (es : List Entry). es ++ entry_at p ∷ [])
      (backwards-eq-passed n (prev p) (
        omega
          (arith, ap length (passed-prev p), length-append (passed (prev p)) (entry_at p ∷ []))))
    ∙ sym (passed-prev p)

-- A loop from `map_first` by `iterator_next` with at least as many rounds as entries sees all entries,
-- in the order of the keys.
pub forwards-first :
    (m : Map) (n : ℕ) → length (entries m.root) ≤ n → forwards n (map_first m) ≡ entries m.root
forwards-first m n h =
    forwards-eq-upcoming n (map_first m) (omega (arith, ap length (upcoming-first m)))
    ∙ upcoming-first m

-- A loop from `map_last` by `iterator_prev` with at least as many rounds as entries sees all entries,
-- from the end; `backwards` lists what it sees last first.
pub backwards-last :
    (m : Map) (n : ℕ) → length (entries m.root) ≤ n → backwards n (map_last m) ≡ entries m.root
backwards-last m n h =
    backwards-eq-passed n (map_last m) (omega (arith, ap length (passed-last m))) ∙ passed-last m
