-- ===== src/Map/Entries/Shrink.antt =====
-- `map_remove` and `delete_node` of src/core/map.c against the entries.
use mathlib.Core.List.{append_assoc, append-nil}
use mathlib.Core.Path.{subst}
use opensips_ng.Prelude.{
  ◌≡◌, refl, sym, ap, ◌∙◌, inl, inr, Option, none, some, List, [], ◌∷◌, ◌++◌, All-append,
  Ordering-cases, Each, Bool-cases,
}
use opensips_ng.Prelude.Int.{ℤ, pos, negsuc, inc, dec, ◌==ℤ◌}
use opensips_ng.Map.Key.{Str, str_cmp, lt_of_gt}
use opensips_ng.Map.Tree.{Ptr, Tree, null, node, Frame, via_left, via_right, link, plug}
use opensips_ng.Map.Remove.{
  Location, at, locate, leftmost, replace, unlink, Round, stop, climb, fault, climb_or_fault,
  shift_left, shift_right, round, shrink,
}
use opensips_ng.Map.Entries.{
  Entry, entries, before, after, entries-plug, Under, Over, IsSorted, lookup, erase,
}
use opensips_ng.Map.Entries.Sorted.{
  Under-trans, Over-trans, Under-congr, IsSorted-split, lookup-Under, lookup-Over_nil, erase-Under,
  erase-Over,
}
use opensips_ng.Map.Entries.Grow.{SameEntries, entries-double}

-- A location holds an equal key, with the smaller keys left of it and the greater ones right of it;
-- without one the key is missing.
abbrev pub Finds : Str → List Entry → Option Location → Type 0
Finds q es none = (lookup q es ≡ none) × (erase q es ≡ es)
Finds q es (some (at l k v b r path)) =
    (lookup q es ≡ some v) × (erase q es ≡ before path ++ (entries l ++ (entries r ++ after path)))

locate-Finds_path :
    (q : Str) (t : Tree) (path : List Frame) (es : List Entry)
    → before path ++ (entries t ++ after path) ≡ es
    → IsSorted (entries t)
    → Under q (before path)
    → Over q (after path)
    → Finds q es (locate q t path)
unfolding locate entries before after lookup erase
locate-Finds_path q null path es e s u o = rw (← e) (
  lookup-Under q (before path) _ u ∙ lookup-Over_nil q _ o,
  erase-Under q (before path) _ u ∙ ap (◌++◌ (before path)) (erase-Over q _ o),
)
locate-Finds_path q (node l k v b r) path es e s u o =
    let (ul, sl, or, sr) = IsSorted-split (entries l) k v (entries r) s in
    elim (Ordering-cases (str_cmp q k)) [
      | inl h ↦
          rw (h, locate)
            (locate-Finds_path q l (via_left k v b r ∷ path) es (simp append_assoc at e) sl u
              (h, All-append _ _ _ (Over-trans q k _ h or) o))
      | inr (inl h) ↦
          let ul' = Under-congr q k _ h ul in
          rw (h, locate)
            (rw (← e) (
              (lookup-Under q (before path) _ u
                  ∙ rw append_assoc (lookup-Under q (entries l) _ ul' ∙ rw (h, lookup))),
              (erase-Under q (before path) _ u
                  ∙ ap (◌++◌ (before path))
                      (rw append_assoc (erase-Under q (entries l) _ ul' ∙ rw (h, erase)))),
            ))
      | inr (inr h) ↦
          let h' = lt_of_gt q k h in
          rw (h, locate)
            (locate-Finds_path q r (via_right l k v b ∷ path) es
              (simp append_assoc (simp append_assoc at e)) sr
              (All-append _ _ _ u (All-append _ _ _ (Under-trans q k _ h' ul) (h', tt))) o)
    ]

pub locate-Finds : (q : Str) (t : Tree) → IsSorted (entries t) → Finds q (entries t) (locate q t [])
unfolding before after
locate-Finds q t s = locate-Finds_path q t [] (entries t) (append-nil (entries t)) s tt tt

before-append : (p q : List Frame) → before (p ++ q) ≡ before q ++ before p
unfolding before
before-append [] q = sym (append-nil (before q))
before-append (via_left k v b r ∷ p) q = before-append p q
before-append (via_right l k v b ∷ p) q = rw (before-append p q, append_assoc)

after-append : (p q : List Frame) → after (p ++ q) ≡ after p ++ after q
unfolding after
after-append [] q = refl
after-append (via_left k v b r ∷ p) q = ap (◌∷◌ (k, v)) (rw (after-append p q, append_assoc))
after-append (via_right l k v b ∷ p) q = after-append p q

-- The leftmost node of a subtree with the entries `es` holds the first of them.
abbrev IsFirst : List Entry → Location → Type 0
IsFirst es (at l k v b r low) = (before low ≡ []) × ((k, v) ∷ (entries r ++ after low) ≡ es)

leftmost-IsFirst :
    (l : Tree) (k : Str) (v : Ptr) (b : ℤ) (r : Tree) (low : List Frame) (es : List Entry)
    → before low ≡ []
    → entries l ++ (k, v) ∷ (entries r ++ after low) ≡ es
    → IsFirst es (leftmost l k v b r low)
unfolding leftmost entries before after
leftmost-IsFirst null k v b r low es z e = (z, e)
leftmost-IsFirst (node ll lk lv lb lr) k v b r low es z e =
    leftmost-IsFirst ll lk lv lb lr (via_left k v b r ∷ low) es z (simp append_assoc at e)

abbrev Hangs : List Entry → Tree × List Frame → Type 0
Hangs es (t, path) = before path ++ (entries t ++ after path) ≡ es

replace-Hangs :
    (l : Tree) (b : ℤ) (path : List Frame) (es : List Entry) (s : Location)
    → IsFirst es s
    → Hangs (before path ++ (entries l ++ (es ++ after path))) (replace l b path s)
unfolding replace before after
replace-Hangs l b path es (at sl sk sv sb sr low) (z, e) =
    rw (before-append, after-append, z, ← e) (simp (append-nil, append_assoc))

-- Unlinking a node takes its entry out.
pub unlink-Hangs :
    (l : Tree) (k : Str) (v : Ptr) (b : ℤ) (r : Tree) (path : List Frame)
    → Hangs (before path ++ (entries l ++ (entries r ++ after path))) (unlink (at l k v b r path))
unfolding unlink entries before after
unlink-Hangs l k v b null path = refl
unlink-Hangs l k v b (node null rk rv rb rr) path = simp append_assoc
unlink-Hangs l k v b (node (node sl sk sv sb sr) rk rv rb rr) path = replace-Hangs l b path _ _ (
    leftmost-IsFirst sl sk sv sb sr (via_left rk rv rb rr ∷ []) _ refl
      (simp (append-nil, append_assoc)))

abbrev Keeps : List Entry → Round → Type 0
Keeps es (stop w) = entries w ≡ es
Keeps es (climb w) = entries w ≡ es
Keeps es fault = Unit

climb_or_fault-Keeps :
    (es : List Entry) (o : Option Tree) → Each (SameEntries es) o → Keeps es (climb_or_fault o)
unfolding climb_or_fault
climb_or_fault-Keeps es none e = tt
climb_or_fault-Keeps es (some w) e = e

shift_left-Keeps :
    (l : Tree) (k : Str) (v : Ptr) (r : Tree)
    → Keeps (entries l ++ (k, v) ∷ entries r) (shift_left l k v r)
unfolding shift_left entries
shift_left-Keeps l k v null = tt
shift_left-Keeps l k v (node xl kx vx bx xr) = elim (Bool-cases (bx ==ℤ negsuc 0)) [
  | inl e ↦ rw e (climb_or_fault-Keeps _ _ (entries-double l k v xl kx vx xr))
  | inr e ↦ rw e (elim (Bool-cases (bx ==ℤ pos 0)) [
    | inl e' ↦ rw e' (simp append_assoc)
    | inr e' ↦ rw e' (simp append_assoc)
  ])
]

shift_right-Keeps :
    (l : Tree) (k : Str) (v : Ptr) (r : Tree)
    → Keeps (entries l ++ (k, v) ∷ entries r) (shift_right l k v r)
unfolding shift_right entries
shift_right-Keeps null k v r = tt
shift_right-Keeps (node xl kx vx bx xr) k v r = elim (Bool-cases (bx ==ℤ pos 1)) [
  | inl e ↦ rw e (climb_or_fault-Keeps _ _ (rw append_assoc (entries-double xl kx vx xr k v r)))
  | inr e ↦ rw e (elim (Bool-cases (bx ==ℤ pos 0)) [
    | inl e' ↦ rw e' (simp append_assoc)
    | inr e' ↦ rw e' (simp append_assoc)
  ])
]

round-Keeps : (f : Frame) (t : Tree) → Keeps (entries (link f t)) (round f t)
unfolding round link entries
round-Keeps (via_left k v b r) t = elim (Bool-cases (inc b ==ℤ pos 1)) [
  | inl e ↦ rw e refl
  | inr e ↦ rw e (elim (Bool-cases (inc b ==ℤ pos 2)) [
    | inl e' ↦ rw e' (shift_left-Keeps t k v r)
    | inr e' ↦ rw e' refl
  ])
]
round-Keeps (via_right l k v b) t = elim (Bool-cases (dec b ==ℤ negsuc 0)) [
  | inl e ↦ rw e refl
  | inr e ↦ rw e (elim (Bool-cases (dec b ==ℤ negsuc 1)) [
    | inl e' ↦ rw e' (shift_right-Keeps l k v t)
    | inr e' ↦ rw e' refl
  ])
]

-- One frame moved from the path to the tree.
entries-link :
    (f : Frame) (path : List Frame) (t : Tree)
    → before path ++ (entries (link f t) ++ after path)
      ≡ before (f ∷ path) ++ (entries t ++ after (f ∷ path))
unfolding plug
entries-link f path t = sym (entries-plug path (link f t)) ∙ entries-plug (f ∷ path) t

-- The rounds of the loop keep the entries.
pub entries-shrink :
    (path : List Frame) (t : Tree)
    → Each (SameEntries (before path ++ (entries t ++ after path))) (shrink path t)
unfolding shrink before after
entries-shrink [] t = sym (append-nil (entries t))
entries-shrink (f ∷ path) t = go (round f t) (round-Keeps f t) (entries-shrink path)
  where
    around : List Entry → List Entry
    around es = before path ++ (es ++ after path)

    go :
        (x : Round)
        → Keeps (entries (link f t)) x
        → ((w : Tree) → Each (SameEntries (around (entries w))) (shrink path w))
        → Each
            (SameEntries (before (f ∷ path) ++ (entries t ++ after (f ∷ path))))
            (elim x [ stop w ↦ some (plug path w) | climb w ↦ shrink path w | fault ↦ none ])
    go (stop w) e rec = entries-plug path w ∙ ap around e ∙ entries-link f path t
    go (climb w) e rec =
        subst (λ es. Each (SameEntries es) (shrink path w)) (ap around e ∙ entries-link f path t)
          (rec w)
    go fault e rec = tt
