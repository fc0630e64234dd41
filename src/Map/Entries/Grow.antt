-- ===== src/Map/Entries/Grow.antt =====
-- `map_get` of src/core/map.c against the entries: where the descent ends, and what linking the new
-- node and rotating does to the in-order traversal.
use mathlib.Core.List.{append_assoc, append-nil}
use opensips_ng.Prelude.{
  ◌≡◌, refl, sym, ap, ◌∙◌, inl, inr, Bool, true, false, Option, none, some, List, [], ◌∷◌, ◌++◌,
  if◌then◌else◌, All-append, Ordering-cases, ◌>>=◌, Each, Bool-cases,
}
use opensips_ng.Prelude.Int.{pos, negsuc, ◌==ℤ◌}
use opensips_ng.Map.Key.{Str, str_cmp, lt_of_gt}
use opensips_ng.Map.Tree.{Ptr, Tree, null, node, Frame, via_left, via_right, link, plug}
use opensips_ng.Map.Insert.{
  Descent, hit, miss, descend, bump, retrace, double, rotate_left_heavy, rotate_right_heavy,
  rebalance, attach,
}
use opensips_ng.Map.Entries.{
  Entry, entries, before, after, entries-plug, plug-append, Under, Over, IsSorted, lookup,
}
use opensips_ng.Map.Entries.Sorted.{
  Under-trans, Over-trans, Under-congr, IsSorted-split, lookup-Under,
}

-- A hit reads the entry of the key; a miss ends at the place where the key belongs.
abbrev pub Lands : Str → List Entry → Descent → Type 0
Lands q es (hit v) = lookup q es ≡ some v
Lands q es (miss above below) =
    let path = below ++ above in
    (before path ++ after path ≡ es) × Under q (before path) × Over q (after path)

-- Moving the frames above a new `y` keeps the path.
path_kept :
    (c : Bool) (below above : List Frame)
    → (if c then below else []) ++ (if c then above else below ++ above) ≡ below ++ above
path_kept true below above = refl
path_kept false below above = refl

descend-Lands_path :
    (q : Str) (t : Tree) (above below path : List Frame) (es : List Entry)
    → below ++ above ≡ path
    → before path ++ (entries t ++ after path) ≡ es
    → IsSorted (entries t)
    → Under q (before path)
    → Over q (after path)
    → Lands q es (descend q t above below)
unfolding descend entries before after lookup
descend-Lands_path q null above below path es p e s u o = rw p (e, u, o)
descend-Lands_path q (node l k v b r) above below path es p e s u o =
    let (ul, sl, or, sr) = IsSorted-split (entries l) k v (entries r) s in
    let kept = path_kept (b ==ℤ pos 0) below above ∙ p in
    elim (Ordering-cases (str_cmp q k)) [
      | inl h ↦
          rw (h, descend)
            (descend-Lands_path q l _ _ (via_left k v b r ∷ path) es
              (ap (◌∷◌ (via_left k v b r)) kept) (simp append_assoc at e) sl u
              (h, All-append _ _ _ (Over-trans q k _ h or) o))
      | inr (inl h) ↦
          rw (h, descend)
            (ap (lookup q) (sym e)
              ∙ lookup-Under q (before path) _ u
              ∙ rw append_assoc
                  (lookup-Under q (entries l) _ (Under-congr q k _ h ul) ∙ rw (h, lookup)))
      | inr (inr h) ↦
          rw (h, descend)
            (descend-Lands_path q r _ _ (via_right l k v b ∷ path) es
              (ap (◌∷◌ (via_right l k v b)) kept) (simp append_assoc (simp append_assoc at e)) sr
              (All-append _ _ _ u
                (All-append _ _ _ (Under-trans q k _ (lt_of_gt q k h) ul) (lt_of_gt q k h, tt)))
              o)
    ]

before-bump : (path : List Frame) (f : Frame) → before (bump f ∷ path) ≡ before (f ∷ path)
unfolding before bump
before-bump path (via_left k v b r) = refl
before-bump path (via_right l k v b) = refl

entries-link-bump : (f : Frame) (t : Tree) → entries (link (bump f) t) ≡ entries (link f t)
unfolding entries link bump
entries-link-bump (via_left k v b r) t = refl
entries-link-bump (via_right l k v b) t = refl

entries-link_congr :
    (f : Frame) (t t' : Tree) → entries t ≡ entries t' → entries (link f t) ≡ entries (link f t')
unfolding entries link
entries-link_congr (via_left k v b r) t t' e = rw e
entries-link_congr (via_right l k v b) t t' e = rw e

-- The balances do not show in the entries.
entries-retrace :
    (below : List Frame) (t t' : Tree)
    → entries t ≡ entries t'
    → entries (retrace below t) ≡ entries (plug below t')
unfolding retrace plug
entries-retrace [] t t' e = e
entries-retrace (f ∷ below) t t' e =
    entries-retrace below _ _ (entries-link-bump f t ∙ entries-link_congr f t t' e)

abbrev pub SameEntries : List Entry → Tree → Type 0
SameEntries es w = entries w ≡ es

pub entries-double :
    (l : Tree) (k : Str) (v : Ptr) (m : Tree) (k' : Str) (v' : Ptr) (r : Tree)
    → Each
        (SameEntries (entries l ++ (k, v) ∷ (entries m ++ (k', v') ∷ entries r)))
        (double l k v m k' v' r)
unfolding double entries
entries-double l k v null k' v' r = tt
entries-double l k v (node wl wk wv bw wr) k' v' r = simp append_assoc

entries-rotate_left_heavy :
    (l : Tree) (k : Str) (v : Ptr) (r : Tree)
    → Each (SameEntries (entries l ++ (k, v) ∷ entries r)) (rotate_left_heavy l k v r)
unfolding rotate_left_heavy entries
entries-rotate_left_heavy null k v r = tt
entries-rotate_left_heavy (node xl kx vx bx xr) k v r = elim (Bool-cases (bx ==ℤ negsuc 0)) [
  | inl e ↦ rw e (simp append_assoc)
  | inr e ↦ rw e (elim (Bool-cases (bx ==ℤ pos 1)) [
    | inl e' ↦ rw e' (rw append_assoc (entries-double xl kx vx xr k v r))
    | inr e' ↦ rw e' tt
  ])
]

entries-rotate_right_heavy :
    (l : Tree) (k : Str) (v : Ptr) (r : Tree)
    → Each (SameEntries (entries l ++ (k, v) ∷ entries r)) (rotate_right_heavy l k v r)
unfolding rotate_right_heavy entries
entries-rotate_right_heavy l k v null = tt
entries-rotate_right_heavy l k v (node xl kx vx bx xr) = elim (Bool-cases (bx ==ℤ pos 1)) [
  | inl e ↦ rw e (simp append_assoc)
  | inr e ↦ rw e (elim (Bool-cases (bx ==ℤ negsuc 0)) [
    | inl e' ↦ rw e' (entries-double l k v xl kx vx xr)
    | inr e' ↦ rw e' tt
  ])
]

-- The rotation keeps the entries.
entries-rebalance : (t : Tree) → Each (SameEntries (entries t)) (rebalance t)
unfolding rebalance entries
entries-rebalance null = refl
entries-rebalance (node l k v b r) = elim (Bool-cases (b ==ℤ negsuc 1)) [
  | inl e ↦ rw e (entries-rotate_left_heavy l k v r)
  | inr e ↦ rw e (elim (Bool-cases (b ==ℤ pos 2)) [
    | inl e' ↦ rw e' (entries-rotate_right_heavy l k v r)
    | inr e' ↦ rw e' refl
  ])
]

-- The new node stands where the descent ended.
pub entries-attach :
    (q : Str) (above below : List Frame)
    → Each
        (SameEntries (before (below ++ above) ++ (q, 0) ∷ after (below ++ above)))
        (attach q above below)
unfolding attach entries
entries-attach q above below =
    go (rebalance (retrace below leaf)) (entries-rebalance (retrace below leaf))
  where
    leaf : Tree
    leaf = node null q 0 (pos 0) null

    go :
        (o : Option Tree)
        → Each (SameEntries (entries (retrace below leaf))) o
        → Each
            (SameEntries (before (below ++ above) ++ (q, 0) ∷ after (below ++ above)))
            (o >>= λ w. some (plug above w))
    go none e = tt
    go (some w) e =
        entries-plug above w
        ∙ ap (λ (es : List Entry). before above ++ (es ++ after above))
            (e ∙ entries-retrace below leaf leaf refl)
        ∙ sym (entries-plug above (plug below leaf))
        ∙ ap entries (sym (plug-append below above leaf))
        ∙ entries-plug (below ++ above) leaf

pub descend-Lands :
    (q : Str) (t : Tree) → IsSorted (entries t) → Lands q (entries t) (descend q t [] [])
unfolding before after
descend-Lands q t s =
    descend-Lands_path q t [] [] [] (entries t) refl (append-nil (entries t)) s tt tt
