-- ===== src/Map/Entries/Store.antt =====
-- The store through a slot's pointer against the entries, and the lengths of the lists.
use Prim.Native.Nat.Ordering.{lt, eq, gt}
use opensips_ng.Prelude.{
  suc, ◌≡◌, refl, sym, ap, ◌∙◌, inl, inr, none, some, List, [], ◌∷◌, ◌++◌, arith, length,
  Ordering-cases,
}
use opensips_ng.Map.Key.{Str, str_cmp, lt_of_gt, cmp_refl, cmp_congr, eq_symm}
use opensips_ng.Map.Tree.{Ptr, Tree, null, node, store}
use opensips_ng.Map.Entries.{Entry, entries, Under, Over, IsSorted, lookup, insert, erase}
use opensips_ng.Map.Entries.Sorted.{
  Under-trans, Over-trans, Under-congr, Over-congr, IsSorted-split, lookup-Under, lookup-Over,
  lookup-Over_nil, insert-Under, insert-Over,
}

-- A key that is present is written on its own side of the split.
insert-left :
    (q : Str) (w : Ptr) (xs ys : List Entry) {v : Ptr}
    → Over q ys
    → lookup q xs ≡ some v
    → IsSorted xs
    → insert q w (xs ++ ys) ≡ insert q w xs ++ ys
unfolding insert lookup
insert-left q w [] ys o h s = cc
insert-left q w ((k, u) ∷ xs) ys {v = v} o h s = elim (Ordering-cases (str_cmp q k)) [
  | inl e ↦ rw (e, insert)
  | inr (inl e) ↦ rw (e, insert)
  | inr (inr e) ↦
      rw (e, insert) (ap (◌∷◌ (k, u)) (insert-left q w xs ys o (rw (e, lookup) at h) s.1))
]

pub entries-store :
    (t : Tree) (q : Str) (w : Ptr) {v : Ptr}
    → IsSorted (entries t)
    → lookup q (entries t) ≡ some v
    → entries (store t q w) ≡ insert q w (entries t)
unfolding store entries lookup insert
entries-store null q w s h = cc
entries-store (node l k u b r) q w {v = v} s h =
    let (ul, sl, or, sr) = IsSorted-split (entries l) k u (entries r) s in
    elim (Ordering-cases (str_cmp q k)) [
      | inl e ↦
          let o : Over q ((k, u) ∷ entries r) = (e, Over-trans q k _ e or) in
          let found = sym (lookup-Over q (entries l) _ o) ∙ h in
          rw (e, store)
            (ap (λ (es : List Entry). es ++ (k, u) ∷ entries r) (entries-store l q w sl found)
              ∙ sym (insert-left q w (entries l) _ o found sl))
      | inr (inl e) ↦
          rw (e, store)
            (sym (insert-Under q w (entries l) _ (Under-congr q k _ e ul) ∙ rw (e, insert)))
      | inr (inr e) ↦
          let below = Under-trans q k _ (lt_of_gt q k e) ul in
          let found = sym (lookup-Under q (entries l) _ below ∙ rw (e, lookup)) ∙ h in
          rw (e, store)
            (sym (
              insert-Under q w (entries l) _ below
              ∙ rw (e, insert)
                  (ap (λ (es : List Entry). entries l ++ (k, u) ∷ es)
                    (sym (entries-store r q w sr found)))))
    ]

-- The entry of a new key, between the smaller and the greater ones.
pub insert_between :
    (q : Str) (w : Ptr) (xs ys : List Entry)
    → Under q xs
    → Over q ys
    → insert q w (xs ++ ys) ≡ xs ++ (q, w) ∷ ys
insert_between q w xs ys u o = insert-Under q w xs ys u ∙ ap (◌++◌ xs) (insert-Over q w ys o)

pub insert_again :
    (q : Str) (w v : Ptr) (xs ys : List Entry)
    → Under q xs
    → insert q w (xs ++ (q, v) ∷ ys) ≡ xs ++ (q, w) ∷ ys
unfolding insert
insert_again q w v xs ys u = insert-Under q w xs _ u ∙ rw (cmp_refl q, insert)

pub lookup_between :
    (q : Str) (v : Ptr) (xs ys : List Entry) → Under q xs → lookup q (xs ++ (q, v) ∷ ys) ≡ some v
unfolding lookup
lookup_between q v xs ys u = lookup-Under q xs _ u ∙ rw (cmp_refl q, lookup)

-- The lengths.
pub length-insert_found :
    (q : Str) (w : Ptr) (es : List Entry) {v : Ptr}
    → lookup q es ≡ some v
    → IsSorted es
    → length (insert q w es) ≡ length es
unfolding insert lookup
length-insert_found q w [] h s = cc
length-insert_found q w ((k, u) ∷ es) {v = v} h s = elim (Ordering-cases (str_cmp q k)) [
  | inl e ↦
      let none_over = lookup-Over_nil q es (Over-trans q k es e s.0) in
      let found : lookup q es ≡ some v = rw (e, lookup) at h in cc
  | inr (inl e) ↦ rw (e, insert)
  | inr (inr e) ↦ rw (e, insert) (ap suc (length-insert_found q w es (rw (e, lookup) at h) s.1))
]

pub length-erase :
    (q : Str) (es : List Entry) {v : Ptr}
    → lookup q es ≡ some v
    → length es ≡ suc (length (erase q es))
unfolding lookup erase
length-erase q [] h = cc
length-erase q ((k, u) ∷ es) {v = v} h = ground (arith, length-erase q es {v = v})

pub erase_missing : (q : Str) (es : List Entry) → lookup q es ≡ none → erase q es ≡ es
unfolding lookup erase
erase_missing q [] h = refl
erase_missing q ((k, u) ∷ es) h = ground (arith, erase_missing q es)

pub lookup-insert_self : (q : Str) (w : Ptr) (es : List Entry) → lookup q (insert q w es) ≡ some w
unfolding lookup insert
lookup-insert_self q w [] = rw (cmp_refl q, lookup)
lookup-insert_self q w ((k, v) ∷ es) = ground (arith, cmp_refl q, lookup-insert_self q w es)

pub insert-insert :
    (q : Str) (w v : Ptr) (es : List Entry) → insert q w (insert q v es) ≡ insert q w es
unfolding insert
insert-insert q w v [] = rw (cmp_refl q, insert)
insert-insert q w v ((k, u) ∷ es) = ground (arith, cmp_refl q, insert-insert q w v es)

-- A lookup after a write, and after a removal.
pub lookup-insert :
    (q p : Str) (w : Ptr) (es : List Entry)
    → lookup p (insert q w es)
      ≡ elim (str_cmp p q) [ eq ↦ some w | lt ↦ lookup p es | gt ↦ lookup p es ]
unfolding lookup insert
lookup-insert q p w [] = refl
lookup-insert q p w ((k, u) ∷ es) = ground (
  arith,
  cmp_congr p q k,
  cmp_congr p k q,
  cmp_congr q k p,
  eq_symm q k,
  eq_symm p q,
  lookup-insert q p w es,
)

pub lookup-erase :
    (q p : Str) (es : List Entry)
    → IsSorted es
    → lookup p (erase q es) ≡ elim (str_cmp p q) [ eq ↦ none | lt ↦ lookup p es | gt ↦ lookup p es ]
unfolding lookup erase
lookup-erase q p [] s = ground arith
lookup-erase q p ((k, u) ∷ es) s = ground (
  arith,
  cmp_congr p q k,
  cmp_congr p k q,
  cmp_congr q k p,
  eq_symm q k,
  eq_symm p q,
  lookup-Over_nil p es,
  Over-congr p k es,
  lookup-erase q p es,
)
