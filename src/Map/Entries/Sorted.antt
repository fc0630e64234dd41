-- ===== src/Map/Entries/Sorted.antt =====
-- Sorted lists of entries: how they split at a key, and the three operations around the split.
use Prim.Native.Nat.Ordering.{eq}
use opensips_ng.Prelude.{
  ◌≡◌, refl, none, List, [], ◌∷◌, ◌++◌, arith, All, All-append, All-of_append, All-imp,
}
use opensips_ng.Map.Key.{Str, str_cmp, lt_trans, cmp_congr, lt_of_gt, gt_of_lt}
use opensips_ng.Map.Tree.{Ptr}
use opensips_ng.Map.Entries.{Entry, ◌≺◌, Under, Over, IsSorted, lookup, insert, erase}

pub Under-trans : (q k : Str) (es : List Entry) → k ≺ q → Under k es → Under q es
Under-trans q k es h = All-imp _ (λ e u. lt_trans e.0 k q u h) es

pub Over-trans : (q k : Str) (es : List Entry) → q ≺ k → Over k es → Over q es
Over-trans q k es h = All-imp _ (λ e u. lt_trans q k e.0 h u) es

-- A sorted list that is split at an entry.
pub IsSorted-split :
    (xs : List Entry) (k : Str) (v : Ptr) (ys : List Entry)
    → IsSorted (xs ++ (k, v) ∷ ys)
    → Under k xs × IsSorted xs × Over k ys × IsSorted ys
IsSorted-split [] k v ys s = (tt, tt, s.0, s.1)
IsSorted-split (x ∷ xs) k v ys s =
    let (u, sx, o, sy) = IsSorted-split xs k v ys s.1 in
    let (ox, oy) = All-of_append (λ e. x.0 ≺ e.0) xs ((k, v) ∷ ys) s.0 in
    ((oy.0, u), (ox, sx), o, sy)

pub IsSorted-join :
    (xs : List Entry) (q : Str) (ys : List Entry)
    → IsSorted xs
    → IsSorted ys
    → Under q xs
    → Over q ys
    → IsSorted (xs ++ ys)
IsSorted-join [] q ys sx sy u o = sy
IsSorted-join (x ∷ xs) q ys sx sy u o =
    (All-append _ xs ys sx.0 (Over-trans x.0 q ys u.0 o), IsSorted-join xs q ys sx.1 sy u.1 o)

-- The two parts of a sorted list.
pub IsSorted-parts : (xs ys : List Entry) → IsSorted (xs ++ ys) → IsSorted xs × IsSorted ys
IsSorted-parts [] ys s = (tt, s)
IsSorted-parts (x ∷ xs) ys s =
    let (sx, sy) = IsSorted-parts xs ys s.1 in (((All-of_append _ xs ys s.0).0, sx), sy)

pub lookup-Under : (q : Str) (xs ys : List Entry) → Under q xs → lookup q (xs ++ ys) ≡ lookup q ys
unfolding lookup
lookup-Under q [] ys u = refl
lookup-Under q ((k, v) ∷ xs) ys u = rw (gt_of_lt k q u.0, lookup) (lookup-Under q xs ys u.1)

pub lookup-Over_nil : (q : Str) (ys : List Entry) → Over q ys → lookup q ys ≡ none
unfolding lookup
lookup-Over_nil q [] o = refl
lookup-Over_nil q ((k, v) ∷ ys) o = rw (o.0, lookup) (lookup-Over_nil q ys o.1)

pub lookup-Over : (q : Str) (xs ys : List Entry) → Over q ys → lookup q (xs ++ ys) ≡ lookup q xs
unfolding lookup
lookup-Over q [] ys o = lookup-Over_nil q ys o
lookup-Over q ((k, v) ∷ xs) ys o = ground (arith, lookup-Over q xs ys o)

pub insert-Under :
    (q : Str) (w : Ptr) (xs ys : List Entry)
    → Under q xs
    → insert q w (xs ++ ys) ≡ xs ++ insert q w ys
unfolding insert
insert-Under q w [] ys u = refl
insert-Under q w ((k, v) ∷ xs) ys u =
    rw (gt_of_lt k q u.0, insert) (rw (insert-Under q w xs ys u.1) refl)

pub insert-Over : (q : Str) (w : Ptr) (ys : List Entry) → Over q ys → insert q w ys ≡ (q, w) ∷ ys
unfolding insert
insert-Over q w [] o = refl
insert-Over q w ((k, v) ∷ ys) o = rw (o.0, insert)

pub erase-Under :
    (q : Str) (xs ys : List Entry) → Under q xs → erase q (xs ++ ys) ≡ xs ++ erase q ys
unfolding erase
erase-Under q [] ys u = refl
erase-Under q ((k, v) ∷ xs) ys u = rw (gt_of_lt k q u.0, erase) (rw (erase-Under q xs ys u.1) refl)

pub erase-Over : (q : Str) (ys : List Entry) → Over q ys → erase q ys ≡ ys
unfolding erase
erase-Over q [] o = refl
erase-Over q ((k, v) ∷ ys) o = rw (o.0, erase) (rw (erase-Over q ys o.1) refl)

-- Keys that compare equal have the same keys under and over them.
pub Under-congr : (q k : Str) (es : List Entry) → str_cmp q k ≡ eq → Under k es → Under q es
Under-congr q k es h =
    All-imp _ (λ e u. lt_of_gt q e.0 (rw (cmp_congr q k e.0 h) (gt_of_lt e.0 k u))) es

pub Over-congr : (q k : Str) (es : List Entry) → str_cmp q k ≡ eq → Over k es → Over q es
Over-congr q k es h = All-imp _ (λ e o. rw (cmp_congr q k e.0 h) o) es

-- A write keeps the list sorted, and reads back at the keys equal to the one written.
All-insert {μ} :
    (P : Entry → Type μ) (q : Str) (w : Ptr) (es : List Entry)
    → P (q, w)
    → ((k : Str) (v : Ptr) → P (k, v) → P (k, w))
    → All P es
    → All P (insert q w es)
unfolding insert
All-insert P q w [] p keep a = (p, tt)
All-insert P q w ((k, v) ∷ es) p keep a = ground (arith, keep k v, All-insert P q w es p keep)

pub insert-IsSorted : (q : Str) (w : Ptr) (es : List Entry) → IsSorted es → IsSorted (insert q w es)
unfolding insert
insert-IsSorted q w [] s = (tt, tt)
insert-IsSorted q w ((k, v) ∷ es) s = ground (
  arith,
  lt_of_gt q k,
  Over-trans q k es,
  insert-IsSorted q w es,
  All-insert (λ e. k ≺ e.0) q w es,
)

erase-IsSublist {μ} :
    (P : Entry → Type μ) (q : Str) (es : List Entry) → All P es → All P (erase q es)
unfolding erase
erase-IsSublist P q [] a = tt
erase-IsSublist P q ((k, v) ∷ es) a = ground (arith, erase-IsSublist P q es)

pub erase-IsSorted : (q : Str) (es : List Entry) → IsSorted es → IsSorted (erase q es)
unfolding erase
erase-IsSorted q [] s = tt
erase-IsSorted q ((k, v) ∷ es) s =
    ground (arith, erase-IsSorted q es, erase-IsSublist (λ e. k ≺ e.0) q es)
