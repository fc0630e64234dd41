-- ===== src/Mi/Attr.antt =====
-- src/core/mi/attr.c, attr.h: the attributes of a node of a reply. A string is its bytes, and a NULL
-- pointer `none`; that a string which is not duplicated stays the caller's memory is not modelled.
use opensips_ng.Prelude.{
  ℕ, ◌+◌, ◌/◌, ◌%◌, ◌≡◌, refl, Bool, true, false, ◌&&◌, Option, none, some, List, [], ◌∷◌, ◌++◌,
  length, leb, ◌==◌, if◌then◌else◌, Bool-cases, inl, inr, ◌⊎◌, map, All, arith, suc, ==_iff,
}

abbrev pub Bytes : Type 0
Bytes = List ℕ

-- `struct mi_attr`; the list of the attributes stands for the `next` pointers.
pub record Attr : Type 0 where
  pub name : Option Bytes
  pub value : Option Bytes

-- MI_DUP_NAME is 1, MI_DUP_VALUE is 2.
abbrev pub dup_name : ℕ → Bool
dup_name flags = flags % 2 == 1

abbrev pub dup_value : ℕ → Bool
dup_value flags = (flags / 2) % 2 == 1

-- `if (!s) len=0; if (!len) s=0;`
unfoldable pub given : Option Bytes → Option Bytes
given none = none
given (some []) = none
given (some (c ∷ s)) = some (c ∷ s)

-- The C library's strncpy into `length` zero bytes: up to a NUL, zero from there on.
unfoldable pub strncpy : Bool → Bytes → Bytes
strncpy ended [] = []
strncpy ended (c ∷ s) =
    let rest = strncpy ended s in
    let zeros = strncpy true s in
    if ended then 0 ∷ zeros else if c == 0 then 0 ∷ zeros else c ∷ rest

unfoldable pub stored : Bool → Option Bytes → Option Bytes
unfolding strncpy
stored dup none = none
stored dup (some s) = if dup then some (strncpy false s) else some s

-- `add_mi_attr` on the attributes of a node: the new attribute, or NULL, and the attributes.
unfoldable pub add_mi_attr :
    Bool → ℕ → Option Bytes → Option Bytes → List Attr → Option Attr × List Attr
unfolding given stored
add_mi_attr alloc_ok flags name value attributes =
    let new : Attr = record {
      name = stored (dup_name flags) (given name);
      value = stored (dup_value flags) (given value);
    } in
    elim (given name) [
      | some n ↦ if alloc_ok then (some new, attributes ++ new ∷ []) else (none, attributes)
      | none ↦ elim (given value) [
        | some v ↦ if alloc_ok then (some new, attributes ++ new ∷ []) else (none, attributes)
        | none ↦ (none, attributes)
      ]
    ]

-- The C library's tolower for ASCII.
abbrev pub lower : ℕ → ℕ
lower c = if leb b'A' c && leb c b'Z' then c + 32 else c

-- The C library's strncasecmp is 0, on strings of one length.
unfoldable pub same_ignoring_case : Bytes → Bytes → Bool
same_ignoring_case [] t = true
same_ignoring_case (a ∷ s) [] = true
same_ignoring_case (a ∷ s) (b ∷ t) =
    let rest = same_ignoring_case s t in
    if lower a == lower b then (if a == 0 then true else rest) else false

-- The test of the loop; an attribute with no name has a length of 0.
unfoldable pub is_named : Bytes → Attr → Bool
unfolding same_ignoring_case
is_named name a = elim (a.name) [
  | none ↦ length name == 0
  | some n ↦ length name == length n && same_ignoring_case name n
]

-- `for(head = node->attributes ; head->next ; head = head->next)`.
unfoldable pub get_mi_attr_by_name : Bytes → List Attr → Option Attr
unfolding is_named
get_mi_attr_by_name name [] = none
get_mi_attr_by_name name (a ∷ []) = none
get_mi_attr_by_name name (a ∷ (b ∷ rest)) =
    let found = get_mi_attr_by_name name (b ∷ rest) in if is_named name a then some a else found

-- The attributes left, and the blocks freed, by their attributes.
unfoldable pub del_mi_attr_list : List Attr → List Attr × List Attr
del_mi_attr_list attributes = ([], attributes)

-- The bytes of a name; none where the pointer is NULL.
abbrev pub bytes_of : Option Bytes → Bytes
bytes_of none = []
bytes_of (some n) = n

-- The attribute has the name, byte for byte and whatever the case of its letters.
abbrev pub Matches : Bytes → Attr → Type 0
Matches name a = map lower name ≡ map lower (bytes_of a.name)

-- `o` is the first attribute of the list with the name, or none if there is none.
abbrev pub IsFirst : Bytes → List Attr → Option Attr → Type 0
IsFirst name [] o = o ≡ none
IsFirst name (a ∷ rest) o =
    (Matches name a × (o ≡ some a)) ⊎ ((¬ Matches name a) × IsFirst name rest o)

-- The two tests of a byte pair, or two whole names, agree.
abbrev Agree : Bool → Type 0 → Type 0
Agree b P = ((b ≡ true) × P) ⊎ ((b ≡ false) × (¬ P))

cons_injective : {a b : ℕ} {s t : Bytes} → a ∷ s ≡ b ∷ t → (a ≡ b) × (s ≡ t)
cons_injective e = (cc, cc)

same-Agree :
    (s t : Bytes)
    → All (λ c. (c == 0) ≡ false) s
    → Agree (length s == length t && same_ignoring_case s t) (map lower s ≡ map lower t)
unfolding same_ignoring_case
same-Agree [] [] h = inl (refl, refl)
same-Agree [] (b ∷ t) h = inr (ground arith, λ e. cc)
same-Agree (a ∷ s) [] h = inr (ground arith, λ e. cc)
same-Agree (a ∷ s) (b ∷ t) (n, h) =
    let longer : (suc (length s) == suc (length t)) ≡ (length s == length t) = ground arith in
    elim (Bool-cases (lower a == lower b)) [
      | inl d ↦
          let first : lower a ≡ lower b = (==_iff (lower a) (lower b)).0 d in
          rw (longer, d, n)
            (elim (same-Agree s t h) [
              | inl (e, m) ↦ inl (e, (λ i. first i ∷ m i))
              | inr (e, m) ↦ inr (e, λ k. m (cons_injective k).1)
            ])
      | inr d ↦ rw d (
          inr (
            and_false (suc (length s) == suc (length t)),
            λ k. off d ((==_iff (lower a) (lower b)).1 (cons_injective k).0),
          ))
    ]
  where
    off : {x : Bool} → x ≡ false → x ≡ true → ⊥
    off e k = cc

    and_false : (x : Bool) → (x && false) ≡ false
    and_false true = refl
    and_false false = refl

no_name : (s : Bytes) → Agree (length s == 0) (map lower s ≡ [])
no_name [] = inl (refl, refl)
no_name (c ∷ s) = inr (ground arith, λ e. cc)

is_named-Agree :
    (name : Bytes) (a : Attr)
    → All (λ c. (c == 0) ≡ false) name
    → Agree (is_named name a) (Matches name a)
unfolding is_named
is_named-Agree name a h = go a.name
  where
    go :
        (n : Option Bytes)
        → Agree
            (elim n [
              | none ↦ length name == 0
              | some n ↦ length name == length n && same_ignoring_case name n
            ])
            (map lower name ≡ map lower (bytes_of n))
    go none = no_name name
    go (some n) = same-Agree name n h

-- In a list that is not empty `get_mi_attr_by_name` finds the first attribute of the name, byte for byte but for the case of
-- its letters, among all attributes but the last one, if the name has no byte 0; it returns NULL if none of these has it.
pub get_mi_attr_by_name-IsFirst :
    (name : Bytes) (attributes : List Attr) (last : Attr)
    → All (λ c. (c == 0) ≡ false) name
    → IsFirst name attributes (get_mi_attr_by_name name (attributes ++ last ∷ []))
unfolding get_mi_attr_by_name
get_mi_attr_by_name-IsFirst name [] last h = refl
get_mi_attr_by_name-IsFirst name (a ∷ []) last h = elim (is_named-Agree name a h) [
  | inl (e, m) ↦ inl (m, rw e refl)
  | inr (e, m) ↦ inr (m, rw e refl)
]
get_mi_attr_by_name-IsFirst name (a ∷ (b ∷ rest)) last h = elim (is_named-Agree name a h) [
  | inl (e, m) ↦ inl (m, rw e refl)
  | inr (e, m) ↦ inr (m, rw e (get_mi_attr_by_name-IsFirst name (b ∷ rest) last h))
]
