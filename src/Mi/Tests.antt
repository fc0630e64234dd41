-- ===== src/Mi/Tests.antt =====
-- src/core/mi/attr.c on one attribute.
use opensips_ng.Prelude.{◌≡◌, refl, none, some, [], ◌∷◌, ◌++◌}
use opensips_ng.Mi.Attr.{Attr, get_mi_attr_by_name, IsFirst, get_mi_attr_by_name-IsFirst}

abbrev named : Attr
named = record { name = some (b'i' ∷ b'd' ∷ []); value = none }

get_mi_attr_by_name-IsFirst_example :
    IsFirst
      (b'I' ∷ b'd' ∷ [])
      (named ∷ [])
      (get_mi_attr_by_name (b'I' ∷ b'd' ∷ []) (named ∷ [] ++ named ∷ []))
get_mi_attr_by_name-IsFirst_example =
    get_mi_attr_by_name-IsFirst (b'I' ∷ b'd' ∷ []) (named ∷ []) named (refl, (refl, tt))

-- The only attribute is not found by its name.
only_attribute : get_mi_attr_by_name (b'i' ∷ b'd' ∷ []) (named ∷ []) ≡ none
unfolding get_mi_attr_by_name
only_attribute = refl
