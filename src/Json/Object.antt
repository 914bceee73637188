-- ===== src/Json/Object.antt =====
-- `find_value` of src/json/json_spirit_utils.h, and objects as lists of pairs.
use fidinventor.Base.{◌≡◌, refl, Bool, true, false, List, [], ◌∷◌, if◌then◌else◌}
use fidinventor.Base.Text.{Bytes, eq_bytes}
use fidinventor.Json.Value.{Value, null, Items, nil, cons, Fields, end, field}

module _ {F : Type 0} where
  -- The first pair of that name, or the null value.
  unfoldable pub find_value : Fields F → Bytes → Value F
  find_value end name = null
  find_value (field k v fs) name = if eq_bytes k name then v else find_value fs name

  -- The elements of an array.
  abbrev pub elements : Items F → List (Value F)
  elements nil = []
  elements (cons v vs) = v ∷ elements vs

  abbrev pub of_elements : List (Value F) → Items F
  of_elements [] = nil
  of_elements (v ∷ vs) = cons v (of_elements vs)

  pub elements-of_elements : (vs : List (Value F)) → elements (of_elements vs) ≡ vs
  elements-of_elements [] = refl
  elements-of_elements (v ∷ vs) = rw (elements-of_elements vs)

  -- `obj.empty()`
  abbrev pub no_fields : Fields F → Bool
  no_fields end = true
  no_fields (field k v fs) = false
