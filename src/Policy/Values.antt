-- ===== src/Policy/Values.antt =====
-- The decoded JSON values of claims and payloads, and the lookup of a claim path
-- (`navigateClaims` of pkg/policy/policy.go). A number is its literal's text (json.Number): claims
-- are parsed with WithJSONNumber and payloads with UseNumber, so no float64 occurs.
use wave_house.Prelude.{Bool, List, if◌then◌else◌, [], ◌∷◌}
use wave_house.Prelude.Bytes.{Bytes, bytes_eq}

mutual
  pub data Json : Type 0 where
    null : Json
    bool : Bool → Json
    number : Bytes → Json
    str : Bytes → Json
    arr : Items → Json
    obj : Fields → Json

  pub data Items : Type 0 where
    nil : Items
    cons : Json → Items → Items

  pub data Fields : Type 0 where
    end : Fields
    field : Bytes → Json → Fields → Fields

abbrev pub items : Items → List Json
items nil = []
items (cons v vs) = v ∷ items vs

-- A key that is absent reads as `null`, as the nil interface does.
unfoldable pub get_field : Bytes → Fields → Json
get_field k end = null
get_field k (field j v fs) = if bytes_eq j k then v else get_field k fs

abbrev pub nested : Json → Fields
nested (obj fs) = fs
nested _ = end

-- The walk stops with nil where a value on the way is no object: there `nested` is empty.
unfoldable pub navigate_claims : Fields → List Bytes → Json
navigate_claims claims [] = null
navigate_claims claims (p ∷ []) = get_field p claims
navigate_claims claims (p ∷ q ∷ ps) = navigate_claims (nested (get_field p claims)) (q ∷ ps)
