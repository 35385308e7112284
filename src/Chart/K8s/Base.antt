-- ===== src/Chart/K8s/Base.antt =====
-- What the generated structs share. A pointer is an `Option`; the elements of a slice of pointers
-- are never nil here, so a slice is a list.
use learning_crossplane_e2e.Prelude.{
  ℕ, String, Bool, true, false, Option, none, some, List, [], ◌∷◌, ◌&&◌,
}

-- The IEEE 754 bits of a float64; the chart does no arithmetic on them.
pub record Float64 : Type 0 where
  pub bits : ℕ

-- The type of a field that no code of the repository gives a value.
abbrev pub NeverBuilt : Type 0
NeverBuilt = ⊥

-- `map[string]*string`
abbrev pub StringMap : Type 0
StringMap = List (String × Option String)

pub data Quantity : Type 0 where
  from_string : String → Quantity
  from_number : Float64 → Quantity

pub data IntOrString : Type 0 where
  from_number : Float64 → IntOrString
  from_string : String → IntOrString

-- The fields of `cdk8s.ApiObjectMetadata` that the chart gives.
pub record ApiObjectMetadata : Type 0 where
  pub name : Option String
  pub labels : Option StringMap
  pub annotations : Option StringMap

abbrev pub is_set {ℓ} : {A : Type ℓ} → Option A → Bool
is_set none = false
is_set (some a) = true

-- A test on what a pointer points to, and on each element of a slice.
abbrev pub each {ℓ} : {A : Type ℓ} → (A → Bool) → Option A → Bool
each p none = true
each p (some a) = p a

abbrev pub all {ℓ} : {A : Type ℓ} → (A → Bool) → List A → Bool
all p [] = true
all p (a ∷ as') = p a && all p as'

abbrev pub each_of {ℓ} : {A : Type ℓ} → (A → Bool) → Option (List A) → Bool
each_of p none = true
each_of p (some l) = all p l
