-- ===== src/MemStore/Maps.antt =====
-- Go's maps: the entries in the order in which their keys were first written. Iteration, whose order
-- Go leaves open, is only used where the result does not depend on it.
pub mod Lookup
use homesink.Base.{
  ℕ, Bool, not, List, [], ◌∷◌, map, Option, none, some, Str, str_eq, keep, ◌==◌, if◌then◌else◌,
}

-- The keys' == is an interface.
pub record Key {ℓ} (K : Type ℓ) : Type ℓ where
  pub same : K → K → Bool

abbrev pub text_key : Key Str
text_key = record { same = str_eq }

abbrev pub number_key : Key ℕ
number_key = record { same = ◌==◌ }

module _ {ℓ κ} {K : Type ℓ} {V : Type κ} where
  -- v, ok := m[k].
  unfoldable pub get : Key K → K → List (K × V) → Option V
  get d k [] = none
  get d k ((j, v) ∷ m) = if d.same j k then some v else get d k m

  -- m[k] = v.
  unfoldable pub set : Key K → K → V → List (K × V) → List (K × V)
  set d k v [] = (k, v) ∷ []
  set d k v ((j, w) ∷ m) = if d.same j k then (j, v) ∷ m else (j, w) ∷ set d k v m

  -- delete(m, k).
  unfoldable pub remove : Key K → K → List (K × V) → List (K × V)
  remove d k m = keep (λ e. not (d.same e.0 k)) m

  abbrev pub value : K × V → V
  value (k, v) = v

  abbrev pub values : List (K × V) → List V
  values m = map value m
