-- ===== src/MemStore/Maps/Lookup.antt =====
-- Look-ups after an assignment, for maps whose keys are texts.
use homesink.Base.{
  ◌≡◌, ◌≢◌, refl, sym, ap, ◌∙◌, inl, inr, List, [], ◌∷◌, Option, some, Str, str_eq, str_eq_sound,
  str_eq_refl, str_eq_ne, if◌then◌else◌, Bool-cases,
}
use homesink.MemStore.Maps.{text_key, get, set}

module _ {ℓ} {V : Type ℓ} where
  pub get-set_same :
      (k : Str) (v : V) (m : List (Str × V)) → get text_key k (set text_key k v m) ≡ some v
  unfolding get set
  get-set_same k v [] = rw (str_eq_refl k) refl
  get-set_same k v ((j, w) ∷ m) = elim (Bool-cases (str_eq j k)) [
    | inl t ↦ rw (t, t) refl
    | inr t ↦ rw (t, t) (get-set_same k v m)
  ]

  pub get-set_other :
      (k h : Str) (v : V) (m : List (Str × V))
      → k ≢ h
      → get text_key h (set text_key k v m) ≡ get text_key h m
  unfolding get set
  get-set_other k h v [] n = rw (str_eq_ne k h n) refl
  get-set_other k h v ((j, w) ∷ m) n = elim (Bool-cases (str_eq j k)) [
    | inl t ↦
        let other = str_eq_ne j h (λ e. n (sym (str_eq_sound j k t) ∙ e)) in rw (t, other) refl
    | inr t ↦
        rw t (ap (λ (o : Option V). if str_eq j h then some w else o) (get-set_other k h v m n))
  ]
