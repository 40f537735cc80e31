-- ===== src/Library/Clusters/Prefix.antt =====
-- The truncations: prefixes of the text, within the bound, on any fuel that exceeds its length.
use mathlib.Core.List.{append_assoc, append-nil}
use homesink.Base.{
  ℕ, zero, suc, ◌≤◌, ◌<◌, ◌≡◌, refl, ap, subst, ◌∙◌, inl, inr, [], ◌∷◌, ◌++◌, Option, none, Str,
  take, drop, length, len, arith, ltb, leb, ◌==◌, if◌then◌else◌, ltb-false, leb→le, Bool-cases,
}
use homesink.Base.Texts.{Prefix, take-drop, length-drop-le}
use homesink.Library.Clusters.{
  Segmenter, graphemes_loop, truncate_graphemes, bytes_loop, truncate_grapheme_bytes,
}

abbrev itself : (done rest : Str) → Prefix done (done ++ rest)
itself done rest = record { rest = rest; whole = refl }

-- A cut after one more cluster.
regroup : (done : Str) (r n : ℕ) (s : Str) → (done ++ r ∷ take n s) ++ drop n s ≡ done ++ r ∷ s
regroup done r n s =
    append_assoc done (r ∷ take n s) (drop n s) ∙ ap (λ (t : Str). done ++ r ∷ t) (take-drop n s)

module _ (extra : Segmenter) where
  graphemes_loop-Prefix :
      (fuel left : ℕ) (done rest : Str) (state : Option ℕ)
      → Prefix (graphemes_loop extra fuel left done rest state) (done ++ rest)
  unfolding graphemes_loop
  graphemes_loop-Prefix zero left done rest state = itself done rest
  graphemes_loop-Prefix (suc fuel) left done [] state = itself done []
  graphemes_loop-Prefix (suc fuel) zero done (r ∷ s) state = itself done (r ∷ s)
  graphemes_loop-Prefix (suc fuel) (suc left) done (r ∷ s) state =
      let (n, next) = extra r s state in
      subst (Prefix (graphemes_loop extra fuel left (done ++ r ∷ take n s) (drop n s) next))
        (regroup done r n s)
        (graphemes_loop-Prefix fuel left (done ++ r ∷ take n s) (drop n s) next)

  pub truncate_graphemes-Prefix : (s : Str) (max : ℕ) → Prefix (truncate_graphemes extra s max) s
  unfolding truncate_graphemes
  truncate_graphemes-Prefix s max = graphemes_loop-Prefix (suc (length s)) max [] s none

  bytes_loop-Prefix :
      (fuel max : ℕ) (done rest : Str) (state : Option ℕ)
      → Prefix (bytes_loop extra fuel max done rest state) (done ++ rest)
  unfolding bytes_loop
  bytes_loop-Prefix zero max done rest state = itself done rest
  bytes_loop-Prefix (suc fuel) max done [] state = itself done []
  bytes_loop-Prefix (suc fuel) max done (r ∷ s) state =
      let (n, next) = extra r s state in
      elim (Bool-cases (ltb max (len (done ++ r ∷ take n s)))) [
        | inl over ↦ rw over (itself done (r ∷ s))
        | inr fits ↦ rw fits (
            subst (Prefix (bytes_loop extra fuel max (done ++ r ∷ take n s) (drop n s) next))
              (regroup done r n s)
              (bytes_loop-Prefix fuel max (done ++ r ∷ take n s) (drop n s) next))
      ]

  bytes_loop-le :
      (fuel max : ℕ) (done rest : Str) (state : Option ℕ)
      → len done ≤ max
      → len (bytes_loop extra fuel max done rest state) ≤ max
  unfolding bytes_loop
  bytes_loop-le zero max done rest state h = h
  bytes_loop-le (suc fuel) max done [] state h = h
  bytes_loop-le (suc fuel) max done (r ∷ s) state h =
      let (n, next) = extra r s state in
      elim (Bool-cases (ltb max (len (done ++ r ∷ take n s)))) [
        | inl over ↦ rw over h
        | inr fits ↦ rw fits (
            bytes_loop-le fuel max (done ++ r ∷ take n s) (drop n s) next
              (ltb-false max (len (done ++ r ∷ take n s)) fits))
      ]

  pub truncate_grapheme_bytes-Prefix :
      (s : Str) (max : ℕ) → Prefix (truncate_grapheme_bytes extra s max) s
  unfolding truncate_grapheme_bytes
  truncate_grapheme_bytes-Prefix s max = elim (Bool-cases (max == 0)) [
    | inl t ↦ rw t (itself [] s)
    | inr t ↦ rw t (elim (Bool-cases (leb (len s) max)) [
      | inl fits ↦ rw fits (record { rest = []; whole = append-nil s })
      | inr over ↦ rw over (bytes_loop-Prefix (suc (length s)) max [] s none)
    ])
  ]

  pub len-truncate_grapheme_bytes-le :
      (s : Str) (max : ℕ) → len (truncate_grapheme_bytes extra s max) ≤ max
  unfolding truncate_grapheme_bytes len
  len-truncate_grapheme_bytes-le s max = elim (Bool-cases (max == 0)) [
    | inl t ↦ rw t (omega arith)
    | inr t ↦ rw t (elim (Bool-cases (leb (len s) max)) [
      | inl fits ↦ rw fits (leb→le (len s) max fits)
      | inr over ↦ rw over (bytes_loop-le (suc (length s)) max [] s none (omega arith))
    ])
  ]

  -- More fuel changes nothing.
  pub graphemes_loop_fuel :
      (f g left : ℕ) (done rest : Str) (state : Option ℕ)
      → length rest < f
      → length rest < g
      → graphemes_loop extra f left done rest state ≡ graphemes_loop extra g left done rest state
  unfolding graphemes_loop
  graphemes_loop_fuel zero g left done rest state h k = elim h [ ]
  graphemes_loop_fuel (suc f) zero left done rest state h k = elim k [ ]
  graphemes_loop_fuel (suc f) (suc g) left done [] state h k = refl
  graphemes_loop_fuel (suc f) (suc g) zero done (r ∷ s) state h k = refl
  graphemes_loop_fuel (suc f) (suc g) (suc left) done (r ∷ s) state h k =
      let (n, next) = extra r s state in
      graphemes_loop_fuel f g left (done ++ r ∷ take n s) (drop n s) next
        (omega (arith, length-drop-le n s)) (omega (arith, length-drop-le n s))

  -- The loop of truncateGraphemeBytes ends by itself: on any two amounts of fuel above the number of
  -- runes that are left it gives the same text.
  bytes_loop_fuel :
      (f g max : ℕ) (done rest : Str) (state : Option ℕ)
      → length rest < f
      → length rest < g
      → bytes_loop extra f max done rest state ≡ bytes_loop extra g max done rest state
  unfolding bytes_loop
  bytes_loop_fuel zero g max done rest state h k = elim h [ ]
  bytes_loop_fuel (suc f) zero max done rest state h k = elim k [ ]
  bytes_loop_fuel (suc f) (suc g) max done [] state h k = refl
  bytes_loop_fuel (suc f) (suc g) max done (r ∷ s) state h k =
      let (n, next) = extra r s state in
      ap (λ (t : Str). if ltb max (len (done ++ r ∷ take n s)) then done else t)
        (bytes_loop_fuel f g max (done ++ r ∷ take n s) (drop n s) next
          (omega (arith, length-drop-le n s)) (omega (arith, length-drop-le n s)))
