-- ===== src/Library/Clusters.antt =====
-- truncateGraphemes and truncateGraphemeBytes of backend/internal/library/sanitize.go. The package
-- uniseg is a parameter: of a text with the first rune `r`, `extra r s state` is the number of
-- runes that follow `r` in its first grapheme cluster, and the state for the text after it. The
-- state -1 that a loop starts with is `none`.
pub mod Prefix
use homesink.Base.{
  ℕ, zero, suc, [], ◌∷◌, ◌++◌, Option, none, Str, take, drop, length, len, ltb, leb, ◌==◌,
  if◌then◌else◌,
}

-- What FirstGraphemeClusterInString reports: the runes after the first, and the next state.
abbrev pub Segmenter : Type 0
Segmenter = ℕ → Str → Option ℕ → ℕ × Option ℕ

module _ (extra : Segmenter) where
  -- The loop of truncateGraphemes, with the clusters it may still take; `done` is s[:end].
  unfoldable pub graphemes_loop : ℕ → ℕ → Str → Str → Option ℕ → Str
  graphemes_loop zero left done rest state = done
  graphemes_loop (suc fuel) left done [] state = done
  graphemes_loop (suc fuel) zero done (r ∷ s) state = done
  graphemes_loop (suc fuel) (suc left) done (r ∷ s) state =
      let (n, next) = extra r s state in
      graphemes_loop fuel left (done ++ r ∷ take n s) (drop n s) next

  unfoldable pub truncate_graphemes : Str → ℕ → Str
  truncate_graphemes s max = graphemes_loop (suc (length s)) max [] s none

  -- The loop of truncateGraphemeBytes.
  unfoldable pub bytes_loop : ℕ → ℕ → Str → Str → Option ℕ → Str
  bytes_loop zero max done rest state = done
  bytes_loop (suc fuel) max done [] state = done
  bytes_loop (suc fuel) max done (r ∷ s) state =
      let (n, next) = extra r s state in
      let end = done ++ r ∷ take n s in
      let more = bytes_loop fuel max end (drop n s) next in if ltb max (len end) then done else more

  unfoldable pub truncate_grapheme_bytes : Str → ℕ → Str
  truncate_grapheme_bytes s max =
      if max == 0
      then []
      else if leb (len s) max
      then s
      else bytes_loop (suc (length s)) max [] s none
