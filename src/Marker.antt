-- ===== src/Marker.antt =====
-- policy_elements.go: the import marker in a description, "[ise2ise 2006-01-02]" (`stripImportMarker`),
-- over the runes of the text; policy_sets.go: `mine`, which looks for it.
pub mod Tag
use ise2ise.Base.{ℕ, String, Bool, Option, none, some, List, [], ◌∷◌, ◌++◌, ◌||◌, ◌&&◌}
use ise2ise.Base.{leb, nat_eq, if◌then◌else◌}
use ise2ise.Json.{runes, Obj, str}
use ise2ise.Ise.Texts.{begins_with, includes}

-- `unicode.IsSpace`
unfoldable pub is_space : ℕ → Bool
is_space c =
    (leb 9 c && leb c 13)
    || nat_eq c 32
    || nat_eq c 0x85
    || nat_eq c 0xa0
    || nat_eq c 0x1680
    || (leb 0x2000 c && leb c 0x200a)
    || nat_eq c 0x2028
    || nat_eq c 0x2029
    || nat_eq c 0x202f
    || nat_eq c 0x205f
    || nat_eq c 0x3000

unfoldable pub trim_left : List ℕ → List ℕ
unfolding is_space
trim_left [] = []
trim_left (c ∷ s) = let rest = trim_left s in if is_space c then rest else c ∷ s

-- Drops the spaces at the end.
unfoldable pub trim_right : List ℕ → List ℕ
unfolding is_space
trim_right [] = []
trim_right (c ∷ s) = elim (trim_right s) [
  | [] ↦ if is_space c then [] else c ∷ []
  | d ∷ t ↦ c ∷ d ∷ t
]

-- `strings.TrimSpace`
unfoldable pub trim_space : List ℕ → List ℕ
unfolding trim_left trim_right
trim_space s = trim_right (trim_left s)

-- What stands before the first occurrence of a text, and what follows from it on.
unfoldable pub split_at : List ℕ → List ℕ → Option (List ℕ × List ℕ)
unfolding begins_with
split_at [] t = if begins_with [] t then some ([], []) else none
split_at (c ∷ s) t =
    let rest = split_at s t in
    if begins_with (c ∷ s) t
    then some ([], c ∷ s)
    else elim rest [ none ↦ none | some (before, from) ↦ some (c ∷ before, from) ]

abbrev pub import_marker_prefix : String
import_marker_prefix = "[ise2ise "

abbrev tail : List ℕ → List ℕ
tail [] = []
tail (c ∷ s) = s

-- The text from the marker on: without it, up to and with its bracket, if that is there.
abbrev without_marker : List ℕ → List ℕ → List ℕ
without_marker before from = elim (split_at from (runes "]")) [
  | none ↦ trim_space before
  | some (marker, after) ↦ trim_space (before ++ tail after)
]

-- `stripImportMarker`
unfoldable pub strip_import_marker : String → List ℕ
unfolding split_at trim_space
strip_import_marker desc = elim (split_at (runes desc) (runes import_marker_prefix)) [
  | none ↦ runes desc
  | some (before, from) ↦ without_marker before from
]

-- `mine`
unfoldable pub mine : Obj → Bool
unfolding includes str
mine o = includes (runes (str o "description")) (runes import_marker_prefix)
