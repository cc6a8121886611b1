-- ===== src/Ise/Version.antt =====
-- ise.go: what `iseVersion` reads out of its answer. A key of a struct is matched by its exact
-- spelling.
use ise2ise.Base.{ℕ, String, Bool, false, Option, none, some, List, [], ◌∷◌, ◌&&◌, ◌||◌, nat_eq}
use ise2ise.Base.{if◌then◌else◌}
use ise2ise.Json.{Values, nil, cons, lookup, runes, is_letter}
use ise2ise.Ise.Decode.{Body, string_field, object_field, list_field, ◌>>=◌}

-- `strings.EqualFold(s, "version")`: of its letters only the s folds to a rune outside ASCII, the long s.
abbrev pub folds_to_version : List ℕ → Bool
folds_to_version (a ∷ b ∷ c ∷ d ∷ e ∷ f ∷ g ∷ []) =
    is_letter b'V' b'v' a
    && is_letter b'E' b'e' b
    && is_letter b'R' b'r' c
    && (is_letter b'S' b's' d || nat_eq d 0x17f)
    && is_letter b'I' b'i' e
    && is_letter b'O' b'o' f
    && is_letter b'N' b'n' g
folds_to_version _ = false

-- The pairs of a name and a value, if they all have that shape.
unfoldable pub result_values : Values → Option (List (String × String))
unfolding lookup
result_values nil = some []
result_values (cons v vs) = do
  o ← object_field (some v)
  name ← string_field (lookup o "name")
  value ← string_field (lookup o "value")
  more ← result_values vs
  some ((name, value) ∷ more)

unfoldable pub listed_version : List (String × String) → String
listed_version [] = ""
listed_version ((name, value) ∷ pairs) =
    let rest = listed_version pairs in if folds_to_version (runes name) then value else rest

abbrev of_pairs : Option (List (String × String)) → String
of_pairs none = ""
of_pairs (some pairs) = listed_version pairs

-- The version in an answer, "" where it does not have the documented shape.
unfoldable pub version_in : Body → String
unfolding lookup result_values listed_version
version_in b = of_pairs (do
  v ← b.json
  top ← object_field (some v)
  result ← object_field (lookup top "OperationResult")
  listed ← list_field (lookup result "resultValue")
  result_values listed)
