-- ===== src/Drift.antt =====
-- policy_elements.go: `driftFields`, the fields in which two copies of an object disagree.
pub mod Laws
use ise2ise.Base.{String, Bool, true, false, Option, none, some, List, [], ◌∷◌, ◌++◌, ◌||◌, ◌==◌}
use ise2ise.Base.{ℕ, ◌&&◌, nat_eq, not, contains, if◌then◌else◌}
use ise2ise.Json.{Value, null, Obj, end, field, lookup, str}
use ise2ise.Json.Equal.{deep_equal}
use ise2ise.Marker.{strip_import_marker}
use ise2ise.Sort.{sort_strings}

-- `obj[k]`: a key that is not there reads as a null.
abbrev pub value_at : Obj → String → Value
value_at o k = elim (lookup o k) [ none ↦ null | some v ↦ v ]

unfoldable pub keys_of : Obj → List String
keys_of end = []
keys_of (field k v o) = k ∷ keys_of o

unfoldable pub same_runes : List ℕ → List ℕ → Bool
same_runes [] [] = true
same_runes (c ∷ s) (d ∷ t) = nat_eq c d && same_runes s t
same_runes _ _ = false

unfoldable pub ignored : String → Bool
ignored k = k == "id" || k == "link" || k == "kind" || k == "conditionPath"

-- The import marker is not drift.
unfoldable pub differs : Obj → Obj → String → Bool
unfolding same_runes strip_import_marker str deep_equal lookup
differs mine theirs k =
    if k == "description"
    then not (same_runes (strip_import_marker (str mine k)) (strip_import_marker (str theirs k)))
    else not (deep_equal (value_at mine k) (value_at theirs k))

-- The loop over the keys, each of which is looked at once.
unfoldable pub drift_over : Obj → Obj → List String → List String → List String
drift_over mine theirs [] seen = []
drift_over mine theirs (k ∷ ks) seen =
    let passed = drift_over mine theirs ks seen in
    let rest = drift_over mine theirs ks (k ∷ seen) in
    if ignored k || contains seen k
    then passed
    else if differs mine theirs k
    then k ∷ rest
    else rest

unfoldable pub drift_fields : Obj → Obj → List String
unfolding drift_over keys_of sort_strings differs ignored
drift_fields mine theirs = sort_strings (drift_over mine theirs (keys_of mine ++ keys_of theirs) [])
