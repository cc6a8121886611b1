-- ===== src/Drift/Laws.antt =====
-- Exactly the fields that differ are named.
use ise2ise.Base.{
  ◌≡◌, refl, ◌∙◌, String, Bool, true, false, none, some, if◌then◌else◌, List, [], ◌∷◌, ◌++◌, ◌||◌,
  ◌&&◌, not,
}
use ise2ise.Base.{arith, ◌==◌, eq_iff, eq_refl, contains, Bool-cases, inl, inr}
use ise2ise.Json.{Obj, end, field, lookup, str}
use ise2ise.Json.Equal.{deep_equal}
use ise2ise.Marker.{strip_import_marker}
use ise2ise.Sort.{before, insert_sorted, insert_all, sort_strings}
use ise2ise.Drift.{value_at, same_runes, keys_of, ignored, differs, drift_over, drift_fields}

contains-insert_sorted :
    (x : String) (ys : List String) (k : String)
    → contains (insert_sorted before x ys) k ≡ (x == k || contains ys k)
unfolding insert_sorted
contains-insert_sorted x [] k = refl
contains-insert_sorted x (y ∷ ys) k = ground (arith, contains-insert_sorted x ys k)

contains-insert_all :
    (done xs : List String) (k : String)
    → contains (insert_all before done xs) k ≡ (contains done k || contains xs k)
unfolding insert_all
contains-insert_all done [] k = ground arith
contains-insert_all done (x ∷ xs) k =
    contains-insert_all (insert_sorted before x done) xs k
    ∙ ground (arith, contains-insert_sorted x done k)

pub contains-sort_strings :
    (xs : List String) (k : String) → contains (sort_strings xs) k ≡ contains xs k
unfolding sort_strings
contains-sort_strings xs k = contains-insert_all [] xs k

contains-drift_over :
    (mine theirs : Obj) (ks seen : List String) (k : String)
    → contains (drift_over mine theirs ks seen) k
      ≡ (contains ks k && (not (ignored k || contains seen k) && differs mine theirs k))
unfolding drift_over
contains-drift_over mine theirs [] seen k = refl
contains-drift_over mine theirs (j ∷ ks) seen k = elim (Bool-cases (j == k)) [
  | inl same ↦ rw (← (eq_iff j k).0 same) (
      ground (
        arith,
        eq_refl j,
        contains-drift_over mine theirs ks seen j,
        contains-drift_over mine theirs ks (j ∷ seen) j,
      ))
  | inr other ↦ ground (
    arith,
    contains-drift_over mine theirs ks seen k,
    contains-drift_over mine theirs ks (j ∷ seen) k,
  )
]

contains-append :
    (xs ys : List String) (k : String) → contains (xs ++ ys) k ≡ (contains xs k || contains ys k)
contains-append [] ys k = refl
contains-append (x ∷ xs) ys k = ground (arith, contains-append xs ys k)

abbrev pub has_key : Obj → String → Bool
has_key o k = elim (lookup o k) [ none ↦ false | some v ↦ true ]

contains-keys_of : (o : Obj) (k : String) → contains (keys_of o) k ≡ has_key o k
unfolding keys_of lookup
contains-keys_of end k = refl
contains-keys_of (field j v o) k = elim (Bool-cases (j == k)) [
  | inl same ↦ rw (same, has_key) refl
  | inr other ↦ rw (other, has_key) (contains-keys_of o k)
]

-- `driftFields` names a key exactly if one of the two objects has it, it is none of "id", "link",
-- "kind" and "conditionPath", and the two values are not equal, where the two descriptions are compared
-- as texts from which the import marker has been cut.
pub contains-drift_fields :
    (mine theirs : Obj) (k : String)
    → contains (drift_fields mine theirs) k ≡ (
        (has_key mine k || has_key theirs k)
        && (not (k == "id" || k == "link" || k == "kind" || k == "conditionPath")
            && (if k == "description"
                then not (
                    same_runes
                      (strip_import_marker (str mine k))
                      (strip_import_marker (str theirs k)))
                else not (deep_equal (value_at mine k) (value_at theirs k)))))
unfolding drift_fields ignored differs
contains-drift_fields mine theirs k =
    contains-sort_strings (drift_over mine theirs (keys_of mine ++ keys_of theirs) []) k
    ∙ contains-drift_over mine theirs (keys_of mine ++ keys_of theirs) [] k
    ∙ named
  where
    named :
        (contains (keys_of mine ++ keys_of theirs) k
          && (not (ignored k || contains [] k) && differs mine theirs k))
        ≡ ((has_key mine k || has_key theirs k) && (not (ignored k) && differs mine theirs k))
    named = rw (contains-append, contains-keys_of mine k, contains-keys_of theirs k) (ground arith)
