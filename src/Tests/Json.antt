-- ===== src/Tests/Json.antt =====
-- Tests of the JSON values and their cleaning.
use ise2ise.Base.{◌≡◌, refl, String, true, none, [], ◌∷◌, ◌||◌, ◌&&◌}
use ise2ise.Base.{not, contains, if◌then◌else◌, ◌==◌}
use mathlib.Core.Option
use ise2ise.Json.{null, text, arr, obj, nil, cons, Obj, end, field}
use ise2ise.Json.{str, lookup, truthy}
use ise2ise.Json.Links.{strip_value, strip_local, links_in, is_decoded, strip_local_lem}
use ise2ise.Json.Nulls.{
  without_nulls, nulls_in, nulls_of, has_plain_lists, nulls_of-without_nulls, without_nulls_fixed,
}
use ise2ise.Drift.{value_at, same_runes, drift_fields}
use ise2ise.Json.Equal.{deep_equal}
use ise2ise.Marker.{strip_import_marker}
use ise2ise.Drift.Laws.{has_key, contains-drift_fields}
use ise2ise.Report.{Item, create, trust_sec, add}
use ise2ise.Tests.Shared.{empty_report}
use ise2ise.Report.Counts.{IsCounted, add-IsCounted}

abbrev group : Obj
group = field "id" (text "7") (
    field "name" (text "Printers") (
      field "link" (obj (field "href" (text "https://a") end))
        (field "tags" (arr (cons (obj (field "link" null (field "a" null end))) nil)) end)))

abbrev without_null : Obj
without_null =
    field "a" (text "x") (field "b" (arr (cons (obj (field "c" (text "y") end)) nil)) end)

abbrev with_null : Obj
with_null = field "z" null (field "l" (arr (cons null (cons (obj (field "c" null end)) nil))) end)

stripped :
    strip_local group
    ≡ field "name" (text "Printers") (field "tags" (arr (cons (obj (field "a" null end)) nil)) end)
unfolding strip_local
stripped = refl

strip_local_example :
    (links_in (strip_local group) ≡ 0)
    × ((k : String)
        → lookup (strip_local group) k ≡ (
            if k == "link"
            then none
            else if "id" == k
            then none
            else Option.map strip_value (lookup group k)))
unfolding is_decoded
strip_local_example = strip_local_lem group refl

nulls_of-without_nulls_example : nulls_of (without_nulls with_null) ≡ 0
unfolding has_plain_lists
nulls_of-without_nulls_example = nulls_of-without_nulls with_null refl

without_nulls_fixed_example : without_nulls without_null ≡ without_null
unfolding nulls_in
without_nulls_fixed_example = without_nulls_fixed without_null refl

-- A null in a list that stands in a list stays.
null_kept :
    without_nulls (field "a" (arr (cons (arr (cons null nil)) nil)) end)
    ≡ field "a" (arr (cons (arr (cons null nil)) nil)) end
unfolding without_nulls
null_kept = refl

true_as_text : truthy (field "default" (text "TRUE") end) "default" ≡ true
unfolding truthy
true_as_text = refl

abbrev theirs : Obj
theirs = field "name" (text "Printers") (field "description" (text "old [ise2ise 2026-08-01]") end)

abbrev ours : Obj
ours =
    field "kind" (text "sgt") (field "name" (text "Printer") (field "description" (text "old") end))

drifted : drift_fields ours theirs ≡ "name" ∷ []
unfolding drift_fields
drifted = refl

contains-drift_fields_example : contains (drift_fields ours theirs) "name" ≡ (
    (has_key ours "name" || has_key theirs "name")
    && (not ("name" == "id" || "name" == "link" || "name" == "kind" || "name" == "conditionPath")
        && (if "name" == "description"
            then not (
                same_runes
                  (strip_import_marker (str ours "name"))
                  (strip_import_marker (str theirs "name")))
            else not (deep_equal (value_at ours "name") (value_at theirs "name")))))
contains-drift_fields_example = contains-drift_fields ours theirs "name"

abbrev new_item : Item
new_item = record { family = trust_sec; name = []; action = create; reason = []; obj = group }

add-IsCounted_example : IsCounted (add empty_report new_item)
add-IsCounted_example =
    add-IsCounted empty_report new_item (record { created = refl; skipped = refl; stopped = refl })
