-- ===== src/Tests/PolicySets.antt =====
-- A policy set with a nested condition, against a target that knows what it names.
use ise2ise.Base.{
  ◌≡◌, refl, String, Bool, true, false, Option, none, some, List, [], ◌∷◌, Dict, not,
}
use ise2ise.Base.{is_empty, every, ◌&&◌, Names}
use ise2ise.Json.{text, arr, obj, nil, cons, Obj, end, field, lookup, str, rule_list}
use ise2ise.Prog.Sends.{Sends}
use ise2ise.Report.{Item, create, policy_sets, ImportResult}
use ise2ise.Marker.Tag.{tag_description}
use ise2ise.PolicySets.Conditions.{Library, check_condition, rewrite_condition}
use ise2ise.PolicySets.Conditions.Laws.{nodes, resolves, is_empty-check_condition}
use ise2ise.PolicySets.Conditions.Rewrite.{from_json, is_linked}
use ise2ise.PolicySets.Conditions.Links.{rewrite_condition-is_linked}
use ise2ise.PolicySets.References.{Known, misses, condition_reason, check_policy_set, check_rule}
use ise2ise.PolicySets.References.Laws.{is_empty-check_policy_set}
use ise2ise.PolicySets.Apply.{apply_policy_sets}
use ise2ise.PolicySets.Apply.Writes.{IsQuiet, apply_policy_sets-IsQuiet}
use package.text.Mathlib.TextLemmas.{cons≢nil}
use ise2ise.Base.{get}
use ise2ise.Json.{set}
use ise2ise.Marker.{mine}
use ise2ise.Marker.Tag.Laws.{mine-tag_description}
use ise2ise.PolicySets.Names.{free_set_name, free_set_name-free}
use ise2ise.PolicySets.Clean.{clean_condition, is_portable, clean_condition-is_portable}

abbrev wired_mab : Obj
wired_mab = field "conditionType" (text "ConditionReference") (field "name" (text "Wired_MAB") end)

abbrev reads_group : Obj
reads_group =
    field "conditionType" (text "ConditionAttributes")
      (field "dictionaryName" (text "AD1") (field "attributeName" (text "ExternalGroups") end))

abbrev either_of : Obj
either_of =
    field "conditionType" (text "ConditionOrBlock")
      (field "children" (arr (cons (obj wired_mab) (cons (obj reads_group) nil))) end)

abbrev library : Library
library = record {
  conditions = ("Wired_MAB", "c-1") ∷ [];
  dicts = some (("AD1", tt) ∷ []);
  attrs_in = λ dict. none;
}

is_empty-check_condition_example :
    is_empty (check_condition library either_of) ≡ every (resolves library) (nodes either_of)
is_empty-check_condition_example = is_empty-check_condition library either_of

linked_example :
    every (is_linked library.conditions) (nodes (rewrite_condition library.conditions either_of))
    ≡ true
unfolding from_json check_condition ise2ise.Base.has ise2ise.Base.get
linked_example = rewrite_condition-is_linked library either_of refl refl

abbrev known : Known
known = record {
  services = ("Default Network Access", "s-1") ∷ [];
  sgts = [];
  id_stores = ("Internal Users", "i-1") ∷ [];
  auth_profiles = [];
  will_exist_auth_profiles = ("Guests", "new") ∷ [];
  library = library;
}

abbrev guests : Obj
guests =
    field "profile" (arr (cons (text "Guests") nil)) (
      field "rule" (obj (field "name" (text "Guests") (field "condition" (obj either_of) end))) end)

abbrev wired : Obj
wired = field "name" (text "Wired") (
    field "serviceName" (text "Default Network Access")
      (field "condition" (obj either_of) (field "authorization" (arr (cons (obj guests) nil)) end)))

is_empty-check_policy_set_example : is_empty (check_policy_set known wired) ≡ (
    not (misses known.services (str wired "serviceName"))
    && (is_empty (condition_reason known.library wired)
        && (every
              (λ rule. is_empty (check_rule known "authentication" rule))
              (rule_list (lookup wired "authentication"))
            && every
                (λ rule. is_empty (check_rule known "authorization" rule))
                (rule_list (lookup wired "authorization")))))
is_empty-check_policy_set_example = is_empty-check_policy_set known wired

abbrev sets : List Item
sets = record { family = policy_sets; name = []; action = create; reason = []; obj = wired } ∷ []

abbrev nothing_done : ImportResult
nothing_done = record { created = 0; skipped = 0; blocked = 0; failed = 0; errors = [] }

apply_policy_sets-IsQuiet_example :
    Sends IsQuiet (apply_policy_sets false "2026-08-12" sets nothing_done)
apply_policy_sets-IsQuiet_example = apply_policy_sets-IsQuiet "2026-08-12" sets nothing_done

tagged : tag_description "2026-08-12" "Guest access" ≡ "Guest access [ise2ise 2026-08-12]"
unfolding tag_description
tagged = refl

tagged_once : tag_description "2026-08-13" "[ise2ise 2026-08-12]" ≡ "[ise2ise 2026-08-12]"
unfolding tag_description
tagged_once = refl

-- The target has a set of the name, made by someone else.
abbrev taken_sets : Dict Obj
taken_sets = ("Wired (imported)", field "description" (text "by hand") end) ∷ []

next_name : free_set_name "Wired" taken_sets ≡ "Wired (imported 2)"
unfolding free_set_name
next_name = refl

free_set_name-free_example : get taken_sets (free_set_name "Wired" taken_sets) ≡ none
unfolding free_set_name
free_set_name-free_example = free_set_name-free "Wired" taken_sets λ e. absurd (cons≢nil e)

-- An id deep in the tree.
abbrev exported : Obj
exported =
    field "id" (text "c-0")
      (field "children" (arr (cons (obj (field "id" (text "c-1") wired_mab)) nil)) end)

clean_condition-is_portable_example : every is_portable (nodes (clean_condition exported)) ≡ true
unfolding from_json
clean_condition-is_portable_example = clean_condition-is_portable exported refl

mine-tag_description_example :
    (mine (set wired "description" (text (tag_description "2026-08-12" "Wired access"))) ≡ true)
    × (tag_description "2026-08-13" (tag_description "2026-08-12" "Wired access")
        ≡ tag_description "2026-08-12" "Wired access")
mine-tag_description_example = mine-tag_description wired "2026-08-12" "2026-08-13" "Wired access"
