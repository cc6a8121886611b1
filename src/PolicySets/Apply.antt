-- ===== src/PolicySets/Apply.antt =====
-- policy_sets.go: `applyPolicySets`, which creates the sets and posts their rules.
pub mod Writes
use ise2ise.Base.{String, Bool, true, false, Option, none, some, List, [], ◌∷◌, ◌++◌, ◌==◌}
use ise2ise.Base.{◌&&◌, ◌||◌, not, Dict, put, Names, keep, find_first, if◌then◌else◌}
use ise2ise.Json.{Value, text, obj, Obj, str, set, delete, delete_all, truthy, child}
use ise2ise.Message.{Message, Piece, lit, quoted}
use ise2ise.Prog.{Prog, ret, ask, ◌>>=◌, for_each}
use ise2ise.Ise.Errors.{IseError, Result, ok, err, is_duplicate, error_text}
use ise2ise.Ise.Calls.{Calls, or_zero, open_api_create}
use ise2ise.Ise.Paging.{open_api_list}
use ise2ise.Report.{Item, Action, is_create, is_skip, same_family, policy_sets, ImportResult}
use ise2ise.Report.{one_created, one_skipped, one_blocked, one_failed}
use ise2ise.Marker.Tag.{tag_description}
use ise2ise.PolicySets.Rules.{
  Run, Place, path_policy_sets, condition_paths, path_authorization_profiles, relinked,
  disabled_unless, create_rules, read_existing,
}

abbrev pub ids_into : List Obj → Dict String → Dict String
ids_into [] m = m
ids_into (o ∷ os) m = ids_into os (put m (str o "name") (str o "id"))

-- The library conditions' ids by name; a list that cannot be read counts as empty.
unfoldable pub read_conditions : Calls (Dict String)
read_conditions =
    for_each condition_paths []
      λ path m. do conds ← open_api_list path; ret (ids_into (or_zero [] conds) m)

-- `mergeDefault` and `mergeMine`
abbrev pub merges_default : Item → Bool
merges_default it = is_skip it.action && truthy it.obj "default"

abbrev pub merges_mine : Item → Bool
merges_mine it = is_create it.action && not (str it.obj "mergeIntoID" == "")

abbrev pub first_text : String → String → String
first_text s t = if s == "" then t else s

abbrev pub target_name_of : Obj → String
target_name_of o = first_text (str o "targetName") (str o "name")

-- The set as it is sent, without the keys of pre-flight and without its rules.
unfoldable pub set_body : Run → Obj → Obj
unfolding set delete_all child tag_description str
set_body run o =
    let bare = delete_all o ("targetName" ∷ "targetDefaultID" ∷ "kind" ∷ []) in
    let linked = relinked run bare (child bare "condition") in
    let body =
      delete_all (disabled_unless run.keep_state linked)
        ("id" ∷ "rank" ∷ "authentication" ∷ "authorization" ∷ []) in
    set body "description" (text (tag_description run.today (str body "description")))

-- Where an item goes on: with the rules at a place, or with the next item.
pub data Set : Type 0 where
  rules_at : String → ImportResult → Set
  no_rules : ImportResult → Set

abbrev pub set_failed : ImportResult → String → Message → Set
set_failed res name why =
    no_rules (one_failed res (lit "policy set " ∷ quoted name ∷ lit ": " ∷ why))

abbrev pub id_of_named : String → List Obj → String
id_of_named name os = elim (find_first (λ s. str s "name" == name) os) [
  | none ↦ ""
  | some s ↦ str s "id"
]

abbrev pub created_at : String → ImportResult → Result (List Obj) → Set
created_at name res (err e) =
    set_failed res name (lit "could not retrieve created set: " ∷ error_text e)
created_at name res (ok os) =
    if id_of_named name os == ""
    then set_failed res name (lit "could not retrieve created set ID" ∷ [])
    else rules_at (id_of_named name os) (one_created res)

abbrev pub after_create : String → ImportResult → Result Unit → Calls Set
after_create name res (ok u) = do
  sets ← open_api_list path_policy_sets
  ret (created_at name res sets)
after_create name res (err e) =
    ret (if is_duplicate e then no_rules (one_skipped res) else set_failed res name (error_text e))

-- Creates the set, reads back its id.
unfoldable pub create_set : Run → String → Obj → ImportResult → Calls Set
unfolding set_body
create_set run name o res = do
  r ← open_api_create path_policy_sets (set_body run o)
  after_create name res r

abbrev pub default_set : String → ImportResult → Set
default_set id res =
    if id == ""
    then no_rules (one_failed res (lit "Default set: target's Default set ID not found" ∷ []))
    else rules_at id res

-- The `switch`: a set of an earlier run, the Default set, or a new one.
abbrev pub target_set : Run → Item → String → Obj → ImportResult → Calls Set
target_set run it name o res =
    let new = create_set run name o res in
    if merges_mine it
    then ret (rules_at (str o "mergeIntoID") res)
    else if truthy o "default"
    then ret (default_set (str o "targetDefaultID") res)
    else new

-- The target's own rules are read only where rules are merged.
abbrev pub existing_rules : Item → String → Calls Names
existing_rules it id =
    let have = read_existing id in if merges_default it || merges_mine it then have else ret []

abbrev pub with_set : Run → Item → String → Obj → Set → Calls (Option ImportResult)
with_set run it name o (no_rules res) = ret (some res)
with_set run it name o (rules_at id res) = do
  existing ← existing_rules it id
  create_rules run (record { set_id = id; set_name = name; existing = existing }) o res

abbrev pub count_left_out : Item → ImportResult → ImportResult
count_left_out it res = if is_skip it.action then one_skipped res else one_blocked res

abbrev pub set_name_of : Item → Obj → String
set_name_of it o = if merges_mine it then str o "mergeName" else target_name_of o

-- One item of the family.
unfoldable pub apply_set : Run → Item → ImportResult → Calls (Option ImportResult)
unfolding create_set create_rules read_existing truthy set
apply_set run it res =
    let name = set_name_of it it.obj in
    let o = set it.obj "name" (text (target_name_of it.obj)) in
    let merge = do
      s ←
          target_set run it (target_name_of it.obj) o
            (if merges_default it then one_skipped res else res)
      with_set run it name o s
    in if is_create it.action || merges_default it
      then merge
      else ret (some (count_left_out it res))

abbrev pub next_set : Run → Item → Option ImportResult → Calls (Option ImportResult)
next_set run it none = ret none
next_set run it (some res) = apply_set run it res

-- The loop; a panic ends it.
unfoldable pub apply_sets : Run → List Item → ImportResult → Calls (Option ImportResult)
unfolding apply_set
apply_sets run items res = for_each items (some res) (next_set run)

abbrev pub in_family : Item → Bool
in_family it = same_family it.family policy_sets

-- `applyPolicySets`
unfoldable pub apply_policy_sets :
    Bool → String → List Item → ImportResult → Calls (Option ImportResult)
unfolding read_conditions apply_sets
apply_policy_sets keep_state today items res = do
  ids ← read_conditions
  profiles ← open_api_list path_authorization_profiles
  apply_sets (record { condition_ids = ids; keep_state = keep_state; today = today })
      (keep in_family items) res
