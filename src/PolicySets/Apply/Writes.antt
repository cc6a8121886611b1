-- ===== src/PolicySets/Apply/Writes.antt =====
-- policy_sets.go: what `applyPolicySets` may send when it does not keep the sets' state.
use ise2ise.Base.{◌≡◌, refl, String, false, Option, none, some, List, []}
use ise2ise.Base.{◌||◌, if◌then◌else◌, keep}
use ise2ise.Json.{text, obj, Obj, str, set, delete, delete_all, truthy, child, lookup}
use ise2ise.Request.{Request, post, IsRead, open_api, url_at}
use ise2ise.Prog.Sends.{Sends, done, asks, Sends-bind, Sends-if, Sends-mono, Sends-for_each}
use ise2ise.Ise.Errors.{Result, ok, err}
use ise2ise.Ise.Calls.{open_api_create}
use ise2ise.Ise.Paging.{open_api_list}
use ise2ise.Ise.Paging.Complete.{open_api_list-Reads}
use ise2ise.Report.{Item, ImportResult, is_create, one_skipped}
use ise2ise.PolicySets.Rules.{
  Run, Place, path_policy_sets, condition_paths, path_authorization_profiles, rules_path,
  inner_body, with_inner, create_rule, exists_already, one_rule, create_rules, read_existing,
}
use ise2ise.PolicySets.Apply.{
  read_conditions, merges_default, merges_mine, set_body, Set, no_rules, rules_at, after_create,
  create_set, target_set, with_set, apply_set, next_set, apply_sets, in_family, apply_policy_sets,
  target_name_of, set_name_of, count_left_out,
}

-- A GET, or a POST that adds a disabled set or a disabled rule.
pub data IsQuiet : Request → Type 0 where
  reads : {q : Request} → IsRead q → IsQuiet q
  adds_set :
      (o : Obj)
      → str o "state" ≡ "disabled"
      → IsQuiet
          (record { method = post; url = url_at open_api path_policy_sets; body = some (obj o) })
  adds_rule :
      (set_id kind : String) (o inner : Obj)
      → child o "rule" ≡ some inner
      → str inner "state" ≡ "disabled"
      → IsQuiet (record {
        method = post;
        url = url_at open_api (rules_path set_id kind);
        body = some (obj o);
      })

list-IsQuiet : (path : String) → Sends IsQuiet (open_api_list path)
list-IsQuiet path = Sends-mono (λ q h. reads h) (open_api_list-Reads path)

-- The states are not to be kept.
abbrev quiet : Run → Run
quiet run = record run { keep_state = false }

child-set : (o p : Obj) → child (set o "rule" (obj p)) "rule" ≡ some p
unfolding child set lookup
child-set o p = refl

inner_body-disabled : (run : Run) (o : Obj) → str (inner_body (quiet run) o) "state" ≡ "disabled"
unfolding delete_all delete set str lookup
inner_body-disabled run o = refl

set_body-disabled : (run : Run) (o : Obj) → str (set_body (quiet run) o) "state" ≡ "disabled"
unfolding set_body delete_all
set_body-disabled run o = refl

with_inner-IsQuiet :
    (run : Run) (set_id kind : String) (rule : Obj) (inner : Option Obj) (res : ImportResult)
    → Sends IsQuiet (with_inner (quiet run) set_id kind rule inner res)
unfolding open_api_create
with_inner-IsQuiet run set_id kind rule none res = done _
with_inner-IsQuiet run set_id kind rule (some inner) res =
    Sends-if (truthy inner "default") (done _) (
      asks
        (adds_rule set_id kind _ (inner_body (quiet run) inner)
          (child-set rule (inner_body (quiet run) inner)) (inner_body-disabled run inner))
        λ r. done _)

one_rule-IsQuiet :
    (run : Run) (p : Place) (kind : String) (rule : Obj) (res : Option ImportResult)
    → Sends IsQuiet (one_rule (quiet run) p kind rule res)
unfolding create_rule
one_rule-IsQuiet run p kind rule none = done _
one_rule-IsQuiet run p kind rule (some res) =
    Sends-if (exists_already p.existing kind (child rule "rule")) (done _)
      (Sends-bind _ (with_inner-IsQuiet run p.set_id kind rule (child rule "rule") res) λ l. done _)

create_rules-IsQuiet :
    (run : Run) (p : Place) (o : Obj) (res : ImportResult)
    → Sends IsQuiet (create_rules (quiet run) p o res)
unfolding create_rules
create_rules-IsQuiet run p o res =
    Sends-bind _ (Sends-for_each _ (some res) (one_rule-IsQuiet run p "authentication"))
      λ res'. Sends-for_each _ res' (one_rule-IsQuiet run p "authorization")

read_existing-IsQuiet : (set_id : String) → Sends IsQuiet (read_existing set_id)
unfolding read_existing
read_existing-IsQuiet set_id =
    Sends-for_each _ []
      λ kind m. Sends-bind _ (list-IsQuiet (rules_path set_id kind)) λ have. done _

after_create-IsQuiet :
    (name : String) (res : ImportResult) (r : Result Unit) → Sends IsQuiet (after_create name res r)
after_create-IsQuiet name res (ok u) = Sends-bind _ (list-IsQuiet path_policy_sets) λ sets. done _
after_create-IsQuiet name res (err e) = done _

create_set-IsQuiet :
    (run : Run) (name : String) (o : Obj) (res : ImportResult)
    → Sends IsQuiet (create_set (quiet run) name o res)
unfolding create_set open_api_create
create_set-IsQuiet run name o res =
    asks (adds_set (set_body (quiet run) o) (set_body-disabled run o))
      λ r. after_create-IsQuiet name res _

with_set-IsQuiet :
    (run : Run) (it : Item) (name : String) (o : Obj) (s : Set)
    → Sends IsQuiet (with_set (quiet run) it name o s)
with_set-IsQuiet run it name o (no_rules res) = done _
with_set-IsQuiet run it name o (rules_at id res) =
    Sends-bind _
      (Sends-if (merges_default it || merges_mine it) (read_existing-IsQuiet id) (done _))
      λ existing. create_rules-IsQuiet run _ o res

target_set-IsQuiet :
    (run : Run) (it : Item) (name : String) (o : Obj) (res : ImportResult)
    → Sends IsQuiet (target_set (quiet run) it name o res)
target_set-IsQuiet run it name o res =
    Sends-if (merges_mine it) (done _)
      (Sends-if (truthy o "default") (done _) (create_set-IsQuiet run name o res))

apply_set-IsQuiet :
    (run : Run) (it : Item) (res : ImportResult) → Sends IsQuiet (apply_set (quiet run) it res)
unfolding apply_set
apply_set-IsQuiet run it res =
    let o = set it.obj "name" (text (target_name_of it.obj)) in
    Sends-if (is_create it.action || merges_default it)
      (Sends-bind _
        (target_set-IsQuiet run it (target_name_of it.obj) o
          (if merges_default it then one_skipped res else res))
        λ s. with_set-IsQuiet run it (set_name_of it it.obj) o s)
      (done (some (count_left_out it res)))

next_set-IsQuiet :
    (run : Run) (it : Item) (res : Option ImportResult)
    → Sends IsQuiet (next_set (quiet run) it res)
next_set-IsQuiet run it none = done _
next_set-IsQuiet run it (some res) = apply_set-IsQuiet run it res

read_conditions-IsQuiet : Sends IsQuiet read_conditions
unfolding read_conditions
read_conditions-IsQuiet =
    Sends-for_each condition_paths [] λ path m. Sends-bind _ (list-IsQuiet path) λ conds. done _

-- Unless the states are to be kept, and whatever the target answers, the import of the policy sets
-- sends nothing but GETs, POSTs of a policy set whose state is "disabled", and POSTs of a rule, to
-- the rules of some set, whose inner state is "disabled".
pub apply_policy_sets-IsQuiet :
    (today : String) (items : List Item) (res : ImportResult)
    → Sends IsQuiet (apply_policy_sets false today items res)
unfolding apply_policy_sets apply_sets
apply_policy_sets-IsQuiet today items res = Sends-bind _ read_conditions-IsQuiet λ ids.
    Sends-bind _ (list-IsQuiet path_authorization_profiles) λ profiles.
      Sends-for_each (keep in_family items) (some res)
        (next_set-IsQuiet (record { condition_ids = ids; keep_state = false; today = today }))
