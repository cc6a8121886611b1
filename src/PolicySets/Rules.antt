-- ===== src/PolicySets/Rules.antt =====
-- policy_sets.go: the part of `applyPolicySets` that posts the rules of a set, with `createAuthRule`
-- and `createAuthzRule`. The import stops with a panic, here `none`, at a rule without a "rule"
-- object. Progress lines are left out; the day that a description is marked with is a parameter.
use ise2ise.Base.{◌<>◌, String, Bool, false, Option, none, some, List, [], ◌∷◌}
use ise2ise.Base.{Dict, Names, has, add_name, if◌then◌else◌, ◌+◌}
use ise2ise.Json.{text, obj, Obj, lookup, str, set, delete_all, truthy, child}
use ise2ise.Json.{rule_list}
use ise2ise.Message.{lit, quoted, shown}
use ise2ise.Prog.{ret, ◌>>=◌, for_each}
use ise2ise.Ise.Errors.{IseError, Result, ok, err, is_duplicate, error_text}
use ise2ise.Ise.Calls.{Calls, or_zero, open_api_create}
use ise2ise.Ise.Paging.{open_api_list}
use ise2ise.Report.{ImportResult}
use ise2ise.Report.{one_created, one_skipped, one_failed}
use ise2ise.PolicySets.Conditions.{rewrite_condition}

abbrev pub path_policy_sets : String
path_policy_sets = "/api/v1/policy/network-access/policy-set"

abbrev pub condition_paths : List String
condition_paths =
    "/api/v1/policy/network-access/condition" ∷ "/api/v1/policy/network-access/time-condition"
    ∷ "/api/v1/policy/network-access/network-condition" ∷ []

abbrev pub path_authorization_profiles : String
path_authorization_profiles = "/api/v1/policy/network-access/authorization-profiles"

abbrev pub rules_path : String → String → String
rules_path set_id kind = path_policy_sets <> ("/" <> (set_id <> ("/" <> kind)))

-- What holds for the whole import.
pub record Run : Type 0 where
  pub condition_ids : Dict String
  pub keep_state : Bool
  pub today : String

-- A rule was dealt with, with the error that `createAuthRule` returns, or the code panicked.
pub data Landed : Type 0 where
  landed : ImportResult → Option IseError → Landed
  panicked : Landed

abbrev pub relinked : Run → Obj → Option Obj → Obj
relinked run o none = o
relinked run o (some cond) = set o "condition" (obj (rewrite_condition run.condition_ids cond))

abbrev pub disabled_unless : Bool → Obj → Obj
disabled_unless keep o = if keep then o else set o "state" (text "disabled")

-- The inner rule as it is sent.
abbrev pub inner_body : Run → Obj → Obj
inner_body run inner =
    delete_all (disabled_unless run.keep_state (relinked run inner (child inner "condition")))
      ("id" ∷ "rank" ∷ "hitCounts" ∷ [])

abbrev pub rule_posted : ImportResult → Result Unit → Landed
rule_posted res (ok u) = landed (one_created res) none
rule_posted res (err e) =
    if is_duplicate e
    then landed (one_skipped res) none
    else landed (record res { failed = res.failed + 1 }) (some e)

abbrev pub post_rule : Run → String → String → Obj → Obj → ImportResult → Calls Landed
post_rule run set_id kind rule inner res = do
  r ← open_api_create (rules_path set_id kind) (set rule "rule" (obj (inner_body run inner)))
  ret (rule_posted res r)

abbrev pub with_inner : Run → String → String → Obj → Option Obj → ImportResult → Calls Landed
with_inner run set_id kind rule none res = ret panicked
with_inner run set_id kind rule (some inner) res =
    let posted = post_rule run set_id kind rule inner res in
    if truthy inner "default" then ret (landed res none) else posted

-- `createAuthRule` and `createAuthzRule`, by the kind of rule.
unfoldable pub create_rule : Run → String → String → Obj → ImportResult → Calls Landed
unfolding child rewrite_condition set delete_all truthy
create_rule run set_id kind rule res = with_inner run set_id kind rule (child rule "rule") res

abbrev pub told : String → String → Landed → Option ImportResult
told kind target_name panicked = none
told kind target_name (landed res none) = some res
told kind target_name (landed res (some e)) =
    some
      (one_failed res (shown kind ∷ lit " rule in " ∷ quoted target_name ∷ lit ": " ∷ error_text e))

abbrev pub rule_key : String → Obj → String
rule_key kind inner = kind <> ("|" <> str inner "name")

abbrev pub exists_already : Names → String → Option Obj → Bool
exists_already existing kind none = false
exists_already existing kind (some inner) = has existing (rule_key kind inner)

-- Where the rules of a set go.
pub record Place : Type 0 where
  pub set_id : String
  pub set_name : String
  pub existing : Names

-- One rule of a set; a panic has ended the import before.
abbrev pub one_rule : Run → Place → String → Obj → Option ImportResult → Calls (Option ImportResult)
one_rule run p kind rule none = ret none
one_rule run p kind rule (some res) =
    let create = do l ← create_rule run p.set_id kind rule res; ret (told kind p.set_name l)
    in if exists_already p.existing kind (child rule "rule")
      then ret (some (one_skipped res))
      else create

unfoldable pub create_rules : Run → Place → Obj → ImportResult → Calls (Option ImportResult)
unfolding rule_list lookup child create_rule
create_rules run p o res = do
  res' ←
      for_each (rule_list (lookup o "authentication")) (some res) (one_rule run p "authentication")
  for_each (rule_list (lookup o "authorization")) res' (one_rule run p "authorization")

abbrev pub rule_names : String → List Obj → Names → Names
rule_names kind [] m = m
rule_names kind (h ∷ hs) m =
    rule_names kind hs
      (elim (child h "rule") [ none ↦ m | some inner ↦ add_name m (rule_key kind inner) ])

-- The rules that the target's set already has; a list that cannot be read counts as empty.
unfoldable pub read_existing : String → Calls Names
read_existing set_id = for_each ("authentication" ∷ "authorization" ∷ []) [] λ kind m. do
  have ← open_api_list (rules_path set_id kind)
  ret (rule_names kind (or_zero [] have) m)
