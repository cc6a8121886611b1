-- ===== src/PolicySets/References.antt =====
-- policy_sets.go: `checkPolicySetReferences` and `checkRuleReferences`.
pub mod Laws
use ise2ise.Base.{String, Bool, true, false, Option, none, some, List, [], ◌∷◌, ◌==◌, ◌&&◌, not}
use ise2ise.Base.{Dict, find_first, if◌then◌else◌}
use ise2ise.Json.{Value, arr, Obj, lookup, str, child, names_in, rule_list}
use ise2ise.Message.{Message, Piece, lit, quoted}
use ise2ise.PolicySets.Conditions.{Library, at_key, or_reason, check_condition}

-- What the target has, or will have, by name.
pub record Known : Type 0 where
  pub services : Dict String
  pub sgts : Dict String
  pub id_stores : Dict String
  pub auth_profiles : Dict String
  pub will_exist_auth_profiles : Dict String
  pub library : Library

-- `name != "" && m[name] == ""`
abbrev pub misses : Dict String → String → Bool
misses m name = not (name == "") && at_key m name == ""

abbrev pub no_profile : Known → String → Bool
no_profile k name =
    at_key k.auth_profiles name == "" && at_key k.will_exist_auth_profiles name == ""

abbrev pub texts_among : Option Value → List String
texts_among (some (arr vs)) = names_in vs
texts_among _ = []

-- The names under "profile" of a rule, as JSON gives them.
abbrev pub profiles_of : Obj → List String
profiles_of rule = texts_among (lookup rule "profile")

abbrev pub when_found : Option String → (String → Message) → Message
when_found none say = []
when_found (some name) say = say name

-- The first profile that the target has not and will not have, said in the caller's words.
unfoldable pub profile_reason : Known → Obj → (String → Message) → Message
unfolding at_key names_in lookup
profile_reason k rule say = when_found (find_first (no_profile k) (profiles_of rule)) say

unfoldable pub condition_reason : Library → Obj → Message
unfolding check_condition child
condition_reason lib o = elim (child o "condition") [ none ↦ [] | some c ↦ check_condition lib c ]

unfoldable pub rule_reason : Library → Obj → Message
unfolding condition_reason child
rule_reason lib rule = elim (child rule "rule") [ none ↦ [] | some o ↦ condition_reason lib o ]

abbrev pub says_if : Bool → Message → Message
says_if b m = if b then m else []

unfoldable pub service_reason : Known → Obj → Message
unfolding str at_key
service_reason k set =
    says_if (misses k.services (str set "serviceName"))
      (lit "service " ∷ quoted (str set "serviceName") ∷ lit " does not exist on the target" ∷ [])

-- The body of the loop over the authentication rules.
unfoldable pub authentication_reason : Known → Obj → Message
unfolding rule_reason str at_key
authentication_reason k rule =
    let src = str rule "identitySourceName" in
    or_reason
      (says_if (misses k.id_stores src) (
        lit "identity source "
        ∷ quoted src
        ∷ lit " does not exist on the target and domain join is required"
        ∷ []))
      (rule_reason k.library rule)

-- The body of the loop over the authorization rules.
unfoldable pub authorization_reason : Known → Obj → Message
unfolding profile_reason rule_reason str at_key
authorization_reason k rule =
    let group = str rule "securityGroup" in
    or_reason
      (profile_reason k rule λ name.
        lit "authorization profile "
        ∷ quoted name
        ∷ lit " does not exist on the target and is not in the bundle"
        ∷ [])
      (or_reason
        (says_if (misses k.sgts group) (
          lit "security group "
          ∷ quoted group
          ∷ lit " does not exist on the target and will not be created"
          ∷ []))
        (rule_reason k.library rule))

unfoldable pub first_reason : (Obj → Message) → List Obj → Message
first_reason reason [] = []
first_reason reason (o ∷ os) = or_reason (reason o) (first_reason reason os)

-- `checkPolicySetReferences`
unfoldable pub check_policy_set : Known → Obj → Message
unfolding service_reason condition_reason first_reason authentication_reason authorization_reason
    rule_list lookup
check_policy_set k set = or_reason (service_reason k set) (
    or_reason (condition_reason k.library set) (
      or_reason (first_reason (authentication_reason k) (rule_list (lookup set "authentication")))
        (first_reason (authorization_reason k) (rule_list (lookup set "authorization")))))

abbrev pub kind_reason : Known → String → Obj → Message
kind_reason k kind rule =
    let src = str rule "identitySourceName" in
    let group = str rule "securityGroup" in
    if kind == "authentication"
    then says_if (misses k.id_stores src)
        (lit "the target has no identity source " ∷ quoted src ∷ [])
    else or_reason
        (profile_reason k rule λ name.
          lit "the target has no authorization profile "
          ∷ quoted name
          ∷ lit " and this bundle does not create one"
          ∷ [])
        (says_if (misses k.sgts group) (
          lit "the target has no security group "
          ∷ quoted group
          ∷ lit " and it will not be created"
          ∷ []))

-- `checkRuleReferences`
unfoldable pub check_rule : Known → String → Obj → Message
unfolding profile_reason rule_reason str at_key
check_rule k kind rule = or_reason (kind_reason k kind rule) (rule_reason k.library rule)
