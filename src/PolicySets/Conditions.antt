-- ===== src/PolicySets/Conditions.antt =====
-- policy_sets.go: `checkConditionReferences` and `rewriteConditionReferences`, over the tree of a
-- condition. The walks look for the key "children" as a map's lookup does.
pub mod Laws
pub mod Rewrite
pub mod Links
use ise2ise.Base.{String, Bool, true, false, Option, none, some, List, [], ◌∷◌, ◌==◌, ◌||◌, not}
use ise2ise.Base.{◌&&◌, ◌++◌, Dict, get, Names, has, is_empty, if◌then◌else◌}
use ise2ise.Json.{Value, text, arr, objs, obj, Values, nil, cons, Obj, end, field, Objs, stop, more}
use ise2ise.Json.{str, set}
use ise2ise.Message.{Message, Piece, lit, quoted}

-- `m[k]` of a `map[string]string`: "" if the key is missing.
unfoldable pub at_key : Dict String → String → String
unfolding get
at_key m k = elim (get m k) [ none ↦ "" | some v ↦ v ]

-- What a condition is checked against: the library conditions' ids by name, the dictionaries if they
-- are known, and the attributes of a dictionary if they are known.
pub record Library : Type 0 where
  pub conditions : Dict String
  pub dicts : Option Names
  pub attrs_in : String → Option Names

abbrev pub is_reference : Obj → Bool
is_reference cond = str cond "conditionType" == "ConditionReference"

abbrev pub is_attributes : Obj → Bool
is_attributes cond =
    str cond "conditionType" == "ConditionAttributes"
    || str cond "conditionType" == "LibraryConditionAttributes"

-- `known != nil && !known[name]`
abbrev pub lacks : Option Names → String → Bool
lacks none name = false
lacks (some known) name = not (has known name)

unfoldable pub reference_reason : Library → String → Message
unfolding at_key
reference_reason lib name =
    if not (name == "") && at_key lib.conditions name == ""
    then lit "library condition " ∷ quoted name ∷ lit " does not exist on the target" ∷ []
    else []

unfoldable pub attribute_reason : Library → String → String → Message
attribute_reason lib dict attr =
    if dict == ""
    then []
    else if lacks lib.dicts dict
    then lit "a condition reads the dictionary "
      ∷ quoted dict
      ∷ lit ", which the target does not have"
      ∷ []
    else if not (attr == "") && lacks (lib.attrs_in dict) attr
    then lit "a condition reads "
      ∷ quoted attr
      ∷ lit " from the dictionary "
      ∷ quoted dict
      ∷ lit ", and the target's copy has no such attribute"
      ∷ []
    else []

-- The `switch` on a condition's type.
unfoldable pub own_reason : Library → Obj → Message
unfolding reference_reason attribute_reason str
own_reason lib cond =
    if is_reference cond
    then reference_reason lib (str cond "name")
    else if is_attributes cond
    then attribute_reason lib (str cond "dictionaryName") (str cond "attributeName")
    else []

-- `if reason != "" { return reason }`
abbrev pub or_reason : Message → Message → Message
or_reason [] m = m
or_reason (p ∷ ps) m = p ∷ ps

unfoldable mutual
  unfolding own_reason

  pub check_children : Library → Obj → Message
  check_children lib end = []
  check_children lib (field k v o) =
      let here = check_value lib v in
      let rest = check_children lib o in if k == "children" then here else rest

  pub check_value : Library → Value → Message
  check_value lib (objs os) = check_objs lib os
  check_value lib (arr vs) = check_values lib vs
  check_value lib _ = []

  pub check_values : Library → Values → Message
  check_values lib nil = []
  check_values lib (cons (obj o) vs) =
      or_reason (or_reason (own_reason lib o) (check_children lib o)) (check_values lib vs)
  check_values lib (cons v vs) = check_values lib vs

  pub check_objs : Library → Objs → Message
  check_objs lib stop = []
  check_objs lib (more o os) =
      or_reason (or_reason (own_reason lib o) (check_children lib o)) (check_objs lib os)

-- `checkConditionReferences`
unfoldable pub check_condition : Library → Obj → Message
unfolding own_reason check_children
check_condition lib cond = or_reason (own_reason lib cond) (check_children lib cond)

-- A reference to a condition that the target has.
abbrev pub gets_id : Dict String → Obj → Bool
gets_id ids cond =
    is_reference cond && (not (str cond "name" == "") && not (at_key ids (str cond "name") == ""))

-- The id that a reference gets.
unfoldable pub with_id : Dict String → Obj → Obj → Obj
unfolding str set at_key
with_id ids cond out =
    if gets_id ids cond then set out "id" (text (at_key ids (str cond "name"))) else out

unfoldable mutual
  unfolding with_id

  pub rewrite_fields : Dict String → Obj → Obj
  rewrite_fields ids end = end
  rewrite_fields ids (field k v o) =
      let below = rewrite_list ids v in
      let rest = rewrite_fields ids o in field k (if k == "children" then below else v) rest

  pub rewrite_list : Dict String → Value → Value
  rewrite_list ids (arr vs) = arr (rewrite_values ids vs)
  rewrite_list ids v = v

  pub rewrite_values : Dict String → Values → Values
  rewrite_values ids nil = nil
  rewrite_values ids (cons (obj o) vs) =
      cons (obj (with_id ids o (rewrite_fields ids o))) (rewrite_values ids vs)
  rewrite_values ids (cons v vs) = cons v (rewrite_values ids vs)

-- `rewriteConditionReferences`
unfoldable pub rewrite_condition : Dict String → Obj → Obj
unfolding with_id rewrite_fields
rewrite_condition ids cond = with_id ids cond (rewrite_fields ids cond)
