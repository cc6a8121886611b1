-- ===== src/PolicyElements.antt =====
-- policy_elements.go: `checkAuthProfileRefs`, `checkIdStoreSequenceRefs`, `extractAncestors` and
-- `dictionaryAttrLookup`.
use ise2ise.Base.{String, Option, none, some, List, [], ◌∷◌, ◌<>◌, ◌==◌, ◌&&◌, not}
use ise2ise.Base.{Dict, get, put, Names, has, add_name, if◌then◌else◌}
use ise2ise.Json.{Obj, lookup, str, child, rule_list, array_objects}
use ise2ise.Message.{Message, lit, quoted}
use ise2ise.Prog.{ret, ◌>>=◌, when_some}
use ise2ise.Texts.{split_at_char}
use ise2ise.Ise.Errors.{Result, ok, err}
use ise2ise.Ise.Calls.{Calls, open_api_list_once}
use ise2ise.PolicySets.Conditions.{lacks, or_reason}
use ise2ise.PolicySets.References.{first_reason}

-- What the target has, or will have, by name; the attributes of a dictionary where they can be asked for.
pub record Held : Type 0 where
  pub new_dacls : Names
  pub dacls : Names
  pub dictionaries : Names
  pub attrs_in : Option (String → Option Names)

abbrev asked : Option (String → Option Names) → String → Option Names
asked none dict = none
asked (some attrs_in) dict = attrs_in dict

-- A dictionary's attribute on one side of an advanced attribute.
unfoldable pub value_reason : Held → Obj → Message
unfolding str has
value_reason h s =
    let dict = str s "dictionaryName" in
    let attr = str s "attributeName" in
    if not (str s "AdvancedAttributeValueType" == "AdvancedDictionaryAttribute")
    then []
    else if dict == ""
    then []
    else if not (has h.dictionaries dict)
    then lit "dictionary " ∷ quoted dict ∷ lit " does not exist on the target" ∷ []
    else if not (attr == "") && lacks (asked h.attrs_in dict) attr
    then lit "the dictionary "
      ∷ quoted dict
      ∷ lit " on the target has no attribute "
      ∷ quoted attr
      ∷ lit "; it is a custom attribute and has to be created there first"
      ∷ []
    else []

abbrev side_reason : Held → Option Obj → Message
side_reason h none = []
side_reason h (some s) = value_reason h s

-- Both sides, of which the source spells the keys as ISE does.
unfoldable pub sides_reason : Held → Obj → Message
unfolding value_reason child
sides_reason h attr =
    or_reason (side_reason h (child attr "leftHandSideDictionaryAttribue"))
      (side_reason h (child attr "rightHandSideAttribueValue"))

-- `checkAuthProfileRefs`
unfoldable pub check_auth_profile_refs : Held → Obj → Message
unfolding str has rule_list lookup sides_reason
check_auth_profile_refs h o =
    let dacl = str o "daclName" in
    let attributes = first_reason (sides_reason h) (rule_list (lookup o "advancedAttributes")) in
    if not (dacl == "") && (not (has h.dacls dacl) && not (has h.new_dacls dacl))
    then lit "dACL "
      ∷ quoted dacl
      ∷ lit " does not exist on the target and is not in the bundle"
      ∷ []
    else attributes

abbrev store_reason : Names → Names → Obj → Message
store_reason ad_joins sources item =
    let store = str item "idstore" in
    if not (store == "") && (not (has sources store) && not (has ad_joins store))
    then lit "identity source "
      ∷ quoted store
      ∷ lit " does not exist on the target and domain is not joined"
      ∷ []
    else []

-- `checkIdStoreSequenceRefs`, which blocks on no certificate profile.
unfoldable pub check_id_store_sequence_refs : Names → Names → Obj → Message
unfolding str has lookup
check_id_store_sequence_refs ad_joins sources o =
    first_reason (store_reason ad_joins sources) (array_objects (lookup o "idSeqItem"))

abbrev ancestors_from : String → List String → List String
ancestors_from name [] = []
ancestors_from name (part ∷ parts) = name ∷ ancestors_from (name <> ("#" <> part)) parts

abbrev ancestors_of : List String → List String
ancestors_of (a ∷ b ∷ parts) = ancestors_from (a <> ("#" <> b)) parts
ancestors_of _ = []

-- `extractAncestors`: the names above a name of more than two parts, the shortest first.
unfoldable pub extract_ancestors : String → List String
extract_ancestors name = ancestors_of (split_at_char b'#' name)

abbrev path_dictionaries : String
path_dictionaries = "/api/v1/policy/network-access/dictionaries"

abbrev named : List Obj → Names → Names
named [] m = m
named (a ∷ attrs) m = named attrs (add_name m (str a "name"))

abbrev known_attrs : Result (List Obj) → Option Names
known_attrs (err e) = none
known_attrs (ok attrs) = some (named attrs [])

-- One call of the function that `dictionaryAttrLookup` returns, over its cache.
unfoldable pub dictionary_attrs :
    String → Dict (Option Names) → Calls (Option Names × Dict (Option Names))
unfolding get put add_name str
dictionary_attrs dict cache =
    when_some (get cache dict)
      (do
        r ← open_api_list_once (path_dictionaries <> ("/" <> (dict <> "/attribute")))
        ret (known_attrs r, put cache dict (known_attrs r)))
      λ known. ret (known, cache)
