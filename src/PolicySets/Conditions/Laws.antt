-- ===== src/PolicySets/Conditions/Laws.antt =====
-- policy_sets.go: what `checkConditionReferences` decides.
use ise2ise.Base.{
  every-append, ◌≡◌, refl, String, Bool, true, false, List, [], ◌∷◌, ◌++◌, ◌==◌, ◌&&◌, ◌||◌, not,
}
use ise2ise.Base.{is_empty, every, arith, Bool-cases, inl, inr, if◌then◌else◌}
use ise2ise.Base.{◌∙◌}
use ise2ise.Json.{Value, arr, objs, obj, Values, nil, cons, Obj, end}
use ise2ise.Json.{field, Objs, stop, more, str}
use ise2ise.Message.{Message, Piece}
use ise2ise.PolicySets.Conditions.{
  at_key, Library, is_reference, is_attributes, lacks, own_reason, or_reason, check_children,
  check_value, check_values, check_objs, check_condition, reference_reason, attribute_reason,
}

-- The conditions of a tree.
unfoldable mutual
  pub nodes_below : Obj → List Obj
  nodes_below end = []
  nodes_below (field k v o) =
      let here = nodes_of v in let rest = nodes_below o in if k == "children" then here else rest

  pub nodes_of : Value → List Obj
  nodes_of (objs os) = nodes_objs os
  nodes_of (arr vs) = nodes_values vs
  nodes_of _ = []

  pub nodes_values : Values → List Obj
  nodes_values nil = []
  nodes_values (cons (obj o) vs) = o ∷ (nodes_below o ++ nodes_values vs)
  nodes_values (cons v vs) = nodes_values vs

  pub nodes_objs : Objs → List Obj
  nodes_objs stop = []
  nodes_objs (more o os) = o ∷ (nodes_below o ++ nodes_objs os)

abbrev pub nodes : Obj → List Obj
nodes cond = cond ∷ nodes_below cond

-- A condition names nothing that the target is known not to have.
abbrev pub resolves : Library → Obj → Bool
resolves lib cond =
    if is_reference cond
    then str cond "name" == "" || not (at_key lib.conditions (str cond "name") == "")
    else not (is_attributes cond)
      || (str cond "dictionaryName" == ""
          || (not (lacks lib.dicts (str cond "dictionaryName"))
              && (str cond "attributeName" == ""
                  || not (
                      lacks (lib.attrs_in (str cond "dictionaryName"))
                        (str cond "attributeName")))))

is_empty-unless :
    (given known : Bool) (p : Piece) (ps : Message)
    → is_empty (if not given && known then p ∷ ps else []) ≡ given || not known
is_empty-unless true known p ps = refl
is_empty-unless false true p ps = refl
is_empty-unless false false p ps = refl

is_empty-reference_reason :
    (lib : Library) (name : String)
    → is_empty (reference_reason lib name) ≡ (name == "" || not (at_key lib.conditions name == ""))
unfolding reference_reason
is_empty-reference_reason lib name =
    is_empty-unless (name == "") (at_key lib.conditions name == "") _ _

is_empty-second :
    (unnamed no_dict : Bool) (p : Piece) (ps m : Message) (b : Bool)
    → is_empty m ≡ b
    → is_empty (if unnamed then [] else if no_dict then p ∷ ps else m)
      ≡ (unnamed || (not no_dict && b))
is_empty-second true no_dict p ps m b h = refl
is_empty-second false true p ps m b h = refl
is_empty-second false false p ps m b h = h

is_empty-attribute_reason :
    (lib : Library) (dict attr : String)
    → is_empty (attribute_reason lib dict attr) ≡ (
        dict == ""
        || (not (lacks lib.dicts dict) && (attr == "" || not (lacks (lib.attrs_in dict) attr))))
unfolding attribute_reason
is_empty-attribute_reason lib dict attr =
    is_empty-second (dict == "") (lacks lib.dicts dict) _ _ _ _
      (is_empty-unless (attr == "") (lacks (lib.attrs_in dict) attr) _ _)

is_empty-either :
    (first second : Bool) (m n : Message) (b c : Bool)
    → is_empty m ≡ b
    → is_empty n ≡ c
    → is_empty (if first then m else if second then n else [])
      ≡ (if first then b else not second || c)
is_empty-either true second m n b c h h' = h
is_empty-either false true m n b c h h' = h'
is_empty-either false false m n b c h h' = refl

is_empty-own_reason : (lib : Library) (o : Obj) → is_empty (own_reason lib o) ≡ resolves lib o
unfolding own_reason
is_empty-own_reason lib o =
    is_empty-either (is_reference o) (is_attributes o) _ _ _ _
      (is_empty-reference_reason lib (str o "name"))
      (is_empty-attribute_reason lib (str o "dictionaryName") (str o "attributeName"))

pub is_empty-or_reason : (m n : Message) → is_empty (or_reason m n) ≡ (is_empty m && is_empty n)
is_empty-or_reason [] n = refl
is_empty-or_reason (p ∷ ps) n = refl

-- A node's own reason, those of the nodes below it, and those behind it.
first_of_three :
    (lib : Library) (o : Obj) (behind : List Obj) (m n : Message)
    → is_empty m ≡ every (resolves lib) (nodes_below o)
    → is_empty n ≡ every (resolves lib) behind
    → is_empty (or_reason (or_reason (own_reason lib o) m) n)
      ≡ every (resolves lib) (o ∷ (nodes_below o ++ behind))
first_of_three lib o behind m n hm hn = ground (
  arith,
  is_empty-or_reason (or_reason (own_reason lib o) m) n,
  is_empty-or_reason (own_reason lib o) m,
  is_empty-own_reason lib o,
  every-append (resolves lib) (nodes_below o) behind,
  hm,
  hn,
)

mutual
  unfolding check_children nodes_below

  is_empty-check_children :
      (lib : Library) (o : Obj)
      → is_empty (check_children lib o) ≡ every (resolves lib) (nodes_below o)
  is_empty-check_children lib end = refl
  is_empty-check_children lib (field k v o) = elim (Bool-cases (k == "children")) [
    | inl here ↦ rw here (is_empty-check_value lib v)
    | inr rest ↦ rw rest (is_empty-check_children lib o)
  ]

  is_empty-check_value :
      (lib : Library) (v : Value) → is_empty (check_value lib v) ≡ every (resolves lib) (nodes_of v)
  is_empty-check_value lib (objs os) = is_empty-check_objs lib os
  is_empty-check_value lib (arr vs) = is_empty-check_values lib vs
  is_empty-check_value lib v = refl

  is_empty-check_values :
      (lib : Library) (vs : Values)
      → is_empty (check_values lib vs) ≡ every (resolves lib) (nodes_values vs)
  is_empty-check_values lib nil = refl
  is_empty-check_values lib (cons (obj o) vs) =
      first_of_three lib o (nodes_values vs) (check_children lib o) (check_values lib vs)
        (is_empty-check_children lib o) (is_empty-check_values lib vs)
  is_empty-check_values lib (cons v vs) = is_empty-check_values lib vs

  is_empty-check_objs :
      (lib : Library) (os : Objs)
      → is_empty (check_objs lib os) ≡ every (resolves lib) (nodes_objs os)
  is_empty-check_objs lib stop = refl
  is_empty-check_objs lib (more o os) =
      first_of_three lib o (nodes_objs os) (check_children lib o) (check_objs lib os)
        (is_empty-check_children lib o) (is_empty-check_objs lib os)

-- `checkConditionReferences` gives no reason exactly if every condition in the tree resolves.
pub is_empty-check_condition :
    (lib : Library) (cond : Obj)
    → is_empty (check_condition lib cond) ≡ every (resolves lib) (nodes cond)
unfolding check_condition
is_empty-check_condition lib cond =
    is_empty-or_reason (own_reason lib cond) (check_children lib cond)
    ∙ rw (is_empty-own_reason lib cond, is_empty-check_children lib cond)
