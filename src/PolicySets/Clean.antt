-- ===== src/PolicySets/Clean.antt =====
-- policy_sets.go: `extractRules`, `cleanRules`, `cleanRule` and `cleanCondition`, which take the
-- source's identity out of the rules on export.
use ise2ise.Base.{
  every-append, ◌≡◌, refl, Bool, true, false, Option, none, some, List, [], ◌∷◌, ◌++◌, map,
}
use ise2ise.Base.{◌==◌, ◌&&◌, every, if◌then◌else◌, Bool-cases, inl, inr, arith}
use ise2ise.Json.{Value, arr, obj, objs, Values, nil, cons, Obj, end}
use ise2ise.Json.{field, lookup, set, delete_all, child}
use ise2ise.Json.Links.{strip_local}
use ise2ise.PolicySets.Conditions.Laws.{nodes, nodes_below, nodes_of, nodes_values}
use ise2ise.PolicySets.Conditions.Rewrite.{from_json, value_from_json, values_from_json}

with_rule : Obj → Option Obj → List Obj → List Obj
with_rule item none rest = rest
with_rule item (some rule) rest = set item "rule" (obj rule) ∷ rest

-- `extractRules`
unfoldable pub extract_rules : List Obj → List Obj
unfolding with_rule child set
extract_rules [] = []
extract_rules (item ∷ items) = with_rule item (child item "rule") (extract_rules items)

-- `cleanCondition`: without "id" and "link", and so for its children from JSON.
unfoldable mutual
  pub clean_condition : Obj → Obj
  clean_condition end = end
  clean_condition (field k v o) =
      let below = clean_list v in
      let rest = clean_condition o in
      if k == "id"
      then rest
      else if k == "link"
      then rest
      else if k == "children"
      then field k below rest
      else field k v rest

  pub clean_list : Value → Value
  clean_list (arr vs) = arr (clean_values vs)
  clean_list v = v

  pub clean_values : Values → Values
  clean_values nil = nil
  clean_values (cons (obj o) vs) = cons (obj (clean_condition o)) (clean_values vs)
  clean_values (cons v vs) = cons v (clean_values vs)

abbrev with_clean : Obj → Option Obj → Obj
with_clean o none = o
with_clean o (some cond) = set o "condition" (obj (clean_condition cond))

-- Without its own identity, and with its condition cleaned.
unfoldable clean_inner : Obj → Obj
unfolding strip_local delete_all child set clean_condition
clean_inner o =
    let bare = strip_local (delete_all o ("id" ∷ "link" ∷ "hitCounts" ∷ [])) in
    with_clean bare (child bare "condition")

abbrev with_clean_rule : Obj → Option Obj → Obj
with_clean_rule o none = o
with_clean_rule o (some inner) = set o "rule" (obj (clean_inner inner))

-- `cleanRule`
unfoldable pub clean_rule : Obj → Obj
unfolding clean_inner
clean_rule rule =
    let bare = strip_local (delete_all rule ("id" ∷ "link" ∷ "hitCounts" ∷ [])) in
    let ruled = with_clean_rule bare (child bare "rule") in
    with_clean ruled (child ruled "condition")

-- `cleanRules`
unfoldable pub clean_rules : List Obj → List Obj
unfolding clean_rule
clean_rules rules = map clean_rule rules

abbrev no_key : Option Value → Bool
no_key none = true
no_key (some v) = false

-- It holds neither an "id" nor a "link" of its own.
abbrev pub is_portable : Obj → Bool
is_portable o = no_key (lookup o "id") && no_key (lookup o "link")

is_portable-clean_condition : (o : Obj) → is_portable (clean_condition o) ≡ true
unfolding lookup clean_condition
is_portable-clean_condition end = refl
is_portable-clean_condition (field k v o) = elim (Bool-cases (k == "id")) [
  | inl id ↦ rw id (is_portable-clean_condition o)
  | inr no_id ↦ elim (Bool-cases (k == "link")) [
    | inl link ↦ rw (no_id, link) (is_portable-clean_condition o)
    | inr no_link ↦ elim (Bool-cases (k == "children")) [
      | inl below ↦ rw (no_id, no_link, below, no_id, no_link) (is_portable-clean_condition o)
      | inr plain ↦ rw (no_id, no_link, plain, no_id, no_link) (is_portable-clean_condition o)
    ]
  ]
]

both : (a b : Bool) → (a && b) ≡ true → (a ≡ true) × (b ≡ true)
both true b h = (refl, h)
both false b h = absurd (ground (arith, h))

every-portable :
    (o : Obj) (behind : List Obj)
    → every is_portable (nodes_below (clean_condition o)) ≡ true
    → every is_portable behind ≡ true
    → every is_portable (clean_condition o ∷ (nodes_below (clean_condition o) ++ behind)) ≡ true
every-portable o behind below after = rw (
  is_portable-clean_condition o,
  every-append is_portable (nodes_below (clean_condition o)) behind,
  below,
  after,
)

mutual
  unfolding nodes_below clean_condition from_json

  below-clean_condition :
      (o : Obj) → from_json o ≡ true → every is_portable (nodes_below (clean_condition o)) ≡ true
  below-clean_condition end h = refl
  below-clean_condition (field k v o) h = elim (Bool-cases (k == "id")) [
    | inl id ↦ rw id (below-clean_condition o (both (value_from_json v) (from_json o) h).1)
    | inr no_id ↦ elim (Bool-cases (k == "link")) [
      | inl link ↦
          rw (no_id, link) (below-clean_condition o (both (value_from_json v) (from_json o) h).1)
      | inr no_link ↦ elim (Bool-cases (k == "children")) [
        | inl below ↦
            rw (no_id, no_link, below, below)
              (below-clean_list v (both (value_from_json v) (from_json o) h).0)
        | inr plain ↦
            rw (no_id, no_link, plain, plain)
              (below-clean_condition o (both (value_from_json v) (from_json o) h).1)
      ]
    ]
  ]

  below-clean_list :
      (v : Value) → value_from_json v ≡ true → every is_portable (nodes_of (clean_list v)) ≡ true
  below-clean_list (objs os) h = absurd (ground (arith, h))
  below-clean_list (arr vs) h = below-clean_values vs h
  below-clean_list v h = refl

  below-clean_values :
      (vs : Values)
      → values_from_json vs ≡ true
      → every is_portable (nodes_values (clean_values vs)) ≡ true
  below-clean_values nil h = refl
  below-clean_values (cons (obj o) vs) h =
      every-portable o (nodes_values (clean_values vs))
        (below-clean_condition o (both (from_json o) (values_from_json vs) h).0)
        (below-clean_values vs (both (from_json o) (values_from_json vs) h).1)
  below-clean_values (cons v vs) h = below-clean_values vs h

-- `cleanCondition` leaves no "id" and no "link" in any condition of a tree that came from JSON, at
-- any depth.
pub clean_condition-is_portable :
    (cond : Obj) → from_json cond ≡ true → every is_portable (nodes (clean_condition cond)) ≡ true
clean_condition-is_portable cond h =
    rw (is_portable-clean_condition cond) (below-clean_condition cond h)
