-- ===== src/PolicySets/Conditions/Links.antt =====
-- policy_sets.go: after the check, `rewriteConditionReferences` links every reference.
use ise2ise.Base.{every-append, ◌≡◌, refl, Bool, true, false, List, [], ◌∷◌, ◌++◌, ◌==◌, ◌&&◌}
use ise2ise.Base.{is_empty, every, arith, Bool-cases, inl, inr, if◌then◌else◌}
use ise2ise.Base.{◌∙◌, sym, ap}
use ise2ise.Json.{Value, arr, objs, obj, Values, nil, cons, Obj, end}
use ise2ise.Json.{field, str}
use ise2ise.PolicySets.Conditions.{
  at_key, Library, is_reference, check_condition, with_id, rewrite_fields, rewrite_list,
  rewrite_values, rewrite_condition,
}
use ise2ise.PolicySets.Conditions.Laws.{
  nodes, nodes_below, nodes_of, nodes_values, resolves, is_empty-check_condition,
}
use ise2ise.PolicySets.Conditions.Rewrite.{
  from_json, value_from_json, values_from_json, is_linked, str-rewrite_fields, nodes_below-with_id,
  str-with_id, id-with_id, is_linked-of,
}

if_reference : (b x y : Bool) → (if b then x else y) ≡ true → (if b then x else true) ≡ true
if_reference true x y h = h
if_reference false x y h = refl

with_id-is_linked :
    (lib : Library) (o : Obj)
    → resolves lib o ≡ true
    → is_linked lib.conditions (with_id lib.conditions o (rewrite_fields lib.conditions o)) ≡ true
with_id-is_linked lib o h =
    rw
      (
        str-with_id lib.conditions o (rewrite_fields lib.conditions o) "conditionType" refl,
        str-with_id lib.conditions o (rewrite_fields lib.conditions o) "name" refl,
        str-rewrite_fields lib.conditions o "conditionType",
        str-rewrite_fields lib.conditions o "name",
      )
      (is_linked-of (is_reference o) (str o "name" == "")
        (at_key lib.conditions (str o "name") == "") _ _ (if_reference (is_reference o) _ _ h)
        (id-with_id lib.conditions o (rewrite_fields lib.conditions o)))

then_of :
    (p : Obj → Bool) (b : Bool) (xs ys : List Obj)
    → b ≡ true
    → every p (if b then xs else ys) ≡ true
    → every p xs ≡ true
then_of p true xs ys e h = h
then_of p false xs ys e h = absurd (ground (arith, e))

else_of :
    (p : Obj → Bool) (b : Bool) (xs ys : List Obj)
    → b ≡ false
    → every p (if b then xs else ys) ≡ true
    → every p ys ≡ true
else_of p false xs ys e h = h
else_of p true xs ys e h = absurd (ground (arith, e))

both : (a b : Bool) → (a && b) ≡ true → (a ≡ true) × (b ≡ true)
both true b h = (refl, h)
both false b h = absurd (ground (arith, h))

every-three :
    (p : Obj → Bool) (o : Obj) (below behind : List Obj)
    → every p (o ∷ (below ++ behind)) ≡ true
    → (p o ≡ true) × (every p below ≡ true) × (every p behind ≡ true)
every-three p o below behind h = (
  ground (arith, every-append p below behind),
  ground (arith, every-append p below behind),
  ground (arith, every-append p below behind),
)

every-is_linked_node :
    (lib : Library) (o : Obj) (behind : List Obj)
    → resolves lib o ≡ true
    → every (is_linked lib.conditions) (nodes_below (rewrite_fields lib.conditions o)) ≡ true
    → every (is_linked lib.conditions) behind ≡ true
    → every (is_linked lib.conditions) (
        with_id lib.conditions o (rewrite_fields lib.conditions o)
        ∷ (nodes_below (with_id lib.conditions o (rewrite_fields lib.conditions o)) ++ behind))
      ≡ true
every-is_linked_node lib o behind h below after = rw (
  nodes_below-with_id lib.conditions o (rewrite_fields lib.conditions o),
  with_id-is_linked lib o h,
  every-append (is_linked lib.conditions) (nodes_below (rewrite_fields lib.conditions o)) behind,
  below,
  after,
)

mutual
  unfolding nodes_below rewrite_fields from_json

  every-is_linked :
      (lib : Library) (o : Obj)
      → from_json o ≡ true
      → every (resolves lib) (nodes_below o) ≡ true
      → every (is_linked lib.conditions) (nodes_below (rewrite_fields lib.conditions o)) ≡ true
  every-is_linked lib end j h = refl
  every-is_linked lib (field k v o) j h = elim (Bool-cases (k == "children")) [
    | inl here ↦ rw here (
        every-is_linked_of lib v (both (value_from_json v) (from_json o) j).0
          (then_of (resolves lib) (k == "children") (nodes_of v) (nodes_below o) here h))
    | inr rest ↦ rw rest (
        every-is_linked lib o (both (value_from_json v) (from_json o) j).1
          (else_of (resolves lib) (k == "children") (nodes_of v) (nodes_below o) rest h))
  ]

  every-is_linked_of :
      (lib : Library) (v : Value)
      → value_from_json v ≡ true
      → every (resolves lib) (nodes_of v) ≡ true
      → every (is_linked lib.conditions) (nodes_of (rewrite_list lib.conditions v)) ≡ true
  every-is_linked_of lib (objs os) j h = absurd (ground arith)
  every-is_linked_of lib (arr vs) j h = every-is_linked_values lib vs j h
  every-is_linked_of lib v j h = refl

  every-is_linked_values :
      (lib : Library) (vs : Values)
      → values_from_json vs ≡ true
      → every (resolves lib) (nodes_values vs) ≡ true
      → every (is_linked lib.conditions) (nodes_values (rewrite_values lib.conditions vs)) ≡ true
  every-is_linked_values lib nil j h = refl
  every-is_linked_values lib (cons (obj o) vs) j h =
      let (own, below, after) = every-three (resolves lib) o (nodes_below o) (nodes_values vs) h in
      every-is_linked_node lib o (nodes_values (rewrite_values lib.conditions vs)) own
        (every-is_linked lib o (both (from_json o) (values_from_json vs) j).0 below)
        (every-is_linked_values lib vs (both (from_json o) (values_from_json vs) j).1 after)
  every-is_linked_values lib (cons v vs) j h = every-is_linked_values lib vs j h

-- If `checkConditionReferences` gives no reason for a condition that came out of a bundle, every
-- named reference to a library condition in the tree that `rewriteConditionReferences` leaves, at
-- any depth, carries the target's id for its name.
pub rewrite_condition-is_linked :
    (lib : Library) (cond : Obj)
    → from_json cond ≡ true
    → check_condition lib cond ≡ []
    → every (is_linked lib.conditions) (nodes (rewrite_condition lib.conditions cond)) ≡ true
unfolding rewrite_condition
rewrite_condition-is_linked lib cond j h =
    let resolved : every (resolves lib) (nodes cond) ≡ true =
      sym (is_empty-check_condition lib cond) ∙ ap is_empty h in
    rw
      (
        nodes_below-with_id lib.conditions cond (rewrite_fields lib.conditions cond),
        with_id-is_linked lib cond (both _ _ resolved).0,
      )
      (every-is_linked lib cond j (both _ _ resolved).1)
