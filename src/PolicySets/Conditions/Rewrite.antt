-- ===== src/PolicySets/Conditions/Rewrite.antt =====
-- policy_sets.go: what `rewriteConditionReferences` keeps of a condition.
use ise2ise.Base.{◌≡◌, refl, String, Bool, true, false, ◌==◌, ◌&&◌, ◌||◌, not}
use ise2ise.Base.{Dict, arith, eq_iff, Bool-cases, inl, inr, if◌then◌else◌}
use ise2ise.Base.{some, ◌∙◌}
use ise2ise.Json.{Value, text, arr, objs, obj, Values, nil, cons, Obj, end}
use ise2ise.Json.{field, str, set, delete, lookup, text_of}
use ise2ise.Json.Laws.{str-set_text}
use ise2ise.PolicySets.Conditions.{
  at_key, is_reference, with_id, rewrite_fields, rewrite_list, gets_id,
}
use ise2ise.PolicySets.Conditions.Laws.{nodes_below}

-- The children arrived from JSON: no `[]map[string]any` among them.
unfoldable mutual
  pub from_json : Obj → Bool
  from_json end = true
  from_json (field k v o) = value_from_json v && from_json o

  pub value_from_json : Value → Bool
  value_from_json (objs os) = false
  value_from_json (arr vs) = values_from_json vs
  value_from_json v = true

  pub values_from_json : Values → Bool
  values_from_json nil = true
  values_from_json (cons (obj o) vs) = from_json o && values_from_json vs
  values_from_json (cons v vs) = values_from_json vs

-- A reference to a library condition carries the target's id for its name.
abbrev pub is_linked : Dict String → Obj → Bool
is_linked ids cond =
    not (is_reference cond)
    || (str cond "name" == "" || str cond "id" == at_key ids (str cond "name"))

text_of-rewrite_list :
    (ids : Dict String) (v : Value) → text_of (some (rewrite_list ids v)) ≡ text_of (some v)
unfolding rewrite_list
text_of-rewrite_list ids (arr vs) = refl
text_of-rewrite_list ids v = refl

pub str-rewrite_fields :
    (ids : Dict String) (o : Obj) (k : String) → str (rewrite_fields ids o) k ≡ str o k
unfolding str lookup rewrite_fields
str-rewrite_fields ids end k = refl
str-rewrite_fields ids (field j v o) k = elim (Bool-cases (j == k)) [
  | inl same ↦ rw same (elim (Bool-cases (j == "children")) [
    | inl below ↦ rw below (text_of-rewrite_list ids v)
    | inr plain ↦ rw plain
  ])
  | inr other ↦ rw other (str-rewrite_fields ids o k)
]

nodes_below-delete :
    (o : Obj) (k : String) → (k == "children") ≡ false → nodes_below (delete o k) ≡ nodes_below o
unfolding nodes_below delete
nodes_below-delete end k h = refl
nodes_below-delete (field j v o) k h = elim (Bool-cases (j == k)) [
  | inl same ↦ rw (same, (eq_iff j k).0 same, h) (nodes_below-delete o k h)
  | inr kept ↦ elim (Bool-cases (j == "children")) [
    | inl here ↦ rw (kept, here)
    | inr rest ↦ rw (kept, rest) (nodes_below-delete o k h)
  ]
]

nodes_below-set_id :
    (out : Obj) (s : String) → nodes_below (set out "id" (text s)) ≡ nodes_below out
unfolding nodes_below set
nodes_below-set_id out s = nodes_below-delete out "id" refl

-- What holds of both holds of the choice.
chosen : (P : Obj → Type 0) (b : Bool) {x y : Obj} → P x → P y → P (if b then x else y)
chosen P true h h' = h
chosen P false h h' = h'

pub nodes_below-with_id :
    (ids : Dict String) (cond out : Obj) → nodes_below (with_id ids cond out) ≡ nodes_below out
unfolding with_id
nodes_below-with_id ids cond out =
    chosen (λ x. nodes_below x ≡ nodes_below out) _
      (nodes_below-set_id out (at_key ids (str cond "name"))) refl

pub str-with_id :
    (ids : Dict String) (cond out : Obj) (k : String)
    → ("id" == k) ≡ false
    → str (with_id ids cond out) k ≡ str out k
unfolding with_id
str-with_id ids cond out k h =
    chosen (λ x. str x k ≡ str out k) (gets_id ids cond)
      {x = set out "id" (text (at_key ids (str cond "name")))} {y = out}
      (str-set_text out "id" (at_key ids (str cond "name")) k ∙ rw h) refl

pub id-with_id :
    (ids : Dict String) (cond out : Obj)
    → gets_id ids cond ≡ true
    → str (with_id ids cond out) "id" ≡ at_key ids (str cond "name")
unfolding with_id
id-with_id ids cond out h = rw h (str-set_text out "id" (at_key ids (str cond "name")) "id")

pub is_linked-of :
    (reference unnamed none_there : Bool) (id wanted : String)
    → (if reference then unnamed || not none_there else true) ≡ true
    → ((reference && (not unnamed && not none_there)) ≡ true → id ≡ wanted)
    → (not reference || (unnamed || id == wanted)) ≡ true
is_linked-of false unnamed none_there id wanted h got = refl
is_linked-of true true none_there id wanted h got = refl
is_linked-of true false none_there id wanted h got = (eq_iff id wanted).1 (got (ground (arith, h)))
