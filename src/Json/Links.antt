-- ===== src/Json/Links.antt =====
-- endpoints.go: `stripLinks` and `stripLocal`, which remove deployment-local identity.
use ise2ise.Base.{Bool, true, false, ◌&&◌, ◌≡◌, refl, ℕ, ◌+◌, String, none, arith, ◌==◌, eq_iff}
use ise2ise.Base.{if◌then◌else◌, Bool-cases, inl, inr}
use mathlib.Core.Option
use ise2ise.Json.{
  objs, Objs, stop, more, Value, arr, obj, Values, nil, cons, Obj, end, field, lookup, delete,
}
use ise2ise.Json.Laws.{lookup-delete}

-- The walk goes into `map[string]any` and `[]any`, and into nothing else.
unfoldable mutual
  pub strip_value : Value → Value
  strip_value (obj o) = obj (strip_links o)
  strip_value (arr vs) = arr (strip_values vs)
  strip_value v = v

  pub strip_values : Values → Values
  strip_values nil = nil
  strip_values (cons v vs) = cons (strip_value v) (strip_values vs)

  pub strip_links : Obj → Obj
  strip_links end = end
  strip_links (field k v o) =
      let rest = strip_links o in if k == "link" then rest else field k (strip_value v) rest

-- `stripLocal`
unfoldable pub strip_local : Obj → Obj
unfolding delete strip_links
strip_local o = strip_links (delete o "id")

-- How many keys "link" there are, at any depth.
unfoldable mutual
  pub links : Value → ℕ
  links (obj o) = links_in o
  links (arr vs) = links_among vs
  links (objs os) = links_in_all os
  links v = 0

  pub links_among : Values → ℕ
  links_among nil = 0
  links_among (cons v vs) = links v + links_among vs

  pub links_in : Obj → ℕ
  links_in end = 0
  links_in (field k v o) = (if k == "link" then 1 else 0) + links v + links_in o

  pub links_in_all : Objs → ℕ
  links_in_all stop = 0
  links_in_all (more o os) = links_in o + links_in_all os

-- No `[]map[string]any` at any depth, as in all that JSON gives.
unfoldable mutual
  pub is_decoded : Value → Bool
  is_decoded (obj o) = is_decoded_object o
  is_decoded (arr vs) = is_decoded_list vs
  is_decoded (objs os) = false
  is_decoded v = true

  pub is_decoded_list : Values → Bool
  is_decoded_list nil = true
  is_decoded_list (cons v vs) = is_decoded v && is_decoded_list vs

  pub is_decoded_object : Obj → Bool
  is_decoded_object end = true
  is_decoded_object (field k v o) = is_decoded v && is_decoded_object o

both : (a b : Bool) → (a && b) ≡ true → (a ≡ true) × (b ≡ true)
both true b h = (refl, h)
both false b h = absurd (cc h)

mutual
  unfolding strip_value links is_decoded

  links-strip_value : (v : Value) → is_decoded v ≡ true → links (strip_value v) ≡ 0
  links-strip_value (obj o) h = links_in-strip_links o h
  links-strip_value (arr vs) h = links_among-strip_values vs h
  links-strip_value (objs os) h = absurd (cc h)
  links-strip_value v h = refl

  links_among-strip_values :
      (vs : Values) → is_decoded_list vs ≡ true → links_among (strip_values vs) ≡ 0
  links_among-strip_values nil h = refl
  links_among-strip_values (cons v vs) h =
      let (h1, h2) = both (is_decoded v) (is_decoded_list vs) h in
      omega (arith, links-strip_value v h1, links_among-strip_values vs h2)

  links_in-strip_links : (o : Obj) → is_decoded_object o ≡ true → links_in (strip_links o) ≡ 0
  links_in-strip_links end h = refl
  links_in-strip_links (field k v o) h =
      let (h1, h2) = both (is_decoded v) (is_decoded_object o) h in
      ground (arith, eq_iff k "link", links-strip_value v h1, links_in-strip_links o h2)

is_decoded_object-delete :
    (o : Obj) (k : String) → is_decoded_object o ≡ true → is_decoded_object (delete o k) ≡ true
unfolding is_decoded_object delete
is_decoded_object-delete end k h = refl
is_decoded_object-delete (field j v o) k h =
    let (h1, h2) = both (is_decoded v) (is_decoded_object o) h in
    ground (arith, h1, is_decoded_object-delete o k h2)

pub lookup-strip_links :
    (o : Obj) (k : String)
    → lookup (strip_links o) k ≡ (if k == "link" then none else Option.map strip_value (lookup o k))
unfolding lookup strip_links
lookup-strip_links end k = ground (arith, eq_iff k "link")
lookup-strip_links (field j v o) k = elim (Bool-cases (j == "link")) [
  | inl cut ↦
      rw (cut, lookup-strip_links o k)
        (elim (Bool-cases (j == k)) [
          | inl same ↦ rw (← (eq_iff j k).0 same, cut)
          | inr other ↦ rw other
        ])
  | inr kept ↦ elim (Bool-cases (j == k)) [
    | inl same ↦ rw (kept, same, ← (eq_iff j k).0 same, kept)
    | inr other ↦ rw (kept, other) (lookup-strip_links o k)
  ]
]

pub lookup-strip_local :
    (o : Obj) (k : String)
    → lookup (strip_local o) k ≡ (
        if k == "link"
        then none
        else if "id" == k
        then none
        else Option.map strip_value (lookup o k))
unfolding strip_local
lookup-strip_local o k = rw (lookup-strip_links, lookup-delete) (ground arith)

-- After `stripLocal` of an object in which no list is a `[]map[string]any` no key "link" is left, at any
-- depth, and a key of the object itself is gone if it is "id" or "link" and otherwise holds its old value,
-- stripped alike.
pub strip_local_lem :
    (o : Obj)
    → is_decoded_object o ≡ true
    → (links_in (strip_local o) ≡ 0)
      × ((k : String)
          → lookup (strip_local o) k ≡ (
              if k == "link"
              then none
              else if "id" == k
              then none
              else Option.map strip_value (lookup o k)))
unfolding strip_local
strip_local_lem o h =
    (links_in-strip_links (delete o "id") (is_decoded_object-delete o "id" h), lookup-strip_local o)
