-- ===== src/IdentitySources/Secrets/Laws.antt =====
-- identitysources.go: what `dropClientSecret` and then `stripLocal` leave of a store's headers.
use ise2ise.Base.{◌≡◌, refl, Bool, false, Option, none, some, List, [], ◌∷◌, ◌==◌, not}
use ise2ise.Base.{any, keep, map, ap, Bool-cases, inl, inr, ◌∙◌}
use mathlib.Core.Option
use ise2ise.Json.{
  Value, null, bool, num, text, arr, obj, texts, objs, Obj, lookup, str, child, rule_list,
  objects_in, text_of, as_obj,
}
use ise2ise.Json.Laws.{lookup-set}
use ise2ise.Json.Links.{
  strip_value, strip_values, strip_links, strip_local, lookup-strip_links, lookup-strip_local,
}
use ise2ise.IdentitySources.Secrets.{
  attributes_key, is_secret, arr_of_list, drop_from_attributes, with_dropped, drop_client_secret,
}

-- A header with the key "clientSecret" among those of the attributes.
abbrev pub holds_secret : Option Obj → Bool
holds_secret none = false
holds_secret (some attrs) = any is_secret (rule_list (lookup attrs "headers"))

abbrev pub carries_secret : Obj → Bool
carries_secret store = holds_secret (child store attributes_key)

objects_in-arr_of_list : (os : List Obj) → objects_in (arr_of_list os) ≡ os
unfolding objects_in arr_of_list
objects_in-arr_of_list [] = refl
objects_in-arr_of_list (o ∷ os) = ap (o ∷◌) (objects_in-arr_of_list os)

objects_in-strip_values :
    (os : List Obj) → objects_in (strip_values (arr_of_list os)) ≡ map strip_links os
unfolding objects_in arr_of_list strip_values
objects_in-strip_values [] = refl
objects_in-strip_values (o ∷ os) = ap (strip_links o ∷◌) (objects_in-strip_values os)

pub text_of-strip_value : (v : Option Value) → text_of (Option.map strip_value v) ≡ text_of v
unfolding strip_value
text_of-strip_value none = refl
text_of-strip_value (some null) = refl
text_of-strip_value (some (bool b)) = refl
text_of-strip_value (some (num n)) = refl
text_of-strip_value (some (text s)) = refl
text_of-strip_value (some (arr vs)) = refl
text_of-strip_value (some (obj o)) = refl
text_of-strip_value (some (texts ss)) = refl
text_of-strip_value (some (objs os)) = refl

is_secret-strip_links : (h : Obj) → is_secret (strip_links h) ≡ is_secret h
unfolding str
is_secret-strip_links h =
    ap (λ s. s == "clientSecret")
      (rw (lookup-strip_links h "key") (text_of-strip_value (lookup h "key")))

any_secret-kept :
    (hs : List Obj) → any is_secret (map strip_links (keep (λ h. not (is_secret h)) hs)) ≡ false
any_secret-kept [] = refl
any_secret-kept (h ∷ hs) = elim (Bool-cases (is_secret h)) [
  | inl secret ↦ rw secret (any_secret-kept hs)
  | inr plain ↦ rw (plain, is_secret-strip_links h, plain) (any_secret-kept hs)
]

-- The object under a key, after the strip.
as_obj-strip_value :
    (v : Option Value)
    → (elim (Option.map strip_value v) [ none ↦ none | some w ↦ as_obj w ])
      ≡ Option.map strip_links (elim v [ none ↦ none | some w ↦ as_obj w ])
unfolding strip_value
as_obj-strip_value none = refl
as_obj-strip_value (some null) = refl
as_obj-strip_value (some (bool b)) = refl
as_obj-strip_value (some (num n)) = refl
as_obj-strip_value (some (text s)) = refl
as_obj-strip_value (some (arr vs)) = refl
as_obj-strip_value (some (obj o)) = refl
as_obj-strip_value (some (texts ss)) = refl
as_obj-strip_value (some (objs os)) = refl

child-strip_local :
    (o : Obj)
    → child (strip_local o) attributes_key ≡ Option.map strip_links (child o attributes_key)
unfolding child
child-strip_local o =
    ap (λ v. elim v [ none ↦ none | some w ↦ as_obj w ]) (lookup-strip_local o attributes_key)
    ∙ as_obj-strip_value (lookup o attributes_key)

child-with_dropped :
    (o : Obj)
    → child (drop_client_secret o) attributes_key
      ≡ Option.map drop_from_attributes (child o attributes_key)
unfolding drop_client_secret child
child-with_dropped o = of_attributes (child o attributes_key) refl
  where
    of_attributes :
        (a : Option Obj)
        → child o attributes_key ≡ a
        → child (with_dropped o a) attributes_key ≡ Option.map drop_from_attributes a
    of_attributes none e = e
    of_attributes (some attrs) e =
        ap (λ v. elim v [ none ↦ none | some w ↦ as_obj w ])
          (lookup-set o attributes_key (obj (drop_from_attributes attrs)) attributes_key)

headers_of_dropped :
    (attrs : Obj)
    → rule_list (lookup (strip_links (drop_from_attributes attrs)) "headers")
      ≡ map strip_links (keep (λ h. not (is_secret h)) (rule_list (lookup attrs "headers")))
unfolding drop_from_attributes rule_list strip_value
headers_of_dropped attrs =
    ap rule_list (
      lookup-strip_links (drop_from_attributes attrs) "headers"
      ∙ ap (Option.map strip_value)
          (lookup-set attrs "headers" (arr (arr_of_list others)) "headers"))
    ∙ kept others
  where
    others : List Obj
    others = keep (λ h. not (is_secret h)) (rule_list (lookup attrs "headers"))

    kept :
        (hs : List Obj) → rule_list (some (strip_value (arr (arr_of_list hs)))) ≡ map strip_links hs
    kept hs = objects_in-strip_values hs

-- The client secret is gone from a store that `dropClientSecret` and `stripLocal` have gone over.
pub carries_secret-dropped :
    (store : Obj) → carries_secret (strip_local (drop_client_secret store)) ≡ false
carries_secret-dropped store =
    rw (child-strip_local (drop_client_secret store), child-with_dropped store)
      (of_attributes (child store attributes_key))
  where
    of_attributes :
        (a : Option Obj)
        → holds_secret (Option.map strip_links (Option.map drop_from_attributes a)) ≡ false
    of_attributes none = refl
    of_attributes (some attrs) = rw (headers_of_dropped attrs) (any_secret-kept _)
