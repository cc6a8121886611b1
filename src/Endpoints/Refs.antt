-- ===== src/Endpoints/Refs.antt =====
-- endpoints.go: `refToName` and `nameToRef`: a reference travels by name.
use ise2ise.Base.{◌≡◌, refl, String, Bool, true, false, Option, none, some, [], ◌∷◌, ◌==◌}
use ise2ise.Base.{Dict, get, if◌then◌else◌, ◌∙◌, eq_refl}
use ise2ise.Json.{Value, text, Obj, lookup, str, delete, set}
use ise2ise.Json.Laws.{lookup-set, lookup-delete, str-set_text}
use ise2ise.Message.{Message, lit, shown, quoted}

-- What the two leave: the object, or a reason.
pub data Ref : Type 0 where
  replaced : Obj → Ref
  refused : Message → Ref

abbrev unknown_id : String → String → String → Message
unknown_id id_field id kind =
    shown id_field
    ∷ lit " "
    ∷ quoted id
    ∷ lit " does not match any "
    ∷ shown kind
    ∷ lit " on the source deployment"
    ∷ []

abbrev named_by : Obj → String → String → Message → Option String → Ref
named_by o id_field name_field why none = refused why
named_by o id_field name_field why (some name) =
    replaced (set (delete o id_field) name_field (text name))

-- `refToName`
unfoldable pub ref_to_name : Obj → String → String → String → Dict String → Ref
unfolding str delete set get
ref_to_name o id_field name_field kind names =
    let id = str o id_field in
    let known = named_by o id_field name_field (unknown_id id_field id kind) (get names id) in
    if id == "" then replaced (delete o id_field) else known

-- `nameToRef`
unfoldable pub name_to_ref : Obj → String → String → String → Dict String → Ref
unfolding str delete set get
name_to_ref o name_field id_field kind ids =
    let name = str o name_field in
    let why = lit "the target has no " ∷ shown kind ∷ lit " named " ∷ quoted name ∷ [] in
    let known = named_by o name_field id_field why (get ids name) in
    if name == "" then replaced (delete o name_field) else known

-- The import half after the export half.
abbrev pub then_import : String → String → String → Dict String → Ref → Ref
then_import id_field name_field kind ids (refused why) = refused why
then_import id_field name_field kind ids (replaced o) = name_to_ref o name_field id_field kind ids

-- It holds the target's id instead of the source's, no name, and else what it held.
abbrev pub IsMoved : String → String → String → Obj → Ref → Type 0
IsMoved id_field name_field id o (refused why) = ⊥
IsMoved id_field name_field id o (replaced o') =
    (k : String)
    → lookup o' k
      ≡ (if id_field == k then some (text id) else if name_field == k then none else lookup o k)

ref_to_name_lem :
    (o : Obj) (id_field name_field kind id name : String) (names : Dict String)
    → str o id_field ≡ id
    → (id == "") ≡ false
    → get names id ≡ some name
    → ref_to_name o id_field name_field kind names
      ≡ replaced (set (delete o id_field) name_field (text name))
unfolding ref_to_name
ref_to_name_lem o id_field name_field kind id name names held some_id known =
    rw (held, some_id, known)

name_to_ref_lem :
    (o : Obj) (name_field id_field kind name id : String) (ids : Dict String)
    → str o name_field ≡ name
    → (name == "") ≡ false
    → get ids name ≡ some id
    → name_to_ref o name_field id_field kind ids
      ≡ replaced (set (delete o name_field) id_field (text id))
unfolding name_to_ref
name_to_ref_lem o name_field id_field kind name id ids held some_name known =
    rw (held, some_name, known)

str-set_same : (o : Obj) (k s : String) → str (set o k (text s)) k ≡ s
str-set_same o k s = str-set_text o k s k ∙ rw (eq_refl k)

lookup-moved :
    (o : Obj) (id_field name_field name id k : String)
    → lookup
        (set
          (delete (set (delete o id_field) name_field (text name)) name_field)
          id_field
          (text id))
        k
      ≡ (if id_field == k then some (text id) else if name_field == k then none else lookup o k)
lookup-moved o id_field name_field name id k =
    rw (lookup-set, lookup-delete, lookup-set, lookup-delete)
      (settled (id_field == k) (name_field == k) _ _ (lookup o k))
  where
    settled :
        (a b : Bool) (x y z : Option Value)
        → (if a then x else if b then none else if b then y else if a then none else z)
          ≡ (if a then x else if b then none else z)
    settled true b x y z = refl
    settled false true x y z = refl
    settled false false x y z = refl

-- If the source knows the id under a field by a name that is not empty, and the target knows that
-- name by an id, then after `refToName` and `nameToRef` the object holds the target's id under the
-- field, nothing under the name's field, and all else as before.
pub ref_roundtrip :
    (o : Obj) (id_field name_field kind id name target_id : String) (names ids : Dict String)
    → str o id_field ≡ id
    → (id == "") ≡ false
    → (name == "") ≡ false
    → get names id ≡ some name
    → get ids name ≡ some target_id
    → IsMoved id_field name_field target_id o
        (then_import id_field name_field kind ids (ref_to_name o id_field name_field kind names))
ref_roundtrip o id_field name_field kind id name target_id names ids held some_id some_name known
      found =
    rw
      (
        ref_to_name_lem o id_field name_field kind id name names held some_id known,
        name_to_ref_lem (set (delete o id_field) name_field (text name)) name_field id_field kind
            name target_id ids (str-set_same (delete o id_field) name_field name) some_name found,
      )
      (lookup-moved o id_field name_field name target_id)
