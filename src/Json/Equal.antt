-- ===== src/Json/Equal.antt =====
-- `reflect.DeepEqual` on decoded values: maps are equal if they hold equal values at the same keys.
use ise2ise.Base.{String, Bool, true, false, none, some, List, [], ◌∷◌, ◌&&◌, ◌==◌}
use ise2ise.Json.{Value, null, bool, num, text, arr, obj, texts, objs, Values, nil, cons, Obj, end}
use ise2ise.Json.{field, Objs, stop, more, lookup, num_eq}

abbrev same_bool : Bool → Bool → Bool
same_bool true b = b
same_bool false true = false
same_bool false false = true

unfoldable pub same_texts : List String → List String → Bool
same_texts [] [] = true
same_texts (s ∷ ss) (t ∷ ts) = s == t && same_texts ss ts
same_texts _ _ = false

-- Every key of the first object is one of the second.
unfoldable pub keys_within : Obj → Obj → Bool
keys_within end p = true
keys_within (field k v o) p = elim (lookup p k) [ none ↦ false | some w ↦ keys_within o p ]

unfoldable mutual
  pub deep_equal : Value → Value → Bool
  deep_equal null null = true
  deep_equal (bool a) (bool b) = same_bool a b
  deep_equal (num m) (num n) = num_eq m n
  deep_equal (text s) (text t) = s == t
  deep_equal (arr vs) (arr ws) = deep_equal_items vs ws
  deep_equal (obj o) (obj p) = deep_equal_fields o p && keys_within p o
  deep_equal (texts ss) (texts ts) = same_texts ss ts
  deep_equal (objs os) (objs ps) = deep_equal_objects os ps
  deep_equal _ _ = false

  pub deep_equal_items : Values → Values → Bool
  deep_equal_items nil nil = true
  deep_equal_items (cons v vs) (cons w ws) = deep_equal v w && deep_equal_items vs ws
  deep_equal_items _ _ = false

  -- Every field of the first object has an equal one in the second.
  pub deep_equal_fields : Obj → Obj → Bool
  deep_equal_fields end p = true
  deep_equal_fields (field k v o) p =
      let rest = deep_equal_fields o p in
      elim (lookup p k) [ none ↦ false | some w ↦ deep_equal v w && rest ]

  pub deep_equal_objects : Objs → Objs → Bool
  deep_equal_objects stop stop = true
  deep_equal_objects (more o os) (more p ps) =
      deep_equal_fields o p && (keys_within p o && deep_equal_objects os ps)
  deep_equal_objects _ _ = false
