-- ===== src/Json.antt =====
-- endpoints.go, policy_sets.go and trustsec.go: the decoded JSON values that the program carries
-- (`map[string]any`) and the accessors `str`, `truthy`, `nameList` and `ruleList`.
-- A value has one of the dynamic types that occur in them. Of a number the program reads whether it
-- equals another, prints it, or takes a whole one as an int. Beside `[]any` there are `[]string` and
-- `[]map[string]any`, which the exporters build and JSON never gives.
pub mod Laws
pub mod Links
pub mod Nulls
pub mod Equal
use Prim.Native.Char.{code}
use ise2ise.Base.{ℕ, String, Bool, true, false, ◌&&◌, Option, none, some, List, [], ◌∷◌, map}
use ise2ise.Base.{◌==◌, leb, nat_eq, if◌then◌else◌}

-- A float64: a whole number, `negsuc n` being -(n + 1), or the text of any other.
pub data Number : Type 0 where
  pos : ℕ → Number
  negsuc : ℕ → Number
  other : String → Number

unfoldable pub num_eq : Number → Number → Bool
num_eq (pos a) (pos b) = nat_eq a b
num_eq (negsuc a) (negsuc b) = nat_eq a b
num_eq (other a) (other b) = a == b
num_eq _ _ = false

mutual
  pub data Value : Type 0 where
    null : Value
    bool : Bool → Value
    num : Number → Value
    text : String → Value
    arr : Values → Value
    obj : Obj → Value
    texts : List String → Value
    objs : Objs → Value

  -- `[]any`
  pub data Values : Type 0 where
    nil : Values
    cons : Value → Values → Values

  -- `map[string]any`
  pub data Obj : Type 0 where
    end : Obj
    field : String → Value → Obj → Obj

  -- `[]map[string]any`
  pub data Objs : Type 0 where
    stop : Objs
    more : Obj → Objs → Objs

unfoldable pub lookup : Obj → String → Option Value
lookup end k = none
lookup (field j v o) k = if j == k then some v else lookup o k

unfoldable pub delete : Obj → String → Obj
delete end k = end
delete (field j v o) k = if j == k then delete o k else field j v (delete o k)

-- `obj[k] = v`.
unfoldable pub set : Obj → String → Value → Obj
unfolding delete
set o k v = field k v (delete o k)

-- Several deletions in turn.
unfoldable pub delete_all : Obj → List String → Obj
delete_all o [] = o
delete_all o (k ∷ ks) = delete_all (delete o k) ks

abbrev pub text_of : Option Value → String
text_of (some (text s)) = s
text_of _ = ""

-- The text under a key, or "" if there is none there.
unfoldable pub str : Obj → String → String
unfolding lookup
str o k = text_of (lookup o k)

abbrev pub runes : String → List ℕ
runes String.[] = []
runes (String.◌∷◌ c s) = code c ∷ runes s

-- `strings.EqualFold(s, "true")`: no letter of "true" folds to a rune outside ASCII.
abbrev pub is_letter : ℕ → ℕ → ℕ → Bool
is_letter upper lower c = if nat_eq c upper then true else nat_eq c lower

abbrev pub spells_true : List ℕ → Bool
spells_true (a ∷ b ∷ c ∷ d ∷ []) =
    is_letter b'T' b't' a && is_letter b'R' b'r' b && is_letter b'U' b'u' c && is_letter b'E' b'e' d
spells_true _ = false

abbrev pub truth_of : Option Value → Bool
truth_of (some (bool b)) = b
truth_of (some (text s)) = spells_true (runes s)
truth_of _ = false

-- A flag that ISE sends as a boolean or as a text.
unfoldable pub truthy : Obj → String → Bool
unfolding lookup
truthy o k = truth_of (lookup o k)

abbrev pub value_or_empty : Value → String
value_or_empty (text s) = s
value_or_empty _ = ""

-- The texts of a `[]any` that are not empty.
unfoldable pub names_in : Values → List String
names_in nil = []
names_in (cons v vs) =
    if value_or_empty v == "" then names_in vs else value_or_empty v ∷ names_in vs

abbrev pub names_of : Option Value → List String
names_of (some (texts ss)) = ss
names_of (some (arr vs)) = names_in vs
names_of _ = []

-- `nameList`: a list of names, as the exporter built it or as JSON gave it back.
unfoldable pub name_list : Obj → String → List String
unfolding lookup names_in
name_list o k = names_of (lookup o k)

unfoldable pub objs_list : Objs → List Obj
objs_list stop = []
objs_list (more o os) = o ∷ objs_list os

abbrev pub as_obj : Value → Option Obj
as_obj (obj o) = some o
as_obj _ = none

-- The objects of a `[]any`; anything else in it is passed over.
unfoldable pub objects_in : Values → List Obj
objects_in nil = []
objects_in (cons v vs) = elim (as_obj v) [ none ↦ objects_in vs | some o ↦ o ∷ objects_in vs ]

-- The objects of a value that is a `[]any`.
abbrev pub array_objects : Option Value → List Obj
array_objects (some (arr vs)) = objects_in vs
array_objects _ = []

-- `ruleList`: the nested objects, whichever of the two types they arrived in.
unfoldable pub rule_list : Option Value → List Obj
unfolding objs_list objects_in
rule_list (some (objs os)) = objs_list os
rule_list (some (arr vs)) = objects_in vs
rule_list _ = []

-- `obj[k].(map[string]any)`.
unfoldable pub child : Obj → String → Option Obj
unfolding lookup
child o k = elim (lookup o k) [ none ↦ none | some v ↦ as_obj v ]

-- A list of texts as a `[]any`.
unfoldable pub arr_of_texts : List String → Values
arr_of_texts [] = nil
arr_of_texts (s ∷ ss) = cons (text s) (arr_of_texts ss)

unfoldable pub objs_of : List Obj → Objs
objs_of [] = stop
objs_of (o ∷ os) = more o (objs_of os)
