-- ===== src/Ise/Decode.antt =====
-- ise.go: what the client reads out of a response body (`searchResult`, `unwrap`, `decodeList`). The
-- body is given with what `json.Unmarshal` makes of it as a plain value, if it is JSON at all; a
-- struct's key is matched by its exact spelling.
use ise2ise.Base.{ℕ, String, Option, none, some, List, [], ◌∷◌}
use ise2ise.Base.{if◌then◌else◌, ltb}
use ise2ise.Json.{Value, null, text, arr, obj, num, pos, negsuc, Values, nil, cons}
use ise2ise.Json.{Obj, end, lookup, runes}
use ise2ise.Ise.Texts.{includes}

pub record Body : Type 0 where
  pub raw : String
  pub json : Option Value

-- `Stub`
pub record Stub : Type 0 where
  pub id : String
  pub name : String

infixl 5 ◌>>=◌
abbrev pub ◌>>=◌ : {A B : Type 0} → Option A → (A → Option B) → Option B
none >>= f = none
some a >>= f = f a

-- A string field: unset if absent or null.
abbrev pub string_field : Option Value → Option String
string_field none = some ""
string_field (some null) = some ""
string_field (some (text s)) = some s
string_field _ = none

abbrev if_int : ℕ → ℕ → Option ℕ
if_int n read = if ltb n 9223372036854775808 then some read else none

-- An int field, which does not decode from 2 ^ 63 on; a number below 0 counts as 0, since the code asks only
-- whether it is above 0.
abbrev int_field : Option Value → Option ℕ
int_field none = some 0
int_field (some null) = some 0
int_field (some (num (pos n))) = if_int n n
int_field (some (num (negsuc n))) = if_int n 0
int_field _ = none

-- A map or a struct: unset if absent or null. A map that is null is nil in Go, where a read finds nothing
-- in it, as in the empty one, but a write to it panics.
abbrev pub object_field : Option Value → Option Obj
object_field none = some end
object_field (some null) = some end
object_field (some (obj o)) = some o
object_field _ = none

stub_of : Obj → Option Stub
unfolding lookup
stub_of o = do
  id ← string_field (lookup o "id")
  name ← string_field (lookup o "name")
  some (record { id = id; name = name })

stubs_of : Values → Option (List Stub)
unfolding stub_of
stubs_of nil = some []
stubs_of (cons v vs) = do
  o ← object_field (some v)
  s ← stub_of o
  more ← stubs_of vs
  some (s ∷ more)

abbrev pub list_field : Option Value → Option Values
list_field none = some nil
list_field (some null) = some nil
list_field (some (arr vs)) = some vs
list_field _ = none

-- The total and the stubs of an ERS list answer.
unfoldable pub search_result : Body → Option (ℕ × List Stub)
unfolding stubs_of includes lookup
search_result b = do
  v ← b.json
  top ← object_field (some v)
  result ← object_field (lookup top "SearchResult")
  total ← int_field (lookup result "total")
  listed ← list_field (lookup result "resources")
  stubs ← stubs_of listed
  if includes (runes b.raw) (runes "SearchResult") then some (total, stubs) else none

-- `unwrap`: the object under the root key.
unfoldable pub unwrap : Body → String → Option Obj
unfolding lookup
unwrap b root = do
  v ← b.json
  top ← object_field (some v)
  inner ← lookup top root
  object_field (some inner)

objects_of : Values → Option (List Obj)
objects_of nil = some []
objects_of (cons v vs) = do o ← object_field (some v); more ← objects_of vs; some (o ∷ more)

abbrev response_field : Option Value → Option (List Obj)
response_field (some (arr vs)) = objects_of vs
response_field _ = none

-- `decodeList`: a bare array, or one under "response".
abbrev decoded_list : Value → Option (List Obj)
decoded_list (arr vs) = objects_of vs
decoded_list (obj o) = response_field (lookup o "response")
decoded_list _ = none

unfoldable pub decode_list : Body → Option (List Obj)
unfolding objects_of lookup
decode_list b = do v ← b.json; decoded_list v
