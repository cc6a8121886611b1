-- ===== src/Ise/Lookup.antt =====
-- ise.go: `ersGetAll`; endpoints.go: `stubsByName`; trustsec.go: `nameResolver`. The eight workers of
-- `ersGetAll` only read: here one request follows another in the order of the stubs.
use ise2ise.Base.{String, Bool, true, false, List, [], ◌∷◌, ◌==◌}
use ise2ise.Base.{Dict, get, put, if◌then◌else◌}
use ise2ise.Json.{Obj, str}
use ise2ise.Prog.{ret, ◌>>=◌, when_some}
use ise2ise.Prog.Sends.{done, Sends-bind, Sends-when_some}
use ise2ise.Ise.Errors.{Result, ok, err}
use ise2ise.Ise.Decode.{Stub}
use ise2ise.Ise.Calls.{Calls, Reads, when_ok, as_it_is, Sends-when_ok, ers_get_by_id}
use ise2ise.Ise.Calls.{ers_get_by_id-Reads}
use ise2ise.Ise.Paging.{ers_list}
use ise2ise.Ise.Paging.Complete.{ers_list-Reads}

-- `ersGetAll`: the objects in the order of the stubs; the first failure ends it.
unfoldable pub ers_get_all : String → String → List Stub → Calls (Result (List Obj))
ers_get_all path root [] = ret (ok [])
ers_get_all path root (s ∷ stubs) = do
  r ← ers_get_by_id path s.id root
  when_ok r as_it_is
      λ o. do rs ← ers_get_all path root stubs; when_ok rs as_it_is λ os. ret (ok (o ∷ os))

pub ers_get_all-Reads :
    (path root : String) (stubs : List Stub) → Reads (ers_get_all path root stubs)
unfolding ers_get_all
ers_get_all-Reads path root [] = done _
ers_get_all-Reads path root (s ∷ stubs) = Sends-bind _ (ers_get_by_id-Reads path s.id root) λ r.
    Sends-when_ok r as_it_is λ o.
      Sends-bind _ (ers_get_all-Reads path root stubs) λ rs. Sends-when_ok rs as_it_is λ os. done _

abbrev pub ids_by_name : List Stub → Dict String → Dict String
ids_by_name [] m = m
ids_by_name (s ∷ stubs) m = ids_by_name stubs (put m s.name s.id)

-- `stubsByName`
unfoldable pub stubs_by_name : String → Calls (Result (Dict String))
stubs_by_name path = do
  r ← ers_list path
  when_ok r as_it_is λ stubs. ret (ok (ids_by_name stubs []))

pub stubs_by_name-Reads : (path : String) → Reads (stubs_by_name path)
unfolding stubs_by_name
stubs_by_name-Reads path =
    Sends-bind _ (ers_list-Reads path) λ r. Sends-when_ok r as_it_is λ stubs. done _

-- The names of the objects already read, by their id: where `nameResolver` starts.
abbrev pub names_by_id : List Obj → Dict String → Dict String
names_by_id [] m = m
names_by_id (o ∷ os) m = names_by_id os (put m (str o "id") (str o "name"))

pub record Resolved : Type 0 where
  pub name : String
  pub found : Bool
  pub cache : Dict String

abbrev pub fetched_name : Result Obj → String
fetched_name (ok o) = str o "name"
fetched_name (err e) = ""

abbrev pub fetched : Dict String → String → String → Resolved
fetched cache id name =
    if name == ""
    then record { name = id; found = false; cache = put cache id id }
    else record { name = name; found = true; cache = put cache id name }

-- One call of the function that `nameResolver` returns, over its cache.
unfoldable pub resolve_name : String → String → Dict String → String → Calls Resolved
resolve_name path root cache id =
    when_some (get cache id)
      (do r ← ers_get_by_id path id root; ret (fetched cache id (fetched_name r)))
      λ name. ret (record { name = name; found = true; cache = cache })

pub resolve_name-Reads :
    (path root : String) (cache : Dict String) (id : String)
    → Reads (resolve_name path root cache id)
unfolding resolve_name
resolve_name-Reads path root cache id =
    Sends-when_some (get cache id) (Sends-bind _ (ers_get_by_id-Reads path id root) λ r. done _)
      λ name. done _
