-- ===== src/ActiveDirectory/Apply.antt =====
-- activedirectory.go: `applyADJoinPoints`. What `fmt` prints of a name is a parameter, since the code
-- tells the items about groups by the end of their names. An item without an object holds an empty one.
pub mod Counts
pub mod Sent
use ise2ise.Base.{String, Bool, true, false, Option, none, some, List, [], ◌∷◌, ◌++◌, ◌<>◌, ◌==◌}
use ise2ise.Base.{◌&&◌, not, any, find_first, Dict, get, put, if◌then◌else◌}
use ise2ise.Json.{Value, null, text, Obj, end, field, lookup, str, delete, set}
use ise2ise.Drift.{value_at}
use ise2ise.Message.{Message, Piece, lit, quoted, said}
use ise2ise.Prog.{Prog, ret, ask, ◌>>=◌, for_each}
use ise2ise.Texts.{has_suffix, before_first}
use ise2ise.Ise.Errors.{IseError, Result, ok, err, is_duplicate, error_text}
use ise2ise.Ise.Decode.{Stub}
use ise2ise.Ise.Calls.{Calls, ers_create, ers_put}
use ise2ise.Ise.Paging.{ers_list}
use ise2ise.Report.{Action, create, skip, blocked, is_create, Item, same_family, ad_join_points}
use ise2ise.Report.{ImportResult, one_created, one_skipped, one_blocked, one_failed}
use ise2ise.ActiveDirectory.Groups.{path_active_directory, root_active_directory}

abbrev pub created_join_point : String → ImportResult → Result Unit → ImportResult
created_join_point name res (ok u) = one_created res
created_join_point name res (err e) =
    if is_duplicate e
    then one_skipped res
    else one_failed res (lit "Active Directory join point " ∷ quoted name ∷ lit ": " ∷ error_text e)

-- The step of the first loop, for an item that it does not pass over: the printed name and the object.
unfoldable pub create_join_point : String → Obj → ImportResult → Calls ImportResult
unfolding delete is_duplicate error_text
create_join_point name o res = do
  r ← ers_create path_active_directory root_active_directory (delete o "adgroups")
  ret (created_join_point name res r)

abbrev pub ids_into : List Stub → Dict String → Dict String
ids_into [] m = m
ids_into (s ∷ stubs) m = ids_into stubs (put m s.name s.id)

abbrev pub with_description : String → Obj → Obj
with_description desc o = if not (desc == "") then set o "description" (text desc) else o

-- The payload of addGroups.
unfoldable pub groups_payload : Obj → Obj
unfolding set str lookup
groups_payload o = with_description (str o "description") (
    field "name" (text (str o "name"))
      (field "domain" (text (str o "domain")) (field "adgroups" (value_at o "adgroups") end)))

abbrev pub about_groups : String → Message → Message
about_groups name m = lit "Active Directory groups for " ∷ quoted name ∷ m

abbrev pub loaded : String → ImportResult → Result Unit → ImportResult
loaded name res (ok u) = one_created res
loaded name res (err e) = one_failed res (
    about_groups name (
      lit ": "
      ∷ (error_text e ++ (lit ". Join the domain in the ISE GUI and run the import again." ∷ []))))

-- The map of an item: nil, which an item holds as the empty one, is none.
abbrev or_nil : Obj → Option Obj
or_nil end = none
or_nil (field k v o) = some (field k v o)

-- `bundleObj`: nil if no item fits, or if it holds none.
abbrev pub object_of : Option Item → Option Obj
object_of none = none
object_of (some it) = or_nil it.obj

unfoldable pub put_groups : String → String → Option Obj → ImportResult → Calls ImportResult
unfolding groups_payload error_text
put_groups name id none res =
    ret (one_failed res (about_groups name (said ": bundle object not found")))
put_groups name id (some o) res = do
  r ←
      ers_put (path_active_directory <> ("/" <> (id <> "/addGroups"))) root_active_directory
        (groups_payload o)
  ret (loaded name res r)

abbrev pub id_of : Option String → String
id_of none = ""
id_of (some id) = id

module _ (render : Message → String) where
  abbrev pub in_family : Item → Bool
  in_family it = same_family it.family ad_join_points

  abbrev pub is_groups : Item → Bool
  is_groups it = has_suffix (render it.name) " AD groups"

  abbrev pub is_new_join_point : Item → Bool
  is_new_join_point it = in_family it && (not (is_groups it) && is_create it.action)

  abbrev pub is_groups_item : Item → Bool
  is_groups_item it = in_family it && is_groups it

  abbrev pub is_new_groups : Item → Bool
  is_new_groups it = is_groups_item it && is_create it.action

  abbrev pub maybe_create : Item → ImportResult → Calls ImportResult
  maybe_create it res =
      let made = create_join_point (render it.name) it.obj res in
      if is_new_join_point it then made else ret res

  -- The join point that an item about groups names.
  abbrev pub join_point_name : Item → String
  join_point_name it = before_first " — " (render it.name)

  abbrev pub is_item_of : String → Item → Bool
  is_item_of name it = in_family it && (not (is_groups it) && render it.name == name)

  abbrev pub load_by_id : List Item → String → String → ImportResult → Calls ImportResult
  load_by_id items name id res =
      let found = put_groups name id (object_of (find_first (is_item_of name) items)) res in
      if id == ""
      then ret (one_failed res (about_groups name (said ": target join point not found")))
      else found

  abbrev pub load_action :
      List Item → Dict String → Item → Action → ImportResult → Calls ImportResult
  load_action items ids it skip res = ret (one_skipped res)
  load_action items ids it blocked res = ret (one_blocked res)
  load_action items ids it create res =
      load_by_id items (join_point_name it) (id_of (get ids (join_point_name it))) res

  abbrev pub maybe_load : List Item → Dict String → Item → ImportResult → Calls ImportResult
  maybe_load items ids it res =
      let done = load_action items ids it it.action res in
      if is_groups_item it then done else ret res

  abbrev pub load_listed : List Item → ImportResult → Result (List Stub) → Calls ImportResult
  load_listed items res (err e) = ret res
  load_listed items res (ok stubs) = for_each items res (maybe_load items (ids_into stubs []))

  unfoldable pub load_groups : List Item → ImportResult → Calls ImportResult
  unfolding put_groups put get
  load_groups items res = do listed ← ers_list path_active_directory; load_listed items res listed

  abbrev pub create_all : List Item → ImportResult → Calls ImportResult
  create_all items res =
      let run = for_each items res maybe_create in
      if any is_new_join_point items then run else ret res

  abbrev pub load_all : List Item → ImportResult → Calls ImportResult
  load_all items res =
      let run = load_groups items res in if any is_new_groups items then run else ret res

  -- `applyADJoinPoints`
  unfoldable pub apply_join_points : List Item → ImportResult → Calls ImportResult
  unfolding create_join_point load_groups has_suffix before_first
  apply_join_points items res = do res' ← create_all items res; load_all items res'
