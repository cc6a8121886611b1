-- ===== src/ActiveDirectory/Apply/Sent.antt =====
-- activedirectory.go: what `applyADJoinPoints` sends.
use ise2ise.Base.{◌≡◌, refl, String, Bool, true, false, Option, none, some, List, [], ◌==◌}
use ise2ise.Base.{Dict, get, any, ◌<>◌, if◌then◌else◌}
use ise2ise.Json.{
  Value, null, bool, num, text, arr, obj, texts, objs, Obj, end, field, lookup, delete,
}
use ise2ise.Json.Laws.{lookup-delete}
use ise2ise.Json.Nulls.{without_nulls}
use ise2ise.Message.{Message}
use ise2ise.Request.{Request, post, replace, IsRead, ers, url_at}
use ise2ise.Prog.Sends.{Sends, done, asks, Sends-bind, Sends-if, Sends-for_each, Sends-mono}
use ise2ise.Ise.Errors.{Result, ok, err}
use ise2ise.Ise.Decode.{Stub}
use ise2ise.Ise.Calls.{ers_create, ers_put}
use ise2ise.Ise.Paging.Complete.{ers_list-Reads}
use ise2ise.Report.{Action, create, skip, blocked, Item, ImportResult}
use ise2ise.ActiveDirectory.Groups.{path_active_directory, root_active_directory}
use ise2ise.ActiveDirectory.Apply.{
  create_join_point, put_groups, id_of, ids_into, is_new_join_point, is_groups_item, is_new_groups,
  join_point_name, load_action, load_listed, load_groups, apply_join_points,
}

-- A GET, the creation of a join point without groups, or the groups of one by its id.
pub data IsGentle : Request → Type 0 where
  gets : {q : Request} → IsRead q → IsGentle q
  creates :
      (o : Obj)
      → lookup o "adgroups" ≡ none
      → IsGentle (record {
        method = post;
        url = url_at ers path_active_directory;
        body = some (obj (field root_active_directory (obj o) end));
      })
  loads :
      (id : String) (o : Obj)
      → IsGentle (record {
        method = replace;
        url = url_at ers (path_active_directory <> ("/" <> (id <> "/addGroups")));
        body = some (obj (field root_active_directory (obj o) end));
      })

apart :
    (b : Bool) (v : Value) (rest : Option Value)
    → (if b then some v else rest) ≡ none
    → (b ≡ false) × (rest ≡ none)
apart true v rest h = absurd (cc h)
apart false v rest h = (refl, h)

past :
    (j k : String) (v : Value) (o : Obj)
    → (j == k) ≡ false
    → lookup o k ≡ none
    → lookup (field j v o) k ≡ none
unfolding lookup
past j k v o other h = rw other h

-- A key that is not there is not there without the nulls either.
lookup-without_nulls :
    (o : Obj) (k : String) → lookup o k ≡ none → lookup (without_nulls o) k ≡ none
unfolding lookup without_nulls
lookup-without_nulls end k h = refl
lookup-without_nulls (field j v o) k h =
    of_value v (apart (j == k) v (lookup o k) h) (lookup-without_nulls o k)
  where
    of_value :
        (w : Value)
        → (((j == k) ≡ false) × (lookup o k ≡ none))
        → (lookup o k ≡ none → lookup (without_nulls o) k ≡ none)
        → lookup (without_nulls (field j w o)) k ≡ none
    of_value null (other, gone) ih = ih gone
    of_value (bool b) (other, gone) ih = past j k (bool b) (without_nulls o) other (ih gone)
    of_value (num n) (other, gone) ih = past j k (num n) (without_nulls o) other (ih gone)
    of_value (text s) (other, gone) ih = past j k (text s) (without_nulls o) other (ih gone)
    of_value (arr vs) (other, gone) ih = past j k _ (without_nulls o) other (ih gone)
    of_value (obj p) (other, gone) ih = past j k _ (without_nulls o) other (ih gone)
    of_value (texts ss) (other, gone) ih = past j k (texts ss) (without_nulls o) other (ih gone)
    of_value (objs os) (other, gone) ih = past j k (objs os) (without_nulls o) other (ih gone)

create_join_point-IsGentle :
    (name : String) (o : Obj) (res : ImportResult) → Sends IsGentle (create_join_point name o res)
unfolding create_join_point ers_create
create_join_point-IsGentle name o res =
    asks
      (creates (without_nulls (delete o "adgroups")) (
        lookup-without_nulls (delete o "adgroups") "adgroups"
          (lookup-delete o "adgroups" "adgroups")))
      λ r. done _

put_groups-IsGentle :
    (name id : String) (o : Option Obj) (res : ImportResult)
    → Sends IsGentle (put_groups name id o res)
unfolding put_groups ers_put
put_groups-IsGentle name id none res = done _
put_groups-IsGentle name id (some o) res = asks (loads id _) λ r. done _

module _ (render : Message → String) where
  load_action-IsGentle :
      (items : List Item) (ids : Dict String) (it : Item) (a : Action) (res : ImportResult)
      → Sends IsGentle (load_action render items ids it a res)
  load_action-IsGentle items ids it skip res = done _
  load_action-IsGentle items ids it blocked res = done _
  load_action-IsGentle items ids it create res =
      Sends-if (id_of (get ids (join_point_name render it)) == "") (done _)
        (put_groups-IsGentle (join_point_name render it) _ _ res)

  load_listed-IsGentle :
      (items : List Item) (res : ImportResult) (r : Result (List Stub))
      → Sends IsGentle (load_listed render items res r)
  load_listed-IsGentle items res (err e) = done _
  load_listed-IsGentle items res (ok stubs) = Sends-for_each items res λ it res'.
      Sends-if (is_groups_item render it)
        (load_action-IsGentle items (ids_into stubs []) it it.action res') (done _)

-- Whatever the target answers, the import of the join points sends nothing but GETs, POSTs to the
-- collection of join points of an object without "adgroups", and PUTs of the groups of one by its id:
-- it never changes a join point otherwise.
pub apply_join_points-IsGentle :
    (render : Message → String) (items : List Item) (res : ImportResult)
    → Sends IsGentle (apply_join_points render items res)
unfolding apply_join_points load_groups
apply_join_points-IsGentle render items res =
    Sends-bind _
      (Sends-if (any (is_new_join_point render) items)
        (Sends-for_each items res λ it res'.
          Sends-if (is_new_join_point render it) (create_join_point-IsGentle _ it.obj res')
            (done _))
        (done _))
      λ res'.
        Sends-if (any (is_new_groups render) items)
          (Sends-bind _ (Sends-mono (λ q h. gets h) (ers_list-Reads path_active_directory))
            λ listed. load_listed-IsGentle render items res' listed)
          (done _)
