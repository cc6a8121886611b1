-- ===== src/ActiveDirectory/Apply/Counts.antt =====
-- activedirectory.go: what `applyADJoinPoints` counts.
use ise2ise.Base.{
  Option, none, some, ◌≡◌, refl, ℕ, ◌+◌, inl, inr, String, Bool, true, false, List, [], ◌∷◌,
}
use ise2ise.Base.{
  Dict, get, any, subst, sym, count_of, arith, ◌&&◌, if◌then◌else◌, ◌==◌, Bool-cases,
}
use ise2ise.Json.{Obj}
use ise2ise.Message.{Message}
use ise2ise.Prog.{Prog, value_against}
use ise2ise.Request.{Request}
use ise2ise.Prog.Returns.{
  value_against-Returns, value_against-bind, Returns, ends, Returns-any, Returns-mono, Returns-if,
}
use ise2ise.Ise.Errors.{Result, ok, err, is_duplicate}
use ise2ise.Ise.Decode.{Body, Stub}
use ise2ise.Ise.Calls.{ers_create, ers_put}
use ise2ise.Ise.Paging.{ers_list}
use ise2ise.Report.{Action, create, skip, blocked, Item, ImportResult}
use ise2ise.Import.Counts.{
  IsOneMore, one_skipped-IsOneMore, one_blocked-IsOneMore, one_failed-IsOneMore, IsSettled,
  IsSettled-one, unchanged-IsSettled, for_each-IsSettled,
}
use ise2ise.ActiveDirectory.Groups.{path_active_directory}
use ise2ise.ActiveDirectory.Apply.{
  created_join_point, create_join_point, loaded, put_groups, id_of, ids_into, is_new_join_point,
  is_groups_item, is_new_groups, maybe_create, join_point_name, load_action, maybe_load,
  load_listed, load_groups, create_all, load_all, apply_join_points,
}

created_join_point-IsOneMore :
    (name : String) (res : ImportResult) (r : Result Unit)
    → IsOneMore res (created_join_point name res r)
created_join_point-IsOneMore name res (ok u) = record { counted = omega arith; reported = refl }
created_join_point-IsOneMore name res (err e) = elim (Bool-cases (is_duplicate e)) [
  | inl again ↦ rw (again, created_join_point) (one_skipped-IsOneMore res)
  | inr refused ↦ rw (refused, created_join_point) (one_failed-IsOneMore res _)
]

loaded-IsOneMore :
    (name : String) (res : ImportResult) (r : Result Unit) → IsOneMore res (loaded name res r)
loaded-IsOneMore name res (ok u) = record { counted = omega arith; reported = refl }
loaded-IsOneMore name res (err e) = one_failed-IsOneMore res _

put_groups-IsOneMore :
    (name id : String) (o : Option Obj) (res : ImportResult)
    → Returns (IsOneMore res) (put_groups name id o res)
unfolding put_groups
put_groups-IsOneMore name id none res = ends (one_failed-IsOneMore res _)
put_groups-IsOneMore name id (some o) res =
    Returns-any (ers_put _ _ _) _ λ r. ends (loaded-IsOneMore name res r)

-- A step that deals with the items that pass a test, and passes over the others.
one_if :
    {Q R : Type 0} (b : Bool) (res : ImportResult) {m : Prog Q R ImportResult}
    → Returns (IsOneMore res) m
    → Returns (IsSettled (if b then 1 else 0) res) (if b then m else Prog.ret res)
one_if true res h = Returns-mono h λ _. IsSettled-one
one_if false res h = ends (unchanged-IsSettled res)

module _ (render : Message → String) where
  maybe_create-IsSettled :
      (it : Item) (res : ImportResult)
      → Returns
          (IsSettled (if is_new_join_point render it then 1 else 0) res)
          (maybe_create render it res)
  unfolding create_join_point
  maybe_create-IsSettled it res = one_if (is_new_join_point render it) res (
      Returns-any (ers_create _ _ _) _
        λ r. ends (created_join_point-IsOneMore (render it.name) res r))

  load_action-IsOneMore :
      (items : List Item) (ids : Dict String) (it : Item) (a : Action) (res : ImportResult)
      → Returns (IsOneMore res) (load_action render items ids it a res)
  load_action-IsOneMore items ids it skip res = ends (one_skipped-IsOneMore res)
  load_action-IsOneMore items ids it blocked res = ends (one_blocked-IsOneMore res)
  load_action-IsOneMore items ids it create res =
      Returns-if (id_of (get ids (join_point_name render it)) == "")
        (λ _. ends (one_failed-IsOneMore res _))
        (λ _. put_groups-IsOneMore (join_point_name render it) _ _ res)

  maybe_load-IsSettled :
      (items : List Item) (ids : Dict String) (it : Item) (res : ImportResult)
      → Returns
          (IsSettled (if is_groups_item render it then 1 else 0) res)
          (maybe_load render items ids it res)
  maybe_load-IsSettled items ids it res =
      one_if (is_groups_item render it) res (load_action-IsOneMore items ids it it.action res)

count_of_none : {A : Type 0} (p : A → Bool) (xs : List A) → any p xs ≡ false → count_of p xs ≡ 0
count_of_none p [] h = refl
count_of_none p (x ∷ xs) h = ground (arith, count_of_none p xs)

-- The list was read.
abbrev pub is_read : {A : Type 0} → Result A → Bool
is_read (ok a) = true
is_read (err e) = false

IsSettled-both :
    (n m : ℕ) (res res' res'' : ImportResult)
    → IsSettled n res res'
    → IsSettled m res' res''
    → IsSettled (n + m) res res''
IsSettled-both n m res res' res'' h h' = record {
  counted = omega (arith, h.counted, h'.counted);
  reported = omega (arith, h.reported, h'.reported);
}

module _ (render : Message → String) (items : List Item) where
  create_all-IsSettled :
      (res : ImportResult)
      → Returns
          (IsSettled (count_of (is_new_join_point render) items) res)
          (create_all render items res)
  create_all-IsSettled res =
      Returns-if (any (is_new_join_point render) items)
        (λ some_new.
          for_each-IsSettled (is_new_join_point render) (maybe_create-IsSettled render) items res)
        (λ none_new. ends (
          subst (λ n. IsSettled n res res)
            (sym (count_of_none (is_new_join_point render) items none_new))
            (unchanged-IsSettled res)))

  -- The items about groups are counted if the list was read.
  load_listed-IsSettled :
      (res : ImportResult) (r : Result (List Stub))
      → Returns
          (IsSettled (if is_read r then count_of (is_groups_item render) items else 0) res)
          (load_listed render items res r)
  load_listed-IsSettled res (err e) = ends (unchanged-IsSettled res)
  load_listed-IsSettled res (ok stubs) =
      for_each-IsSettled (is_groups_item render)
        (maybe_load-IsSettled render items (ids_into stubs [])) items res

  module _ (serve : Request → Result Body) where
    abbrev listed : Result (List Stub)
    listed = value_against serve (ers_list path_active_directory)

    -- ... and only if groups are to be loaded.
    load_all-IsSettled :
        (res : ImportResult)
        → IsSettled
            (if any (is_new_groups render) items && is_read listed
              then count_of (is_groups_item render) items
              else 0)
            res
            (value_against serve (load_all render items res))
    unfolding load_groups value_against
    load_all-IsSettled res = of_any (any (is_new_groups render) items)
      where
        of_any :
            (b : Bool)
            → IsSettled
                (if b && is_read listed then count_of (is_groups_item render) items else 0)
                res
                (value_against serve (if b then load_groups render items res else Prog.ret res))
        of_any true =
            subst
              (IsSettled (if is_read listed then count_of (is_groups_item render) items else 0) res)
              (sym (value_against-bind serve (ers_list path_active_directory) _))
              (value_against-Returns serve (load_listed-IsSettled res listed))
        of_any false = unchanged-IsSettled res

-- How many items the import counts: the join points that are to be created, and the items about groups if
-- the groups of one are to be loaded and the target's list can be read.
abbrev pub settled : (Message → String) → (Request → Result Body) → List Item → ℕ
settled render serve items =
    count_of (is_new_join_point render) items
    + (if any (is_new_groups render) items
          && is_read (value_against serve (ers_list path_active_directory))
        then count_of (is_groups_item render) items
        else 0)

-- The import of the join points counts each one that is to be created once. It counts each item about
-- groups once too, whatever its verdict, exactly if the groups of one are to be loaded and the target's
-- list is read. It counts no other item, and there is one more sentence per failure. Here the target answers
-- each request in one way.
pub apply_join_points-IsSettled :
    (render : Message → String) (serve : Request → Result Body) (items : List Item)
    (res : ImportResult)
    → IsSettled
        (settled render serve items)
        res
        (value_against serve (apply_join_points render items res))
unfolding apply_join_points
apply_join_points-IsSettled render serve items res =
    subst (IsSettled (settled render serve items) res)
      (sym (value_against-bind serve (create_all render items res) _))
      (IsSettled-both _ _ res created _
        (value_against-Returns serve (create_all-IsSettled render items res))
        (load_all-IsSettled render items serve created))
  where
    created : ImportResult
    created = value_against serve (create_all render items res)
