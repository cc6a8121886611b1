-- ===== src/TrustSec/Cell.antt =====
-- trustsec.go: `cellBlocked`, `defaultCellReason`, `cellDrift` and `resolveCellRefs`.
use ise2ise.Base.{String, Bool, true, false, Option, none, some, List, [], ◌∷◌, ◌++◌, ◌==◌, ◌||◌}
use ise2ise.Base.{◌&&◌, not, Dict, get, Names, has, is_empty, if◌then◌else◌}
use ise2ise.Json.{Value, text, arr, Obj, lookup, delete, set, str, name_list}
use ise2ise.Json.{names_in, arr_of_texts}
use ise2ise.Json.Equal.{same_texts}
use ise2ise.Message.{Message, said, lit, quoted, shown, same_message, comma_join, join_or}
use ise2ise.Prog.{ret, ◌>>=◌}
use ise2ise.Ise.Calls.{Calls}
use ise2ise.Ise.Lookup.{resolve_name}
use ise2ise.TrustSec.Objects.{path_sgacl, root_sgacl, default_rule_of}

-- The first SGACL that neither is nor will be on the target.
unfoldable pub sgacl_missing : List String → Names → Message
sgacl_missing [] sgacls = []
sgacl_missing (name ∷ names) sgacls =
    if has sgacls name
    then sgacl_missing names sgacls
    else lit "SGACL "
      ∷ quoted name
      ∷ lit
          " does not exist on the target and this bundle does not create one; the cell is left out whole rather than written with the rest"
      ∷ []

-- `cellBlocked`: why a cell cannot be written, or the empty text.
unfoldable pub cell_blocked : Obj → String → String → Names → Names → Message
unfolding sgacl_missing name_list
cell_blocked cell src dst sgts sgacls =
    if src == "" || dst == ""
    then said "the cell does not name both a source and a destination security group"
    else if not (has sgts src)
    then lit "source security group "
      ∷ quoted src
      ∷ lit " does not exist on the target and this bundle does not create one"
      ∷ []
    else if not (has sgts dst)
    then lit "destination security group "
      ∷ quoted dst
      ∷ lit " does not exist on the target and this bundle does not create one"
      ∷ []
    else sgacl_missing (name_list cell "sgaclNames") sgacls

-- The names of the SGACLs that a cell of the target holds by their ids, over the resolver's cache.
unfoldable pub sgacl_names : List String → Dict String → Calls (List String × Dict String)
sgacl_names [] cache = ret ([], cache)
sgacl_names (id ∷ ids) cache = do
  r ← resolve_name path_sgacl root_sgacl cache id
  (names, cache') ← sgacl_names ids r.cache
  ret (r.name ∷ names, cache')

-- `theirs["sgacls"].([]any)`, the texts in it that are not empty.
abbrev pub held_ids : Option Value → List String
held_ids (some (arr vs)) = names_in vs
held_ids _ = []

unfoldable pub their_sgacls : Obj → Dict String → Calls (List String × Dict String)
unfolding sgacl_names lookup names_in
their_sgacls theirs cache = sgacl_names (held_ids (lookup theirs "sgacls")) cache

-- What a cell does, as the report prints it.
unfoldable pub cell_text : String → List String → Message
unfolding join_or
cell_text rule names = shown rule ∷ lit " with " ∷ join_or names "no SGACL"

abbrev compared : Message → Message → Message
compared source target =
    if same_message source target
    then lit "the default egress cell is never written; both sides are " ∷ source
    else lit "the default egress cell is never written: the source's is "
      ∷ (source
          ++ (lit ", the target's is "
              ∷ (target
                  ++ said
                      " — change it on the target's TrustSec matrix if the source's is the one you want")))

-- `defaultCellReason`
unfoldable pub default_cell_reason : Obj → Option Obj → Dict String → Calls (Message × Dict String)
unfolding default_rule_of cell_text their_sgacls same_message name_list
default_cell_reason mine none cache = ret (
  lit "the default egress cell is never written; the source's is "
      ∷ (cell_text (default_rule_of mine) (name_list mine "sgaclNames")
          ++ said " and the target's could not be read"),
  cache,
)
default_cell_reason mine (some theirs) cache = do
  (names, cache') ← their_sgacls theirs cache
  ret (
    compared (cell_text (default_rule_of mine) (name_list mine "sgaclNames"))
        (cell_text (default_rule_of theirs) names),
    cache',
  )

abbrev drift_if : Bool → Message → List Message
drift_if true m = m ∷ []
drift_if false m = []

-- `cellDrift`: how an existing cell differs from the bundle's, or the empty text.
unfoldable pub cell_drift : Obj → Obj → Dict String → Calls (Message × Dict String)
unfolding default_rule_of their_sgacls same_texts join_or name_list str
cell_drift mine theirs cache = do
  (names, cache') ← their_sgacls theirs cache
  ret (
    comma_join (
        drift_if (not (default_rule_of mine == default_rule_of theirs)) (
          lit "the source's default rule is "
          ∷ shown (default_rule_of mine)
          ∷ lit ", the target's is "
          ∷ shown (default_rule_of theirs)
          ∷ [])
        ++ (drift_if
              (not (str mine "matrixCellStatus" == str theirs "matrixCellStatus")
                && not (str mine "matrixCellStatus" == ""))
              (lit "the source's status is "
                ∷ shown (str mine "matrixCellStatus")
                ∷ lit ", the target's is "
                ∷ shown (str theirs "matrixCellStatus")
                ∷ [])
            ++ drift_if (not (same_texts (name_list mine "sgaclNames") names)) (
                lit "the source's SGACLs are "
                ∷ (join_or (name_list mine "sgaclNames") "none"
                    ++ (lit ", the target's are " ∷ join_or names "none"))))),
    cache',
  )

-- What `resolveCellRefs` leaves: the cell, and why it failed or the empty text.
pub data Refs : Type 0 where
  unresolved : Obj → Message → Refs
  resolved : Obj → Refs

-- The ids of the names, or the first name that has none.
pub data Ids : Type 0 where
  all_ids : List String → Ids
  no_id : String → Ids

abbrev pub ids_with : String → Ids → Ids
ids_with id (all_ids ids) = all_ids (id ∷ ids)
ids_with id (no_id name) = no_id name

unfoldable pub ids_for : List String → Dict String → Ids
ids_for [] m = all_ids []
ids_for (name ∷ names) m = elim (get m name) [
  | none ↦ no_id name
  | some id ↦ ids_with id (ids_for names m)
]

abbrev pub no_group : String → Message
no_group name = lit "the target has no security group " ∷ quoted name ∷ []

abbrev pub with_sgacls : Obj → Ids → Refs
with_sgacls cell (no_id name) = unresolved cell (lit "the target has no SGACL " ∷ quoted name ∷ [])
with_sgacls cell (all_ids ids) =
    resolved (if is_empty ids then cell else set cell "sgacls" (arr (arr_of_texts ids)))

abbrev pub with_groups : Obj → Dict String → String → String → Refs
with_groups cell sgacl_ids src_id dst_id =
    let named = set (set cell "sourceSgtId" (text src_id)) "destinationSgtId" (text dst_id) in
    with_sgacls (delete named "sgaclNames") (ids_for (name_list named "sgaclNames") sgacl_ids)

-- `resolveCellRefs`
unfoldable pub resolve_cell_refs : Obj → Dict String → Dict String → Refs
unfolding str delete set ids_for name_list arr_of_texts
resolve_cell_refs cell sgt_ids sgacl_ids =
    let src = str cell "sourceSgtName" in
    let dst = str cell "destinationSgtName" in
    let bare = delete (delete cell "sourceSgtName") "destinationSgtName" in
    elim (get sgt_ids src) [
      | none ↦ unresolved bare (no_group src)
      | some src_id ↦ elim (get sgt_ids dst) [
        | none ↦ unresolved bare (no_group dst)
        | some dst_id ↦ with_groups bare sgacl_ids src_id dst_id
      ]
    ]
