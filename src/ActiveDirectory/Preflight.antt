-- ===== src/ActiveDirectory/Preflight.antt =====
-- activedirectory.go: `preflightADJoinPoints` and `joinPointsAfterThisRun`.
pub mod Clear
pub mod Filed
pub mod Unique
use ise2ise.Base.{
  String, Bool, true, false, Option, none, some, List, [], ◌∷◌, ◌++◌, ◌==◌, ◌&&◌, not,
}
use ise2ise.Base.{Dict, get, put, Names, length, if◌then◌else◌}
use ise2ise.Json.{Obj, end, str}
use ise2ise.Message.{Message, Piece, lit, quoted, shown, number, said}
use ise2ise.Prog.{Prog, ret, ask, ◌>>=◌}
use ise2ise.Ise.Errors.{Result, ok, err}
use ise2ise.Ise.Calls.{Calls, or_zero}
use ise2ise.Ise.Decode.{Stub}
use ise2ise.Ise.Paging.{ers_list}
use ise2ise.Ise.Lookup.{ers_get_all}
use ise2ise.Import.{stub_names, created_names}
use ise2ise.Report.{Action, create, skip, blocked, Item, item_of, Report, add, ad_join_points}
use ise2ise.ActiveDirectory.Groups.{
  path_active_directory, root_active_directory, extract_sids, decide_groups,
  report_join_point_drift,
}

-- The target's join points by name, and their names by domain.
pub record Target : Type 0 where
  pub by_name : Dict Obj
  pub by_domain : Dict String

abbrev pub file_domain : Obj → Dict String → Dict String
file_domain detail m =
    if not (str detail "domain" == "") then put m (str detail "domain") (str detail "name") else m

unfoldable pub file_all : List Obj → Target → Target
unfolding put str
file_all [] t = t
file_all (detail ∷ details) t = file_all details (record {
  by_name = put t.by_name (str detail "name") detail;
  by_domain = file_domain detail t.by_domain;
})

-- The name that another join point of the target has for the domain.
abbrev pub other_name : Option String → String → Option String
other_name none name = none
other_name (some theirs) name = if not (theirs == name) then some theirs else none

abbrev pub judge_new : Obj → Option String → Report → Report
judge_new item (some theirs) r =
    let name = str item "name" in
    add r (
      item_of ad_join_points (said name) item blocked (
        lit "the target has a join point "
        ∷ quoted theirs
        ∷ lit " for domain "
        ∷ quoted (str item "domain")
        ∷ lit "; the bundle names it "
        ∷ quoted name
        ∷ lit ". Rename one or repoint the migrated rules."
        ∷ []))
judge_new item none r = add r (
    item_of ad_join_points (said (str item "name")) item create (
      lit
        "will be created (not joined); the operator must join the domain in the ISE GUI, then run the import again to load its groups"
      ∷ []))

-- The item about the groups of a join point that the target has.
abbrev pub groups_item : Obj → Obj → Item
groups_item item theirs =
    let wanted = extract_sids item in
    let (action, reason) = decide_groups wanted (extract_sids theirs) in
    item_of ad_join_points
      (shown (str item "name") ∷ lit " — " ∷ number (length wanted) ∷ lit " AD groups" ∷ []) end
      action reason

abbrev pub judge_named : Target → Obj → Option Obj → Report → Report
judge_named t item (some theirs) r = report_join_point_drift item theirs (
    add
      (add r (
        item_of ad_join_points (said (str item "name")) item skip
          (said "already exists on the target")))
      (groups_item item theirs))
judge_named t item none r =
    judge_new item (other_name (get t.by_domain (str item "domain")) (str item "name")) r

-- One join point of the bundle.
unfoldable pub judge_join_point : Target → Obj → Report → Report
unfolding decide_groups extract_sids report_join_point_drift add get str
judge_join_point t item r =
    let name = str item "name" in
    if name == ""
    then add r (item_of ad_join_points [] item blocked (said "join point has no name"))
    else if str item "domain" == ""
    then add r (item_of ad_join_points (said name) item blocked (said "join point has no domain"))
    else judge_named t item (get t.by_name name) r

unfoldable pub judge_join_points : Target → List Obj → Report → Report
unfolding judge_join_point
judge_join_points t [] r = r
judge_join_points t (item ∷ items) r = judge_join_points t items (judge_join_point t item r)

abbrev pub nothing_there : Target
nothing_there = record { by_name = []; by_domain = [] }

abbrev pub read_details : List Obj → Target
read_details details = file_all details nothing_there

-- If the list cannot be read, the family is left out of the report.
abbrev pub judge_listed : List Obj → Report → Result (List Stub) → Calls Report
judge_listed items r (err e) = ret r
judge_listed items r (ok stubs) = do
  details ← ers_get_all path_active_directory root_active_directory stubs
  ret (judge_join_points (read_details (or_zero [] details)) items r)

unfoldable pub preflight_join_points : List Obj → Report → Calls Report
unfolding file_all judge_join_points
preflight_join_points [] r = ret r
preflight_join_points (item ∷ items) r = do
  listed ← ers_list path_active_directory
  judge_listed (item ∷ items) r listed

-- `joinPointsAfterThisRun`
unfoldable pub join_points_after_this_run : Report → Calls Names
join_points_after_this_run r = do
  stubs ← ers_list path_active_directory
  ret (created_names ad_join_points r.items (stub_names (or_zero [] stubs) []))
