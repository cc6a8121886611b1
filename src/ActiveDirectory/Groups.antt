-- ===== src/ActiveDirectory/Groups.antt =====
-- activedirectory.go: what is compared of two join points: the groups' SIDs, the attributes and the
-- advanced settings; and the export.
use ise2ise.Base.{String, Bool, Option, none, some, List, [], ◌∷◌, ◌++◌, ◌==◌, ◌&&◌, ◌||◌}
use ise2ise.Base.{
  not, contains, every, length, ltb, nat_eq, map, Names, add_name, has, is_empty, if◌then◌else◌,
}
use ise2ise.Json.{Obj, end, lookup, str, child, rule_list, array_objects}
use ise2ise.Json.Links.{strip_local}
use ise2ise.Message.{Message, lit, quoted, shown, number, quote_all, comma_join}
use ise2ise.Prog.{ret, ◌>>=◌}
use ise2ise.Sort.{sort_strings}
use ise2ise.Drift.{drift_fields}
use ise2ise.Ise.Errors.{Result, ok}
use ise2ise.Ise.Calls.{Calls, when_ok, because}
use ise2ise.Ise.Paging.{ers_list}
use ise2ise.Ise.Lookup.{ers_get_all}
use ise2ise.Report.{Action, create, skip, blocked, item_of, Report, add, note, ad_join_points}

abbrev pub path_active_directory : String
path_active_directory = "/ers/config/activedirectory"

abbrev pub root_active_directory : String
root_active_directory = "ERSActiveDirectory"

-- `ExportADJoinPoints`
unfoldable pub export_join_points : Calls (Result (List Obj))
unfolding strip_local
export_join_points = do
  listed ← ers_list path_active_directory
  when_ok listed (because "listing Active Directory join points") λ stubs. do
    read ← ers_get_all path_active_directory root_active_directory stubs
    when_ok read (because "reading Active Directory join points")
        λ join_points. ret (ok (map strip_local join_points))

-- The SIDs of a list of groups, each once and none of them empty.
unfoldable pub sids_among : List Obj → List String
unfolding str
sids_among [] = []
sids_among (g ∷ groups) =
    let rest = sids_among groups in
    if str g "sid" == "" || contains rest (str g "sid") then rest else str g "sid" ∷ rest

abbrev pub groups_in : Option Obj → List Obj
groups_in none = []
groups_in (some block) = array_objects (lookup block "groups")

-- `extractSIDs`
unfoldable pub extract_sids : Obj → List String
unfolding sids_among child lookup
extract_sids join_point = sids_among (groups_in (child join_point "adgroups"))

abbrev pub holds_all : List String → List String → Bool
holds_all wanted held = every (contains held) wanted

-- The verdict on the groups of a join point that is there.
unfoldable pub decide_groups : List String → List String → Action × Message
decide_groups wanted held =
    if nat_eq (length held) 0 && ltb 0 (length wanted)
    then (
      create,
      lit "the target join point has no groups loaded; will load them from the bundle" ∷ [],
    )
    else if (ltb 0 (length wanted) && ltb 0 (length held)) && holds_all wanted held
    then (skip, lit "already loaded on the target" ∷ [])
    else if ltb 0 (length wanted)
    then (
      create,
      lit "the target join point is missing some groups; will load all groups from the bundle" ∷ [],
    )
    else (skip, lit "no groups to load" ∷ [])

abbrev block_attributes : Option Obj → List Obj
block_attributes none = []
block_attributes (some block) = rule_list (lookup block "attributes")

-- `attrList`
unfoldable pub attr_list : Obj → List Obj
unfolding child rule_list lookup
attr_list join_point = block_attributes (child join_point "adAttributes")

abbrev names_into : List Obj → Names → Names
names_into [] m = m
names_into (a ∷ attrs) m = names_into attrs (add_name m (str a "name"))

abbrev named_and_missing : Names → List Obj → List String
named_and_missing have [] = []
named_and_missing have (a ∷ attrs) =
    let rest = named_and_missing have attrs in
    if not (str a "name" == "") && not (has have (str a "name")) then str a "name" ∷ rest else rest

unfoldable pub missing_attributes : Obj → Obj → List String
unfolding attr_list has add_name str
missing_attributes bundle target =
    named_and_missing (names_into (attr_list target) []) (attr_list bundle)

-- Two blocks of settings, of which Go's nil reads as an empty one, or ends the comparison.
abbrev pub settings_drift : Option Obj → Option Obj → List String
settings_drift mine none = []
settings_drift none (some theirs) = drift_fields end theirs
settings_drift (some mine) (some theirs) = drift_fields mine theirs

abbrev shown_all : List String → List Message
shown_all [] = []
shown_all (f ∷ fs) = (shown f ∷ []) ∷ shown_all fs

abbrev pub with_attributes : String → List String → Report → Report
with_attributes name missing r =
    if is_empty missing
    then r
    else add r (
        item_of ad_join_points
          (shown name ∷ lit " — " ∷ number (length missing) ∷ lit " AD attributes" ∷ []) end blocked
          (lit "the target's join point does not expose "
            ∷ (quote_all (sort_strings missing)
                ++ (lit
                      ", and ISE has no API to add an attribute to a join point that already exists (a PUT answers 405). Add them in the ISE GUI under this join point's Attributes tab, then re-run — an authorization profile that reads one is refused until you do."
                    ∷ []))))

abbrev pub with_settings : String → List String → Report → Report
with_settings name fields r =
    if is_empty fields
    then r
    else note r (
        lit "AD join point "
        ∷ quoted name
        ∷ lit ": the target's advanced settings differ from the source in "
        ∷ (comma_join (shown_all fields)
            ++ (lit
                  ". They were not changed — compare them in the GUI if the source's behaviour is the one you want."
                ∷ [])))

-- `reportJoinPointDrift`
unfoldable pub report_join_point_drift : Obj → Obj → Report → Report
unfolding missing_attributes child drift_fields sort_strings quote_all add note str
report_join_point_drift bundle target r =
    let name = str bundle "name" in
    with_settings name
      (settings_drift (child bundle "advancedSettings") (child target "advancedSettings"))
      (with_attributes name (missing_attributes bundle target) r)
