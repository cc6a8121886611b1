-- ===== src/Endpoints/Preflight.antt =====
-- endpoints.go: the part of `Preflight` that decides about endpoint identity groups and endpoints, with
-- `targetMACs`, `endpointMAC` and `normMAC`. The upper case of a character is a parameter.
pub mod Groups
pub mod Gate
use ise2ise.Base.{
  String, Bool, true, false, Option, none, some, List, [], ◌∷◌, ◌==◌, ◌&&◌, not, Dict,
}
use ise2ise.Base.{Names, has, add_name, if◌then◌else◌, ◌||◌}
use Prim.Native.Char.{Char}
use ise2ise.Json.{Obj, str}
use ise2ise.Message.{Message, Piece, lit, quoted, said, shown}
use ise2ise.Prog.{Prog, ret, ask, ◌>>=◌}
use ise2ise.Ise.Errors.{IseError, Result, ok, err}
use ise2ise.Ise.Decode.{Stub}
use ise2ise.Ise.Calls.{Calls, when_ok, because}
use ise2ise.Ise.Paging.{ers_list}
use ise2ise.Ise.Lookup.{stubs_by_name}
use ise2ise.Marker.Tag.{trim_start, trim_end}
use ise2ise.PolicySets.Conditions.{at_key}
use ise2ise.Report.{
  item_of, Family, Action, create, skip, blocked, Item, Report, add, endpoint_groups, endpoints,
}

abbrev pub path_endpoint_groups : String
path_endpoint_groups = "/ers/config/endpointgroup"

abbrev pub path_endpoints : String
path_endpoints = "/ers/config/endpoint"

abbrev pub path_profiles : String
path_profiles = "/ers/config/profilerprofile"

-- The report, and the groups that the target has or will have.
pub record Seen : Type 0 where
  pub report : Report
  pub will_exist : Names

abbrev pub group_item : Obj → Action → Message → Item
group_item g action reason = item_of endpoint_groups (said (str g "name")) g action reason

abbrev pub nameless_group : Obj → Item
nameless_group g =
    group_item g blocked (said "the bundle contains an endpoint identity group with no name")

abbrev pub group_there : Obj → Item
group_there g = group_item g skip (said "already exists on the target")

abbrev pub new_group : Obj → Item
new_group g = group_item g create []

-- One group.
unfoldable pub judge_group : Dict String → Obj → Seen → Seen
unfolding add str at_key
judge_group ids g s =
    if str g "name" == ""
    then record s { report = add s.report (nameless_group g) }
    else if not (at_key ids (str g "name") == "")
    then record s { report = add s.report (group_there g) }
    else record {
      report = add s.report (new_group g);
      will_exist = add_name s.will_exist (str g "name");
    }

unfoldable pub judge_groups : Dict String → List Obj → Seen → Seen
unfolding judge_group
judge_groups ids [] s = s
judge_groups ids (g ∷ gs) s = judge_groups ids gs (judge_group ids g s)

abbrev pub names_of : Dict String → Names
names_of [] = []
names_of ((name, id) ∷ m) = (name, tt) ∷ names_of m

-- What an endpoint is checked against.
pub record Target : Type 0 where
  pub will_exist : Names
  pub profiles : Dict String
  pub macs : Names

-- The `switch` on an endpoint.
unfoldable pub decide_endpoint : Target → String → Obj → Action × Message
unfolding str at_key
decide_endpoint t mac ep =
    let group = str ep "groupName" in
    let profile = str ep "profileName" in
    if mac == ""
    then (blocked, said "endpoint has no MAC address")
    else if has t.macs mac
    then (skip, said "already exists on the target")
    else if not (group == "") && not (has t.will_exist group)
    then (
      blocked,
      lit "the target has no endpoint identity group named "
          ∷ quoted group
          ∷ lit " and the bundle does not create one"
          ∷ [],
    )
    else if not (profile == "") && at_key t.profiles profile == ""
    then (blocked, lit "the target has no profiler profile named " ∷ quoted profile ∷ [])
    else (create, [])

module _ (to_upper : Char → Char) where
  upper_text : String → String
  upper_text String.[] = ""
  upper_text (String.◌∷◌ c s) = String.◌∷◌ (to_upper c) (upper_text s)

  -- `normMAC`
  unfoldable pub norm_mac : String → String
  unfolding upper_text trim_start trim_end
  norm_mac m = upper_text (trim_end (trim_start m))

  -- `endpointMAC`
  unfoldable pub endpoint_mac : Obj → String
  unfolding norm_mac str
  endpoint_mac ep = if str ep "mac" == "" then norm_mac (str ep "name") else norm_mac (str ep "mac")

  abbrev macs_of : List Stub → Names → Names
  macs_of [] m = m
  macs_of (s ∷ stubs) m = macs_of stubs (add_name m (norm_mac s.name))

  -- `targetMACs`
  unfoldable pub target_macs : Calls (Result Names)
  target_macs = do
    stubs ← ers_list path_endpoints
    when_ok stubs (λ e. e) λ found. ret (ok (macs_of found []))

  abbrev pub endpoint_item : Target → Obj → Item
  endpoint_item t ep =
      let (action, reason) = decide_endpoint t (endpoint_mac ep) ep in
      item_of endpoints (said (endpoint_mac ep)) ep action reason

  unfoldable pub judge_endpoints : Target → List Obj → Report → Report
  unfolding add endpoint_mac decide_endpoint
  judge_endpoints t [] r = r
  judge_endpoints t (ep ∷ eps) r = judge_endpoints t eps (add r (endpoint_item t ep))

  -- The endpoints of the bundle, behind the groups.
  unfoldable pub preflight_endpoints : Dict String → List Obj → Seen → Calls (Result Report)
  unfolding target_macs judge_endpoints
  preflight_endpoints ids [] s = ret (ok s.report)
  preflight_endpoints ids (ep ∷ eps) s = do
    profiles ← stubs_by_name path_profiles
    when_ok profiles (because "reading the target's profiler profiles") λ ps. do
      macs ← target_macs
      when_ok macs (because "reading the target's endpoints") λ ms. ret (
          ok (
            judge_endpoints (record { will_exist = s.will_exist; profiles = ps; macs = ms })
              (ep ∷ eps) s.report))

  -- What `Preflight` does behind the other families.
  unfoldable pub preflight_groups : List Obj → List Obj → Report → Calls (Result Report)
  unfolding preflight_endpoints judge_groups
  preflight_groups groups eps r = do
    ids ← stubs_by_name path_endpoint_groups
    when_ok ids (because "reading the target's endpoint identity groups") λ m.
        preflight_endpoints m eps
          (judge_groups m groups (record { report = r; will_exist = names_of m }))
