-- ===== src/Tests/Endpoints.antt =====
-- A bundle with one new group and an endpoint in it.
use ise2ise.Prog.Tells.{Tells}
use ise2ise.Endpoints.Usage.{scan_policy_usage, extract_group_name}
use ise2ise.Endpoints.Usage.Told.{SaysSo, scan_policy_usage-SaysSo}
use ise2ise.Base.{false, ◌≡◌, refl, String, Bool, true, List, [], ◌∷◌, Dict, every, none, some}
use ise2ise.Base.{if◌then◌else◌, ◌==◌}
use Prim.Native.Char.{Char}
use ise2ise.Json.{text, Obj, end, field, lookup}
use ise2ise.Report.{Item, Action, create, blocked}
use ise2ise.Endpoints.Refs.{IsMoved, then_import, ref_to_name, ref_roundtrip}
use ise2ise.Endpoints.Preflight.{Seen, judge_groups, judge_endpoints, names_of}
use ise2ise.Endpoints.Preflight.Groups.{will_be_there}
use ise2ise.Endpoints.Preflight.Gate.{is_resolved, judge_endpoints-is_cleared}
use ise2ise.Tests.Shared.{empty_report}

abbrev as_it_is : Char → Char
as_it_is c = c

abbrev printers : Obj
printers = field "name" (text "Printers") end

abbrev a_printer : Obj
a_printer = field "mac" (text " 00:11:22:33:44:55") (field "groupName" (text "Printers") end)

abbrev a_stray : Obj
a_stray = field "mac" (text "00:11:22:33:44:66") (field "groupName" (text "Cameras") end)

abbrev after_groups : Seen
after_groups =
    judge_groups [] (printers ∷ []) (record { report = empty_report; will_exist = names_of [] })

abbrev actions : List Item → List Action
actions [] = []
actions (it ∷ items) = it.action ∷ actions items

verdicts : List Action
unfolding judge_groups judge_endpoints ise2ise.Base.add_name ise2ise.Base.has
verdicts =
    actions
      (judge_endpoints as_it_is
        (record { will_exist = after_groups.will_exist; profiles = []; macs = [] })
        (a_printer ∷ a_stray ∷ []) after_groups.report).items

verdicts_of_endpoints : verdicts ≡ create ∷ create ∷ blocked ∷ []
unfolding verdicts
verdicts_of_endpoints = refl

judge_endpoints-is_cleared_example :
    every
      (is_resolved (will_be_there [] after_groups.report.items) [])
      (judge_endpoints as_it_is
        (record { will_exist = after_groups.will_exist; profiles = []; macs = [] })
        (a_printer ∷ a_stray ∷ [])
        after_groups.report).items
    ≡ true
judge_endpoints-is_cleared_example =
    judge_endpoints-is_cleared as_it_is [] [] [] (printers ∷ []) (a_printer ∷ a_stray ∷ [])
      empty_report refl

abbrev of_source : Obj
of_source = field "groupId" (text "g-1") (field "mac" (text "00:11:22:33:44:55") end)

ref_roundtrip_example : IsMoved "groupId" "groupName" "g-2" of_source (
    then_import "groupId" "groupName" "endpoint identity group" (("Printers", "g-2") ∷ []) (
      ref_to_name of_source "groupId" "groupName" "endpoint identity group"
        (("g-1", "Printers") ∷ [])))
unfolding ise2ise.Base.get ise2ise.Json.str
ref_roundtrip_example =
    ref_roundtrip of_source "groupId" "groupName" "endpoint identity group" "g-1" "Printers" "g-2"
      (("g-1", "Printers") ∷ []) (("Printers", "g-2") ∷ []) refl refl refl refl refl

group_name_lem : extract_group_name "Endpoint Identity Groups:Production: Siemens" ≡ "Siemens"
unfolding extract_group_name ise2ise.Texts.split_on
group_name_lem = refl

scan_policy_usage-SaysSo_example : Tells SaysSo false (scan_policy_usage ("Siemens" ∷ []))
scan_policy_usage-SaysSo_example = scan_policy_usage-SaysSo ("Siemens" ∷ [])
