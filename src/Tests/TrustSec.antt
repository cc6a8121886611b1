-- ===== src/Tests/TrustSec.antt =====
-- A bundle with a group, an SGACL and two cells against a target that holds one group.
use ise2ise.TrustSec.Export.{Exported, export_trust_sec}
use ise2ise.TrustSec.Export.Carried.{carries}
use ise2ise.TrustSec.Export.Named.{objects_at, IsNamedExport, export_trust_sec-IsNamedExport}
use ise2ise.TrustSec.Objects.{path_sgt, root_sgt, path_egress_cell, root_egress_cell}
use ise2ise.Base.{
  ◌≡◌, refl, String, Bool, true, false, Option, none, some, List, [], ◌∷◌, ◌++◌, arith,
}
use ise2ise.Base.{any, Dict, get, has, is_empty, if◌then◌else◌}
use ise2ise.Json.{
  Value, obj, nil, cons, num, pos, text, arr, texts, Obj, end, field, lookup, name_list,
  arr_of_texts,
}
use ise2ise.Request.{Request}
use ise2ise.Prog.{Prog, value_against}
use ise2ise.Prog.Sends.{Sends}
use ise2ise.Prog.Returns.{Returns}
use ise2ise.Ise.Errors.{Result, ok, err, failed}
use ise2ise.Ise.Decode.{Body}
use ise2ise.Ise.Calls.{Reads}
use ise2ise.Report.{Item, Action, create, skip, trust_sec}
use ise2ise.TrustSec.Cell.{resolved, resolve_cell_refs}
use ise2ise.TrustSec.Refs.{HaveIds, IsResolvedTo, resolve_cell_refs_lem}
use ise2ise.TrustSec.Preflight.{Target, judge_all, preflight_trust_sec}
use ise2ise.TrustSec.Preflight.Reads.{preflight_trust_sec-Reads}
use ise2ise.TrustSec.Preflight.Gate.{AllResolved}
use ise2ise.TrustSec.Preflight.Gate.Loop.{judge_all_resolved}
use ise2ise.TrustSec.Apply.{apply_items}
use ise2ise.TrustSec.Apply.Laws.{IsAccounted, apply_items-IsAccounted}
use ise2ise.TrustSec.Apply.Writes.{OnlyCreates, apply_items-OnlyCreates}
use ise2ise.Tests.Shared.{empty_report, no_result}

abbrev staff : Obj
staff = field "kind" (text "sgt") (field "name" (text "Staff") (field "value" (num (pos 4)) end))

abbrev taken : Obj
taken = field "kind" (text "sgt") (field "name" (text "Guests") (field "value" (num (pos 5)) end))

abbrev acl : Obj
acl = field "kind" (text "sgacl") (field "name" (text "Web") end)

abbrev cell_of : String → Obj
cell_of dst = field "kind" (text "egressCell") (
    field "name" (text dst) (
      field "sourceSgtName" (text "Staff")
        (field "destinationSgtName" (text dst) (field "sgaclNames" (texts ("Web" ∷ [])) end))))

abbrev servers : Obj
servers = field "name" (text "Servers") (field "value" (num (pos 5)) end)

abbrev target : Target
target = record {
  sgts = ("Servers", servers) ∷ [];
  sgacls = [];
  holders = (pos 5, "Servers") ∷ [];
  cells = [];
  sgacl_cache = [];
}

abbrev bundle : List Obj
bundle = cell_of "Servers" ∷ cell_of "Guests" ∷ acl ∷ taken ∷ staff ∷ []

abbrev silent : Request → Result Body
silent q = err (failed [])

abbrev actions : List Item → List Action
actions [] = []
actions (it ∷ items) = it.action ∷ actions items

verdicts : List Action
unfolding value_against judge_all has
verdicts = actions (value_against silent (judge_all target bundle empty_report)).items

-- Groups first: one's tag is taken; then the SGACL; then the cells, of which one names that group.
verdicts_lem : verdicts ≡ skip ∷ create ∷ create ∷ create ∷ skip ∷ []
unfolding verdicts ise2ise.Prog.for_each ise2ise.Base.add_name
verdicts_lem = refl

judge_all_resolved_example :
    Returns (λ r'. AllResolved target r'.items r'.items) (judge_all target bundle empty_report)
judge_all_resolved_example = judge_all_resolved target bundle empty_report tt

preflight_trust_sec-Reads_example : Reads (preflight_trust_sec bundle empty_report)
preflight_trust_sec-Reads_example = preflight_trust_sec-Reads bundle empty_report

abbrev cleared : List Item
cleared = record { family = trust_sec; name = []; action = create; reason = []; obj = staff } ∷ []

apply_items-IsAccounted_example :
    Returns (IsAccounted cleared no_result) (apply_items cleared no_result none)
apply_items-IsAccounted_example = apply_items-IsAccounted cleared no_result none

apply_items-OnlyCreates_example : Sends OnlyCreates (apply_items cleared no_result none)
apply_items-OnlyCreates_example = apply_items-OnlyCreates cleared no_result none

abbrev group_ids : Dict String
group_ids = ("Staff", "s-1") ∷ ("Servers", "s-2") ∷ []

abbrev acl_ids : Dict String
acl_ids = ("Web", "a-1") ∷ []

abbrev rewritten : Obj
rewritten = field "sgacls" (arr (arr_of_texts ("a-1" ∷ []))) (
    field "destinationSgtId" (text "s-2") (
      field "sourceSgtId" (text "s-1")
        (field "kind" (text "egressCell") (field "name" (text "Servers") end))))

rewritten_lem : resolve_cell_refs (cell_of "Servers") group_ids acl_ids ≡ resolved rewritten
unfolding resolve_cell_refs get
rewritten_lem = refl

resolve_cell_refs_example :
    IsResolvedTo (cell_of "Servers") group_ids acl_ids rewritten
    × ((ids : List String) × HaveIds acl_ids (name_list (cell_of "Servers") "sgaclNames") ids
        × (lookup rewritten "sgacls" ≡ (
            if is_empty ids
            then lookup (cell_of "Servers") "sgacls"
            else some (arr (arr_of_texts ids)))))
resolve_cell_refs_example =
    resolve_cell_refs_lem (cell_of "Servers") group_ids acl_ids rewritten rewritten_lem

-- A source with one group, one SGACL and one cell, that answers everything with all that it has.
abbrev listed : Value
listed = obj (
    field "resources"
      (arr (cons (obj (field "id" (text "s-1") (field "name" (text "Staff") end))) nil)) end)

abbrev held_group : Obj
held_group = field "id" (text "s-1") (field "name" (text "Staff") end)

abbrev held_cell : Obj
held_cell = field "id" (text "c-1") (
    field "name" (text "Staff-Staff")
      (field "sourceSgtId" (text "s-1") (field "destinationSgtId" (text "s-1") end)))

abbrev source : Request → Result Body
source q = ok (record {
  raw = "{\"SearchResult\": …}";
  json = some (
      obj (
        field "SearchResult" listed (
          field "Sgt" (obj held_group)
            (field "Sgacl" (obj acl) (field "EgressMatrixCell" (obj held_cell) end)))));
})

abbrev succeeds : Result Exported → Bool
succeeds (ok out) = any (carries (held_group ∷ []) held_cell) out.objects
succeeds (err e) = false

exported : succeeds (value_against source (export_trust_sec (λ c. c))) ≡ true
unfolding value_against export_trust_sec ise2ise.Ise.Paging.ers_list
    ise2ise.Ise.Decode.search_result ise2ise.Ise.Lookup.ers_get_all ise2ise.Ise.Calls.ers_get_by_id
    ise2ise.Prog.for_each ise2ise.Ise.Lookup.resolve_name get ise2ise.Base.put ise2ise.Sort.sort
    ise2ise.TrustSec.Export.Known.last_name
exported = refl

export_trust_sec-IsNamedExport_example :
    IsNamedExport
      (objects_at source path_sgt root_sgt)
      (objects_at source path_egress_cell root_egress_cell)
      (value_against source (export_trust_sec (λ c. c)))
export_trust_sec-IsNamedExport_example = export_trust_sec-IsNamedExport source (λ c. c)
