-- ===== src/Endpoints/Listing.antt =====
-- endpoints.go: `fetchEndpoints`, `ListEndpointGroups` and `isStatic`. The lower case of a character is a
-- parameter.
use Prim.Native.Char.{Char}
use ise2ise.Base.{ℕ, String, Bool, List, [], ◌∷◌, ◌++◌, ◌||◌, not, map}
use ise2ise.Base.{Dict, if◌then◌else◌}
use ise2ise.Json.{Obj, str, truthy}
use ise2ise.Message.{Message, lit}
use ise2ise.Prog.{ret, ◌>>=◌}
use ise2ise.Sort.{before, sort}
use ise2ise.Texts.{map_text}
use ise2ise.Ise.Errors.{Result, ok, err, within, error_text}
use ise2ise.Ise.Calls.{Calls, when_ok, because, as_it_is}
use ise2ise.Ise.Paging.{ers_list, open_api_list}
use ise2ise.Ise.Lookup.{ers_get_all}
use ise2ise.Endpoints.Preflight.{path_endpoint_groups, path_endpoints}
use ise2ise.Endpoints.Usage.{times_used, scan_policy_usage}

-- `isStatic`
unfoldable pub is_static : Obj → Bool
unfolding truthy
is_static ep = truthy ep "staticGroupAssignment" || truthy ep "staticProfileAssignment"

abbrev path_endpoints_api : String
path_endpoints_api = "/api/v1/endpoint"

abbrev root_endpoint : String
root_endpoint = "ERSEndPoint"

abbrev root_endpoint_group : String
root_endpoint_group = "EndPointGroup"

-- After the OpenAPI has refused.
abbrev from_ers : Message → Calls (Result (List Obj × String))
from_ers refusal = do
  listed ← ers_list path_endpoints
  when_ok listed
      (within (
        lit "could not read endpoints from either API. OpenAPI: "
        ∷ (refusal ++ (lit ". ERS" ∷ []))))
      λ stubs. do
        read ← ers_get_all path_endpoints root_endpoint stubs
        when_ok read (because "reading endpoints from ERS")
            λ eps. ret (ok (eps, "ERS /ers/config/endpoint"))

abbrev or_from_ers : Result (List Obj) → Calls (Result (List Obj × String))
or_from_ers (ok eps) = ret (ok (eps, "OpenAPI /api/v1/endpoint"))
or_from_ers (err e) = from_ers (error_text e)

-- `fetchEndpoints`: the endpoints, and where they were read.
unfoldable pub fetch_endpoints : Calls (Result (List Obj × String))
unfolding error_text
fetch_endpoints = do r ← open_api_list path_endpoints_api; or_from_ers r

-- `EndpointGroup`
pub record Group : Type 0 where
  pub id : String
  pub name : String
  pub system_defined : Bool
  pub used_by : ℕ

abbrev group_of : Dict ℕ → Obj → Group
group_of usage g = record {
  id = str g "id";
  name = str g "name";
  system_defined = truthy g "systemDefined";
  used_by = times_used usage (str g "name");
}

module _ (lower : Char → Char) where
  -- The comparison of `sort.Slice`: ISE's own groups come last.
  abbrev pub listed_before : Group → Group → Bool
  listed_before a b =
      if (if a.system_defined then b.system_defined else not b.system_defined)
      then before (map_text lower a.name) (map_text lower b.name)
      else not a.system_defined

  -- `ListEndpointGroups`: the groups, and the sentence of the scan.
  unfoldable pub list_endpoint_groups : Calls (Result (List Group × Message))
  unfolding str truthy before map_text
  list_endpoint_groups = do
    listed ← ers_list path_endpoint_groups
    when_ok listed as_it_is λ stubs. do
      read ← ers_get_all path_endpoint_groups root_endpoint_group stubs
      when_ok read as_it_is λ groups. do
        scanned ← scan_policy_usage (map (λ g. str g "name") groups)
        ret (ok (sort listed_before (map (group_of scanned.0) groups), scanned.1))
