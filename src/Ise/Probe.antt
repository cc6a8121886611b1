-- ===== src/Ise/Probe.antt =====
-- ise.go: `ProbeDeployment`, `httpAnswered` and `explainAPIError`. Its first two requests go out
-- together; neither depends on the other, and they stand in order here.
pub mod Notes
pub mod Explained
use ise2ise.Base.{ℕ, String, Bool, true, false, Option, none, some, List, [], ◌∷◌, ◌++◌, ◌==◌, ◌||◌}
use ise2ise.Base.{nat_eq, if◌then◌else◌}
use ise2ise.Request.{Request, read, ers, open_api, url_at}
use ise2ise.Message.{Message, Piece, lit, snippet, said}
use ise2ise.Prog.{Prog, ret, ask, ◌>>=◌}
use ise2ise.Ise.Errors.{ApiError, IseError, as_api, error_text, Result, ok, err}
use ise2ise.Ise.Decode.{Body, Stub}
use ise2ise.Ise.Version.{version_in}
use ise2ise.Ise.Calls.{Calls, do_request}
use ise2ise.Ise.Paging.{ers_list}

pub record Probe : Type 0 where
  pub host : String
  pub reachable : Bool
  pub ers : Bool
  pub open_api : Bool
  pub version : String
  pub nodes : List String
  pub notes : List Message

abbrev pub is_some : Option ApiError → Bool
is_some none = false
is_some (some e) = true

-- `httpAnswered`
unfoldable pub http_answered : {A : Type 0} → Result A → Bool
unfolding as_api
http_answered (ok a) = false
http_answered (err e) = is_some (as_api e)

abbrev explained : IseError → Bool → Option ApiError → Message
explained failure other_auth_ok none =
    lit "could not connect ("
    ∷ (error_text failure
        ++ (lit
              "). The API is probably not enabled, the hostname is wrong, or a firewall is in the way."
            ∷ []))
explained failure other_auth_ok (some e) =
    if nat_eq e.status 401
    then lit (
        if other_auth_ok
        then "HTTP 401, but the same credentials were accepted by the other API. Enable this API in Administration → System → Settings → API Settings and give the account the matching role (ERS Admin for ERS, API Admin for OpenAPI). ISE said: "
        else "HTTP 401. Either the username/password is wrong, or the API is disabled in Administration → System → Settings → API Settings. ISE said: ")
      ∷ snippet e.body
      ∷ []
    else if nat_eq e.status 403
    then lit
        "HTTP 403: the account authenticated but is not authorised. It needs the ERS Admin / API Admin role. ISE said: "
      ∷ snippet e.body
      ∷ []
    else if nat_eq e.status 404
    then lit
        "HTTP 404: the endpoint does not exist on this deployment, which usually means the API is not enabled. ISE said: "
      ∷ snippet e.body
      ∷ []
    else error_text (IseError.api e)

-- `explainAPIError`
unfoldable pub explain_api_error : IseError → Bool → Message
unfolding as_api error_text
explain_api_error failure other_auth_ok = explained failure other_auth_ok (as_api failure)

abbrev pub version_of : Result Body → Result String
version_of (err e) = err e
version_of (ok b) = ok (version_in b)

-- `iseVersion`
unfoldable pub ise_version : Calls (Result String)
unfolding version_in
ise_version = do
  r ← do_request read (url_at ers "/ers/config/op/systemconfig/iseversion") none
  ret (version_of r)

abbrev is_ok : {A : Type 0} → Result A → Bool
is_ok (ok a) = true
is_ok (err e) = false

abbrev version_or_empty : Result String → String
version_or_empty (ok v) = v
version_or_empty (err e) = ""

-- The note about an API that did not answer.
abbrev unavailable : {A : Type 0} → String → Bool → Result A → List Message
unavailable what other (ok a) = []
unavailable what other (err e) = (lit what ∷ explain_api_error e other) ∷ []

abbrev names : List Stub → List String
names [] = []
names (s ∷ stubs) = s.name ∷ names stubs

abbrev pub with_nodes : Probe → Result (List Stub) → Probe
with_nodes p (err e) = record p {
  notes = p.notes ++ ((lit "Could not read the node list: " ∷ explain_api_error e true) ∷ []);
}
with_nodes p (ok stubs) = record p { nodes = p.nodes ++ names stubs }

abbrev pub with_version_note : Probe → Probe
with_version_note p =
    if p.version == ""
    then record p {
      notes =
          p.notes ++ (said "ERS answered but did not report a version in the expected shape." ∷ []);
    }
    else p

-- What the two checks say, before the nodes are read.
unfoldable pub first_look : String → Result String → Result Body → Probe
unfolding http_answered explain_api_error
first_look host v api =
    let has_ers = is_ok v in
    let has_api = is_ok api in
    record {
      host = host;
      reachable = has_ers || has_api || http_answered v || http_answered api;
      ers = has_ers;
      open_api = has_api;
      version = version_or_empty v;
      nodes = [];
      notes =
          unavailable "ERS API (port 9060) unavailable: " has_api v
          ++ unavailable "OpenAPI (port 443) unavailable: " has_ers api;
    }

abbrev pub finish : Probe → Calls Probe
finish p =
    let nodes = do stubs ← ers_list "/ers/config/node"; ret (with_version_note (with_nodes p stubs))
    in let unreachable : Calls Probe = ret (record p {
      notes =
          p.notes
          ++ (said
                "Neither API answered at all. Check the hostname, that the node is up, and that ports 443 and 9060 are reachable from here."
              ∷ []);
    }) in
      if p.reachable then if p.ers then nodes else ret p else unreachable

-- `ProbeDeployment`
unfoldable pub probe_deployment : String → Calls Probe
unfolding ise_version first_look
probe_deployment host = do
  v ← ise_version
  api ← do_request read (url_at open_api "/api/v1/endpoint?size=1&page=1") none
  finish (first_look host v api)
