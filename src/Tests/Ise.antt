-- ===== src/Tests/Ise.antt =====
-- Tests of the client.
use ise2ise.Ise.Probe.{probe_deployment}
use ise2ise.Ise.Probe.Notes.{IsExplained}
use ise2ise.Ise.Probe.Explained.{version_answer, open_api_answer, probe_deployment-IsExplained}
use ise2ise.Base.{◌≡◌, refl, ℕ, Bool, true, some, List, [], ◌∷◌, arith, length}
use ise2ise.Json.{arr, obj, end, cons, nil, Obj}
use ise2ise.Request.{Request}
use ise2ise.Prog.{value_against}
use ise2ise.Ise.Errors.{api, Result, ok, err}
use ise2ise.Ise.Decode.{Body, decode_list}
use ise2ise.Ise.Paging.{open_api_list}
use ise2ise.Ise.Paging.Complete.{pages_from, Serves, open_api_list_complete}

abbrev a_page : Body
a_page = record { raw = "[{}]"; json = some (arr (cons (obj end) nil)) }

abbrev node : Request → Result Body
node q = ok a_page

abbrev one_each : ℕ → List Obj
one_each page = end ∷ []

served : Serves node "/api/v1/endpoint" one_each
unfolding decode_list
served page = (a_page, refl, refl)

open_api_list_example :
    value_against node (open_api_list "/api/v1/endpoint") ≡ ok (pages_from one_each 1 1)
open_api_list_example =
    open_api_list_complete node "/api/v1/endpoint" one_each 0 served (omega arith)
      (λ i h. omega arith) (omega arith)

-- A deployment that refuses everything for want of a password is there, with two notes.
abbrev refusing : Request → Result Body
refusing q = err (api (record { method = q.method; url = q.url; status = 401; body = "" }))

refused : (Bool × ℕ)
unfolding probe_deployment value_against
refused = let p = value_against refusing (probe_deployment "ise") in (p.reachable, length p.notes)

refused_lem : refused ≡ (true, 2)
unfolding refused
refused_lem = refl

probe_deployment-IsExplained_example :
    IsExplained
      (version_answer refusing)
      (open_api_answer refusing)
      (value_against refusing (probe_deployment "ise.example.org"))
probe_deployment-IsExplained_example = probe_deployment-IsExplained refusing "ise.example.org"
