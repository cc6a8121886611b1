-- ===== src/TrustSec/Preflight/Reads.antt =====
-- `preflightTrustSec` writes nothing.
use ise2ise.Base.{String, Option, none, some, List, [], ◌∷◌, Dict, get, Names, ◌==◌, ◌&&◌}
use ise2ise.Json.{Obj, str, lookup}
use ise2ise.Prog.Sends.{done, Sends-bind, Sends-if, Sends-for_each}
use ise2ise.Message.{Message}
use ise2ise.Ise.Calls.{Reads}
use ise2ise.Ise.Paging.Complete.{ers_list-Reads}
use ise2ise.Ise.Lookup.{ers_get_all-Reads, resolve_name-Reads}
use ise2ise.Report.{Report}
use ise2ise.TrustSec.Objects.{path_sgacl, root_sgacl, path_sgt, root_sgt, sgt_any, cell_key}
use ise2ise.TrustSec.Cell.{sgacl_names, their_sgacls, held_ids, default_cell_reason, cell_drift}
use ise2ise.TrustSec.Preflight.{
  Target, Seen, Kind, sgt, sgacl, egress_cell, kind_name, read_all, read_target, file_cell,
  against_target, not_blocked, decide_cell, judge, at_start, judge_all, preflight_trust_sec,
}

sgacl_names-Reads : (ids : List String) (cache : Dict String) → Reads (sgacl_names ids cache)
unfolding sgacl_names
sgacl_names-Reads [] cache = done _
sgacl_names-Reads (id ∷ ids) cache =
    Sends-bind _ (resolve_name-Reads path_sgacl root_sgacl cache id)
      λ r. Sends-bind _ (sgacl_names-Reads ids r.cache) λ rest. done _

their_sgacls-Reads : (theirs : Obj) (cache : Dict String) → Reads (their_sgacls theirs cache)
unfolding their_sgacls
their_sgacls-Reads theirs cache = sgacl_names-Reads (held_ids (lookup theirs "sgacls")) cache

default_cell_reason-Reads :
    (mine : Obj) (theirs : Option Obj) (cache : Dict String)
    → Reads (default_cell_reason mine theirs cache)
unfolding default_cell_reason
default_cell_reason-Reads mine none cache = done _
default_cell_reason-Reads mine (some theirs) cache =
    Sends-bind _ (their_sgacls-Reads theirs cache) λ r. done _

cell_drift-Reads : (mine theirs : Obj) (cache : Dict String) → Reads (cell_drift mine theirs cache)
unfolding cell_drift
cell_drift-Reads mine theirs cache = Sends-bind _ (their_sgacls-Reads theirs cache) λ r. done _

against_target-Reads :
    (t : Target) (name : String) (item : Obj) (cache : Dict String) (o : Option Obj)
    → Reads (against_target t name item cache o)
unfolding against_target
against_target-Reads t name item cache none = done _
against_target-Reads t name item cache (some target) =
    Sends-bind _ (cell_drift-Reads item target cache) λ r. done _

not_blocked-Reads :
    (t : Target) (name : String) (item : Obj) (src dst : String) (cache : Dict String) (m : Message)
    → Reads (not_blocked t name item src dst cache m)
not_blocked-Reads t name item src dst cache [] = against_target-Reads t name item cache _
not_blocked-Reads t name item src dst cache (p ∷ ps) = done _

decide_cell-Reads :
    (t : Target) (sgts sgacls : Names) (name : String) (item : Obj) (cache : Dict String)
    → Reads (decide_cell t sgts sgacls name item cache)
unfolding decide_cell
decide_cell-Reads t sgts sgacls name item cache =
    Sends-if (str item "sourceSgtName" == sgt_any && str item "destinationSgtName" == sgt_any)
      (Sends-bind _ (default_cell_reason-Reads item (get t.cells (cell_key sgt_any sgt_any)) cache)
        λ r. done _)
      (not_blocked-Reads t name item _ _ cache _)

judge-Reads : (t : Target) (kind : Kind) (item : Obj) (s : Seen) → Reads (judge t kind item s)
unfolding judge
judge-Reads t sgt item s = done _
judge-Reads t sgacl item s = done _
judge-Reads t egress_cell item s =
    Sends-bind _ (decide_cell-Reads t s.sgts s.sgacls (str item "name") item s.cache) λ v. done _

judge_all-Reads : (t : Target) (items : List Obj) (r : Report) → Reads (judge_all t items r)
unfolding judge_all
judge_all-Reads t items r =
    Sends-bind _
      (Sends-for_each _ (at_start t r) λ kind s. Sends-for_each items s λ item s'.
        Sends-if (str item "kind" == kind_name kind) (judge-Reads t kind item s') (done _))
      λ s. done _

read_all-Reads : (path root : String) → Reads (read_all path root)
read_all-Reads path root =
    Sends-bind _ (ers_list-Reads path)
      λ stubs. Sends-bind _ (ers_get_all-Reads path root _) λ os. done _

file_cell-Reads : (cell : Obj) (filed : Dict Obj × Dict String) → Reads (file_cell cell filed)
file_cell-Reads cell (cells, cache) =
    Sends-bind _ (resolve_name-Reads path_sgt root_sgt cache _)
      λ src. Sends-bind _ (resolve_name-Reads path_sgt root_sgt src.cache _) λ dst. done _

read_target-Reads : Reads read_target
unfolding read_target
read_target-Reads = Sends-bind _ (read_all-Reads _ _) λ sgts.
    Sends-bind _ (read_all-Reads _ _) λ sgacls.
      Sends-bind _ (read_all-Reads _ _)
        λ cells. Sends-bind _ (Sends-for_each cells _ file_cell-Reads) λ filed. done _

-- Whatever the target answers, the pre-flight of the TrustSec family sends it nothing but GETs.
pub preflight_trust_sec-Reads :
    (items : List Obj) (r : Report) → Reads (preflight_trust_sec items r)
unfolding preflight_trust_sec
preflight_trust_sec-Reads [] r = done r
preflight_trust_sec-Reads (o ∷ items) r =
    Sends-bind _ read_target-Reads λ t. judge_all-Reads t (o ∷ items) r
