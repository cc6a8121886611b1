-- ===== src/TrustSec/Preflight.antt =====
-- trustsec.go: `preflightTrustSec`. First the target is read, then each object gets its verdict.
pub mod Reads
pub mod Gate
use ise2ise.Base.{
  String, Bool, true, false, Option, none, some, List, [], ◌∷◌, ◌++◌, ◌==◌, not, ◌&&◌,
}
use ise2ise.Base.{Dict, get, put, Names, has, add_name, is_empty, if◌then◌else◌}
use ise2ise.Json.{Value, num, Number, num_eq, Obj, lookup, str, name_list}
use ise2ise.Message.{Message, Piece, lit, quoted, shown, truncated, join_or}
use ise2ise.Prog.{Prog, ret, ask, ◌>>=◌, for_each}
use ise2ise.Ise.Errors.{Result}
use ise2ise.Ise.Calls.{Calls, or_zero}
use ise2ise.Ise.Paging.{ers_list}
use ise2ise.Ise.Lookup.{ers_get_all, names_by_id, Resolved, resolve_name}
use ise2ise.Report.{Action, create, skip, Item, Report, trust_sec, add, note}
use ise2ise.TrustSec.Objects.{kind_sgt, kind_sgacl, kind_egress_cell, sgt_any, path_sgt, root_sgt}
use ise2ise.TrustSec.Objects.{path_sgacl, root_sgacl, path_egress_cell, root_egress_cell}
use ise2ise.TrustSec.Objects.{exists_reason, cell_key, default_rule_of}
use ise2ise.TrustSec.Cell.{cell_blocked, default_cell_reason, cell_drift}

-- What the target holds: its objects by name, the holder of each tag value, its cells by their pair,
-- and the resolver's cache of SGACL names.
pub record Target : Type 0 where
  pub sgts : Dict Obj
  pub sgacls : Dict Obj
  pub holders : List (Number × String)
  pub cells : Dict Obj
  pub sgacl_cache : Dict String

unfoldable pub objects_by_name : List Obj → Dict Obj → Dict Obj
unfolding str
objects_by_name [] m = m
objects_by_name (o ∷ os) m = objects_by_name os (put m (str o "name") o)

-- `item["value"].(float64)`
unfoldable pub tag_value : Obj → Option Number
unfolding lookup
tag_value o = elim (lookup o "value") [ some (num n) ↦ some n | _ ↦ none ]

abbrev with_holder : Option Number → String → List (Number × String) → List (Number × String)
with_holder none name hs = hs
with_holder (some n) name hs = (n, name) ∷ hs

unfoldable pub tag_holders : List Obj → List (Number × String) → List (Number × String)
unfolding tag_value str
tag_holders [] hs = hs
tag_holders (o ∷ os) hs = tag_holders os (with_holder (tag_value o) (str o "name") hs)

unfoldable pub holder_of : List (Number × String) → Number → Option String
unfolding num_eq
holder_of [] n = none
holder_of ((m, name) ∷ hs) n = if num_eq m n then some name else holder_of hs n

-- The target's cells by the pair of names they govern, over the resolver's cache of group names.
abbrev pub file_cell : Obj → Dict Obj × Dict String → Calls (Dict Obj × Dict String)
file_cell cell (cells, cache) = do
  src ← resolve_name path_sgt root_sgt cache (str cell "sourceSgtId")
  dst ← resolve_name path_sgt root_sgt src.cache (str cell "destinationSgtId")
  ret (put cells (cell_key src.name dst.name) cell, dst.cache)

abbrev pub read_all : String → String → Calls (List Obj)
read_all path root = do
  stubs ← ers_list path
  os ← ers_get_all path root (or_zero [] stubs)
  ret (or_zero [] os)

unfoldable pub read_target : Calls Target
unfolding cell_key objects_by_name tag_holders
read_target = do
  sgts ← read_all path_sgt root_sgt
  sgacls ← read_all path_sgacl root_sgacl
  cells ← read_all path_egress_cell root_egress_cell
  filed ← for_each cells ([], names_by_id sgts []) file_cell
  ret (record {
    sgts = objects_by_name sgts [];
    sgacls = objects_by_name sgacls [];
    holders = tag_holders sgts [];
    cells = filed.0;
    sgacl_cache = names_by_id sgacls [];
  })

-- The state of the loop: the report, what will exist once the run has finished, and the cache.
pub record Seen : Type 0 where
  pub report : Report
  pub sgts : Names
  pub sgacls : Names
  pub cache : Dict String

-- A verdict on a group or an SGACL; `exists` if the object will be on the target.
pub record Verdict : Type 0 where
  pub action : Action
  pub reason : Message
  pub exists : Bool

-- The other group that holds the tag value of this one on the target.
unfoldable pub taken_by : List (Number × String) → String → Obj → Option String
unfolding holder_of tag_value
taken_by holders name item = elim (tag_value item) [
  | none ↦ none
  | some v ↦ elim (holder_of holders v) [
    | none ↦ none
    | some holder ↦ if holder == name then none else some holder
  ]
]

abbrev by_name : Dict Obj → String → Obj → Verdict
by_name m name item = elim (get m name) [
  | none ↦ record { action = create; reason = []; exists = true }
  | some target ↦ record { action = skip; reason = exists_reason item target; exists = true }
]

abbrev tag_number : Option Number → List Piece
tag_number none = []
tag_number (some v) = truncated v ∷ []

unfoldable pub decide_sgt : Target → String → Obj → Verdict
unfolding taken_by exists_reason
decide_sgt t name item = elim (taken_by t.holders name item) [
  | none ↦ by_name t.sgts name item
  | some holder ↦ record {
    action = skip;
    reason =
        lit "value "
        ∷ (tag_number (tag_value item)
            ++ (lit " is already held on the target by security group "
                ∷ quoted holder
                ∷ lit "; the tag is not changed, so this one is left out"
                ∷ []));
    exists = false;
  }
]

unfoldable pub decide_sgacl : Target → String → Obj → Verdict
unfolding exists_reason
decide_sgacl t name item = by_name t.sgacls name item

-- A verdict on a cell: with the notes it adds, and the cache.
pub record CellVerdict : Type 0 where
  pub action : Action
  pub reason : Message
  pub notes : List Message
  pub cache : Dict String

-- A catch-all rule beside an SGACL is two rules in one cell, which ISE may refuse.
unfoldable pub two_rules_note : String → Obj → List Message
unfolding default_rule_of name_list join_or
two_rules_note name item =
    if not (default_rule_of item == "NONE") && not (is_empty (name_list item "sgaclNames"))
    then (lit "Egress cell "
        ∷ quoted name
        ∷ lit " carries the catch-all rule "
        ∷ shown (default_rule_of item)
        ∷ lit " as well as "
        ∷ (join_or (name_list item "sgaclNames") "no SGACL"
            ++ (lit
                  ". ISE refuses that unless \"Multiple SGACLs per cell\" is enabled in the target's TrustSec global settings, which no API reports; the cell is attempted and its refusal, if it comes, is reported with what ISE said."
                ∷ [])))
      ∷ []
    else []

abbrev exists_with : Message → Message
exists_with [] = lit "the target already has a cell for this pair" ∷ []
exists_with (p ∷ ps) =
    lit "the target already has a cell for this pair"
    ∷ lit "; "
    ∷ ((p ∷ ps)
        ++ (lit " — not changed, edit it on the target if the source's version is the one you want"
            ∷ []))

unfoldable pub against_target : Target → String → Obj → Dict String → Option Obj → Calls CellVerdict
unfolding cell_drift two_rules_note
against_target t name item cache none =
    ret (record { action = create; reason = []; notes = two_rules_note name item; cache = cache })
against_target t name item cache (some target) = do
  (drift, cache') ← cell_drift item target cache
  ret (record {
    action = skip;
    reason = exists_with drift;
    notes = two_rules_note name item;
    cache = cache';
  })

abbrev pub not_blocked :
    Target → String → Obj → String → String → Dict String → Message → Calls CellVerdict
not_blocked t name item src dst cache [] =
    against_target t name item cache (get t.cells (cell_key src dst))
not_blocked t name item src dst cache (p ∷ ps) =
    ret (record { action = skip; reason = p ∷ ps; notes = []; cache = cache })

abbrev default_verdict : Message × Dict String → CellVerdict
default_verdict (m, cache) = record { action = skip; reason = m; notes = []; cache = cache }

unfoldable pub decide_cell : Target → Names → Names → String → Obj → Dict String → Calls CellVerdict
unfolding default_cell_reason against_target cell_blocked cell_key str
decide_cell t sgts sgacls name item cache =
    let src = str item "sourceSgtName" in
    let dst = str item "destinationSgtName" in
    let named = not_blocked t name item src dst cache (cell_blocked item src dst sgts sgacls) in
    let default = do
      r ← default_cell_reason item (get t.cells (cell_key sgt_any sgt_any)) cache
      ret (default_verdict r)
    in if src == sgt_any && dst == sgt_any then default else named

abbrev pub trust_sec_item : String → Obj → Action → Message → Item
trust_sec_item name item action reason = record {
  family = trust_sec;
  name = shown name ∷ [];
  action = action;
  reason = reason;
  obj = item;
}

pub data Kind : Type 0 where
  sgt sgacl egress_cell : Kind

abbrev pub kind_name : Kind → String
kind_name sgt = kind_sgt
kind_name sgacl = kind_sgacl
kind_name egress_cell = kind_egress_cell

abbrev noted : Report → List Message → Report
noted r [] = r
noted r (m ∷ ms) = noted (note r m) ms

abbrev if_exists : Bool → String → Names → Names
if_exists true name m = add_name m name
if_exists false name m = m

-- One object of the kind at hand.
unfoldable pub judge : Target → Kind → Obj → Seen → Calls Seen
unfolding decide_sgt decide_sgacl decide_cell add str note
judge t sgt item s =
    let v = decide_sgt t (str item "name") item in
    ret (record s {
      report = add s.report (trust_sec_item (str item "name") item v.action v.reason);
      sgts = if_exists v.exists (str item "name") s.sgts;
    })
judge t sgacl item s =
    let v = decide_sgacl t (str item "name") item in
    ret (record s {
      report = add s.report (trust_sec_item (str item "name") item v.action v.reason);
      sgacls = if_exists v.exists (str item "name") s.sgacls;
    })
judge t egress_cell item s = do
  v ← decide_cell t s.sgts s.sgacls (str item "name") item s.cache
  ret (record s {
    report = add (noted s.report v.notes) (trust_sec_item (str item "name") item v.action v.reason);
    cache = v.cache;
  })

abbrev pub visit : Target → Kind → Obj → Seen → Calls Seen
visit t kind item s =
    let judged = judge t kind item s in if str item "kind" == kind_name kind then judged else ret s

abbrev pub names_of_all : Dict Obj → Names
names_of_all [] = []
names_of_all ((name, o) ∷ m) = (name, tt) ∷ names_of_all m

abbrev pub at_start : Target → Report → Seen
at_start t r = record {
  report = r;
  sgts = names_of_all t.sgts;
  sgacls = names_of_all t.sgacls;
  cache = t.sgacl_cache;
}

-- Kind order, not bundle order.
unfoldable pub judge_all : Target → List Obj → Report → Calls Report
unfolding judge
judge_all t items r = do
  s ←
      for_each (sgt ∷ sgacl ∷ egress_cell ∷ []) (at_start t r)
        (λ kind s. for_each items s (visit t kind))
  ret s.report

unfoldable pub preflight_trust_sec : List Obj → Report → Calls Report
unfolding read_target judge_all
preflight_trust_sec [] r = ret r
preflight_trust_sec (o ∷ items) r = do t ← read_target; judge_all t (o ∷ items) r
