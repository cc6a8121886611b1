-- ===== src/TrustSec/Apply.antt =====
-- trustsec.go: `applyTrustSec`, which creates the objects that pre-flight cleared, in the order of
-- the report. Progress lines are left out.
pub mod Laws
pub mod Writes
use ise2ise.Base.{String, Bool, true, false, Option, none, some, List, [], ◌∷◌, ◌++◌, ◌==◌, Dict}
use ise2ise.Base.{if◌then◌else◌}
use ise2ise.Json.{Obj, delete, str}
use ise2ise.Message.{Message, said, Piece, lit, quoted, shown}
use ise2ise.Prog.{Prog, ret, ask, ◌>>=◌}
use ise2ise.Ise.Errors.{IseError, Result, ok, err, is_duplicate, error_text}
use ise2ise.Ise.Calls.{Calls, when_ok, because, ers_create}
use ise2ise.Ise.Lookup.{stubs_by_name}
use ise2ise.Report.{Action, create, skip, blocked, Item, same_family, trust_sec, ImportResult}
use ise2ise.Report.{one_created, one_skipped, one_blocked, one_failed}
use ise2ise.Import.{posted}
use ise2ise.TrustSec.Objects.{kind_sgt, kind_sgacl, kind_egress_cell, path_sgt, root_sgt}
use ise2ise.TrustSec.Objects.{path_sgacl, root_sgacl, path_egress_cell, root_egress_cell}
use ise2ise.TrustSec.Cell.{Refs, unresolved, resolved, resolve_cell_refs}

-- The target's ids by name, of groups and of SGACLs.
pub record Ids : Type 0 where
  pub sgts : Dict String
  pub sgacls : Dict String

-- `readIDs`: read once, when the first cell is reached.
unfoldable pub read_ids : Option Ids → Calls (Result Ids)
read_ids (some ids) = ret (ok ids)
read_ids none = do
  sgts ← stubs_by_name path_sgt
  when_ok sgts (because "reading the target's security groups") λ sgt_ids. do
    sgacls ← stubs_by_name path_sgacl
    when_ok sgacls (because "reading the target's SGACLs")
        λ sgacl_ids. ret (ok (record { sgts = sgt_ids; sgacls = sgacl_ids }))

-- Where an item leaves the loop: go on, or return with an error.
pub data Step : Type 0 where
  carry : ImportResult → Option Ids → Step
  stop : ImportResult → IseError → Step

abbrev pub post_object :
    String → String → String → Message → Obj → ImportResult → Option Ids → Calls Step
post_object kind path root name o res ids = do
  r ← ers_create path root o
  ret (carry (posted res kind name r) ids)

abbrev pub post_cell : Message → Refs → ImportResult → Ids → Calls Step
post_cell name (unresolved o why) res ids =
    ret (carry (one_failed res (lit "egress cell " ∷ (name ++ (lit ": " ∷ why)))) (some ids))
post_cell name (resolved o) res ids =
    post_object kind_egress_cell path_egress_cell root_egress_cell name o res (some ids)

abbrev pub with_ids : Message → Obj → ImportResult → Result Ids → Calls Step
with_ids name o res (err e) = ret (stop res e)
with_ids name o res (ok ids) = post_cell name (resolve_cell_refs o ids.sgts ids.sgacls) res ids

-- An object to create, by its kind.
unfoldable pub create_object : String → Message → Obj → ImportResult → Option Ids → Calls Step
unfolding resolve_cell_refs read_ids
create_object kind name o res ids =
    let group = post_object kind_sgt path_sgt root_sgt name o res ids in
    let acl = post_object kind_sgacl path_sgacl root_sgacl name o res ids in
    let cell = do r ← read_ids ids; with_ids name o res r
    in let unknown : Calls Step = ret (
        carry
          (one_failed res
            (lit "TrustSec object " ∷ (name ++ (lit ": unknown kind " ∷ quoted kind ∷ []))))
          ids) in
      if kind == kind_sgt
      then group
      else if kind == kind_sgacl
      then acl
      else if kind == kind_egress_cell
      then cell
      else unknown

abbrev pub apply_one : Item → Action → ImportResult → Option Ids → Calls Step
apply_one it skip res ids = ret (carry (one_skipped res) ids)
apply_one it blocked res ids = ret (carry (one_blocked res) ids)
apply_one it create res ids =
    create_object (str it.obj "kind") it.name (delete it.obj "kind") res ids

abbrev pub apply_item : Item → ImportResult → Option Ids → Calls Step
apply_item it res ids =
    let done = apply_one it it.action res ids in
    if same_family it.family trust_sec then done else ret (carry res ids)

pub record Outcome : Type 0 where
  pub result : ImportResult
  pub error : Option IseError

unfoldable pub apply_items : List Item → ImportResult → Option Ids → Calls Outcome
unfolding create_object
apply_items [] res ids = ret (record { result = res; error = none })
apply_items (it ∷ items) res ids = do
  s ← apply_item it res ids
  elim s [
    | stop res' e ↦ ret (record { result = res'; error = some e })
    | carry res' ids' ↦ apply_items items res' ids'
  ]

-- `applyTrustSec`
abbrev pub apply_trust_sec : List Item → ImportResult → Calls Outcome
apply_trust_sec items res = apply_items items res none
