-- ===== src/TrustSec/Apply/Writes.antt =====
-- What `applyTrustSec` may send.
use ise2ise.Base.{
  ◌≡◌, refl, String, Bool, true, false, Option, none, some, List, [], ◌∷◌, ◌==◌, ◌||◌,
}
use ise2ise.Json.{Obj, delete, str}
use ise2ise.Message.{Message}
use ise2ise.Request.{Request, Method, read, post, replace, IsRead}
use ise2ise.Prog.{ret}
use ise2ise.Prog.Sends.{Sends, done, asks, Sends-bind, Sends-if, Sends-mono}
use ise2ise.Ise.Errors.{Result, ok, err}
use ise2ise.Ise.Calls.{ers_create, because, Sends-when_ok}
use ise2ise.Ise.Lookup.{stubs_by_name-Reads}
use ise2ise.Report.{Action, create, skip, blocked, Item, same_family, trust_sec, ImportResult}
use ise2ise.TrustSec.Objects.{kind_sgt, kind_sgacl, kind_egress_cell, path_sgt, path_sgacl}
use ise2ise.TrustSec.Objects.{path_egress_cell}
use ise2ise.TrustSec.Cell.{Refs, unresolved, resolved, resolve_cell_refs}
use ise2ise.TrustSec.Apply.{
  Ids, Step, carry, stop, read_ids, post_object, post_cell, with_ids, create_object, apply_one,
  apply_items,
}

abbrev pub is_collection : String → Bool
is_collection path = path == path_sgt || path == path_sgacl || path == path_egress_cell

-- A GET, or a POST to one of the three collections; nothing that changes an existing object.
abbrev pub only_creates : Request → Bool
only_creates q = by_method q.method
  where
    by_method : Method → Bool
    by_method read = true
    by_method post = is_collection q.url.path
    by_method replace = false

abbrev pub OnlyCreates : Request → Type 0
OnlyCreates q = only_creates q ≡ true

IsRead-OnlyCreates : (q : Request) → IsRead q → OnlyCreates q
IsRead-OnlyCreates q h = of_method q.method h
  where
    of_method :
        (m : Method) → IsRead (record q { method = m }) → OnlyCreates (record q { method = m })
    of_method read h = refl
    of_method post h = absurd h
    of_method replace h = absurd h

read_ids-OnlyCreates : (ids : Option Ids) → Sends OnlyCreates (read_ids ids)
unfolding read_ids
read_ids-OnlyCreates (some ids) = done _
read_ids-OnlyCreates none =
    Sends-bind _ (Sends-mono IsRead-OnlyCreates (stubs_by_name-Reads path_sgt)) λ sgts.
      Sends-when_ok sgts (because "reading the target's security groups") λ sgt_ids.
        Sends-bind _ (Sends-mono IsRead-OnlyCreates (stubs_by_name-Reads path_sgacl))
          λ sgacls. Sends-when_ok sgacls (because "reading the target's SGACLs") λ sgacl_ids. done _

post_object-OnlyCreates :
    (kind path root : String) (name : Message) (o : Obj) (res : ImportResult) (ids : Option Ids)
    → is_collection path ≡ true
    → Sends OnlyCreates (post_object kind path root name o res ids)
unfolding ers_create
post_object-OnlyCreates kind path root name o res ids known = asks known λ r. done _

with_ids-OnlyCreates :
    (name : Message) (o : Obj) (res : ImportResult) (r : Result Ids)
    → Sends OnlyCreates (with_ids name o res r)
with_ids-OnlyCreates name o res (err e) = done _
with_ids-OnlyCreates name o res (ok ids) = of_refs (resolve_cell_refs o ids.sgts ids.sgacls)
  where
    of_refs : (refs : Refs) → Sends OnlyCreates (post_cell name refs res ids)
    of_refs (unresolved o' why) = done _
    of_refs (resolved o') = post_object-OnlyCreates _ _ _ name o' res (some ids) refl

create_object-OnlyCreates :
    (kind : String) (name : Message) (o : Obj) (res : ImportResult) (ids : Option Ids)
    → Sends OnlyCreates (create_object kind name o res ids)
unfolding create_object
create_object-OnlyCreates kind name o res ids =
    Sends-if (kind == kind_sgt) (post_object-OnlyCreates _ _ _ name o res ids refl) (
      Sends-if (kind == kind_sgacl) (post_object-OnlyCreates _ _ _ name o res ids refl) (
        Sends-if (kind == kind_egress_cell)
          (Sends-bind _ (read_ids-OnlyCreates ids) λ r. with_ids-OnlyCreates name o res r)
          (done _)))

apply_one-OnlyCreates :
    (it : Item) (a : Action) (res : ImportResult) (ids : Option Ids)
    → Sends OnlyCreates (apply_one it a res ids)
apply_one-OnlyCreates it skip res ids = done _
apply_one-OnlyCreates it blocked res ids = done _
apply_one-OnlyCreates it create res ids =
    create_object-OnlyCreates (str it.obj "kind") it.name (delete it.obj "kind") res ids

-- Whatever the target answers, the import of the TrustSec family sends nothing but GETs and POSTs
-- to the collections of security groups, SGACLs and egress cells.
pub apply_items-OnlyCreates :
    (items : List Item) (res : ImportResult) (ids : Option Ids)
    → Sends OnlyCreates (apply_items items res ids)
unfolding apply_items
apply_items-OnlyCreates [] res ids = done _
apply_items-OnlyCreates (it ∷ items) res ids =
    Sends-bind _
      (Sends-if (same_family it.family trust_sec) (apply_one-OnlyCreates it it.action res ids)
        (done _))
      (go_on (apply_items-OnlyCreates items))
  where
    go_on :
        ((res' : ImportResult) (ids' : Option Ids)
          → Sends OnlyCreates (apply_items items res' ids'))
        → (s : Step)
        → Sends OnlyCreates (elim s [
          | stop res' e ↦ ret (record { result = res'; error = some e })
          | carry res' ids' ↦ apply_items items res' ids'
        ])
    go_on more (stop res' e) = done _
    go_on more (carry res' ids') = more res' ids'
