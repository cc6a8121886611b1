-- ===== src/TrustSec/Apply/Laws.antt =====
-- What `applyTrustSec` sends, and what it counts.
use ise2ise.Base.{◌≡◌, refl, ◌+◌, String, Bool, true, false, Option, none, some, List, [], ◌∷◌}
use ise2ise.Base.{◌≤◌, ◌⊎◌, inl, inr, Bool-cases, ◌==◌, arith, length, count_of}
use ise2ise.Json.{Obj, delete, str}
use ise2ise.Message.{Message}
use ise2ise.Prog.{ret}
use ise2ise.Prog.Returns.{Returns, ends, Returns-bind, Returns-mono, Returns-any, Returns-if}
use ise2ise.Ise.Errors.{IseError, Result, ok, err}
use ise2ise.Ise.Calls.{ers_create}
use ise2ise.Report.{Action, create, skip, blocked, Item, same_family, trust_sec, ImportResult}
use ise2ise.Import.Counts.{
  total, IsOneMore, one_skipped-IsOneMore, one_blocked-IsOneMore, one_failed-IsOneMore,
  posted-IsOneMore,
}
use ise2ise.TrustSec.Objects.{kind_sgt, kind_sgacl, kind_egress_cell}
use ise2ise.TrustSec.Cell.{Refs, unresolved, resolved, resolve_cell_refs}
use ise2ise.TrustSec.Apply.{
  Ids, Step, carry, stop, read_ids, post_object, post_cell, with_ids, create_object, apply_one,
  apply_items, Outcome,
}

abbrev Advances : ImportResult → Step → Type 0
Advances res (carry res' ids) = IsOneMore res res'
Advances res (stop res' e) = res' ≡ res

post_object-Advances :
    (kind path root : String) (name : Message) (o : Obj) (res : ImportResult) (ids : Option Ids)
    → Returns (Advances res) (post_object kind path root name o res ids)
post_object-Advances kind path root name o res ids =
    Returns-any (ers_create path root o) _ λ r. ends (posted-IsOneMore res kind name r)

with_ids-Advances :
    (name : Message) (o : Obj) (res : ImportResult) (r : Result Ids)
    → Returns (Advances res) (with_ids name o res r)
with_ids-Advances name o res (err e) = ends refl
with_ids-Advances name o res (ok ids) = of_refs (resolve_cell_refs o ids.sgts ids.sgacls)
  where
    of_refs : (refs : Refs) → Returns (Advances res) (post_cell name refs res ids)
    of_refs (unresolved o' why) = ends (one_failed-IsOneMore res _)
    of_refs (resolved o') = post_object-Advances _ _ _ name o' res (some ids)

create_object-Advances :
    (kind : String) (name : Message) (o : Obj) (res : ImportResult) (ids : Option Ids)
    → Returns (Advances res) (create_object kind name o res ids)
unfolding create_object
create_object-Advances kind name o res ids =
    Returns-if (kind == kind_sgt) (λ _. post_object-Advances _ _ _ name o res ids)
      λ _.
        Returns-if (kind == kind_sgacl) (λ _. post_object-Advances _ _ _ name o res ids)
          λ _.
            Returns-if (kind == kind_egress_cell)
              (λ _. Returns-any (read_ids ids) _ λ r. with_ids-Advances name o res r)
              (λ _. ends (one_failed-IsOneMore res _))

apply_one-Advances :
    (it : Item) (a : Action) (res : ImportResult) (ids : Option Ids)
    → Returns (Advances res) (apply_one it a res ids)
apply_one-Advances it skip res ids = ends (one_skipped-IsOneMore res)
apply_one-Advances it blocked res ids = ends (one_blocked-IsOneMore res)
apply_one-Advances it create res ids =
    create_object-Advances (str it.obj "kind") it.name (delete it.obj "kind") res ids

abbrev pub in_family : Item → Bool
in_family it = same_family it.family trust_sec

abbrev pub failed_early : Outcome → Bool
failed_early o = elim o.error [ none ↦ false | some e ↦ true ]

-- Every item of the family is counted once, unless the run ended early, and every failure is told.
pub record IsAccounted (items : List Item) (res : ImportResult) (o : Outcome) : Type 0 where
  pub counted :
      (total o.result ≡ total res + count_of in_family items)
      ⊎ ((failed_early o ≡ true) × (total o.result ≤ total res + count_of in_family items))
  pub reported : length o.result.errors + res.failed ≡ length res.errors + o.result.failed

-- The rest of the run, behind an item of the family and behind any other.
IsAccounted-after :
    (it : Item) (items : List Item) (res res' : ImportResult) (o : Outcome)
    → in_family it ≡ true
    → IsOneMore res res'
    → IsAccounted items res' o
    → IsAccounted (it ∷ items) res o
IsAccounted-after it items res res' o inside one rest = record {
  counted = ground (arith, one.counted, rest.counted);
  reported = omega (arith, one.reported, rest.reported);
}

IsAccounted-past :
    (it : Item) (items : List Item) (res : ImportResult) (o : Outcome)
    → in_family it ≡ false
    → IsAccounted items res o
    → IsAccounted (it ∷ items) res o
IsAccounted-past it items res o outside rest = record {
  counted = ground (arith, rest.counted);
  reported = rest.reported;
}

stopped-IsAccounted :
    (it : Item) (items : List Item) (res res' : ImportResult) (e : IseError)
    → res' ≡ res
    → IsAccounted (it ∷ items) res (record { result = res'; error = some e })
stopped-IsAccounted it items res res' e same =
    rw same (record { counted = inr (refl, omega arith); reported = refl })

-- If the import of the TrustSec family returns no error, each item of the family has been counted
-- once as created, skipped, blocked or failed; if it does, none twice. Either way there is one
-- more sentence for every failure counted.
pub apply_items-IsAccounted :
    (items : List Item) (res : ImportResult) (ids : Option Ids)
    → Returns (IsAccounted items res) (apply_items items res ids)
unfolding apply_items
apply_items-IsAccounted [] res ids = ends (record { counted = inl (omega arith); reported = refl })
apply_items-IsAccounted (it ∷ items) res ids = elim (Bool-cases (in_family it)) [
  | inl inside ↦ rw inside (
      Returns-bind _ (apply_one-Advances it it.action res ids)
        (go_on inside (apply_items-IsAccounted items)))
  | inr outside ↦ rw outside (
      Returns-mono (apply_items-IsAccounted items res ids)
        (λ o rest. IsAccounted-past it items res o outside rest))
]
  where
    go_on :
        in_family it ≡ true
        → ((res' : ImportResult) (ids' : Option Ids)
            → Returns (IsAccounted items res') (apply_items items res' ids'))
        → (s : Step) → Advances res s
        → Returns (IsAccounted (it ∷ items) res) (elim s [
          | stop res' e ↦ ret (record { result = res'; error = some e })
          | carry res' ids' ↦ apply_items items res' ids'
        ])
    go_on inside more (stop res' e) same = ends (stopped-IsAccounted it items res res' e same)
    go_on inside more (carry res' ids') one =
        Returns-mono (more res' ids')
          (λ o rest. IsAccounted-after it items res res' o inside one rest)
