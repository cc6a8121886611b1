-- ===== src/TrustSec/Preflight/Gate/Loop.antt =====
-- The loops of `preflightTrustSec` keep what the gate promises.
use ise2ise.Base.{◌≡◌, refl, String, true, List, []}
use ise2ise.Base.{◌∷◌, ◌++◌, ◌&&◌, arith, ◌==◌}
use ise2ise.Base.{every_mono, Dict, get, Names, has}
use ise2ise.Json.{Obj, str, name_list}
use ise2ise.Message.{Message}
use ise2ise.Prog.Returns.{
  Returns, ends, Returns-bind, Returns-always, Returns-any, Returns-if, Returns-for_each,
}
use ise2ise.Report.Counts.{items-add}
use ise2ise.Report.{Action, create, skip, blocked, Item, Report}
use ise2ise.TrustSec.Objects.{kind_sgt, kind_sgacl, sgt_any, cell_key}
use ise2ise.TrustSec.Cell.{cell_blocked, default_cell_reason}
use ise2ise.TrustSec.Preflight.{
  Target, Seen, Verdict, CellVerdict, Kind, sgt, sgacl, egress_cell, kind_name, decide_sgt,
  decide_sgacl, not_blocked, decide_cell, judge, names_of_all, at_start, judge_all, trust_sec_item,
}
use ise2ise.TrustSec.Preflight.Gate.{
  will_exist, refs_exist, is_resolved, is_resolved_mono, AllResolved, cell_blocked_none,
}
use ise2ise.TrustSec.Preflight.Gate.Known.{
  decide_sgt_exists, decide_sgacl_exists, IsSound, IsSoundState, judged, known_after,
  AllResolved-add, no_cell, known_still, items-noted,
}

-- A cell is cleared only if nothing blocks it.
abbrev IsGated : Names → Names → Obj → CellVerdict → Type 0
IsGated sgts sgacls item v =
    v.action ≡ create
    → cell_blocked item (str item "sourceSgtName") (str item "destinationSgtName") sgts sgacls ≡ []

not_blocked-IsGated :
    (t : Target) (sgts sgacls : Names) (name : String) (item : Obj) (cache : Dict String)
    (m : Message)
    → cell_blocked item (str item "sourceSgtName") (str item "destinationSgtName") sgts sgacls ≡ m
    → Returns
        (IsGated sgts sgacls item)
        (not_blocked t name item (str item "sourceSgtName") (str item "destinationSgtName") cache m)
not_blocked-IsGated t sgts sgacls name item cache [] e =
    Returns-always (not_blocked t name item _ _ cache []) (λ v h. e)
not_blocked-IsGated t sgts sgacls name item cache (p ∷ ps) e = ends (λ h. absurd (cc h))

decide_cell-IsGated :
    (t : Target) (sgts sgacls : Names) (name : String) (item : Obj) (cache : Dict String)
    → Returns (IsGated sgts sgacls item) (decide_cell t sgts sgacls name item cache)
unfolding decide_cell
decide_cell-IsGated t sgts sgacls name item cache =
    Returns-if (str item "sourceSgtName" == sgt_any && str item "destinationSgtName" == sgt_any)
      (λ _.
        Returns-any (default_cell_reason item (get t.cells (cell_key sgt_any sgt_any)) cache) _
          λ r. ends (λ h. absurd (cc h)))
      (λ _. not_blocked-IsGated t sgts sgacls name item cache _ refl)

-- A cleared cell is resolved by what is known.
refs_exist_known :
    (t : Target) (items : List Item) (sgts sgacls : Names) (item : Obj)
    → IsSound t items sgts sgacls
    → cell_blocked item (str item "sourceSgtName") (str item "destinationSgtName") sgts sgacls ≡ []
    → refs_exist t items item ≡ true
unfolding refs_exist
refs_exist_known t items sgts sgacls item sound clear =
    let (src, dst, src_known, dst_known, listed) =
      cell_blocked_none item (str item "sourceSgtName") (str item "destinationSgtName") sgts sgacls
        clear in
    ground (
      arith,
      sound.known_sgts (str item "sourceSgtName") src_known,
      sound.known_sgts (str item "destinationSgtName") dst_known,
      every_mono (has sgacls) (will_exist t.sgacls kind_sgacl items) (name_list item "sgaclNames")
          sound.known_sgacls listed,
    )

cell-is_resolved :
    (t : Target) (items : List Item) (sgts sgacls : Names) (item : Obj) (v : CellVerdict)
    (name : String)
    → IsSound t items sgts sgacls
    → IsGated sgts sgacls item v
    → is_resolved t items (trust_sec_item name item v.action v.reason) ≡ true
unfolding is_resolved
cell-is_resolved t items sgts sgacls item v name sound gated = by_action v.action gated
  where
    by_action :
        (a : Action)
        → (a ≡ create
            → cell_blocked item
                (str item "sourceSgtName")
                (str item "destinationSgtName")
                sgts
                sgacls
              ≡ [])
        → is_resolved t items (trust_sec_item name item a v.reason) ≡ true
    by_action create g = ground (arith, refs_exist_known t items sgts sgacls item sound (g refl))
    by_action skip g = refl
    by_action blocked g = refl

IsSound-add :
    (t : Target) (items : List Item) (sgts sgacls sgts' sgacls' : Names) (it : Item)
    → AllResolved t items items
    → is_resolved t items it ≡ true
    → ((name : String)
        → has sgts' name ≡ true
        → will_exist t.sgts kind_sgt (items ++ (it ∷ [])) name ≡ true)
    → ((name : String)
        → has sgacls' name ≡ true
        → will_exist t.sgacls kind_sgacl (items ++ (it ∷ [])) name ≡ true)
    → IsSound t (items ++ (it ∷ [])) sgts' sgacls'
IsSound-add t items sgts sgacls sgts' sgacls' it resolved new known known' = record {
  known_sgts = known;
  known_sgacls = known';
  resolved = AllResolved-add t items it resolved (is_resolved_mono t items it it new);
}

judge-IsSound :
    (t : Target) (kind : Kind) (item : Obj) (s : Seen)
    → (str item "kind" == kind_name kind) ≡ true
    → IsSoundState t s
    → Returns (IsSoundState t) (judge t kind item s)
unfolding judge
judge-IsSound t sgt item s of_kind sound =
    let v : Verdict = decide_sgt t (str item "name") item in
    ends (
      rw items-add (
        IsSound-add t s.report.items s.sgts s.sgacls _ _ (judged item v) sound.resolved
          (no_cell t _ (str item "name") kind_sgt item v.action v.reason of_kind refl)
          (known_after t.sgts kind_sgt s.report.items s.sgts item v sound.known_sgts of_kind
            (decide_sgt_exists t (str item "name") item))
          (known_still t.sgacls kind_sgacl s.report.items s.sgacls (judged item v)
            sound.known_sgacls)))
judge-IsSound t sgacl item s of_kind sound =
    let v : Verdict = decide_sgacl t (str item "name") item in
    ends (
      rw items-add (
        IsSound-add t s.report.items s.sgts s.sgacls _ _ (judged item v) sound.resolved
          (no_cell t _ (str item "name") kind_sgacl item v.action v.reason of_kind refl)
          (known_still t.sgts kind_sgt s.report.items s.sgts (judged item v) sound.known_sgts)
          (known_after t.sgacls kind_sgacl s.report.items s.sgacls item v sound.known_sgacls of_kind
            (λ _. decide_sgacl_exists t (str item "name") item))))
judge-IsSound t egress_cell item s of_kind sound =
    Returns-bind _ (decide_cell-IsGated t s.sgts s.sgacls (str item "name") item s.cache) λ v gated.
      ends (
        rw (items-add, items-noted)
          (IsSound-add t s.report.items s.sgts s.sgacls _ _ _ sound.resolved
            (cell-is_resolved t s.report.items s.sgts s.sgacls item v (str item "name") sound gated)
            (known_still t.sgts kind_sgt s.report.items s.sgts _ sound.known_sgts)
            (known_still t.sgacls kind_sgacl s.report.items s.sgacls _ sound.known_sgacls)))

names_of_all-has : (m : Dict Obj) (name : String) → has (names_of_all m) name ≡ has m name
unfolding has
names_of_all-has [] name = refl
names_of_all-has ((j, o) ∷ m) name = ground (arith, names_of_all-has m name)

held_known :
    (m : Dict Obj) (kind : String) (items : List Item) (name : String)
    → has (names_of_all m) name ≡ true
    → will_exist m kind items name ≡ true
unfolding will_exist
held_known m kind items name h = ground (arith, names_of_all-has m name)

-- In the report that the pre-flight of the TrustSec family returns, every egress cell marked for
-- creation names a source and a destination group and SGACLs that are on the target or that the
-- same report creates, if this holds of the report that it was given; whatever the target answers.
pub judge_all_resolved :
    (t : Target) (items : List Obj) (r : Report)
    → AllResolved t r.items r.items
    → Returns (λ r'. AllResolved t r'.items r'.items) (judge_all t items r)
unfolding judge_all
judge_all_resolved t items r resolved =
    Returns-bind _
      (Returns-for_each _ (at_start t r)
        (λ kind s sound.
          Returns-for_each items s
            (λ item s' sound'.
              Returns-if (str item "kind" == kind_name kind)
                (λ of_kind. judge-IsSound t kind item s' of_kind sound') (λ _. ends sound'))
            sound)
        (record {
          known_sgts = held_known t.sgts kind_sgt r.items;
          known_sgacls = held_known t.sgacls kind_sgacl r.items;
          resolved = resolved;
        }))
      λ s sound. ends sound.resolved
