-- ===== src/TrustSec/Preflight/Gate.antt =====
-- What the verdicts of `preflightTrustSec` promise: no cell is cleared whose references would dangle.
pub mod Known
pub mod Loop
use ise2ise.Base.{◌≡◌, refl, ◌⊎◌, inl, inr, String, Bool, true, false, Option, none, some, List, []}
use ise2ise.Base.{◌∷◌, ◌++◌, ◌&&◌, ◌||◌, not, arith, ◌==◌, eq_iff, eq_refl, any, any-append, every}
use ise2ise.Base.{every_mono, All, All-append, Dict, get, put, Names, has, has-put, has_of_get}
use ise2ise.Base.{add_name, has-add_name, Bool-cases, Option-cases, if◌then◌else◌}
use ise2ise.Json.{Obj, str, name_list}
use ise2ise.Message.{Message, Piece}
use ise2ise.Prog.{Prog, ret, ask, ◌>>=◌, for_each}
use ise2ise.Prog.Returns.{Returns, ends, Returns-bind, Returns-any, Returns-if, Returns-for_each}
use ise2ise.Report.{Action, create, skip, blocked, is_create, Item, Report, same_family, trust_sec}
use ise2ise.Report.{add, note}
use ise2ise.TrustSec.Objects.{kind_sgt, kind_sgacl, kind_egress_cell, sgt_any, cell_key}
use ise2ise.TrustSec.Cell.{sgacl_missing, cell_blocked, default_cell_reason, cell_drift}
use ise2ise.TrustSec.Preflight.{
  Target, Seen, Verdict, CellVerdict, Kind, sgt, sgacl, egress_cell, kind_name, taken_by,
  decide_sgt, by_name, if_exists, decide_sgacl, against_target, not_blocked, decide_cell, judge,
  visit, names_of_all, at_start, judge_all, trust_sec_item, noted,
}

-- The item creates the object of that kind and name.
unfoldable pub creates : String → String → Item → Bool
creates kind name it =
    same_family it.family trust_sec
    && is_create it.action
    && str it.obj "kind" == kind
    && str it.obj "name" == name

-- On the target once everything cleared has been created.
unfoldable pub will_exist : Dict Obj → String → List Item → String → Bool
unfolding creates
will_exist held kind items name = has held name || any (creates kind name) items

unfoldable pub refs_exist : Target → List Item → Obj → Bool
unfolding will_exist name_list str
refs_exist t items cell =
    not (str cell "sourceSgtName" == "")
    && not (str cell "destinationSgtName" == "")
    && will_exist t.sgts kind_sgt items (str cell "sourceSgtName")
    && will_exist t.sgts kind_sgt items (str cell "destinationSgtName")
    && every (will_exist t.sgacls kind_sgacl items) (name_list cell "sgaclNames")

unfoldable pub clears_cell : Item → Bool
unfolding str
clears_cell it =
    same_family it.family trust_sec && is_create it.action && str it.obj "kind" == kind_egress_cell

-- If the item clears a cell, all that the cell names will exist.
unfoldable pub is_resolved : Target → List Item → Item → Bool
unfolding refs_exist clears_cell
is_resolved t items it = if clears_cell it then refs_exist t items it.obj else true

will_exist_mono :
    (held : Dict Obj) (kind : String) (items : List Item) (it : Item) (name : String)
    → will_exist held kind items name ≡ true
    → will_exist held kind (items ++ (it ∷ [])) name ≡ true
unfolding will_exist
will_exist_mono held kind items it name h =
    ground (arith, any-append (creates kind name) items (it ∷ []))

will_exist_created :
    (held : Dict Obj) (kind : String) (items : List Item) (it : Item) (name : String)
    → creates kind name it ≡ true
    → will_exist held kind (items ++ (it ∷ [])) name ≡ true
unfolding will_exist
will_exist_created held kind items it name h =
    ground (arith, any-append (creates kind name) items (it ∷ []))

refs_exist_mono :
    (t : Target) (items : List Item) (it : Item) (cell : Obj)
    → refs_exist t items cell ≡ true
    → refs_exist t (items ++ (it ∷ [])) cell ≡ true
unfolding refs_exist
refs_exist_mono t items it cell h = ground (
  arith,
  will_exist_mono t.sgts kind_sgt items it (str cell "sourceSgtName"),
  will_exist_mono t.sgts kind_sgt items it (str cell "destinationSgtName"),
  every_mono (will_exist t.sgacls kind_sgacl items)
      (will_exist t.sgacls kind_sgacl (items ++ (it ∷ []))) (name_list cell "sgaclNames")
      (will_exist_mono t.sgacls kind_sgacl items it),
)

is_resolved_mono :
    (t : Target) (items : List Item) (it i : Item)
    → is_resolved t items i ≡ true
    → is_resolved t (items ++ (it ∷ [])) i ≡ true
unfolding is_resolved
is_resolved_mono t items it i h = ground (arith, refs_exist_mono t items it i.obj)

abbrev pub AllResolved : Target → List Item → List Item → Type 0
AllResolved t items = All (λ i. is_resolved t items i ≡ true)

AllResolved-mono :
    (t : Target) (items : List Item) (it : Item) (is : List Item)
    → AllResolved t items is
    → AllResolved t (items ++ (it ∷ [])) is
AllResolved-mono t items it [] h = tt
AllResolved-mono t items it (i ∷ is) (h, hs) =
    (is_resolved_mono t items it i h, AllResolved-mono t items it is hs)

-- A cell that is not blocked names two groups and SGACLs, all of which are known.
sgacl_missing_none :
    (names : List String) (m : Names) → sgacl_missing names m ≡ [] → every (has m) names ≡ true
unfolding sgacl_missing
sgacl_missing_none [] m h = refl
sgacl_missing_none (name ∷ names) m h = ground (arith, sgacl_missing_none names m)

cell_blocked_none :
    (cell : Obj) (src dst : String) (sgts sgacls : Names)
    → cell_blocked cell src dst sgts sgacls ≡ []
    → (not (src == "") ≡ true)
      × (not (dst == "") ≡ true)
      × (has sgts src ≡ true)
      × (has sgts dst ≡ true)
      × (every (has sgacls) (name_list cell "sgaclNames") ≡ true)
unfolding cell_blocked
cell_blocked_none cell src dst sgts sgacls h =
    ground (arith, sgacl_missing_none (name_list cell "sgaclNames") sgacls)
