-- ===== src/TrustSec/Preflight/Gate/Known.antt =====
-- trustsec.go: what is known of the groups and SGACLs while pre-flight runs.
use ise2ise.Base.{◌≡◌, refl, ◌⊎◌, inl, inr, String, true, false, List, []}
use ise2ise.Base.{◌∷◌, ◌++◌, arith, ◌==◌, eq_iff, eq_refl}
use ise2ise.Base.{All-append, Dict, get, Names, has, has_of_get}
use ise2ise.Base.{has-add_name, Bool-cases, Option-cases}
use ise2ise.Json.{Obj, str}
use ise2ise.Message.{Message}
use ise2ise.Prog.Returns.{}
use ise2ise.Report.{Action, create, Item, Report}
use ise2ise.Report.{note}
use ise2ise.TrustSec.Objects.{kind_sgt, kind_sgacl, kind_egress_cell}
use ise2ise.TrustSec.Preflight.{
  Target, Seen, Verdict, taken_by, decide_sgt, by_name, if_exists, decide_sgacl, trust_sec_item,
  noted,
}
use ise2ise.TrustSec.Preflight.Gate.{
  creates, will_exist, is_resolved, will_exist_mono, will_exist_created, AllResolved,
  AllResolved-mono,
}

by_name_exists :
    (m : Dict Obj) (name : String) (item : Obj)
    → ((by_name m name item).action ≡ create) ⊎ (has m name ≡ true)
by_name_exists m name item = elim (Option-cases (get m name)) [
  | inl absent ↦ rw (absent, by_name) (inl refl)
  | inr (target, found) ↦ inr (has_of_get m name found)
]

pub decide_sgt_exists :
    (t : Target) (name : String) (item : Obj)
    → (decide_sgt t name item).exists ≡ true
    → ((decide_sgt t name item).action ≡ create) ⊎ (has t.sgts name ≡ true)
unfolding decide_sgt
decide_sgt_exists t name item h = elim (Option-cases (taken_by t.holders name item)) [
  | inl free ↦ rw (free, decide_sgt) (by_name_exists t.sgts name item)
  | inr (holder, taken) ↦ absurd (cc (rw (taken, decide_sgt) at h))
]

pub decide_sgacl_exists :
    (t : Target) (name : String) (item : Obj)
    → ((decide_sgacl t name item).action ≡ create) ⊎ (has t.sgacls name ≡ true)
unfolding decide_sgacl
decide_sgacl_exists t name item = by_name_exists t.sgacls name item

-- The loop's invariant: what it takes to exist will, and what it has cleared is resolved.
pub record IsSound (t : Target) (items : List Item) (sgts sgacls : Names) : Type 0 where
  pub known_sgts :
      (name : String) → has sgts name ≡ true → will_exist t.sgts kind_sgt items name ≡ true
  pub known_sgacls :
      (name : String) → has sgacls name ≡ true → will_exist t.sgacls kind_sgacl items name ≡ true
  pub resolved : AllResolved t items items

abbrev pub IsSoundState : Target → Seen → Type 0
IsSoundState t s = IsSound t s.report.items s.sgts s.sgacls

abbrev pub judged : Obj → Verdict → Item
judged item v = trust_sec_item (str item "name") item v.action v.reason

created_or_held :
    (held : Dict Obj) (kind : String) (items : List Item) (item : Obj) (v : Verdict)
    → (str item "kind" == kind) ≡ true
    → (v.action ≡ create) ⊎ (has held (str item "name") ≡ true)
    → will_exist held kind (items ++ (judged item v ∷ [])) (str item "name") ≡ true
created_or_held held kind items item v of_kind (inl new) =
    will_exist_created held kind items (judged item v) (str item "name") it_creates
  where
    it_creates : creates kind (str item "name") (judged item v) ≡ true
    it_creates = unfold creates in rw new (ground (arith, eq_refl (str item "name")))
created_or_held held kind items item v of_kind (inr there) = there_already
  where
    there_already : will_exist held kind (items ++ (judged item v ∷ [])) (str item "name") ≡ true
    there_already = unfold will_exist in rw there

-- A name stays known, and the object just judged is known if it will exist.
pub known_after :
    (held : Dict Obj) (kind : String) (items : List Item) (names : Names) (item : Obj) (v : Verdict)
    → ((name : String) → has names name ≡ true → will_exist held kind items name ≡ true)
    → (str item "kind" == kind) ≡ true
    → (v.exists ≡ true → (v.action ≡ create) ⊎ (has held (str item "name") ≡ true))
    → (name : String) → has (if_exists v.exists (str item "name") names) name ≡ true
    → will_exist held kind
        (items ++ (trust_sec_item (str item "name") item v.action v.reason ∷ []))
        name
      ≡ true
known_after held kind items names item v known of_kind why name h = elim (Bool-cases v.exists) [
  | inl new ↦ elim (Bool-cases (str item "name" == name)) [
    | inl same ↦
        rw (← (eq_iff (str item "name") name).0 same)
          (created_or_held held kind items item v of_kind (why new))
    | inr other ↦
        will_exist_mono held kind items (judged item v) name
          (known name (ground (arith, has-add_name names (str item "name") name)))
  ]
  | inr unsure ↦ will_exist_mono held kind items (judged item v) name (known name (rw unsure at h))
]

pub AllResolved-add :
    (t : Target) (items : List Item) (it : Item)
    → AllResolved t items items
    → is_resolved t (items ++ (it ∷ [])) it ≡ true
    → AllResolved t (items ++ (it ∷ [])) (items ++ (it ∷ []))
AllResolved-add t items it h new =
    All-append (λ i. is_resolved t (items ++ (it ∷ [])) i ≡ true) items (it ∷ [])
      (AllResolved-mono t items it items h) (new, tt)

pub no_cell :
    (t : Target) (items : List Item) (name kind : String) (item : Obj) (a : Action) (m : Message)
    → (str item "kind" == kind) ≡ true
    → (kind == kind_egress_cell) ≡ false
    → is_resolved t items (trust_sec_item name item a m) ≡ true
unfolding is_resolved
no_cell t items name kind item a m of_kind other =
    let same : str item "kind" ≡ kind = (eq_iff (str item "kind") kind).0 of_kind in
    rw (same, other) (ground arith)

pub known_still :
    (held : Dict Obj) (kind : String) (items : List Item) (names : Names) (it : Item)
    → ((name : String) → has names name ≡ true → will_exist held kind items name ≡ true)
    → (name : String) → has names name ≡ true
    → will_exist held kind (items ++ (it ∷ [])) name ≡ true
known_still held kind items names it known name h =
    will_exist_mono held kind items it name (known name h)

pub items-noted : (r : Report) (ms : List Message) → (noted r ms).items ≡ r.items
unfolding note
items-noted r [] = refl
items-noted r (m ∷ ms) = items-noted (note r m) ms
