-- ===== src/Endpoints/Preflight/Groups.antt =====
-- endpoints.go: what pre-flight keeps of the groups that the target will have.
use ise2ise.Base.{◌≡◌, refl, String, Bool, true, false, List, [], ◌∷◌, ◌==◌, ◌&&◌, ◌||◌, not}
use ise2ise.Base.{Dict, has, add_name, has-add_name, any, any-append}
use ise2ise.Base.{if◌then◌else◌}
use ise2ise.Json.{Obj, str}
use ise2ise.Report.Counts.{items-add}
use ise2ise.Report.{is_create, Item, Report, add, same_family}
use ise2ise.Report.{endpoint_groups}
use ise2ise.PolicySets.Conditions.{at_key}
use ise2ise.Endpoints.Preflight.{
  Seen, nameless_group, group_there, new_group, judge_group, judge_groups, names_of,
}

-- A group of this name is to be created.
abbrev pub is_new_group : String → Item → Bool
is_new_group name it =
    same_family it.family endpoint_groups && (is_create it.action && str it.obj "name" == name)

-- The group is on the target, or the report creates it.
abbrev pub will_be_there : Dict String → List Item → String → Bool
will_be_there ids items name = has (names_of ids) name || any (is_new_group name) items

abbrev pub Tracks : Dict String → Seen → Type 0
Tracks ids s = (name : String) → has s.will_exist name ≡ will_be_there ids s.report.items name

any-add :
    (name : String) (r : Report) (it : Item) (new : Bool)
    → is_new_group name it ≡ new
    → any (is_new_group name) (add r it).items ≡ (any (is_new_group name) r.items || new)
any-add name r it new h =
    rw (items-add r it, any-append (is_new_group name) r.items (it ∷ []), h)
      (or_last (any (is_new_group name) r.items) new)
  where
    or_last : (a b : Bool) → (a || (b || false)) ≡ (a || b)
    or_last a true = refl
    or_last a false = refl

-- An item that is no new group, and one that is.
other-Tracks :
    (ids : Dict String) (s : Seen) (it : Item)
    → ((name : String) → is_new_group name it ≡ false)
    → Tracks ids s
    → Tracks ids (record s { report = add s.report it })
other-Tracks ids s it old h name =
    rw (any-add name s.report it false (old name), h name)
      (or_false (has (names_of ids) name) (any (is_new_group name) s.report.items))
  where
    or_false : (a b : Bool) → (a || b) ≡ (a || (b || false))
    or_false true b = refl
    or_false false true = refl
    or_false false false = refl

new-Tracks :
    (ids : Dict String) (s : Seen) (it : Item) (fresh : String)
    → ((name : String) → is_new_group name it ≡ (fresh == name))
    → Tracks ids s
    → Tracks ids (record { report = add s.report it; will_exist = add_name s.will_exist fresh })
new-Tracks ids s it fresh new h name =
    rw
      (
        any-add name s.report it (fresh == name) (new name),
        has-add_name s.will_exist fresh name,
        h name,
      )
      (moved (fresh == name) (has (names_of ids) name) (any (is_new_group name) s.report.items))
  where
    moved : (a b c : Bool) → (a || (b || c)) ≡ (b || (c || a))
    moved true true c = refl
    moved true false true = refl
    moved true false false = refl
    moved false true c = refl
    moved false false true = refl
    moved false false false = refl

pub chosen : (P : Seen → Type 0) (b : Bool) (x y : Seen) → P x → P y → P (if b then x else y)
chosen P true x y h h' = h
chosen P false x y h h' = h'

judge_group-Tracks :
    (ids : Dict String) (g : Obj) (s : Seen) → Tracks ids s → Tracks ids (judge_group ids g s)
unfolding judge_group
judge_group-Tracks ids g s h =
    chosen (Tracks ids) (str g "name" == "") _ _
      (other-Tracks ids s (nameless_group g) (λ name. refl) h)
      (chosen (Tracks ids) (not (at_key ids (str g "name") == "")) _ _
        (other-Tracks ids s (group_there g) (λ name. refl) h)
        (new-Tracks ids s (new_group g) (str g "name") (λ name. refl) h))

pub judge_groups-Tracks :
    (ids : Dict String) (gs : List Obj) (s : Seen)
    → Tracks ids s
    → Tracks ids (judge_groups ids gs s)
unfolding judge_groups
judge_groups-Tracks ids [] s h = h
judge_groups-Tracks ids (g ∷ gs) s h =
    judge_groups-Tracks ids gs (judge_group ids g s) (judge_group-Tracks ids g s h)
