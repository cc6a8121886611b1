-- ===== src/Endpoints/Preflight/Gate.antt =====
-- endpoints.go: what pre-flight clears for creation is resolved.
use ise2ise.Base.{◌≡◌, refl, String, Bool, true, false, List, [], ◌∷◌, ◌==◌, ◌&&◌, ◌||◌, not}
use ise2ise.Base.{Dict, Names, has, any, every, every-append, every_mono}
use ise2ise.Base.{arith, if◌then◌else◌}
use Prim.Native.Char.{Char}
use ise2ise.Json.{Obj, str}
use ise2ise.Report.Counts.{items-add}
use ise2ise.Report.{Action, create, skip, blocked, is_create, Item, Report, add, same_family}
use ise2ise.Report.{endpoint_groups, endpoints}
use ise2ise.PolicySets.Conditions.{at_key}
use ise2ise.Message.{Message}
use ise2ise.Endpoints.Preflight.{
  Seen, nameless_group, group_there, new_group, judge_group, judge_groups, names_of, Target,
  decide_endpoint, endpoint_mac, endpoint_item, judge_endpoints,
}
use ise2ise.Endpoints.Preflight.Groups.{
  is_new_group, will_be_there, Tracks, chosen, judge_groups-Tracks,
}

-- An endpoint that is to be created names only what is there.
abbrev pub is_resolved : (String → Bool) → Dict String → Item → Bool
is_resolved there profiles it =
    not (same_family it.family endpoints && is_create it.action)
    || ((str it.obj "groupName" == "" || there (str it.obj "groupName"))
        && (str it.obj "profileName" == ""
            || not (at_key profiles (str it.obj "profileName") == "")))

resolved_choice :
    (no_mac known unnamed there no_profile no_id : Bool) (m m' n n' : Message)
    → (not (
          is_create
            (if◌then◌else◌ {A = Action × Message} no_mac
              (blocked, m)
              (if known
                then (skip, m')
                else if not unnamed && not there
                then (blocked, n)
                else if not no_profile && no_id
                then (blocked, n')
                else (create, []))).0)
        || ((unnamed || there) && (no_profile || not no_id)))
      ≡ true
resolved_choice true known u t p i m m' n n' = refl
resolved_choice false true u t p i m m' n n' = refl
resolved_choice false false false false p i m m' n n' = refl
resolved_choice false false true t true i m m' n n' = refl
resolved_choice false false true t false true m m' n n' = refl
resolved_choice false false true t false false m m' n n' = refl
resolved_choice false false false true true i m m' n n' = refl
resolved_choice false false false true false true m m' n n' = refl
resolved_choice false false false true false false m m' n n' = refl

endpoint_item-is_resolved :
    (to_upper : Char → Char) (t : Target) (ep : Obj)
    → is_resolved (has t.will_exist) t.profiles (endpoint_item to_upper t ep) ≡ true
unfolding decide_endpoint
endpoint_item-is_resolved to_upper t ep =
    resolved_choice (endpoint_mac to_upper ep == "") (has t.macs (endpoint_mac to_upper ep))
      (str ep "groupName" == "") (has t.will_exist (str ep "groupName"))
      (str ep "profileName" == "") (at_key t.profiles (str ep "profileName") == "") _ _ _ _

judge_endpoints-is_resolved :
    (to_upper : Char → Char) (t : Target) (eps : List Obj) (r : Report)
    → every (is_resolved (has t.will_exist) t.profiles) r.items ≡ true
    → every (is_resolved (has t.will_exist) t.profiles) (judge_endpoints to_upper t eps r).items
      ≡ true
unfolding judge_endpoints
judge_endpoints-is_resolved to_upper t [] r h = h
judge_endpoints-is_resolved to_upper t (ep ∷ eps) r h =
    judge_endpoints-is_resolved to_upper t eps (add r (endpoint_item to_upper t ep)) (
      rw (
        items-add r (endpoint_item to_upper t ep),
        every-append (is_resolved (has t.will_exist) t.profiles) r.items
            (endpoint_item to_upper t ep ∷ []),
        h,
        endpoint_item-is_resolved to_upper t ep,
      ))

has-names_of_start :
    (ids : Dict String) (r : Report)
    → ((name : String) → any (is_new_group name) r.items ≡ false)
    → Tracks ids (record { report = r; will_exist = names_of ids })
has-names_of_start ids r none_yet name = rw (none_yet name) (or_none (has (names_of ids) name))
  where
    or_none : (a : Bool) → a ≡ (a || false)
    or_none true = refl
    or_none false = refl

is_resolved_mono :
    (there there' : String → Bool) (profiles : Dict String) (it : Item)
    → ((name : String) → there name ≡ there' name)
    → is_resolved there profiles it ≡ true
    → is_resolved there' profiles it ≡ true
is_resolved_mono there there' profiles it same h = rw (← same (str it.obj "groupName")) h

abbrev no_endpoint : Item → Bool
no_endpoint it = not (same_family it.family endpoints)

-- An item of another family than the two.
abbrev pub is_elsewhere : Item → Bool
is_elsewhere it =
    not (same_family it.family endpoints) && not (same_family it.family endpoint_groups)

every-add :
    (r : Report) (it : Item)
    → no_endpoint it ≡ true
    → every no_endpoint r.items ≡ true
    → every no_endpoint (add r it).items ≡ true
every-add r it new h = rw (items-add r it, every-append no_endpoint r.items (it ∷ []), h, new)

judge_group-no_endpoint :
    (ids : Dict String) (g : Obj) (s : Seen)
    → every no_endpoint s.report.items ≡ true
    → every no_endpoint (judge_group ids g s).report.items ≡ true
unfolding judge_group
judge_group-no_endpoint ids g s h =
    chosen NoEndpoint (str g "name" == "") _ _ (every-add s.report (nameless_group g) refl h) (
      chosen NoEndpoint (not (at_key ids (str g "name") == "")) _ _
        (every-add s.report (group_there g) refl h) (every-add s.report (new_group g) refl h))
  where
    NoEndpoint : Seen → Type 0
    NoEndpoint x = every no_endpoint x.report.items ≡ true

judge_groups-no_endpoint :
    (ids : Dict String) (gs : List Obj) (s : Seen)
    → every no_endpoint s.report.items ≡ true
    → every no_endpoint (judge_groups ids gs s).report.items ≡ true
unfolding judge_groups
judge_groups-no_endpoint ids [] s h = h
judge_groups-no_endpoint ids (g ∷ gs) s h =
    judge_groups-no_endpoint ids gs (judge_group ids g s) (judge_group-no_endpoint ids g s h)

no_new_group :
    (name : String) (items : List Item)
    → every is_elsewhere items ≡ true
    → any (is_new_group name) items ≡ false
no_new_group name [] h = refl
no_new_group name (it ∷ items) h =
    outside (same_family it.family endpoints) (same_family it.family endpoint_groups) _ _ _ h
      (no_new_group name items)
  where
    outside :
        (e g new rest found : Bool)
        → ((not e && not g) && rest) ≡ true
        → (rest ≡ true → found ≡ false)
        → (g && new || found) ≡ false
    outside false false new rest found h more = more h
    outside true g new rest found h more = absurd (ground (arith, h))
    outside false true new rest found h more = absurd (ground (arith, h))

elsewhere-no_endpoint : (it : Item) → is_elsewhere it ≡ true → no_endpoint it ≡ true
elsewhere-no_endpoint it h = first_of (no_endpoint it) _ h
  where
    first_of : (a b : Bool) → (a && b) ≡ true → a ≡ true
    first_of true b h = refl
    first_of false b h = h

no_endpoint-is_resolved :
    (there : String → Bool) (profiles : Dict String) (it : Item)
    → no_endpoint it ≡ true
    → is_resolved there profiles it ≡ true
no_endpoint-is_resolved there profiles it h =
    outside (same_family it.family endpoints) (is_create it.action) _ h
  where
    outside : (e c rest : Bool) → not e ≡ true → (not (e && c) || rest) ≡ true
    outside false c rest h = refl
    outside true c rest h = absurd (ground (arith, h))

-- If the report holds only items of other families, then each endpoint that the pre-flight of groups
-- and endpoints clears for creation names no group or one that the target has or that the same
-- report creates, and no profile or one that the target has by an id.
pub judge_endpoints-is_cleared :
    (to_upper : Char → Char) (ids profiles : Dict String) (macs : Names) (groups eps : List Obj)
    (r : Report)
    → every is_elsewhere r.items ≡ true
    → (let s = judge_groups ids groups (record { report = r; will_exist = names_of ids }) in
        every
          (is_resolved (will_be_there ids s.report.items) profiles)
          (judge_endpoints to_upper
            (record { will_exist = s.will_exist; profiles = profiles; macs = macs })
            eps
            s.report).items
        ≡ true)
judge_endpoints-is_cleared to_upper ids profiles macs groups eps r fresh =
    let start : Seen = record { report = r; will_exist = names_of ids } in
    let s = judge_groups ids groups start in
    let none_yet =
      judge_groups-no_endpoint ids groups start
        (every_mono is_elsewhere no_endpoint r.items elsewhere-no_endpoint fresh) in
    let tracked =
      judge_groups-Tracks ids groups start
        (has-names_of_start ids r (λ name. no_new_group name r.items fresh)) in
    every_mono (is_resolved (has s.will_exist) profiles)
      (is_resolved (will_be_there ids s.report.items) profiles)
      (judge_endpoints to_upper
        (record { will_exist = s.will_exist; profiles = profiles; macs = macs }) eps s.report).items
      (λ it.
        is_resolved_mono (has s.will_exist) (will_be_there ids s.report.items) profiles it tracked)
      (judge_endpoints-is_resolved to_upper
        (record { will_exist = s.will_exist; profiles = profiles; macs = macs }) eps s.report
        (every_mono no_endpoint (is_resolved (has s.will_exist) profiles) s.report.items
          (no_endpoint-is_resolved (has s.will_exist) profiles) none_yet))
