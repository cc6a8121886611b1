-- ===== src/ActiveDirectory/Preflight/Clear.antt =====
-- activedirectory.go: what `preflightADJoinPoints` marks "create", by what it has filed of the target.
use ise2ise.Base.{
  if◌then◌else◌, ◌≡◌, refl, String, Bool, true, false, Option, none, some, List, [], ◌∷◌, ◌==◌,
}
use ise2ise.Base.{
  not, ◌&&◌, ◌||◌, every, every-append, every_mono, subst, arith, get, Bool-cases, inl, inr, sym,
}
use ise2ise.Json.{Obj, str, child}
use ise2ise.Message.{Message, said}
use ise2ise.Request.{Request}
use ise2ise.Prog.{value_against}
use ise2ise.Prog.Returns.{value_against-bind}
use ise2ise.Ise.Errors.{Result, ok, err}
use ise2ise.Ise.Calls.{or_zero}
use ise2ise.Ise.Decode.{Body, Stub}
use ise2ise.Ise.Paging.{ers_list}
use ise2ise.Ise.Lookup.{ers_get_all}
use ise2ise.Report.{
  Action, create, skip, blocked, is_create, same_family, Item, item_of, Report, add, note,
  ad_join_points,
}
use ise2ise.Report.Counts.{items-add}
use ise2ise.ActiveDirectory.Groups.{
  path_active_directory, root_active_directory, with_attributes, with_settings,
  report_join_point_drift, settings_drift, missing_attributes,
}
use ise2ise.ActiveDirectory.Preflight.{
  Target, other_name, judge_new, groups_item, judge_named, judge_join_point, judge_join_points,
  judge_listed, read_details, preflight_join_points,
}

abbrev pub is_none : {A : Type 0} → Option A → Bool
is_none none = true
is_none (some a) = false

-- No join point holds the domain, or the one of the same name.
abbrev pub free_for : Option String → String → Bool
free_for none name = true
free_for (some theirs) name = theirs == name

-- A join point with a domain, whose name is not filed, and whose domain is filed for no other name.
abbrev pub is_clear : Target → Obj → Bool
is_clear t o =
    not (str o "domain" == "")
    && (is_none (get t.by_name (str o "name"))
        && free_for (get t.by_domain (str o "domain")) (str o "name"))

abbrev pub creates_one : Item → Bool
creates_one it =
    same_family it.family ad_join_points && (is_create it.action && not (str it.obj "name" == ""))

-- An item that creates a join point creates a clear one; the items about groups hold no object.
abbrev pub is_clear_if_new : Target → Item → Bool
is_clear_if_new t it = not (creates_one it) || is_clear t it.obj

abbrev pub AllClear : Target → Report → Type 0
AllClear t r = every (is_clear_if_new t) r.items ≡ true

free_for-other_name :
    (o : Option String) (name : String)
    → is_none (other_name o name) ≡ true
    → free_for o name ≡ true
free_for-other_name none name h = refl
free_for-other_name (some theirs) name h = elim (Bool-cases (theirs == name)) [
  | inl same ↦ same
  | inr other ↦ absurd (of_other (theirs == name) other h)
]
  where
    of_other : (b : Bool) → b ≡ false → is_none (if not b then some theirs else none) ≡ true → ⊥
    of_other true e h = cc e
    of_other false e h = cc h

module _ (t : Target) where
  add-AllClear :
      (r : Report) (it : Item) → is_clear_if_new t it ≡ true → AllClear t r → AllClear t (add r it)
  add-AllClear r it sound h =
      rw (items-add r it, every-append (is_clear_if_new t) r.items (it ∷ []), h, sound) refl

  with_attributes-AllClear :
      (name : String) (missing : List String) (r : Report)
      → AllClear t r
      → AllClear t (with_attributes name missing r)
  with_attributes-AllClear name [] r h = h
  with_attributes-AllClear name (m ∷ ms) r h = add-AllClear r _ refl h

  with_settings-AllClear :
      (name : String) (fields : List String) (r : Report)
      → AllClear t r
      → AllClear t (with_settings name fields r)
  unfolding note
  with_settings-AllClear name [] r h = h
  with_settings-AllClear name (f ∷ fs) r h = h

  drift-AllClear :
      (item theirs : Obj) (r : Report)
      → AllClear t r
      → AllClear t (report_join_point_drift item theirs r)
  unfolding report_join_point_drift
  drift-AllClear item theirs r h =
      with_settings-AllClear (str item "name")
        (settings_drift (child item "advancedSettings") (child theirs "advancedSettings"))
        (with_attributes (str item "name") (missing_attributes item theirs) r)
        (with_attributes-AllClear (str item "name") (missing_attributes item theirs) r h)

  unnamed_sound : (a : Action) (b : Bool) → (not (is_create a && false) || b) ≡ true
  unnamed_sound create b = refl
  unnamed_sound skip b = refl
  unnamed_sound blocked b = refl

  groups_item-is_clear_if_new :
      (item theirs : Obj) → is_clear_if_new t (groups_item item theirs) ≡ true
  unfolding str
  groups_item-is_clear_if_new item theirs = unnamed_sound (groups_item item theirs).action _

  judge_new-AllClear :
      (item : Obj) (o : Option String) (r : Report)
      → (is_none o ≡ true → is_clear t item ≡ true)
      → AllClear t r
      → AllClear t (judge_new item o r)
  judge_new-AllClear item (some theirs) r free h = add-AllClear r _ refl h
  judge_new-AllClear item none r free h =
      add-AllClear r _ (or_right (not (not (str item "name" == ""))) (is_clear t item) (free refl))
        h
    where
      or_right : (a b : Bool) → b ≡ true → (a || b) ≡ true
      or_right a b e = ground arith

  judge_named-AllClear :
      (item : Obj) (o : Option Obj) (r : Report)
      → (str item "domain" == "") ≡ false
      → get t.by_name (str item "name") ≡ o
      → AllClear t r
      → AllClear t (judge_named t item o r)
  judge_named-AllClear item (some theirs) r has_domain e h =
      drift-AllClear item theirs (add (add r there) (groups_item item theirs)) (
        add-AllClear (add r there) (groups_item item theirs)
          (groups_item-is_clear_if_new item theirs) (add-AllClear r there refl h))
    where
      there : Item
      there =
          item_of ad_join_points (said (str item "name")) item skip
            (said "already exists on the target")
  judge_named-AllClear item none r has_domain e h =
      judge_new-AllClear item (other_name (get t.by_domain (str item "domain")) (str item "name")) r
        (λ free. rw (has_domain, e, free_for-other_name _ _ free) refl) h

  judge_join_point-AllClear :
      (item : Obj) (r : Report) → AllClear t r → AllClear t (judge_join_point t item r)
  unfolding judge_join_point
  judge_join_point-AllClear item r h = elim (Bool-cases (str item "name" == "")) [
    | inl nameless ↦ rw nameless (stopped [] "join point has no name")
    | inr named ↦ elim (Bool-cases (str item "domain" == "")) [
      | inl nowhere ↦
          rw (named, nowhere) (stopped (said (str item "name")) "join point has no domain")
      | inr somewhere ↦
          rw (named, somewhere)
            (judge_named-AllClear item (get t.by_name (str item "name")) r somewhere refl h)
    ]
  ]
    where
      stopped :
          (name : Message) (why : String)
          → AllClear t (add r (item_of ad_join_points name item blocked (said why)))
      stopped name why = add-AllClear r (item_of ad_join_points name item blocked (said why)) refl h

  judge_join_points-AllClear :
      (items : List Obj) (r : Report) → AllClear t r → AllClear t (judge_join_points t items r)
  unfolding judge_join_points
  judge_join_points-AllClear [] r h = h
  judge_join_points-AllClear (item ∷ items) r h =
      judge_join_points-AllClear items (judge_join_point t item r)
        (judge_join_point-AllClear item r h)

-- The join points that the pre-flight reads of a target that answers each request in one way: none if
-- the list or one of them cannot be read.
abbrev pub details_listed : (Request → Result Body) → Result (List Stub) → List Obj
details_listed serve (err e) = []
details_listed serve (ok stubs) =
    or_zero [] (value_against serve (ers_get_all path_active_directory root_active_directory stubs))

abbrev pub details_of : (Request → Result Body) → List Obj
details_of serve = details_listed serve (value_against serve (ers_list path_active_directory))

judge_listed-AllClear :
    (serve : Request → Result Body) (listed : Result (List Stub)) (items : List Obj) (r : Report)
    → AllClear (read_details (details_listed serve listed)) r
    → AllClear
        (read_details (details_listed serve listed))
        (value_against serve (judge_listed items r listed))
unfolding value_against
judge_listed-AllClear serve (err e) items r h = h
judge_listed-AllClear serve (ok stubs) items r h =
    subst (AllClear (read_details (details_listed serve (ok stubs))))
      (sym (
        value_against-bind serve (ers_get_all path_active_directory root_active_directory stubs) _))
      (judge_join_points-AllClear (read_details (details_listed serve (ok stubs))) items r h)

not_yet-AllClear :
    (t : Target) (items : List Item)
    → every (λ it. not (creates_one it)) items ≡ true
    → every (is_clear_if_new t) items ≡ true
not_yet-AllClear t items h =
    every_mono (λ it. not (creates_one it)) (is_clear_if_new t) items
      (λ it e. or_left (not (creates_one it)) (is_clear t it.obj) e) h
  where
    or_left : (a b : Bool) → a ≡ true → (a || b) ≡ true
    or_left a b e = ground arith

-- The pre-flight creates only what is clear of the join points that it filed.
pub preflight_join_points-AllClear :
    (serve : Request → Result Body) (items : List Obj) (r : Report)
    → every (λ it. not (creates_one it)) r.items ≡ true
    → AllClear
        (read_details (details_of serve))
        (value_against serve (preflight_join_points items r))
unfolding preflight_join_points value_against
preflight_join_points-AllClear serve [] r h =
    not_yet-AllClear (read_details (details_of serve)) r.items h
preflight_join_points-AllClear serve (item ∷ items) r h =
    subst (AllClear (read_details (details_of serve)))
      (sym (value_against-bind serve (ers_list path_active_directory) _))
      (judge_listed-AllClear serve (value_against serve (ers_list path_active_directory))
        (item ∷ items) r (not_yet-AllClear (read_details (details_of serve)) r.items h))
