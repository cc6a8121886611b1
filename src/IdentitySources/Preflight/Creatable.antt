-- ===== src/IdentitySources/Preflight/Creatable.antt =====
-- identitysources.go: which items `preflightIdentitySources` marks "create", and what it sends.
use mathlib.Core.List.{append_assoc, append-nil}
use ise2ise.Base.{◌≡◌, refl, subst, String, Bool, true, false, Option, List, [], ◌∷◌, ◌++◌, ◌==◌}
use ise2ise.Base.{not, ◌&&◌, ◌||◌, map, arith, eq_iff, has, if◌then◌else◌, ◌∙◌, ap, sym}
use ise2ise.Json.{Value, Obj, str}
use ise2ise.Request.{Request}
use ise2ise.Ise.Errors.{Result}
use ise2ise.Ise.Decode.{Body}
use ise2ise.Prog.{value_against}
use ise2ise.Prog.Returns.{value_against-bind}
use ise2ise.Message.{Message}
use ise2ise.Report.{Action, create, skip, blocked, Item, Report, is_create, add}
use ise2ise.Report.Counts.{items-add}
use ise2ise.IdentitySources.Secrets.{rest_id_store, certificate_profile}
use ise2ise.IdentitySources.Preflight.{
  Target, read_sources, decide_source, source_item, judge_sources, preflight_identity_sources,
}

-- A named certificate profile that the target does not have, other than ISE's own.
abbrev pub is_missing_profile : Target → Obj → Bool
is_missing_profile t o =
    str o "kind" == certificate_profile
    && (not (str o "name" == "")
        && (not (str o "name" == "Preloaded_Certificate_Profile")
            && not (has t.cert_profiles (str o "name"))))

-- The same by the tests alone: a store, no name, a profile, the factory's, and what the target has.
by_tests :
    (rest nameless profile factory has_rest has_profile : Bool) (m1 m2 m3 m4 m5 : Message)
    → (rest ≡ true → profile ≡ false)
    → is_create
        (if◌then◌else◌ {A = Action × Message}
          (rest && not has_rest)
          (blocked, m1)
          (if nameless
            then (blocked, m2)
            else if not rest && not profile
            then (blocked, m3)
            else if profile && factory
            then (skip, m4)
            else if (if rest then has_rest else profile && has_profile)
            then (skip, m5)
            else (create, []))).0
      ≡ (profile && (not nameless && (not factory && not has_profile)))
by_tests rest nameless profile factory has_rest has_profile m1 m2 m3 m4 m5 apart = ground arith

decide_source_lem :
    (print : Option Value → String) (t : Target) (o : Obj)
    → is_create (decide_source print t o).0 ≡ is_missing_profile t o
unfolding decide_source
decide_source_lem print t o =
    by_tests (str o "kind" == rest_id_store) (str o "name" == "")
      (str o "kind" == certificate_profile) _ (has t.rest_stores (str o "name")) _ _ _ _ _ _
      λ rest. rw ((eq_iff (str o "kind") rest_id_store).0 rest) refl

-- An item that may be created: a missing certificate profile.
abbrev may_create : Item → Bool
may_create it =
    not (is_create it.action)
    || (str it.obj "kind" == certificate_profile && not (str it.obj "name" == ""))

pub may_create-source_item :
    (print : Option Value → String) (t : Target) (o : Obj)
    → may_create (source_item print t o) ≡ true
may_create-source_item print t o =
    of_verdict (is_create (decide_source print t o).0) _ _ _ _ (decide_source_lem print t o)
  where
    of_verdict :
        (c p n f h : Bool) → c ≡ (p && (not n && (not f && not h))) → (not c || (p && not n)) ≡ true
    of_verdict c p n f h e = ground arith

-- Each object has been judged against that state of the target, and its item added behind the others.
pub record IsJudged (print : Option Value → String) (items : List Obj) (t : Target) (r r' : Report)
    : Type 0 where
  pub judged : r'.items ≡ r.items ++ map (source_item print t) items
  pub verdicts :
      map (λ it. is_create it.action) (map (source_item print t) items)
      ≡ map (is_missing_profile t) items

verdicts_lem :
    (print : Option Value → String) (t : Target) (items : List Obj)
    → map (λ it. is_create it.action) (map (source_item print t) items)
      ≡ map (is_missing_profile t) items
verdicts_lem print t [] = refl
verdicts_lem print t (o ∷ items) = rw (decide_source_lem print t o, verdicts_lem print t items) refl

judge_sources-items :
    (print : Option Value → String) (t : Target) (items : List Obj) (r : Report)
    → (judge_sources print t items r).items ≡ r.items ++ map (source_item print t) items
unfolding judge_sources
judge_sources-items print t [] r = sym (append-nil r.items)
judge_sources-items print t (o ∷ items) r =
    judge_sources-items print t items (add r (source_item print t o))
    ∙ (ap (λ xs. xs ++ map (source_item print t) items) (items-add r (source_item print t o))
        ∙ append_assoc r.items _ _)

judge_sources-IsJudged :
    (print : Option Value → String) (t : Target) (items : List Obj) (r : Report)
    → IsJudged print items t r (judge_sources print t items r)
judge_sources-IsJudged print t items r = record {
  judged = judge_sources-items print t items r;
  verdicts = verdicts_lem print t items;
}

-- For each object of the bundle, in order, the pre-flight of the identity sources adds one item, and
-- marks it "create" exactly if the object is a named certificate profile, other than ISE's own, that
-- is not among the profiles the target listed. Here the target answers each request in one way.
pub preflight_identity_sources-IsJudged :
    (serve : Request → Result Body) (print : Option Value → String) (items : List Obj) (r : Report)
    → IsJudged print items
        (value_against serve read_sources)
        r
        (value_against serve (preflight_identity_sources print items r))
unfolding preflight_identity_sources value_against
preflight_identity_sources-IsJudged serve print [] r = record {
  judged = sym (append-nil r.items);
  verdicts = refl;
}
preflight_identity_sources-IsJudged serve print (o ∷ items) r =
    subst (IsJudged print (o ∷ items) (value_against serve read_sources) r)
      (sym (value_against-bind serve read_sources _))
      (judge_sources-IsJudged print (value_against serve read_sources) (o ∷ items) r)
