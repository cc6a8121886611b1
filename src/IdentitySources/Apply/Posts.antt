-- ===== src/IdentitySources/Apply/Posts.antt =====
-- identitysources.go: what `applyIdentitySources` sends for the items of its pre-flight.
use ise2ise.Base.{◌≡◌, refl, String, Bool, true, false, List, [], ◌∷◌, ◌==◌, ◌&&◌, any}
use ise2ise.Base.{
  Option, map, not, ◌||◌, every, every-append, ap, ◌∙◌, arith, eq_iff, if◌then◌else◌,
}
use ise2ise.Json.{Value, Obj, str, delete}
use ise2ise.Message.{Message}
use ise2ise.Request.{Request, Method, read, post, replace}
use ise2ise.Prog
use ise2ise.Prog.{for_each, value_against}
use ise2ise.Ise.Errors.{Result}
use ise2ise.Ise.Decode.{Body}
use ise2ise.Prog.Sends.{Sends, done, asks, Sends-bind}
use ise2ise.Ise.Calls.{ers_create}
use ise2ise.Report.{Action, create, skip, blocked, is_create, Report, Item, ImportResult}
use ise2ise.IdentitySources.Secrets.{certificate_profile, path_certificate_profile}
use ise2ise.IdentitySources.Preflight.{
  Target, read_sources, source_item, preflight_identity_sources,
}
use ise2ise.IdentitySources.Preflight.Creatable.{
  may_create-source_item, IsJudged, preflight_identity_sources-IsJudged,
}
use ise2ise.IdentitySources.Apply.{
  create_source, apply_source_action, is_source, apply_source, is_new_source,
  apply_identity_sources,
}

-- A POST to the collection of certificate profiles.
abbrev pub posts_profile : Request → Bool
posts_profile q = by_method q.method
  where
    by_method : Method → Bool
    by_method read = false
    by_method post = q.url.path == path_certificate_profile
    by_method replace = false

abbrev pub PostsProfile : Request → Type 0
PostsProfile q = posts_profile q ≡ true

create_source-PostsProfile :
    (kind : String) (name : Message) (o : Obj) (res : ImportResult)
    → kind ≡ certificate_profile
    → Sends PostsProfile (create_source kind name o res)
unfolding create_source ers_create
create_source-PostsProfile kind name o res e = rw e (asks refl λ r. done _)

and_left : (a b : Bool) → (a && b) ≡ true → a ≡ true
and_left a b h = ground arith

and_right : (a b : Bool) → (a && b) ≡ true → b ≡ true
and_right a b h = ground arith

-- An item that is to create an identity source creates a certificate profile.
abbrev creates_profile : Item → Bool
creates_profile it = not (is_new_source it) || str it.obj "kind" == certificate_profile

apply_source_action-PostsProfile :
    (it : Item) (a : Action) (res : ImportResult)
    → (is_create a ≡ true → str it.obj "kind" ≡ certificate_profile)
    → Sends PostsProfile (apply_source_action it a res)
apply_source_action-PostsProfile it skip res h = done _
apply_source_action-PostsProfile it blocked res h = done _
apply_source_action-PostsProfile it create res h =
    create_source-PostsProfile (str it.obj "kind") it.name (delete it.obj "kind") res (h refl)

apply_source-PostsProfile :
    (it : Item) (res : ImportResult)
    → creates_profile it ≡ true
    → Sends PostsProfile (apply_source it res)
apply_source-PostsProfile it res h = of_family (is_source it) refl
  where
    profile : (s c p : Bool) → (not (s && c) || p) ≡ true → s ≡ true → c ≡ true → p ≡ true
    profile s c p e e' e'' = ground arith

    of_family :
        (b : Bool)
        → is_source it ≡ b
        → Sends PostsProfile (if b then apply_source_action it it.action res else Prog.ret res)
    of_family true e = apply_source_action-PostsProfile it it.action res λ new.
        (eq_iff (str it.obj "kind") certificate_profile).0
          (profile (is_source it) (is_create it.action) _ h e new)
    of_family false e = done _

all_sources-PostsProfile :
    (items : List Item) (res : ImportResult)
    → every creates_profile items ≡ true
    → Sends PostsProfile (for_each items res apply_source)
unfolding for_each
all_sources-PostsProfile [] res h = done _
all_sources-PostsProfile (it ∷ items) res h =
    Sends-bind _ (apply_source-PostsProfile it res (and_left _ _ h))
      λ res'. all_sources-PostsProfile items res' (and_right _ _ h)

family-PostsProfile :
    (items : List Item) (res : ImportResult)
    → every creates_profile items ≡ true
    → Sends PostsProfile (apply_identity_sources items res)
unfolding apply_identity_sources
family-PostsProfile items res h = of_any (any is_new_source items)
  where
    of_any :
        (b : Bool)
        → Sends PostsProfile (if b then for_each items res apply_source else Prog.ret res)
    of_any true = all_sources-PostsProfile items res h
    of_any false = done _

-- Items of which none creates an identity source.
none_new :
    (items : List Item) → any is_new_source items ≡ false → every creates_profile items ≡ true
none_new [] h = refl
none_new (it ∷ items) h = both (is_new_source it) _ (any is_new_source items) _ h (none_new items)
  where
    both : (a p b q : Bool) → (a || b) ≡ false → (b ≡ false → q ≡ true) → ((not a || p) && q) ≡ true
    both true p b q e f = absurd (cc e)
    both false p true q e f = absurd (cc e)
    both false p false q e f = f refl

judged-creates_profile :
    (print : Option Value → String) (t : Target) (os : List Obj)
    → every creates_profile (map (source_item print t) os) ≡ true
judged-creates_profile print t [] = refl
judged-creates_profile print t (o ∷ os) =
    both _ _
      (weaker (is_source (source_item print t o)) (is_create (source_item print t o).action)
        (str (source_item print t o).obj "kind" == certificate_profile) _
        (may_create-source_item print t o))
      (judged-creates_profile print t os)
  where
    both : (a b : Bool) → a ≡ true → b ≡ true → (a && b) ≡ true
    both a b e e' = ground arith

    weaker : (s c p n : Bool) → (not c || (p && n)) ≡ true → (not (s && c) || p) ≡ true
    weaker s c p n e = ground arith

-- If the report held no identity source to create before the pre-flight of the identity sources was
-- added to it, whatever it held of the other families, then the import of the family from that report,
-- whatever is answered to it, sends nothing but POSTs to the collection of certificate profiles. The
-- pre-flight is run against a target that answers each request in one way.
pub apply_identity_sources-PostsProfile :
    (serve : Request → Result Body) (print : Option Value → String) (objects : List Obj)
    (r : Report) (res : ImportResult)
    → any is_new_source r.items ≡ false
    → Sends PostsProfile (
        apply_identity_sources
          (value_against serve (preflight_identity_sources print objects r)).items
          res)
apply_identity_sources-PostsProfile serve print objects r res h =
    family-PostsProfile (value_against serve (preflight_identity_sources print objects r)).items res
      (ap (every creates_profile) j.judged
        ∙ (every-append creates_profile r.items (map (source_item print t) objects)
            ∙ (ap (λ b. b && every creates_profile (map (source_item print t) objects))
                  (none_new r.items h)
                ∙ judged-creates_profile print t objects)))
  where
    t : Target
    t = value_against serve read_sources

    j :
        IsJudged print objects t r
          (value_against serve (preflight_identity_sources print objects r))
    j = preflight_identity_sources-IsJudged serve print objects r
