-- ===== src/ActiveDirectory/Preflight/Unique.antt =====
-- activedirectory.go: which join points `preflightADJoinPoints` marks "create".
use ise2ise.Base.{◌≡◌, refl, String, Bool, true, false, Option, none, some, List, ◌==◌}
use ise2ise.Base.{not, ◌&&◌, ◌||◌, any, every, every_mono, eq_iff, get, inl, inr, ◌⊎◌}
use ise2ise.Json.{Obj, str}
use ise2ise.Request.{Request}
use ise2ise.Prog.{value_against}
use ise2ise.Ise.Errors.{Result}
use ise2ise.Ise.Decode.{Body}
use ise2ise.Report.{Item, Report}
use ise2ise.ActiveDirectory.Preflight.{nothing_there, read_details, preflight_join_points}
use ise2ise.ActiveDirectory.Preflight.Filed.{file_all-unnamed, file_all-undomained, file_all-some}
use ise2ise.ActiveDirectory.Preflight.Clear.{
  is_none, free_for, is_clear, is_clear_if_new, creates_one, details_of,
  preflight_join_points-AllClear,
}

-- A join point with a domain, where none of the target's has its name and none has its domain.
abbrev pub is_absent : List Obj → Obj → Bool
is_absent details o =
    not (str o "domain" == "")
    && (not (any (λ d. str d "name" == str o "name") details)
        && not (any (λ d. str d "domain" == str o "domain") details))

-- An item that creates a join point creates an absent one; the items about groups hold no object.
abbrev pub is_sound : List Obj → Item → Bool
is_sound details it = not (creates_one it) || is_absent details it.obj

abbrev pub AllSound : List Obj → Report → Type 0
AllSound details r = every (is_sound details) r.items ≡ true

-- A domain that is filed for the very name is filed for none, if the name is not filed.
undomained :
    (details : List Obj) (name domain : String) (o : Option String)
    → (domain == "") ≡ false
    → any (λ d. str d "name" == name) details ≡ false
    → get (read_details details).by_domain domain ≡ o
    → free_for o name ≡ true
    → any (λ d. str d "domain" == domain) details ≡ false
unfolding get
undomained details name domain none filled unnamed e free =
    (file_all-undomained details nothing_there domain filled e).1
undomained details name domain (some theirs) filled unnamed e free =
    absurd (of_filed (file_all-some details nothing_there domain theirs e))
  where
    of_filed :
        (get nothing_there.by_domain domain ≡ some theirs)
          ⊎ (any (λ d. str d "name" == theirs) details ≡ true)
        → ⊥
    of_filed (inl before) = cc before
    of_filed (inr named) = cc (rw ((eq_iff theirs name).0 free) at named, unnamed)

is_absent_of_parts :
    (details : List Obj) (o : Obj) (named : Option Obj)
    → get (read_details details).by_name (str o "name") ≡ named
    → (str o "domain" == "") ≡ false
    → is_none named ≡ true
    → free_for (get (read_details details).by_domain (str o "domain")) (str o "name") ≡ true
    → is_absent details o ≡ true
is_absent_of_parts details o (some theirs) e filled clear free = absurd (cc clear)
is_absent_of_parts details o none e filled clear free =
    let unnamed = (file_all-unnamed details nothing_there (str o "name") e).1 in
    rw
      (
        filled,
        unnamed,
        undomained details (str o "name") (str o "domain") _ filled unnamed refl free,
      )
      refl

is_clear-is_absent :
    (details : List Obj) (o : Obj)
    → is_clear (read_details details) o ≡ true
    → is_absent details o ≡ true
is_clear-is_absent details o h =
    let (filled, (unnamed, free)) =
      parts (str o "domain" == "") (is_none (get (read_details details).by_name (str o "name"))) _
        h in
    is_absent_of_parts details o _ refl filled unnamed free
  where
    parts : (a b c : Bool) → (not a && (b && c)) ≡ true → (a ≡ false) × ((b ≡ true) × (c ≡ true))
    parts false true true e = (refl, (refl, refl))
    parts true b c e = absurd (cc e)
    parts false false c e = absurd (cc e)
    parts false true false e = absurd (cc e)

is_clear_if_new-is_sound :
    (details : List Obj) (it : Item)
    → is_clear_if_new (read_details details) it ≡ true
    → is_sound details it ≡ true
is_clear_if_new-is_sound details it h =
    of_test (creates_one it) (is_clear (read_details details) it.obj) h
      (is_clear-is_absent details it.obj)
  where
    of_test :
        (a b : Bool)
        → (not a || b) ≡ true
        → (b ≡ true → is_absent details it.obj ≡ true)
        → (not a || is_absent details it.obj) ≡ true
    of_test true b e f = f e
    of_test false b e f = refl

-- Against a target that answers each request in one way, the pre-flight marks a join point "create" only
-- if it has a domain, no join point that it read of the target has its name, and none has its domain: if
-- the report had no join point to create before. If the target's list or one of its join points cannot be
-- read, none counts as read.
pub preflight_join_points-AllSound :
    (serve : Request → Result Body) (items : List Obj) (r : Report)
    → every (λ it. not (creates_one it)) r.items ≡ true
    → AllSound (details_of serve) (value_against serve (preflight_join_points items r))
preflight_join_points-AllSound serve items r h =
    every_mono (is_clear_if_new (read_details (details_of serve))) (is_sound (details_of serve))
      (value_against serve (preflight_join_points items r)).items
      (is_clear_if_new-is_sound (details_of serve)) (preflight_join_points-AllClear serve items r h)
