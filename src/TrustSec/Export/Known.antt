-- ===== src/TrustSec/Export/Known.antt =====
-- trustsec.go: which names `nameResolver` gives to the ids of the groups, over its cache.
use ise2ise.Base.{
  ◌≡◌, refl, ◌∙◌, sym, ap, String, Bool, true, false, Option, none, some, List, [], ◌∷◌,
}
use ise2ise.Base.{◌==◌, not, eq_iff}
use ise2ise.Base.{Dict, get, put, get-put, if◌then◌else◌, subst}
use ise2ise.Json.{Obj, str}
use ise2ise.Prog.{ret, ◌>>=◌, when_some}
use ise2ise.Prog.Returns.{Returns, ends, Returns-any}
use ise2ise.Ise.Lookup.{names_by_id, Resolved, fetched, fetched_name, resolve_name}
use ise2ise.Ise.Calls.{ers_get_by_id}

-- The name of the last of the groups that has the id.
unfoldable pub last_name : List Obj → String → Option String
unfolding str
last_name [] id = none
last_name (o ∷ os) id = elim (last_name os id) [
  | none ↦ if str o "id" == id then some (str o "name") else none
  | some name ↦ some name
]

-- The name of the group that has the id, or some name if none of the groups has it.
abbrev pub names_group : Option String → String → Bool
names_group none name = not (name == "")
names_group (some theirs) name = name == theirs

-- What the cache holds is right, and it holds every group that was read.
pub record IsKnown (sgts : List Obj) (cache : Dict String) : Type 0 where
  pub right :
      (id name : String) → get cache id ≡ some name → names_group (last_name sgts id) name ≡ true
  pub complete : (id : String) → get cache id ≡ none → last_name sgts id ≡ none

abbrev or_else : Option String → Option String → Option String
or_else none p = p
or_else (some name) p = some name

get-names_by_id :
    (os : List Obj) (m : Dict String) (id : String)
    → get (names_by_id os m) id ≡ or_else (last_name os id) (get m id)
unfolding last_name
get-names_by_id [] m id = refl
get-names_by_id (o ∷ os) m id =
    get-names_by_id os (put m (str o "id") (str o "name")) id
    ∙ (ap (or_else (last_name os id)) (get-put m (str o "id") id (str o "name"))
        ∙ of_parts (last_name os id) (str o "id" == id))
  where
    of_parts :
        (l : Option String) (b : Bool)
        → or_else l (if b then some (str o "name") else get m id)
          ≡ or_else
              (elim l [ none ↦ if b then some (str o "name") else none | some name ↦ some name ])
              (get m id)
    of_parts none true = refl
    of_parts none false = refl
    of_parts (some name) b = refl

-- The cache that the resolver starts with.
pub names_by_id-IsKnown : (sgts : List Obj) → IsKnown sgts (names_by_id sgts [])
unfolding get
names_by_id-IsKnown sgts = record {
  right = λ id name h. of_last (last_name sgts id) name (sym (get-names_by_id sgts [] id) ∙ h);
  complete = λ id h. unset (last_name sgts id) (sym (get-names_by_id sgts [] id) ∙ h);
}
  where
    of_last :
        (l : Option String) (name : String) → or_else l none ≡ some name → names_group l name ≡ true
    of_last none name h = absurd (cc h)
    of_last (some theirs) name h = (eq_iff name theirs).1 (cc h)

    unset : (l : Option String) → or_else l none ≡ none → l ≡ none
    unset none h = refl
    unset (some name) h = absurd (cc h)

-- A new id, with a name.
put-IsKnown :
    (sgts : List Obj) (cache : Dict String) (id name : String)
    → IsKnown sgts cache
    → names_group (last_name sgts id) name ≡ true
    → IsKnown sgts (put cache id name)
put-IsKnown sgts cache id name h named = record {
  right = λ j n e. of_test j n (id == j) refl (sym (get-put cache id j name) ∙ e);
  complete =
      λ j e. h.complete j (unset (id == j) (get cache j) (sym (get-put cache id j name) ∙ e));
}
  where
    unset : (b : Bool) (o : Option String) → (if b then some name else o) ≡ none → o ≡ none
    unset true o e = absurd (cc e)
    unset false o e = e

    unwrapped : (n : String) → some name ≡ some n → name ≡ n
    unwrapped n e = cc e

    of_test :
        (j n : String) (b : Bool)
        → (id == j) ≡ b
        → (if b then some name else get cache j) ≡ some n
        → names_group (last_name sgts j) n ≡ true
    of_test j n true same e =
        subst (λ i. names_group (last_name sgts i) n ≡ true) ((eq_iff id j).0 same)
          (subst (λ m. names_group (last_name sgts id) m ≡ true) (unwrapped n e) named)
    of_test j n false other e = h.right j n e

-- One resolved id.
pub record IsFound (sgts : List Obj) (id : String) (r : Resolved) : Type 0 where
  pub named : names_group (last_name sgts id) r.name ≡ true
  pub known : IsKnown sgts r.cache

pub resolve_name-IsFound :
    (path root : String) (sgts : List Obj) (cache : Dict String) (id : String)
    → IsKnown sgts cache
    → (id == "") ≡ false
    → Returns (IsFound sgts id) (resolve_name path root cache id)
unfolding resolve_name
resolve_name-IsFound path root sgts cache id h filled = of_cached (get cache id) refl
  where
    stored :
        (name : String)
        → (name == "") ≡ false
        → get cache id ≡ none
        → names_group (last_name sgts id) name ≡ true
    stored name given e =
        subst (λ l. names_group l name ≡ true) (sym (h.complete id e)) (ap not given)

    of_name :
        (name : String) (b : Bool)
        → (name == "") ≡ b
        → get cache id ≡ none
        → IsFound sgts id (
            if b
            then record { name = id; found = false; cache = put cache id id }
            else record { name = name; found = true; cache = put cache id name })
    of_name name true unnamed e = record {
      named = stored id filled e;
      known = put-IsKnown sgts cache id id h (stored id filled e);
    }
    of_name name false given e = record {
      named = stored name given e;
      known = put-IsKnown sgts cache id name h (stored name given e);
    }

    of_cached :
        (o : Option String)
        → get cache id ≡ o
        → Returns (IsFound sgts id) (
            when_some o
              (ers_get_by_id path id root >>= λ r. ret (fetched cache id (fetched_name r)))
              λ name. ret (record { name = name; found = true; cache = cache }))
    of_cached none e =
        Returns-any (ers_get_by_id path id root) _
          λ r. ends (of_name (fetched_name r) (fetched_name r == "") refl e)
    of_cached (some name) e = ends (record { named = h.right id name e; known = h })
