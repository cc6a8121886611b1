-- ===== src/TrustSec/Export/Kept.antt =====
-- trustsec.go: which texts of a cell the steps of its export keep.
use ise2ise.Base.{
  ◌≡◌, refl, String, Bool, true, false, Option, none, some, List, [], ◌∷◌, ◌++◌, ◌==◌,
}
use ise2ise.Base.{◌||◌, arith, eq_iff, eq_refl, ap, ◌∙◌, if◌then◌else◌}
use mathlib.Core.Option
use ise2ise.Json.{
  Value, null, bool, num, text, obj, texts, objs, arr, names_in, Obj, lookup, delete, set, str,
  text_of,
}
use ise2ise.Json.Laws.{str-delete, str-set_text, lookup-set}
use ise2ise.Json.Links.{lookup-strip_local, strip_value}
use ise2ise.Prog.Returns.{Returns, ends, Returns-any, Returns-bind, Returns-if}
use ise2ise.Ise.Lookup.{resolve_name}
use ise2ise.IdentitySources.Secrets.Laws.{text_of-strip_value}
use ise2ise.TrustSec.Objects.{path_sgt, root_sgt, path_sgacl, root_sgacl, portable_trust_sec}
use ise2ise.TrustSec.Export.Known.{last_name, names_group, IsKnown, resolve_name-IsFound}
use ise2ise.TrustSec.Export.{Moving, name_group, name_sgacls, with_names, name_listed}

if_false : {A : Type 0} (b : Bool) (x y : A) → b ≡ false → (if b then x else y) ≡ y
if_false b x y e = rw e refl

if_true : {A : Type 0} (b : Bool) (x y : A) → b ≡ true → (if b then x else y) ≡ x
if_true b x y e = rw e refl

str-set_other :
    (o : Obj) (j : String) (v : Value) (k : String) → (j == k) ≡ false → str (set o j v) k ≡ str o k
unfolding str
str-set_other o j v k e = ap text_of (lookup-set o j v k ∙ if_false (j == k) _ _ e)

-- Of a key that is neither "link" nor one of the three that are taken out, the text is kept.
pub str-portable_trust_sec :
    (o : Obj) (k : String)
    → (k == "link") ≡ false
    → ("id" == k) ≡ false
    → ("matrixId" == k) ≡ false
    → ("generationId" == k) ≡ false
    → str (portable_trust_sec o) k ≡ str o k
unfolding portable_trust_sec str
str-portable_trust_sec o k not_link not_id not_matrix not_generation =
    ap text_of (lookup-strip_local bare k)
    ∙ (of_tests (k == "link") ("id" == k) not_link not_id ∙ kept)
  where
    bare : Obj
    bare = delete (delete o "generationId") "matrixId"

    of_tests :
        (a b : Bool)
        → a ≡ false
        → b ≡ false
        → text_of (if a then none else if b then none else Option.map strip_value (lookup bare k))
          ≡ str bare k
    of_tests false false e e' = text_of-strip_value (lookup bare k)
    of_tests true b e e' = absurd (cc e)
    of_tests false true e e' = absurd (cc e')

    kept : str bare k ≡ str o k
    kept =
        str-delete (delete o "generationId") "matrixId" k
        ∙ (if_false ("matrixId" == k) _ _ not_matrix
            ∙ (str-delete o "generationId" k ∙ if_false ("generationId" == k) _ _ not_generation))

-- The id is gone, the name is the one of the group that had it, if there was one, and every key but the
-- two has the text that it had.
pub record IsNamedBy (sgts : List Obj) (id_field name_field : String) (s s' : Moving) : Type 0 where
  pub named :
      (str s.cell id_field == ""
        || names_group (last_name sgts (str s.cell id_field)) (str s'.cell name_field))
      ≡ true
  pub known : IsKnown sgts s'.sgts
  pub gone : str s'.cell id_field ≡ ""
  pub kept :
      (k : String)
      → (id_field == k) ≡ false
      → (name_field == k) ≡ false
      → str s'.cell k ≡ str s.cell k

pub name_group-IsNamedBy :
    (sgts : List Obj) (label id_field name_field : String) (s : Moving)
    → (id_field == name_field) ≡ false
    → IsKnown sgts s.sgts
    → Returns (IsNamedBy sgts id_field name_field s) (name_group label (id_field, name_field) s)
unfolding name_group
name_group-IsNamedBy sgts label id_field name_field s apart h =
    Returns-if (str s.cell id_field == "")
      (λ unset. ends (record {
        named = either (str s.cell id_field == "") _ unset;
        known = h;
        gone = (eq_iff (str s.cell id_field) "").0 unset;
        kept = λ k a b. refl;
      }))
      (λ filled.
        Returns-bind _
          (resolve_name-IsFound path_sgt root_sgt sgts s.sgts (str s.cell id_field) h filled)
          λ r found. ends (record {
            named = or_later (str s.cell id_field == "") _ (
                ap (names_group (last_name sgts (str s.cell id_field))) (
                  str-delete (set s.cell name_field (text r.name)) id_field name_field
                  ∙ (if_false (id_field == name_field) _ _ apart
                      ∙ (str-set_text s.cell name_field r.name name_field
                          ∙ if_true (name_field == name_field) _ _ (eq_refl name_field))))
                ∙ found.named);
            known = found.known;
            gone =
                str-delete (set s.cell name_field (text r.name)) id_field id_field
                ∙ if_true (id_field == id_field) _ _ (eq_refl id_field);
            kept = λ k a b.
                str-delete (set s.cell name_field (text r.name)) id_field k
                ∙ (if_false (id_field == k) _ _ a
                    ∙ (str-set_text s.cell name_field r.name k ∙ if_false (name_field == k) _ _ b));
          }))
  where
    either : (a b : Bool) → a ≡ true → (a || b) ≡ true
    either a b e = ground arith

    or_later : (a b : Bool) → b ≡ true → (a || b) ≡ true
    or_later a b e = ground arith

name_sgacls-cell :
    (label : String) (ids named : List String) (s : Moving)
    → Returns (λ r. (r.1.cell ≡ s.cell) × (r.1.sgts ≡ s.sgts)) (name_sgacls label ids named s)
unfolding name_sgacls
name_sgacls-cell label [] named s = ends (refl, refl)
name_sgacls-cell label (id ∷ ids) named s =
    Returns-any (resolve_name path_sgacl root_sgacl s.sgacls id) _
      λ r. name_sgacls-cell label ids (named ++ (r.name ∷ [])) _

-- Of a key that is not about SGACLs the text is kept.
with_names-kept :
    (named : List String) (s : Moving) (k : String)
    → ("sgacls" == k) ≡ false
    → ("sgaclNames" == k) ≡ false
    → str (with_names (named, s)).cell k ≡ str s.cell k
with_names-kept [] s k a b = str-delete s.cell "sgacls" k ∙ if_false ("sgacls" == k) _ _ a
with_names-kept (n ∷ ns) s k a b =
    str-set_other (delete s.cell "sgacls") "sgaclNames" (texts (n ∷ ns)) k b
    ∙ (str-delete s.cell "sgacls" k ∙ if_false ("sgacls" == k) _ _ a)

-- The SGACLs of a cell are named: what else there is stays, and so does the cache of the groups.
pub record IsListed (s s' : Moving) : Type 0 where
  pub others :
      (k : String)
      → ("sgacls" == k) ≡ false
      → ("sgaclNames" == k) ≡ false
      → str s'.cell k ≡ str s.cell k
  pub same_cache : s'.sgts ≡ s.sgts

with_names-sgts : (named : List String) (s : Moving) → (with_names (named, s)).sgts ≡ s.sgts
with_names-sgts [] s = refl
with_names-sgts (n ∷ ns) s = refl

untouched : (s : Moving) → IsListed s s
untouched s = record { others = λ k a b. refl; same_cache = refl }

pub name_listed-IsListed :
    (label : String) (o : Option Value) (s : Moving) → Returns (IsListed s) (name_listed label o s)
unfolding name_listed
name_listed-IsListed label none s = ends (untouched s)
name_listed-IsListed label (some (arr vs)) s =
    Returns-bind _ (name_sgacls-cell label (names_in vs) [] s) λ (named, s') same. ends (record {
      others = λ k a b. with_names-kept named s' k a b ∙ ap (λ o. str o k) same.0;
      same_cache = with_names-sgts named s' ∙ same.1;
    })
name_listed-IsListed label (some null) s = ends (untouched s)
name_listed-IsListed label (some (bool x)) s = ends (untouched s)
name_listed-IsListed label (some (num x)) s = ends (untouched s)
name_listed-IsListed label (some (text x)) s = ends (untouched s)
name_listed-IsListed label (some (obj x)) s = ends (untouched s)
name_listed-IsListed label (some (texts x)) s = ends (untouched s)
name_listed-IsListed label (some (objs x)) s = ends (untouched s)
