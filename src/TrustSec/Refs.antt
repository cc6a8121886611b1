-- ===== src/TrustSec/Refs.antt =====
-- What `resolveCellRefs` makes of a cell whose names all resolve.
use ise2ise.Base.{◌≡◌, refl, String, false, none, some, List, [], ◌∷◌, ◌==◌}
use ise2ise.Base.{sym, ap, subst, ◌∙◌, Dict, get, is_empty, Option-cases, inl, inr, if◌then◌else◌}
use ise2ise.Json.{text, text_of, arr, Obj, lookup, delete, set, str, name_list, arr_of_texts}
use ise2ise.Json.Laws.{lookup-delete, lookup-set}
use ise2ise.TrustSec.Cell.{
  resolved, Ids, all_ids, no_id, ids_with, ids_for, resolve_cell_refs, with_sgacls,
}

-- Each name has the id that stands at the same place.
pub data HaveIds (m : Dict String) : List String → List String → Type 0 where
  none_named : HaveIds m [] []
  one_more :
      {name id : String} {names ids : List String}
      → get m name ≡ some id
      → HaveIds m names ids
      → HaveIds m (name ∷ names) (id ∷ ids)

all_ids_path : (ids ids' : List String) → all_ids ids ≡ all_ids ids' → ids ≡ ids'
all_ids_path ids ids' h = cc

ids_for-HaveIds :
    (m : Dict String) (names ids : List String)
    → ids_for names m ≡ all_ids ids
    → HaveIds m names ids
unfolding ids_for
ids_for-HaveIds m [] ids h = subst (HaveIds m []) (all_ids_path [] ids h) none_named
ids_for-HaveIds m (name ∷ names) ids h = elim (Option-cases (get m name)) [
  | inl nothing ↦ absurd (cc (rw (nothing, ids_for) at h))
  | inr (id, there) ↦
      of_rest id there (ids_for names m) (λ ids' e. ids_for-HaveIds m names ids' e)
        (rw (there, ids_for) at h)
]
  where
    of_rest :
        (id : String)
        → get m name ≡ some id
        → (i : Ids) → ((ids' : List String) → i ≡ all_ids ids' → HaveIds m names ids')
        → ids_with id i ≡ all_ids ids
        → HaveIds m (name ∷ names) ids
    of_rest id there (no_id n) rest e = absurd (cc e)
    of_rest id there (all_ids ids') rest e =
        subst (HaveIds m (name ∷ names)) (all_ids_path (id ∷ ids') ids e)
          (one_more there (rest ids' refl))

-- The cell names nothing any more, and holds the ids that the names had.
pub record IsResolvedTo (cell : Obj) (sgt_ids sgacl_ids : Dict String) (o : Obj) : Type 0 where
  pub source : get sgt_ids (str cell "sourceSgtName") ≡ some (str o "sourceSgtId")
  pub destination : get sgt_ids (str cell "destinationSgtName") ≡ some (str o "destinationSgtId")
  pub no_source : lookup o "sourceSgtName" ≡ none
  pub no_destination : lookup o "destinationSgtName" ≡ none
  pub no_names : lookup o "sgaclNames" ≡ none

name_list-groups :
    (cell : Obj) (a b : String)
    → name_list
        (set
          (set (delete (delete cell "sourceSgtName") "destinationSgtName") "sourceSgtId" (text a))
          "destinationSgtId"
          (text b))
        "sgaclNames"
      ≡ name_list cell "sgaclNames"
unfolding name_list
name_list-groups cell a b = simp (lookup-set, lookup-delete)

-- The cell with both ids, before the SGACLs are put in.
abbrev with_ids : Obj → String → String → Obj
with_ids cell a b =
    delete
      (set (set (delete (delete cell "sourceSgtName") "destinationSgtName") "sourceSgtId" (text a))
        "destinationSgtId" (text b))
      "sgaclNames"

abbrev with_held : Obj → List String → Obj
with_held o ids = if is_empty ids then o else set o "sgacls" (arr (arr_of_texts ids))

lookup-with_held :
    (o : Obj) (ids : List String) (k : String)
    → ("sgacls" == k) ≡ false
    → lookup (with_held o ids) k ≡ lookup o k
lookup-with_held o [] k h = refl
lookup-with_held o (i ∷ ids) k h = lookup-set o "sgacls" _ k ∙ rw h

held-IsResolvedTo :
    (cell : Obj) (sgt_ids sgacl_ids : Dict String) (a b : String) (ids : List String)
    → get sgt_ids (str cell "sourceSgtName") ≡ some a
    → get sgt_ids (str cell "destinationSgtName") ≡ some b
    → IsResolvedTo cell sgt_ids sgacl_ids (with_held (with_ids cell a b) ids)
unfolding str
held-IsResolvedTo cell sgt_ids sgacl_ids a b ids ha hb = record {
  source = ha ∙ sym (ap (λ v. some (text_of v)) src_held);
  destination = hb ∙ sym (ap (λ v. some (text_of v)) dst_held);
  no_source = at "sourceSgtName" refl ∙ simp (lookup-set, lookup-delete);
  no_destination = at "destinationSgtName" refl ∙ simp (lookup-set, lookup-delete);
  no_names = at "sgaclNames" refl ∙ simp lookup-delete;
}
  where
    at :
        (k : String)
        → ("sgacls" == k) ≡ false
        → lookup (with_held (with_ids cell a b) ids) k ≡ lookup (with_ids cell a b) k
    at k h = lookup-with_held (with_ids cell a b) ids k h

    src_held : lookup (with_held (with_ids cell a b) ids) "sourceSgtId" ≡ some (text a)
    src_held = at "sourceSgtId" refl ∙ simp (lookup-set, lookup-delete)

    dst_held : lookup (with_held (with_ids cell a b) ids) "destinationSgtId" ≡ some (text b)
    dst_held = at "destinationSgtId" refl ∙ simp (lookup-set, lookup-delete)

held_list :
    (cell : Obj) (a b : String) (ids : List String)
    → lookup (with_held (with_ids cell a b) ids) "sgacls"
      ≡ (if is_empty ids then lookup cell "sgacls" else some (arr (arr_of_texts ids)))
held_list cell a b [] = simp (lookup-set, lookup-delete)
held_list cell a b (i ∷ ids) = lookup-set (with_ids cell a b) "sgacls" _ "sgacls"

resolved_path : (o p : Obj) → resolved o ≡ resolved p → o ≡ p
resolved_path o p h = cc

-- The cell, and the ids of its SGACLs.
abbrev Resolves : Obj → Dict String → Dict String → Obj → Type 0
Resolves cell sgt_ids sgacl_ids o =
    IsResolvedTo cell sgt_ids sgacl_ids o
    × ((ids : List String) × HaveIds sgacl_ids (name_list cell "sgaclNames") ids
        × (lookup o "sgacls"
            ≡ (if is_empty ids then lookup cell "sgacls" else some (arr (arr_of_texts ids)))))

with_sgacls-Resolves :
    (cell : Obj) (sgt_ids sgacl_ids : Dict String) (a b : String) (o : Obj) (i : Ids)
    → get sgt_ids (str cell "sourceSgtName") ≡ some a
    → get sgt_ids (str cell "destinationSgtName") ≡ some b
    → ids_for (name_list cell "sgaclNames") sgacl_ids ≡ i
    → with_sgacls (with_ids cell a b) i ≡ resolved o
    → Resolves cell sgt_ids sgacl_ids o
with_sgacls-Resolves cell sgt_ids sgacl_ids a b o (no_id name) ha hb hi h = absurd (cc h)
with_sgacls-Resolves cell sgt_ids sgacl_ids a b o (all_ids ids) ha hb hi h =
    subst (Resolves cell sgt_ids sgacl_ids) (resolved_path (with_held (with_ids cell a b) ids) o h)
      (
        held-IsResolvedTo cell sgt_ids sgacl_ids a b ids ha hb,
        (ids, ids_for-HaveIds sgacl_ids _ ids hi, held_list cell a b ids),
      )

groups_found :
    (cell : Obj) (sgt_ids sgacl_ids : Dict String) (a b : String)
    → get sgt_ids (str cell "sourceSgtName") ≡ some a
    → get sgt_ids (str cell "destinationSgtName") ≡ some b
    → resolve_cell_refs cell sgt_ids sgacl_ids
      ≡ with_sgacls (with_ids cell a b) (ids_for (name_list cell "sgaclNames") sgacl_ids)
unfolding resolve_cell_refs
groups_found cell sgt_ids sgacl_ids a b ha hb =
    rw (ha, hb, resolve_cell_refs)
      (ap (λ n. with_sgacls (with_ids cell a b) (ids_for n sgacl_ids)) (name_list-groups cell a b))

-- If `resolveCellRefs` gives a cell, it carries the target's ids of the source and the destination
-- group that the bundle's cell names, holds no name of a group or of an SGACL any more, and every
-- SGACL it named has an id on the target, of which "sgacls" holds the list in the order of the names; if
-- it named none, "sgacls" stays as it was.
pub resolve_cell_refs_lem :
    (cell : Obj) (sgt_ids sgacl_ids : Dict String) (o : Obj)
    → resolve_cell_refs cell sgt_ids sgacl_ids ≡ resolved o
    → Resolves cell sgt_ids sgacl_ids o
unfolding resolve_cell_refs
resolve_cell_refs_lem cell sgt_ids sgacl_ids o h =
    elim (Option-cases (get sgt_ids (str cell "sourceSgtName"))) [
      | inl no_src ↦ absurd (cc (rw (no_src, resolve_cell_refs) at h))
      | inr (a, ha) ↦ elim (Option-cases (get sgt_ids (str cell "destinationSgtName"))) [
        | inl no_dst ↦ absurd (cc (rw (ha, no_dst, resolve_cell_refs) at h))
        | inr (b, hb) ↦
            with_sgacls-Resolves cell sgt_ids sgacl_ids a b o
              (ids_for (name_list cell "sgaclNames") sgacl_ids) ha hb refl
              (sym (groups_found cell sgt_ids sgacl_ids a b ha hb) ∙ h)
      ]
    ]
