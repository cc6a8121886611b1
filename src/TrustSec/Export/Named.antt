-- ===== src/TrustSec/Export/Named.antt =====
-- trustsec.go: each cell that `ExportTrustSec` reads is in the bundle by the names of its groups.
use ise2ise.Base.{◌≡◌, refl, ◌∙◌, sym, ap, subst, String, List, []}
use Prim.Native.Char.{Char}
use ise2ise.Json.{Obj}
use ise2ise.Request.{Request}
use ise2ise.Prog.{ret, ◌>>=◌, value_against}
use ise2ise.Prog.Returns.{Returns, ends, Returns-bind, value_against-Returns, value_against-bind}
use ise2ise.Ise.Errors.{IseError, Result, ok, err}
use ise2ise.Ise.Decode.{Body, Stub}
use ise2ise.Ise.Calls.{Calls, when_ok, or_zero}
use ise2ise.Ise.Paging.{ers_list}
use ise2ise.Ise.Lookup.{ers_get_all}
use ise2ise.TrustSec.Objects.{
  path_sgt, root_sgt, path_sgacl, root_sgacl, path_egress_cell, root_egress_cell,
}
use ise2ise.TrustSec.Export.{Exported, export_cells, export_trust_sec}
use ise2ise.TrustSec.Export.Cells.{IsCarried, export_cells-IsCarried}

module _ (serve : Request → Result Body) where
  -- The objects of a collection, each read by its id; none if the list or one of them cannot be read.
  abbrev pub objects_at : String → String → List Obj
  objects_at path root = or_zero [] (
      value_against serve
        (ers_get_all path root (or_zero [] (value_against serve (ers_list path)))))

  objects_at_lem :
      (path root : String) (stubs : List Stub) (os : List Obj)
      → value_against serve (ers_list path) ≡ ok stubs
      → value_against serve (ers_get_all path root stubs) ≡ ok os
      → objects_at path root ≡ os
  objects_at_lem path root stubs os e e' =
      ap (λ r. or_zero [] (value_against serve (ers_get_all path root (or_zero [] r)))) e
      ∙ ap (or_zero []) e'

  -- Where an error ends a program, what follows is under the value.
  when_ok-against :
      {A B : Type 0} (P : Result B → Type 0) (m : Calls (Result A)) (context : IseError → IseError)
      (k : A → Calls (Result B))
      → ((e : IseError) → P (err e))
      → ((a : A) → value_against serve m ≡ ok a → P (value_against serve (k a)))
      → P (value_against serve (m >>= λ r. when_ok r context k))
  unfolding value_against
  when_ok-against {A = A} {B = B} P m context k h h' =
      subst P (sym (value_against-bind serve m (λ r. when_ok r context k)))
        (of_result (value_against serve m) refl)
    where
      of_result :
          (r : Result A) → value_against serve m ≡ r → P (value_against serve (when_ok r context k))
      of_result (ok a) e = h' a e
      of_result (err f) e = h (context f)

abbrev pub IsNamedExport : List Obj → List Obj → Result Exported → Type 0
IsNamedExport sgts cells (ok out) = IsCarried sgts cells out.objects
IsNamedExport sgts cells (err e) = Unit

exported-IsNamed :
    (serve : Request → Result Body) (lower : Char → Char) (sgts sgacls cells : List Obj)
    → objects_at serve path_sgt root_sgt ≡ sgts
    → objects_at serve path_egress_cell root_egress_cell ≡ cells
    → IsNamedExport
        (objects_at serve path_sgt root_sgt)
        (objects_at serve path_egress_cell root_egress_cell)
        (value_against serve (export_cells lower sgts sgacls cells >>= λ out. ret (ok out)))
exported-IsNamed serve lower sgts sgacls cells e e' =
    subst (λ os. IsNamedExport os (objects_at serve path_egress_cell root_egress_cell) exported)
      (sym e)
      (subst (λ os. IsNamedExport sgts os exported) (sym e') (value_against-Returns serve returned))
  where
    returned :
        Returns
          (IsNamedExport sgts cells)
          (export_cells lower sgts sgacls cells >>= λ out. ret (ok out))
    returned = Returns-bind _ (export_cells-IsCarried lower sgts sgacls cells) λ out h. ends h

    exported : Result Exported
    exported = value_against serve (export_cells lower sgts sgacls cells >>= λ out. ret (ok out))

-- If the export of a source that answers each request in one way succeeds, then for each egress cell of
-- the source the bundle has a cell with its name that holds no id of a group and, where the source's cell had
-- the id of a group, the name of the last security group of the source with that id, or some name or the
-- id in its place if the source has no such group. No cell of the bundle holds the id of a group.
pub export_trust_sec-IsNamedExport :
    (serve : Request → Result Body) (lower : Char → Char)
    → IsNamedExport
        (objects_at serve path_sgt root_sgt)
        (objects_at serve path_egress_cell root_egress_cell)
        (value_against serve (export_trust_sec lower))
unfolding export_trust_sec
export_trust_sec-IsNamedExport serve lower = stop (ers_list path_sgt) _ _ λ sgt_stubs e.
    stop (ers_get_all path_sgt root_sgt sgt_stubs) _ _ λ sgts e'.
      stop (ers_list path_sgacl) _ _ λ sgacl_stubs _.
        stop (ers_get_all path_sgacl root_sgacl sgacl_stubs) _ _ λ sgacls _.
          stop (ers_list path_egress_cell) _ _ λ cell_stubs f.
            stop (ers_get_all path_egress_cell root_egress_cell cell_stubs) _ _ λ cells f'.
              exported-IsNamed serve lower sgts sgacls cells
                (objects_at_lem serve path_sgt root_sgt sgt_stubs sgts e e')
                (objects_at_lem serve path_egress_cell root_egress_cell cell_stubs cells f f')
  where
    P : Result Exported → Type 0
    P r =
        IsNamedExport (objects_at serve path_sgt root_sgt)
          (objects_at serve path_egress_cell root_egress_cell) r

    stop :
        {A : Type 0} (m : Calls (Result A)) (context : IseError → IseError)
        (k : A → Calls (Result Exported))
        → ((a : A) → value_against serve m ≡ ok a → P (value_against serve (k a)))
        → P (value_against serve (m >>= λ r. when_ok r context k))
    stop m context k h = when_ok-against serve P m context k (λ e. tt) h
