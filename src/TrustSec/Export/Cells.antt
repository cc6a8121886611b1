-- ===== src/TrustSec/Export/Cells.antt =====
-- trustsec.go: the loop over the cells, and the sorting of the objects.
use ise2ise.Base.{◌≡◌, refl, ◌∙◌, sym, ap, String, Bool, true, false, List, [], ◌∷◌, ◌++◌}
use ise2ise.Base.{◌==◌, not, ◌&&◌, ◌||◌, any, every, any-append, every-append, map, arith}
use Prim.Native.Char.{Char}
use ise2ise.Json.{text, Obj, set}
use ise2ise.Json.Laws.{str-set_text}
use ise2ise.Prog.{for_each}
use ise2ise.Prog.Returns.{Returns, ends, Returns-bind, Returns-mono}
use ise2ise.Sort.{sort}
use ise2ise.Sort.Laws.{every-sort}
use ise2ise.TrustSec.Objects.{kind_egress_cell, kind_sgt, kind_sgacl}
use ise2ise.TrustSec.Export.{Moving, comes_before, move_cell, export_cells, portable_as}
use ise2ise.TrustSec.Export.Known.{IsKnown, names_by_id-IsKnown}
use ise2ise.TrustSec.Export.Kept.{str-portable_trust_sec}
use ise2ise.TrustSec.Export.Carried.{is_named, carries, IsMoved, move_cell-IsMoved}

-- Each cell is carried by an object, and no object has the id of a group.
pub record IsCarried (sgts cells out : List Obj) : Type 0 where
  pub carried : every (λ cell. any (carries sgts cell) out) cells ≡ true
  pub bare : every is_named out ≡ true

-- After some of the cells, none of what was there before is lost.
record IsOnTheWay (sgts cells out : List Obj) (r : List Obj × Moving) : Type 0 where
  kept : (p : Obj → Bool) → any p out ≡ true → any p r.0 ≡ true
  all_there : every (λ cell. any (carries sgts cell) r.0) cells ≡ true
  all_bare : every is_named r.0 ≡ true

or_left : (a b : Bool) → a ≡ true → (a || b) ≡ true
or_left a b h = ground arith

or_right : (a b : Bool) → b ≡ true → (a || b) ≡ true
or_right a b h = ground arith

both : (a b : Bool) → a ≡ true → b ≡ true → (a && b) ≡ true
both a b h h' = ground arith

cells-IsOnTheWay :
    (sgts cells out : List Obj) (s : Moving)
    → every is_named out ≡ true
    → IsKnown sgts s.sgts
    → Returns (IsOnTheWay sgts cells out) (for_each cells (out, s) move_cell)
unfolding for_each
cells-IsOnTheWay sgts [] out s bare known =
    ends (record { kept = λ p h. h; all_there = refl; all_bare = bare })
cells-IsOnTheWay sgts (cell ∷ cells) out s bare known =
    Returns-bind _ (move_cell-IsMoved sgts cell s out known) λ (out', s') m.
      Returns-mono (cells-IsOnTheWay sgts cells out' s' (bare_after out' m) m.known) λ r h. record {
        kept = λ p there.
            h.kept p (
              ap (any p) m.added ∙ (any-append p out (m.moved ∷ []) ∙ or_left (any p out) _ there));
        all_there =
            both _ _
              (h.kept (carries sgts cell) (
                ap (any (carries sgts cell)) m.added
                ∙ (any-append (carries sgts cell) out (m.moved ∷ [])
                    ∙ or_right (any (carries sgts cell) out) _
                        (or_left (carries sgts cell m.moved) false m.carried))))
              h.all_there;
        all_bare = h.all_bare;
      }
  where
    bare_after :
        {s' : Moving} (out' : List Obj)
        → IsMoved sgts cell out (out', s')
        → every is_named out' ≡ true
    bare_after out' m =
        ap (every is_named) m.added
        ∙ (every-append is_named out (m.moved ∷ [])
            ∙ both (every is_named out) _ bare (both (is_named m.moved) true m.bare refl))

any-every : (p : Obj → Bool) (os : List Obj) → any p os ≡ not (every (λ o. not (p o)) os)
any-every p [] = refl
any-every p (o ∷ os) = ground (arith, any-every p os)

any-sort :
    (less : Obj → Obj → Bool) (p : Obj → Bool) (os : List Obj) → any p (sort less os) ≡ any p os
any-sort less p os =
    any-every p (sort less os)
    ∙ (ap not (every-sort less (λ o. not (p o)) os) ∙ sym (any-every p os))

every_same : (p q : Obj → Bool) (os : List Obj) → ((o : Obj) → p o ≡ q o) → every p os ≡ every q os
every_same p q [] h = refl
every_same p q (o ∷ os) h = ap (λ b. b && every p os) (h o) ∙ ap (q o &&◌) (every_same p q os h)

-- A group or an SGACL is no cell.
portable_as-is_named :
    (kind : String) (os : List Obj)
    → (kind == kind_egress_cell) ≡ false
    → every is_named (map (portable_as kind) os) ≡ true
portable_as-is_named kind [] e = refl
portable_as-is_named kind (o ∷ os) e =
    rw
      (
        str-portable_trust_sec (set o "kind" (text kind)) "kind" refl refl refl refl
            ∙ str-set_text o "kind" kind "kind",
        e,
      )
      (portable_as-is_named kind os e)

pub export_cells-IsCarried :
    (lower : Char → Char) (sgts sgacls cells : List Obj)
    → Returns (λ out. IsCarried sgts cells out.objects) (export_cells lower sgts sgacls cells)
export_cells-IsCarried lower sgts sgacls cells =
    Returns-bind _ (cells-IsOnTheWay sgts cells _ _ others (names_by_id-IsKnown sgts)) λ moved h.
      ends (record {
        carried =
            every_same _ _ cells (λ cell. any-sort (comes_before lower) (carries sgts cell) moved.0)
            ∙ h.all_there;
        bare = every-sort (comes_before lower) is_named moved.0 ∙ h.all_bare;
      })
  where
    others :
        every is_named (map (portable_as kind_sgt) sgts ++ map (portable_as kind_sgacl) sgacls)
        ≡ true
    others =
        every-append is_named (map (portable_as kind_sgt) sgts)
          (map (portable_as kind_sgacl) sgacls)
        ∙ both _ _ (portable_as-is_named kind_sgt sgts refl)
            (portable_as-is_named kind_sgacl sgacls refl)
