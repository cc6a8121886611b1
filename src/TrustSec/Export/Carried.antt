-- ===== src/TrustSec/Export/Carried.antt =====
-- trustsec.go: what the export makes of one cell.
use ise2ise.Base.{◌≡◌, refl, ◌∙◌, ap, sym, String, Bool, true, false, List, [], ◌∷◌, ◌++◌, ◌==◌}
use ise2ise.Base.{not, ◌&&◌, ◌||◌, eq_iff, arith, subst}
use ise2ise.Json.{text, Obj, lookup, set, str}
use ise2ise.Json.Laws.{str-set_text}
use ise2ise.Prog.Returns.{Returns, ends, Returns-bind}
use ise2ise.TrustSec.Objects.{kind_egress_cell, portable_trust_sec}
use ise2ise.TrustSec.Export.{Moving, move_cell}
use ise2ise.TrustSec.Export.Known.{last_name, names_group, IsKnown}
use ise2ise.TrustSec.Export.Kept.{
  IsNamedBy, IsListed, name_group-IsNamedBy, name_listed-IsListed, str-portable_trust_sec,
}

-- No egress cell, or one without the id of a group.
abbrev pub is_named : Obj → Bool
is_named o =
    not (str o "kind" == kind_egress_cell)
    || (str o "sourceSgtId" == "" && str o "destinationSgtId" == "")

-- Where the cell had the id of a group, the object has the name of that group.
abbrev pub names_it : List Obj → String → String → Obj → Obj → Bool
names_it sgts id_field name_field cell o =
    str cell id_field == "" || names_group (last_name sgts (str cell id_field)) (str o name_field)

-- The object is the cell of that name, without the ids of its groups and with their names.
abbrev pub carries : List Obj → Obj → Obj → Bool
carries sgts cell o =
    str o "kind" == kind_egress_cell
    && (str o "name" == str cell "name"
        && (is_named o
            && (names_it sgts "sourceSgtId" "sourceSgtName" cell o
                && names_it sgts "destinationSgtId" "destinationSgtName" cell o)))

-- A cell has been added behind the others.
pub record IsMoved (sgts : List Obj) (cell : Obj) (out : List Obj) (r : List Obj × Moving)
    : Type 0 where
  pub moved : Obj
  pub added : r.0 ≡ out ++ (moved ∷ [])
  pub carried : carries sgts cell moved ≡ true
  pub bare : is_named moved ≡ true
  pub known : IsKnown sgts r.1.sgts

five :
    (a b c d e : Bool)
    → a ≡ true
    → b ≡ true
    → c ≡ true
    → d ≡ true
    → e ≡ true
    → (a && (b && (c && (d && e)))) ≡ true
five a b c d e h h' h'' i i' = ground arith

without_ids : (a b c : Bool) → b ≡ true → c ≡ true → (a || (b && c)) ≡ true
without_ids a b c h h' = ground arith

module _ (sgts : List Obj) (cell : Obj) (s : Moving) where
  abbrev start : Moving
  start = record s { cell = set cell "kind" (text kind_egress_cell) }

  -- The text of a key after the three steps, if none of them is about it.
  through :
      (s1 s2 s3 : Moving) (k : String)
      → IsNamedBy sgts "sourceSgtId" "sourceSgtName" start s1
      → IsNamedBy sgts "destinationSgtId" "destinationSgtName" s1 s2
      → IsListed s2 s3
      → ("sourceSgtId" == k) ≡ false
      → ("sourceSgtName" == k) ≡ false
      → ("destinationSgtId" == k) ≡ false
      → ("destinationSgtName" == k) ≡ false
      → ("sgacls" == k) ≡ false
      → ("sgaclNames" == k) ≡ false
      → str s3.cell k ≡ str start.cell k
  through s1 s2 s3 k one two three a b c d e f =
      three.others k e f ∙ (two.kept k c d ∙ one.kept k a b)

  of_steps :
      (out : List Obj) (s1 s2 s3 : Moving)
      → IsNamedBy sgts "sourceSgtId" "sourceSgtName" start s1
      → IsNamedBy sgts "destinationSgtId" "destinationSgtName" s1 s2
      → IsListed s2 s3
      → IsMoved sgts cell out (out ++ (portable_trust_sec s3.cell ∷ []), s3)
  of_steps out s1 s2 s3 one two three = record {
    moved = portable_trust_sec s3.cell;
    added = refl;
    carried =
        five _ _ _ _ _ ((eq_iff (str o "kind") kind_egress_cell).1 kind)
          ((eq_iff (str o "name") (str cell "name")).1 name) bare source destination;
    bare = bare;
    known = subst (IsKnown sgts) (sym three.same_cache) two.known;
  }
    where
      o : Obj
      o = portable_trust_sec s3.cell

      kind : str o "kind" ≡ kind_egress_cell
      kind =
          str-portable_trust_sec s3.cell "kind" refl refl refl refl
          ∙ (through s1 s2 s3 "kind" one two three refl refl refl refl refl refl
              ∙ str-set_text cell "kind" kind_egress_cell "kind")

      name : str o "name" ≡ str cell "name"
      name =
          str-portable_trust_sec s3.cell "name" refl refl refl refl
          ∙ (through s1 s2 s3 "name" one two three refl refl refl refl refl refl
              ∙ str-set_text cell "kind" kind_egress_cell "name")

      no_source : str o "sourceSgtId" ≡ ""
      no_source =
          str-portable_trust_sec s3.cell "sourceSgtId" refl refl refl refl
          ∙ (three.others "sourceSgtId" refl refl ∙ (two.kept "sourceSgtId" refl refl ∙ one.gone))

      no_destination : str o "destinationSgtId" ≡ ""
      no_destination =
          str-portable_trust_sec s3.cell "destinationSgtId" refl refl refl refl
          ∙ (three.others "destinationSgtId" refl refl ∙ two.gone)

      bare : is_named o ≡ true
      bare =
          without_ids _ _ _ ((eq_iff (str o "sourceSgtId") "").1 no_source)
            ((eq_iff (str o "destinationSgtId") "").1 no_destination)

      source_name : str o "sourceSgtName" ≡ str s1.cell "sourceSgtName"
      source_name =
          str-portable_trust_sec s3.cell "sourceSgtName" refl refl refl refl
          ∙ (three.others "sourceSgtName" refl refl ∙ two.kept "sourceSgtName" refl refl)

      destination_name : str o "destinationSgtName" ≡ str s2.cell "destinationSgtName"
      destination_name =
          str-portable_trust_sec s3.cell "destinationSgtName" refl refl refl refl
          ∙ three.others "destinationSgtName" refl refl

      judged : String → String → Bool
      judged id n = id == "" || names_group (last_name sgts id) n

      source : names_it sgts "sourceSgtId" "sourceSgtName" cell o ≡ true
      source =
          ap (judged (str cell "sourceSgtId")) source_name
          ∙ (ap (λ id. judged id (str s1.cell "sourceSgtName"))
                (sym (str-set_text cell "kind" kind_egress_cell "sourceSgtId"))
              ∙ one.named)

      destination : names_it sgts "destinationSgtId" "destinationSgtName" cell o ≡ true
      destination =
          ap (judged (str cell "destinationSgtId")) destination_name
          ∙ (ap (λ id. judged id (str s2.cell "destinationSgtName"))
                (sym (
                  one.kept "destinationSgtId" refl refl
                  ∙ str-set_text cell "kind" kind_egress_cell "destinationSgtId"))
              ∙ two.named)

  pub move_cell-IsMoved :
      (out : List Obj)
      → IsKnown sgts s.sgts
      → Returns (IsMoved sgts cell out) (move_cell cell (out, s))
  unfolding move_cell
  move_cell-IsMoved out h =
      Returns-bind _
        (name_group-IsNamedBy sgts (str cell "name") "sourceSgtId" "sourceSgtName" start refl h)
        λ s1 one.
          Returns-bind _
            (name_group-IsNamedBy sgts (str cell "name") "destinationSgtId" "destinationSgtName" s1
              refl one.known)
            λ s2 two.
              Returns-bind _ (name_listed-IsListed (str cell "name") (lookup s2.cell "sgacls") s2)
                λ s3 three. ends (of_steps out s1 s2 s3 one two three)
