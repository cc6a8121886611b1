-- ===== src/TrustSec/Export.antt =====
-- trustsec.go: `ExportTrustSec`, with its notes, and `sgtNamesAfterThisRun`. The lower case of a
-- character and what `fmt` prints of a name are parameters.
pub mod Kept
pub mod Known
pub mod Carried
pub mod Cells
pub mod Named
use Prim.Native.Char.{Char}
use ise2ise.Base.{
  String, Bool, true, false, Option, some, List, [], ◌∷◌, ◌++◌, ◌==◌, ◌&&◌, map, nat_eq,
}
use ise2ise.Base.{ltb, Dict, Names, add_name, if◌then◌else◌}
use ise2ise.Json.{Value, text, texts, arr, Obj, end, lookup, delete, set, str, names_in}
use ise2ise.Message.{Message, lit, quoted, shown, said}
use ise2ise.Prog.{ret, ◌>>=◌, for_each}
use ise2ise.Sort.{before, sort}
use ise2ise.Texts.{map_text}
use ise2ise.Ise.Errors.{Result, ok}
use ise2ise.Ise.Calls.{Calls, when_ok, because, or_zero}
use ise2ise.Ise.Paging.{ers_list}
use ise2ise.Ise.Lookup.{ers_get_all, names_by_id, resolve_name}
use ise2ise.Import.{stub_names}
use ise2ise.Report.{Item, Report, is_create, same_family, trust_sec}
use ise2ise.TrustSec.Objects.{
  kind_sgt, kind_sgacl, kind_egress_cell, kind_rank, path_sgt, root_sgt, path_sgacl, root_sgacl,
  path_egress_cell, root_egress_cell, portable_trust_sec,
}

-- A cell on its way into the bundle, with the caches of both resolvers and the notes.
pub record Moving : Type 0 where
  pub cell : Obj
  pub sgts : Dict String
  pub sgacls : Dict String
  pub notes : List Message

abbrev noted_if : Bool → Message → List Message → List Message
noted_if true m notes = notes
noted_if false m notes = notes ++ (m ∷ [])

abbrev unreadable : String → String → String → Message
unreadable label what id =
    lit "Egress cell "
    ∷ quoted label
    ∷ lit " names "
    ∷ lit what
    ∷ lit " ISE would not return ("
    ∷ shown id
    ∷ lit "); the cell is carried with the id in place of the name and will be blocked on import."
    ∷ []

-- One of the two groups of a cell: the id becomes a name, or stays in its place.
unfoldable pub name_group : String → String × String → Moving → Calls Moving
unfolding str set delete
name_group label (id_field, name_field) s =
    let resolved = do
      r ← resolve_name path_sgt root_sgt s.sgts (str s.cell id_field)
      ret (record s {
        cell = delete (set s.cell name_field (text r.name)) id_field;
        sgts = r.cache;
        notes =
            noted_if r.found (unreadable label "a security group" (str s.cell id_field)) s.notes;
      })
    in if str s.cell id_field == "" then ret s else resolved

-- The loop over the ids of the SGACLs of a cell: the names in order, and the rest of the state.
unfoldable pub name_sgacls :
    String → List String → List String → Moving → Calls (List String × Moving)
name_sgacls label [] named s = ret (named, s)
name_sgacls label (id ∷ ids) named s = do
  r ← resolve_name path_sgacl root_sgacl s.sgacls id
  name_sgacls label ids (named ++ (r.name ∷ [])) (record s {
    sgacls = r.cache;
    notes = noted_if r.found (unreadable label "an SGACL" id) s.notes;
  })

abbrev with_names : List String × Moving → Moving
with_names ([], s) = record s { cell = delete s.cell "sgacls" }
with_names (n ∷ ns, s) = record s {
  cell = set (delete s.cell "sgacls") "sgaclNames" (texts (n ∷ ns));
}

unfoldable pub name_listed : String → Option Value → Moving → Calls Moving
unfolding name_sgacls names_in set delete
name_listed label (some (arr vs)) s = do
  named ← name_sgacls label (names_in vs) [] s
  ret (with_names named)
name_listed label _ s = ret s

-- One cell of the source.
unfoldable pub move_cell : Obj → List Obj × Moving → Calls (List Obj × Moving)
unfolding name_group name_listed set lookup str portable_trust_sec
move_cell cell (out, s) =
    let label = str cell "name" in
    do
      s1 ←
          name_group label ("sourceSgtId", "sourceSgtName")
            (record s { cell = set cell "kind" (text kind_egress_cell) })
      s2 ← name_group label ("destinationSgtId", "destinationSgtName") s1
      s3 ← name_listed label (lookup s2.cell "sgacls") s2
      ret (out ++ (portable_trust_sec s3.cell ∷ []), s3)

abbrev portable_as : String → Obj → Obj
portable_as kind o = portable_trust_sec (set o "kind" (text kind))

-- The objects of the bundle, and its notes.
pub record Exported : Type 0 where
  pub objects : List Obj
  pub notes : List Message

abbrev closing_note : List Obj → List Message
closing_note [] = []
closing_note (o ∷ os) =
    said
      "TrustSec objects are created on the target but not pushed to network devices: deploy the matrix from the target's own TrustSec pages once the import is confirmed."
    ∷ []

module _ (lower : Char → Char) where
  -- The comparison of `sort.Slice`.
  unfoldable pub comes_before : Obj → Obj → Bool
  unfolding before map_text kind_rank str
  comes_before a b =
      if nat_eq (kind_rank (str a "kind")) (kind_rank (str b "kind"))
      then before (map_text lower (str a "name")) (map_text lower (str b "name"))
      else ltb (kind_rank (str a "kind")) (kind_rank (str b "kind"))

  abbrev export_cells : List Obj → List Obj → List Obj → Calls Exported
  export_cells sgts sgacls cells = do
    moved ←
        for_each cells
          (
            map (portable_as kind_sgt) sgts ++ map (portable_as kind_sgacl) sgacls,
            record {
              cell = end;
              sgts = names_by_id sgts [];
              sgacls = names_by_id sgacls [];
              notes = [];
            },
          )
          move_cell
    ret (record {
      objects = sort comes_before moved.0;
      notes = moved.1.notes ++ closing_note moved.0;
    })

  unfoldable pub export_trust_sec : Calls (Result Exported)
  unfolding move_cell comes_before portable_trust_sec set
  export_trust_sec = do
    sgt_stubs ← ers_list path_sgt
    when_ok sgt_stubs (because "listing security groups") λ listed_sgts. do
      read_sgts ← ers_get_all path_sgt root_sgt listed_sgts
      when_ok read_sgts (because "reading security groups") λ sgts. do
        sgacl_stubs ← ers_list path_sgacl
        when_ok sgacl_stubs (because "listing SGACLs") λ listed_sgacls. do
          read_sgacls ← ers_get_all path_sgacl root_sgacl listed_sgacls
          when_ok read_sgacls (because "reading SGACLs") λ sgacls. do
            cell_stubs ← ers_list path_egress_cell
            when_ok cell_stubs (because "listing egress matrix cells") λ listed_cells. do
              read_cells ← ers_get_all path_egress_cell root_egress_cell listed_cells
              when_ok read_cells (because "reading egress matrix cells")
                  λ cells. do exported ← export_cells sgts sgacls cells; ret (ok exported)

module _ (render : Message → String) where
  abbrev created_sgts : List Item → Names → Names
  created_sgts [] m = m
  created_sgts (it ∷ items) m = created_sgts items (
      if same_family it.family trust_sec && (is_create it.action && str it.obj "kind" == kind_sgt)
      then add_name m (render it.name)
      else m)

  -- `sgtNamesAfterThisRun`
  unfoldable pub sgt_names_after_this_run : Report → Calls Names
  sgt_names_after_this_run r = do
    stubs ← ers_list path_sgt
    ret (created_sgts r.items (stub_names (or_zero [] stubs) []))
