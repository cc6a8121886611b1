-- ===== src/Translate/Rows.antt =====
-- translate.go: the part of `Translate` that writes the rows, and `Translate` itself. A masked label is
-- never empty, since its key holds one of the words for a secret.
pub mod Placed
pub mod Specified
pub mod Counts
use Prim.Native.Char.{Char}
use ise2ise.Base.{ℕ, ◌+◌, String, Bool, true, false, Option, none, some, List, [], ◌∷◌, ◌==◌, ◌&&◌}
use ise2ise.Base.{not, contains, Dict, get, if◌then◌else◌}
use ise2ise.Message.{Message, Piece, lit, quoted, shown, said}
use ise2ise.Ise.Errors.{Result, ok, err, failed, within}
use ise2ise.Texts.{trim_text}
use ise2ise.Translate.Labels.{
  key_of, label_key, column_label, node_labels, secret_label, is_masked, at, has_content, trim_bom,
}
use ise2ise.Translate.Columns.{Columns, index_columns, choose_columns, unmapped, takes_node}

-- A record, or the label of a masked secret.
pub data Filled : Type 0 where
  filled : List String → Filled
  masked : String → Filled

abbrev pub cons_value : String → Filled → Filled
cons_value v (filled vs) = filled (v ∷ vs)
cons_value v (masked label) = masked label

-- What the loop over the rows leaves: the records and the counts of the report.
pub record Written : Type 0 where
  pub records : List (List String)
  pub source_rows : ℕ
  pub written_rows : ℕ
  pub refused : List Message

abbrev pub refusing : Message → Written → Written
refusing m w = record w { source_rows = w.source_rows + 1; refused = m ∷ w.refused }

abbrev pub writing : String → Filled → Written → Written
writing name (masked label) w =
    refusing
      (shown name
        ∷ lit ": "
        ∷ quoted label
        ∷ lit " is masked in the source export, not a usable secret"
        ∷ [])
      w
writing name (filled rec) w = record w {
  records = rec ∷ w.records;
  source_rows = w.source_rows + 1;
  written_rows = w.written_rows + 1;
}

pub record Report : Type 0 where
  pub source_rows : ℕ
  pub written_rows : ℕ
  pub mapped : List String
  pub dropped_ro : List String
  pub unmapped_src : List String
  pub empty_target : List String
  pub node_rewrites : List String
  pub refused : List Message

abbrev pub without_bom : List String → List String
without_bom [] = []
without_bom (h ∷ hs) = trim_bom h ∷ hs

module _ (lower : Char → Char) (target_node : String) where
  -- The value that goes into a column.
  unfoldable pub carried : String → String → String
  unfolding trim_text
  carried key v =
      if takes_node lower target_node key && not (trim_text v == "") then target_node else v

  -- The loop over `pick`, for one row.
  unfoldable pub fill : List String → List String → List (Option ℕ) → Filled
  unfolding at secret_label is_masked carried column_label
  fill header row [] = filled []
  fill header row (none ∷ picks) = cons_value "" (fill header row picks)
  fill header row (some j ∷ picks) =
      let key = key_of lower (at header j) in
      let rest = fill header row picks in
      if secret_label key && is_masked (at row j)
      then masked (column_label (at header j))
      else cons_value (carried key (at row j)) rest

  unfoldable pub write_rows : List String → ℕ → List (Option ℕ) → List (List String) → Written
  unfolding fill has_content trim_text at
  write_rows header name_col picks [] = record {
    records = [];
    source_rows = 0;
    written_rows = 0;
    refused = [];
  }
  write_rows header name_col picks (row ∷ rows) =
      let rest = write_rows header name_col picks rows in
      let name = at row name_col in
      if not (has_content row)
      then rest
      else if trim_text name == ""
      then refusing (said "(row with no Name): skipped") rest
      else writing name (fill header row picks) rest

  abbrev pub report_of : Columns → List String → Written → Report
  report_of c lost w = record {
    source_rows = w.source_rows;
    written_rows = w.written_rows;
    mapped = c.mapped;
    dropped_ro = c.dropped_ro;
    unmapped_src = lost;
    empty_target = c.empty_target;
    node_rewrites = c.node_rewrites;
    refused = w.refused;
  }

  abbrev pub with_name_column :
      List String
      → List (List String)
      → List String
      → Columns
      → Option ℕ
      → Result (List (List String) × Report)
  with_name_column header rows target c none =
      err (failed (said "source CSV has no Name column; is this an ISE network device export?"))
  with_name_column header rows target c (some name_col) =
      let w = write_rows header name_col c.picks rows in
      ok (target ∷ w.records, report_of c (unmapped lower c.picks 0 header) w)

  -- From the header and the rows of the source and the header of the template.
  unfoldable pub translate_rows :
      List String → List (List String) → List String → Result (List (List String) × Report)
  unfolding write_rows index_columns choose_columns unmapped trim_bom get label_key
  translate_rows source_header rows template_header =
      let header = without_bom source_header in
      let target = without_bom template_header in
      let idx = index_columns lower 0 header [] in
      with_name_column header rows target (choose_columns lower idx target_node target)
        (get idx (label_key lower "Name"))

  -- `parseCSV`: at least one row, by the reader of encoding/csv.
  abbrev pub parsed :
      String → Result (List (List String)) → Result (List String × List (List String))
  parsed what (err e) = err (within (said what) e)
  parsed what (ok []) = err (within (said what) (failed (said "file is empty")))
  parsed what (ok (header ∷ rows)) = ok (header, rows)

  abbrev pub both_parsed :
      Result (List String × List (List String))
      → Result (List String × List (List String))
      → Result (List (List String) × Report)
  both_parsed (err e) tmpl = err e
  both_parsed (ok src) (err e) = err e
  both_parsed (ok (header, rows)) (ok (target, _)) = translate_rows header rows target

  -- `Translate`, up to the CSV writer.
  unfoldable pub translate :
      (String → Result (List (List String)))
      → String
      → String
      → Result (List (List String) × Report)
  unfolding translate_rows
  translate read_csv source template =
      both_parsed (parsed "source CSV" (read_csv source))
        (parsed "target template CSV" (read_csv template))
