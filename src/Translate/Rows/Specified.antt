-- ===== src/Translate/Rows/Specified.antt =====
-- translate.go: what `Translate` leaves.
use Prim.Native.Char.{Char}
use ise2ise.Base.{◌≡◌, refl, ℕ, ◌+◌, String, Bool, true, false, Option, none, some, List}
use ise2ise.Base.{[], ◌∷◌, ◌==◌, Dict, get, put, get-put, any, ◌||◌, All, arith}
use ise2ise.Base.{if◌then◌else◌, ap, ◌∙◌, sym}
use ise2ise.Ise.Errors.{Result, ok, err}
use ise2ise.Translate.Labels.{key_of, label_key, at}
use ise2ise.Translate.Columns.{Columns, index_columns, choose_columns}
use ise2ise.Translate.Rows.{write_rows, Report, with_name_column, translate_rows, without_bom}
use ise2ise.Translate.Rows.Placed.{
  Comes, Aligned, AllCome, choose_columns-Aligned, index_columns-IsIndex, write_rows-AllCome,
}

-- The first line is the template's header, and each further one comes from a row of the source.
pub record IsTranslated (lower : Char → Char) (target_node : String) (source_header : List String)
    (rows : List (List String)) (template_header : List String) (out : List (List String) × Report)
    : Type 0 where
  pub recs : List (List String)
  pub headed : out.0 ≡ without_bom template_header ∷ recs
  pub placed :
      All
        (λ rec.
          Comes lower target_node
            (without_bom source_header)
            (without_bom template_header)
            rec
            rows)
        recs

abbrev pub has_label : (Char → Char) → String → List String → Bool
has_label lower k header = any (λ h. key_of lower h == k) header

both_false : (a b : Bool) → a ≡ false → b ≡ false → (a || b) ≡ false
both_false true b h h' = h
both_false false b h h' = h'

index_columns-none :
    (lower : Char → Char) (k : String) (i : ℕ) (hs : List String) (m : Dict ℕ)
    → get (index_columns lower i hs m) k ≡ none
    → (get m k ≡ none) × (has_label lower k hs ≡ false)
unfolding index_columns
index_columns-none lower k i [] m h = (h, refl)
index_columns-none lower k i (x ∷ xs) m h =
    let (unset, rest) = index_columns-none lower k (i + 1) xs (put m (key_of lower x) i) h in
    let (other, before) =
      of_test (key_of lower x == k) (sym (get-put m (key_of lower x) k i) ∙ unset) in
    (before, both_false (key_of lower x == k) (has_label lower k xs) other rest)
  where
    of_test : (b : Bool) → (if b then some i else get m k) ≡ none → (b ≡ false) × (get m k ≡ none)
    of_test true e = absurd (cc e)
    of_test false e = (refl, e)

-- What `Translate` leaves: a translation, or an error where no label is "Name".
abbrev pub AsSpecified :
    (Char → Char)
    → String
    → List String
    → List (List String)
    → List String
    → Result (List (List String) × Report)
    → Type 0
AsSpecified lower target_node header rows template (ok out) =
    IsTranslated lower target_node header rows template out
AsSpecified lower target_node header rows template (err e) =
    has_label lower (label_key lower "Name") (without_bom header) ≡ false

-- `Translate` fails on parsed files only if no column of the source has the key of "Name". Else it
-- writes the template's header and then records as wide as it, each from a row of the source: under
-- each column stands nothing, or the value of a source column whose label has the same key, with a
-- node's name replaced by the target node where one is given, and never a masked secret.
pub translate_rows-AsSpecified :
    (lower : Char → Char) (target_node : String) (source_header : List String)
    (rows : List (List String)) (template_header : List String)
    → AsSpecified lower target_node source_header rows template_header
        (translate_rows lower target_node source_header rows template_header)
unfolding translate_rows AllCome
translate_rows-AsSpecified lower target_node source_header rows template_header =
    of_name (get idx (label_key lower "Name")) refl
  where
    header : List String
    header = without_bom source_header

    target : List String
    target = without_bom template_header

    idx : Dict ℕ
    idx = index_columns lower 0 header []

    c : Columns
    c = choose_columns lower idx target_node target

    aligned : Aligned lower target_node header target c.picks
    aligned = choose_columns-Aligned lower target_node header idx target (
        index_columns-IsIndex lower target_node header 0 header []
          (λ n. ap (at header) (omega arith)) (λ k j e. absurd (cc e)))

    of_name :
        (o : Option ℕ)
        → get idx (label_key lower "Name") ≡ o
        → AsSpecified lower target_node source_header rows template_header
            (with_name_column lower target_node header rows target c o)
    of_name none e = (index_columns-none lower (label_key lower "Name") 0 header [] e).1
    of_name (some name_col) e = record {
      recs = (write_rows lower target_node header name_col c.picks rows).records;
      headed = refl;
      placed = write_rows-AllCome lower target_node header name_col target c.picks rows aligned;
    }
