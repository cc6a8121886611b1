-- ===== src/Translate/Rows/Counts.antt =====
-- translate.go: the counts in the report of a translation.
use Prim.Native.Char.{Char}
use ise2ise.Base.{
  ◌≡◌, refl, ℕ, suc, ◌+◌, String, Bool, true, false, Option, List, [], ◌∷◌, not, arith,
}
use ise2ise.Base.{length, count_of, if◌then◌else◌, ◌==◌}
use ise2ise.Message.{Message, said}
use ise2ise.Texts.{trim_text}
use ise2ise.Translate.Labels.{at, has_content}
use ise2ise.Translate.Rows.{Filled, filled, masked, Written, refusing, writing, fill, write_rows}

-- So many rows hold anything, and each of them is written or refused.
pub record IsTallied (content : ℕ) (w : Written) : Type 0 where
  pub seen : w.source_rows ≡ content
  pub settled : w.source_rows ≡ w.written_rows + length w.refused
  pub written : length w.records ≡ w.written_rows

refusing-IsTallied :
    (n : ℕ) (m : Message) (w : Written) → IsTallied n w → IsTallied (suc n) (refusing m w)
refusing-IsTallied n m w h = ground (arith)

writing-IsTallied :
    (n : ℕ) (name : String) (f : Filled) (w : Written)
    → IsTallied n w
    → IsTallied (suc n) (writing name f w)
writing-IsTallied n name (filled rec) w h = ground (arith)
writing-IsTallied n name (masked label) w h = refusing-IsTallied n _ w h

-- Of the rows of the source, those that hold anything are counted as source rows, and each of them
-- is either written, as one record, or refused with one sentence.
pub write_rows-IsTallied :
    (lower : Char → Char) (target_node : String) (header : List String) (name_col : ℕ)
    (picks : List (Option ℕ)) (rows : List (List String))
    → IsTallied
        (count_of has_content rows)
        (write_rows lower target_node header name_col picks rows)
unfolding write_rows
write_rows-IsTallied lower target_node header name_col picks [] = record {
  seen = refl;
  settled = refl;
  written = refl;
}
write_rows-IsTallied lower target_node header name_col picks (row ∷ rows) =
    of_row (has_content row) (trim_text (at row name_col) == "")
      (write_rows-IsTallied lower target_node header name_col picks rows)
  where
    w : Written
    w = write_rows lower target_node header name_col picks rows

    of_row :
        (content nameless : Bool)
        → IsTallied (count_of has_content rows) w
        → IsTallied
            (if content then suc (count_of has_content rows) else count_of has_content rows)
            (if not content
              then w
              else if nameless
              then refusing (said "(row with no Name): skipped") w
              else writing (at row name_col) (fill lower target_node header row picks) w)
    of_row false nameless h = h
    of_row true true h = refusing-IsTallied _ _ w h
    of_row true false h = writing-IsTallied _ (at row name_col) _ w h
