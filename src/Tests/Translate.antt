-- ===== src/Tests/Translate.antt =====
-- A device export with a masked secret, a row without a name and a node's name, and a template.
use Prim.Native.Char.{Char}
use ise2ise.Base.{◌≡◌, refl, String, none, some, List, [], ◌∷◌}
use ise2ise.Base.{count_of}
use ise2ise.Ise.Errors.{Result, ok, err}
use ise2ise.Translate.Labels.{has_content, label_key}
use ise2ise.Translate.Rows.{translate_rows, write_rows}
use ise2ise.Translate.Rows.Specified.{AsSpecified, translate_rows-AsSpecified}
use ise2ise.Translate.Rows.Counts.{IsTallied, write_rows-IsTallied}

abbrev same : Char → Char
same c = c

abbrev source_header : List String
source_header =
    "Name:String(32):Required" ∷ "radius:shared secret:String(128)" ∷ "Old:String(8)" ∷ []

abbrev devices : List (List String)
devices =
    ("sw1" ∷ "cisco" ∷ "x" ∷ [])
    ∷ ("sw2" ∷ "******" ∷ [])
    ∷ ("" ∷ "  " ∷ [])
    ∷ (" " ∷ "cisco" ∷ [])
    ∷ []

abbrev template : List String
template =
    "Description:String(256)" ∷ "Name:String(32):Required" ∷ "radius:shared secret:String(128)" ∷ []

lines : Result (List (List String) × ise2ise.Translate.Rows.Report) → List (List String)
lines (ok out) = out.0
lines (err e) = []

translated : List (List String)
unfolding translate_rows lines
translated = lines (translate_rows same "" source_header devices template)

-- Only the first device is written, in the order of the template's columns.
translated_lem : translated ≡ template ∷ ("" ∷ "sw1" ∷ "cisco" ∷ []) ∷ []
unfolding translated ise2ise.Translate.Labels.key_of
translated_lem = refl

translate_rows-AsSpecified_example :
    AsSpecified same "" source_header devices template
      (translate_rows same "" source_header devices template)
translate_rows-AsSpecified_example =
    translate_rows-AsSpecified same "" source_header devices template

write_rows-IsTallied_example :
    IsTallied
      (count_of has_content devices)
      (write_rows same "ise-1" source_header 0 (none ∷ some 0 ∷ some 1 ∷ []) devices)
write_rows-IsTallied_example =
    write_rows-IsTallied same "ise-1" source_header 0 (none ∷ some 0 ∷ some 1 ∷ []) devices
