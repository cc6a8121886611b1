-- ===== src/Marker/Tag.antt =====
-- policy_elements.go: `importMarker` and `tagDescription`. Lengths are those of Go, in bytes of UTF-8;
-- where a cut leaves a part of a rune, JSON carries one replacement character for each byte of it.
pub mod Laws
use Prim.Native.Char.{code}
use ise2ise.Base.{◌<>◌, ◌-◌, ℕ, zero, suc, ◌+◌, String, ◌==◌, leb, ltb, if◌then◌else◌}
use ise2ise.Json.{runes}
use ise2ise.Ise.Texts.{includes}
use ise2ise.Marker.{is_space, import_marker_prefix}

abbrev byte_width : ℕ → ℕ
byte_width c = if ltb c 0x80 then 1 else if ltb c 0x800 then 2 else if ltb c 0x10000 then 3 else 4

-- `len`
unfoldable pub byte_length : String → ℕ
byte_length String.[] = 0
byte_length (String.◌∷◌ c s) = byte_width (code c) + byte_length s

abbrev replacements : ℕ → String
replacements zero = ""
replacements (suc n) = "�" <> replacements n

-- `desc[:n]`
unfoldable pub cut_bytes : String → ℕ → String
cut_bytes String.[] n = ""
cut_bytes (String.◌∷◌ c s) n =
    let rest = cut_bytes s (n - byte_width (code c)) in
    if leb (byte_width (code c)) n then String.◌∷◌ c rest else replacements n

unfoldable pub trim_start : String → String
unfolding is_space
trim_start String.[] = ""
trim_start (String.◌∷◌ c s) =
    let rest = trim_start s in if is_space (code c) then rest else String.◌∷◌ c s

unfoldable pub trim_end : String → String
unfolding is_space
trim_end String.[] = ""
trim_end (String.◌∷◌ c s) =
    let rest = trim_end s in
    if rest == "" then (if is_space (code c) then "" else String.◌∷◌ c "") else String.◌∷◌ c rest

-- `importMarker`, of a day as `Format` prints it.
abbrev pub import_marker : String → String
import_marker today = import_marker_prefix <> (today <> "]")

abbrev pub max_description : ℕ
max_description = 256

abbrev shortened : String → String → String
shortened marker desc =
    if leb (byte_length marker + 1) max_description
    then trim_end (trim_start (cut_bytes desc (max_description - byte_length marker - 1)))
      <> (" " <> marker)
    else marker

abbrev marked : String → String → String
marked marker desc = if desc == "" then marker else desc <> (" " <> marker)

-- `tagDescription`
unfoldable pub tag_description : String → String → String
unfolding includes byte_length cut_bytes trim_start trim_end
tag_description today desc =
    let marker = import_marker today in
    if includes (runes desc) (runes import_marker_prefix)
    then desc
    else if ltb max_description (byte_length (marked marker desc))
    then shortened marker desc
    else marked marker desc
