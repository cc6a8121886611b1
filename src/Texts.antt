-- ===== src/Texts.antt =====
-- The functions of Go's `strings` that cut a text, over its characters.
use Prim.Native.Char.{Char, code}
use ise2ise.Base.{ℕ, String, Bool, true, List, [], ◌∷◌, ◌==◌, ◌||◌, ◌<>◌, ◌&&◌, nat_eq, not}
use ise2ise.Base.{if◌then◌else◌, keep}
use ise2ise.Json.{runes}
use ise2ise.Ise.Texts.{begins_with, includes}
use ise2ise.Marker.{is_space}
use ise2ise.Marker.Tag.{trim_start, trim_end}

-- `strings.TrimSpace`
unfoldable pub trim_text : String → String
unfolding trim_start trim_end
trim_text s = trim_end (trim_start s)

-- `strings.HasPrefix` and `strings.Contains`
unfoldable pub has_prefix : String → String → Bool
unfolding begins_with
has_prefix s t = begins_with (runes s) (runes t)

unfoldable pub contains_text : String → String → Bool
unfolding includes
contains_text s t = includes (runes s) (runes t)

abbrev onto_first : Char → List String → List String
onto_first c [] = String.◌∷◌ c "" ∷ []
onto_first c (s ∷ ss) = String.◌∷◌ c s ∷ ss

-- The pieces between the separators, of which there is at least one.
unfoldable pub split_on : (ℕ → Bool) → String → List String
split_on sep String.[] = "" ∷ []
split_on sep (String.◌∷◌ c s) =
    let rest = split_on sep s in if sep (code c) then "" ∷ rest else onto_first c rest

-- `strings.Split` at one character, `strings.Fields`
abbrev pub split_at_char : ℕ → String → List String
split_at_char b s = split_on (λ c. nat_eq c b) s

unfoldable pub fields : String → List String
unfolding split_on is_space
fields s = keep (λ w. not (w == "")) (split_on is_space s)

-- `strings.Join`
unfoldable pub join_text : String → List String → String
join_text sep [] = ""
join_text sep (s ∷ []) = s
join_text sep (s ∷ t ∷ ss) = s <> (sep <> join_text sep (t ∷ ss))

-- `strings.ToLower` and `strings.ToUpper`, by what they make of a character.
unfoldable pub map_text : (Char → Char) → String → String
map_text f String.[] = ""
map_text f (String.◌∷◌ c s) = String.◌∷◌ (f c) (map_text f s)

-- `strings.Trim(s, "*") == ""`
unfoldable pub only_stars : String → Bool
only_stars String.[] = true
only_stars (String.◌∷◌ c s) = nat_eq (code c) b'*' && only_stars s

-- `strings.HasSuffix`
unfoldable pub has_suffix : String → String → Bool
has_suffix String.[] t = t == ""
has_suffix (String.◌∷◌ c s) t = String.◌∷◌ c s == t || has_suffix s t

-- What stands before the first occurrence of a text that is not empty, or the whole.
unfoldable pub before_first : String → String → String
unfolding has_prefix
before_first sep String.[] = ""
before_first sep (String.◌∷◌ c s) =
    let rest = before_first sep s in
    if has_prefix (String.◌∷◌ c s) sep then "" else String.◌∷◌ c rest
