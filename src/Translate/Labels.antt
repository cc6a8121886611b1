-- ===== src/Translate/Labels.antt =====
-- translate.go: the labels of columns. The lower case of a character is a parameter.
use Prim.Native.Char.{Char, code}
use ise2ise.Base.{ℕ, zero, suc, String, Bool, Option, none, some, List, [], ◌∷◌, ◌==◌}
use ise2ise.Base.{◌&&◌, not, any, nat_eq, if◌then◌else◌}
use ise2ise.Texts.{trim_text, has_prefix, contains_text, split_at_char, split_on, fields, join_text}
use ise2ise.Texts.{map_text, only_stars}

-- `strings.TrimPrefix(header, "\ufeff")`
unfoldable pub trim_bom : String → String
trim_bom String.[] = ""
trim_bom (String.◌∷◌ c s) = if nat_eq (code c) 0xfeff then s else String.◌∷◌ c s

abbrev pub type_tokens : List String
type_tokens = "String" ∷ "Boolean" ∷ "Integer" ∷ "Enumeration" ∷ "Subnets" ∷ "Date" ∷ []

unfoldable pub is_type : String → Bool
unfolding trim_text has_prefix
is_type p = any (λ t. has_prefix (trim_text p) t) type_tokens

abbrev cons_part : String → Option (List String) → Option (List String)
cons_part p none = none
cons_part p (some ps) = some (p ∷ ps)

-- The parts before the first that begins with a type.
unfoldable pub before_type : List String → Option (List String)
unfolding is_type
before_type [] = none
before_type (p ∷ ps) = let rest = before_type ps in if is_type p then some [] else cons_part p rest

-- `columnLabel`
unfoldable pub column_label : String → String
unfolding before_type split_on trim_bom join_text
column_label header = elim (before_type (split_at_char b':' (trim_bom header))) [
  | none ↦ header
  | some ps ↦ join_text ":" ps
]

abbrev pub read_only_labels : List String
read_only_labels = "sga:pac issue date" ∷ "sga:pac expiration date" ∷ "sga:pac issued by" ∷ []

abbrev pub node_labels : List String
node_labels = "snmp:originating policy services node" ∷ "sga:coa coa source host" ∷ []

abbrev pub secret_words : List String
secret_words = "secret" ∷ "password" ∷ "community" ∷ "encryptionkey" ∷ "authenticationkey" ∷ []

-- `secretLabel`
unfoldable pub secret_label : String → Bool
unfolding contains_text
secret_label key = not (key == "passwordencrypted") && any (contains_text key) secret_words

-- `isMasked`
unfoldable pub is_masked : String → Bool
unfolding trim_text only_stars
is_masked v = not (trim_text v == "") && only_stars (trim_text v)

-- `at`
unfoldable pub at : List String → ℕ → String
at [] i = ""
at (v ∷ row) zero = v
at (v ∷ row) (suc i) = at row i

-- `hasContent`
unfoldable pub has_content : List String → Bool
unfolding trim_text
has_content row = any (λ v. not (trim_text v == "")) row

module _ (lower : Char → Char) where
  -- `labelKey`
  unfoldable pub label_key : String → String
  unfolding map_text fields join_text
  label_key label = join_text " " (fields (map_text lower label))

  -- The key of a header.
  unfoldable pub key_of : String → String
  unfolding label_key column_label
  key_of header = label_key (column_label header)
