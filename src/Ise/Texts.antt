-- ===== src/Ise/Texts.antt =====
-- The functions of Go's `strings` that ise.go applies to the text of an answer, over runes.
use ise2ise.Base.{ℕ, ◌+◌, String, Bool, true, false, List, [], ◌∷◌, map, ◌&&◌, ◌||◌, leb, nat_eq}
use ise2ise.Base.{if◌then◌else◌}
use ise2ise.Json.{runes}

-- `unicode.ToLower` as far as the result can be an ASCII letter: A to Z, and the two runes outside
-- ASCII whose lower case is one, the Kelvin sign and the dotted capital I.
unfoldable pub lower : ℕ → ℕ
lower c =
    if leb b'A' c && leb c b'Z'
    then c + 32
    else if nat_eq c 0x212a
    then b'k'
    else if nat_eq c 0x130
    then b'i'
    else c

unfoldable pub begins_with : List ℕ → List ℕ → Bool
begins_with s [] = true
begins_with [] (c ∷ cs) = false
begins_with (d ∷ s) (c ∷ cs) = nat_eq d c && begins_with s cs

-- `strings.Contains`.
unfoldable pub includes : List ℕ → List ℕ → Bool
unfolding begins_with
includes [] t = begins_with [] t
includes (c ∷ s) t = begins_with (c ∷ s) t || includes s t

-- `strings.Contains(strings.ToLower(s), t)` for a `t` of ASCII.
unfoldable pub mentions : String → String → Bool
unfolding lower includes
mentions s t = includes (map lower (runes s)) (runes t)
