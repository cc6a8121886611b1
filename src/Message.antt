-- ===== src/Message.antt =====
-- The texts that the program puts together with `fmt.Sprintf` and `+`, by their parts: constant
-- text, a name printed by `%q`, one printed by `%s`, a number, one printed as an
-- int (`truncated`), a URL and a body cut by `snippet`. The
-- empty text has no part.
use ise2ise.Base.{ℕ, String, Bool, true, false, List, [], ◌∷◌, ◌&&◌}
use ise2ise.Base.{◌==◌, nat_eq, join, map, is_empty, if◌then◌else◌}
use ise2ise.Json.{Number, num_eq}
use ise2ise.Request.{Url}

pub data Piece : Type 0 where
  lit : String → Piece
  quoted : String → Piece
  shown : String → Piece
  number : ℕ → Piece
  truncated : Number → Piece
  address : Url → Piece
  snippet : String → Piece

abbrev pub Message : Type 0
Message = List Piece

abbrev pub said : String → Message
said s = lit s ∷ []

unfoldable pub same_piece : Piece → Piece → Bool
same_piece (lit a) (lit b) = a == b
same_piece (quoted a) (quoted b) = a == b
same_piece (shown a) (shown b) = a == b
same_piece (number a) (number b) = nat_eq a b
same_piece (truncated a) (truncated b) = num_eq a b
same_piece _ _ = false

unfoldable pub same_message : Message → Message → Bool
unfolding same_piece
same_message [] [] = true
same_message (p ∷ ps) (q ∷ qs) = same_piece p q && same_message ps qs
same_message _ _ = false

-- activedirectory.go: `strings.Join(quoteAll(names), ", ")`.
unfoldable pub quote_all : List String → Message
quote_all names = join (lit ", ") (map (λ n. quoted n ∷ []) names)

-- `strings.Join(parts, ", ")` over texts already put together.
abbrev pub comma_join : List Message → Message
comma_join parts = join (lit ", ") parts

-- trustsec.go: `joinOr`.
unfoldable pub join_or : List String → String → Message
unfolding quote_all
join_or names empty = if is_empty names then lit empty ∷ [] else quote_all names
