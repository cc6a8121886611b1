-- ===== src/Ise/Errors.antt =====
-- ise.go: `APIError`, the errors that wrap it, and the two tests on its text.
use ise2ise.Base.{ℕ, String, Bool, false, Option, none, some, [], ◌∷◌, ◌++◌, ◌||◌}
use ise2ise.Base.{nat_eq, if◌then◌else◌}
use ise2ise.Request.{Method, read, post, replace, Url}
use ise2ise.Message.{Message, lit, shown, number, address, snippet}
use ise2ise.Ise.Texts.{mentions}

pub record ApiError : Type 0 where
  pub method : Method
  pub url : Url
  pub status : ℕ
  pub body : String

-- An answer of the node, any other failure, or either behind a context (`fmt.Errorf("…: %w")`).
pub data IseError : Type 0 where
  api : ApiError → IseError
  failed : Message → IseError
  within : Message → IseError → IseError

abbrev pub method_name : Method → String
method_name read = "GET"
method_name post = "POST"
method_name replace = "PUT"

-- `Error()`
unfoldable pub error_text : IseError → Message
error_text (api e) =
    shown (method_name e.method)
    ∷ lit " "
    ∷ address e.url
    ∷ lit ": HTTP "
    ∷ number e.status
    ∷ lit ": "
    ∷ snippet e.body
    ∷ []
error_text (failed m) = m
error_text (within m e) = m ++ (lit ": " ∷ error_text e)

-- `errors.As(err, &ae)`
unfoldable pub as_api : IseError → Option ApiError
as_api (api e) = some e
as_api (failed m) = none
as_api (within m e) = as_api e

-- The markers that `isDuplicate` looks for in the text of an answer.
abbrev duplicate_text : String → Bool
duplicate_text b =
    mentions b "already exist"
    || mentions b "duplicate"
    || mentions b "same name"
    || mentions b "resource already"
    || mentions b "binary equal"
    || mentions b "skipping the replace"

abbrev is_duplicate_answer : ApiError → Bool
is_duplicate_answer e =
    if nat_eq e.status 400 || nat_eq e.status 409 then duplicate_text e.body else false

-- `isDuplicate`
unfoldable pub is_duplicate : IseError → Bool
unfolding as_api
is_duplicate err = elim (as_api err) [ none ↦ false | some e ↦ is_duplicate_answer e ]

-- `isCSRFFailure`
unfoldable pub is_csrf_failure : IseError → Bool
unfolding as_api
is_csrf_failure err = elim (as_api err) [
  | none ↦ false
  | some e ↦ mentions e.body "csrf" || mentions e.body "nonce"
]

pub data Result (A : Type 0) : Type 0 where
  ok : A → Result A
  err : IseError → Result A
