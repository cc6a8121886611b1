-- ===== src/Request.antt =====
-- ise.go: what a request to an ISE node says. A URL is kept in its parts: the API it belongs to
-- (`ersBase` or `apiBase`), the path, an identifier that `url.PathEscape` puts behind it, and the
-- page of a list that is asked for, of `pageSize` entries.
use ise2ise.Base.{ℕ, String, Bool, true, false, Option, none, ◌&&◌}
use ise2ise.Json.{Value}

pub data Method : Type 0 where
  read post replace : Method

pub data Side : Type 0 where
  ers open_api : Side

pub record Url : Type 0 where
  pub side : Side
  pub path : String
  pub item : Option String
  pub page : Option ℕ

pub record Request : Type 0 where
  pub method : Method
  pub url : Url
  pub body : Option Value

abbrev pub IsRead : Request → Type 0
IsRead q = is_read q.method
  where
    is_read : Method → Type 0
    is_read read = Unit
    is_read post = ⊥
    is_read replace = ⊥

abbrev pub url_at : Side → String → Url
url_at side path = record { side = side; path = path; item = none; page = none }

abbrev pub page_size : ℕ
page_size = 100

abbrev is_write : Method → Bool
is_write read = false
is_write post = true
is_write replace = true

abbrev is_ers : Side → Bool
is_ers ers = true
is_ers open_api = false

-- `needsCSRF`: an ERS write.
unfoldable pub needs_csrf : Method → Url → Bool
needs_csrf m u = is_write m && is_ers u.side
