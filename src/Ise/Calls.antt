-- ===== src/Ise/Calls.antt =====
-- ise.go: the client's single requests.
use ise2ise.Base.{String, Option, none, some, List, [], ◌∷◌}
use ise2ise.Json.{Value, obj, Obj, end, field}
use ise2ise.Json.Nulls.{without_nulls}
use ise2ise.Request.{Request, Method, read, post, replace, ers, open_api, Url, url_at, IsRead}
use ise2ise.Message.{said, lit, address, snippet}
use ise2ise.Prog.{Prog, ret, ask, ◌>>=◌}
use ise2ise.Prog.Returns.{Returns, ends as gives}
use ise2ise.Prog.Sends.{Sends, done, asks}
use ise2ise.Ise.Errors.{IseError, failed, within, Result, ok, err}
use ise2ise.Ise.Decode.{Body, unwrap, decode_list}

-- A program over `do`.
abbrev pub Calls : Type 0 → Type 0
Calls A = Prog Request (Result Body) A

-- It sends nothing but GETs.
abbrev pub Reads : {A : Type 0} → Calls A → Type 0
Reads m = Sends IsRead m

-- `if err != nil { return …, context(err) }`
abbrev pub when_ok :
    {A B : Type 0} → Result A → (IseError → IseError) → (A → Calls (Result B)) → Calls (Result B)
when_ok (ok a) context k = k a
when_ok (err e) context k = ret (err (context e))

abbrev pub as_it_is : IseError → IseError
as_it_is e = e

abbrev pub because : String → IseError → IseError
because m e = within (said m) e

-- `x, _ := …`: the value, or Go's zero value beside an error.
abbrev pub or_zero : {A : Type 0} → A → Result A → A
or_zero zero_value (ok a) = a
or_zero zero_value (err e) = zero_value

abbrev pub do_request : Method → Url → Option Value → Calls (Result Body)
do_request m u body = ask (record { method = m; url = u; body = body }) (λ r. ret r)

abbrev no_value : Result Body → Result (Unit {0})
no_value (ok b) = ok tt
no_value (err e) = err e

abbrev wrapped : String → Obj → Value
wrapped root o = obj (field root (obj o) end)

-- `ersCreate`
unfoldable pub ers_create : String → String → Obj → Calls (Result Unit)
ers_create path root o = do
  r ← do_request post (url_at ers path) (some (wrapped root (without_nulls o)))
  ret (no_value r)

-- `openAPICreate`
unfoldable pub open_api_create : String → Obj → Calls (Result Unit)
open_api_create path o = do
  r ← do_request post (url_at open_api path) (some (obj o))
  ret (no_value r)

-- `ersPut`
unfoldable pub ers_put : String → String → Obj → Calls (Result Unit)
ers_put path root o = do
  r ← do_request replace (url_at ers path) (some (wrapped root o))
  ret (no_value r)

-- `openAPIPut`
unfoldable pub open_api_put : String → Obj → Calls (Result Unit)
open_api_put path o = do
  r ← do_request replace (url_at open_api path) (some (obj o))
  ret (no_value r)

abbrev pub unexpected : Url → String → String → IseError
unexpected u wanted raw =
    failed (lit "GET " ∷ address u ∷ lit ": " ∷ lit wanted ∷ lit ", received: " ∷ snippet raw ∷ [])

abbrev or_unexpected : {A : Type 0} → Url → String → Body → Option A → Result A
or_unexpected u wanted b none = err (unexpected u wanted b.raw)
or_unexpected u wanted b (some a) = ok a

abbrev pub object_url : String → String → Url
object_url path id = record (url_at ers path) { item = some id }

-- `ersGetByID`
unfoldable pub ers_get_by_id : String → String → String → Calls (Result Obj)
unfolding unwrap
ers_get_by_id path id root = do
  r ← do_request read (object_url path id) none
  when_ok r as_it_is λ b.
      ret (
        or_unexpected (object_url path id) "expected an object under its root key" b
          (unwrap b root))

-- `openAPIListOnce`
unfoldable pub open_api_list_once : String → Calls (Result (List Obj))
unfolding decode_list
open_api_list_once path = do
  r ← do_request read (url_at open_api path) none
  when_ok r as_it_is
      λ b. ret (or_unexpected (url_at open_api path) "expected a list" b (decode_list b))

pub Sends-when_ok :
    {P : Request → Type 0} {A B : Type 0} (r : Result A) (context : IseError → IseError)
    {k : A → Calls (Result B)}
    → ((a : A) → Sends P (k a))
    → Sends P (when_ok r context k)
Sends-when_ok (ok a) context h = h a
Sends-when_ok (err e) context h = done _

pub ers_get_by_id-Reads : (path id root : String) → Reads (ers_get_by_id path id root)
unfolding ers_get_by_id
ers_get_by_id-Reads path id root = asks tt λ r. Sends-when_ok r as_it_is λ b. done _

pub open_api_list_once-Reads : (path : String) → Reads (open_api_list_once path)
unfolding open_api_list_once
open_api_list_once-Reads path = asks tt λ r. Sends-when_ok r as_it_is λ b. done _

pub Returns-when_ok :
    {A B : Type 0} {P : Result B → Type 0} (context : IseError → IseError) (r : Result A)
    {k : A → Calls (Result B)}
    → ((e : IseError) → P (err e))
    → ((a : A) → Returns P (k a))
    → Returns P (when_ok r context k)
Returns-when_ok context (ok a) h h' = h' a
Returns-when_ok context (err e) h h' = gives (h _)
