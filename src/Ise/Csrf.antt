-- ===== src/Ise/Csrf.antt =====
-- ise.go: `do`, `attempt`, `fetchCSRF` and `clearCSRF`: how a request goes over the wire, with the
-- client's CSRF token as the state. A fetch is a GET on the collection of the write (`csrfFetchURL`);
-- of its answer only the header counts. Clients that share a token at the same time are not modelled.
pub mod Laws
use ise2ise.Base.{ℕ, String, Bool, true, false, Option, none, some, ◌==◌, ◌&&◌, leb, List, [], ◌∷◌}
use ise2ise.Base.{if◌then◌else◌}
use ise2ise.Request.{Request, Url, needs_csrf}
use ise2ise.Message.{Message, Piece, lit, address, shown}
use ise2ise.Prog.{Prog, ret, ask, ◌>>=◌}
use ise2ise.Ise.Errors.{
  IseError, failed, within, api, Result, ok, err, is_csrf_failure, method_name,
}
use ise2ise.Ise.Decode.{Body}
use ise2ise.Ise.Calls.{Calls}

-- A request with its X-CSRF-TOKEN header, "" being none, or the fetch of a token for a write.
pub data Wire : Type 0 where
  fetch : Url → Wire
  send : Request → String → Wire

-- No connection, a response with its status, body and token header, or one that broke off.
pub data Answer : Type 0 where
  unreachable : Message → Answer
  response : ℕ → Body → String → Answer
  broken_off : ℕ → Body → String → Message → Answer

abbrev pub Wired : Type 0 → Type 0
Wired A = Prog Wire Answer A

abbrev refused : Request → ℕ → Body → IseError
refused q status b = api (record { method = q.method; url = q.url; status = status; body = b.raw })

abbrev at_request : Request → List Piece → Message
at_request q m = lit (method_name q.method) ∷ lit " " ∷ address q.url ∷ lit ": " ∷ m

abbrev pub reply : Request → Answer → Result Body
reply q (unreachable m) = err (failed (at_request q m))
reply q (response status b tok) = if leb 400 status then err (refused q status b) else ok b
reply q (broken_off status b tok m) =
    if leb 400 status
    then err (refused q status b)
    else err (failed (at_request q (lit "reading response: " ∷ m)))

abbrev pub token_of : Answer → String
token_of (unreachable m) = ""
token_of (response status b tok) = tok
token_of (broken_off status b tok m) = tok

abbrev kept : String → String → String
kept tok new = if new == "" then tok else new

-- What a fetch leaves: the token, or the error.
abbrev pub fetched : Url → String → Answer → Result String
fetched u tok (unreachable m) =
    err (failed (lit "fetching a CSRF token from " ∷ address u ∷ lit ": " ∷ m))
fetched u tok a = ok (kept tok (token_of a))

unfoldable pub send_with : Request → String → String → Wired (Result Body × String)
send_with q header tok = ask (send q header) λ a. ret (reply q a, tok)

abbrev pub send_fetched : Request → String → Result String → Wired (Result Body × String)
send_fetched q tok (err e) = ret (err e, tok)
send_fetched q tok (ok new) = send_with q new new

-- `attempt`
unfoldable pub attempt : Request → String → Wired (Result Body × String)
unfolding send_with needs_csrf
attempt q tok =
    let plain = send_with q "" tok in
    let held = send_with q tok tok in
    let first = ask (fetch q.url) λ a. send_fetched q tok (fetched q.url tok a) in
    if needs_csrf q.method q.url then (if tok == "" then first else held) else plain

abbrev pub second_try : Request → IseError → Result String → Wired (Result Body × String)
second_try q e (err e') = ret (err e, "")
second_try q e (ok new) = attempt q new

abbrev pub after_first : Request → Result Body × String → Wired (Result Body × String)
after_first q (ok b, tok) = ret (ok b, tok)
after_first q (err e, tok) =
    let again = ask (fetch q.url) λ a. second_try q e (fetched q.url "" a) in
    if is_csrf_failure e && needs_csrf q.method q.url then again else ret (err e, tok)

-- `do`
unfoldable pub exchange : Request → String → Wired (Result Body × String)
unfolding attempt is_csrf_failure needs_csrf
exchange q tok = do r ← attempt q tok; after_first q r

-- A program of the client, request by request over the wire.
unfoldable pub over_wire : {A : Type 0} → Calls A → String → Wired (A × String)
unfolding exchange
over_wire (ret a) tok = ret (a, tok)
over_wire (ask q k) tok = do (r, tok') ← exchange q tok; over_wire (k r) tok'
