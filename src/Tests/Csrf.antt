-- ===== src/Tests/Csrf.antt =====
-- A node that refuses the first write for its token, and takes the second.
use ise2ise.Base.{◌≡◌, refl, ℕ, zero, suc, ◌+◌, ◌≤◌, none, some, [], ◌∷◌, count_of}
use ise2ise.Json.{end, obj}
use ise2ise.Request.{Request, post, url_at, ers}
use ise2ise.Prog.{run}
use ise2ise.Prog.Sends.{Sends}
use ise2ise.Ise.Decode.{Body}
use ise2ise.Ise.Calls.{ers_get_by_id, ers_get_by_id-Reads}
use ise2ise.Ise.Csrf.{Wire, fetch, send, Answer, response, exchange, over_wire}
use ise2ise.Ise.Csrf.Laws.{is_send, exchange_twice, IsPlainRead, over_wire-IsPlainRead}

abbrev no_body : Body
no_body = record { raw = ""; json = none }

abbrev stale : Body
stale = record { raw = "CSRF nonce validation failed"; json = none }

-- The state is the number of writes that it has seen.
abbrev strict : ℕ → Wire → Answer × ℕ
strict n (fetch u) = (response 415 no_body "t-2", n)
strict zero (send q tok) = (response 403 stale "", 1)
strict (suc n) (send q tok) = (response 201 no_body "", n + 2)

abbrev a_write : Request
a_write = record { method = post; url = url_at ers "/ers/config/sgt"; body = some (obj end) }

exchange_twice_example : count_of is_send (run strict (exchange a_write "t-1") 0).2 ≤ 2
exchange_twice_example = exchange_twice strict 0 a_write "t-1"

-- It is sent with the old token, and then with the fetched one.
retried :
    (run strict (exchange a_write "t-1") 0).2
    ≡ send a_write "t-1" ∷ fetch a_write.url ∷ send a_write "t-2" ∷ []
unfolding exchange run ise2ise.Ise.Texts.mentions
retried = refl

over_wire-IsPlainRead_example :
    Sends IsPlainRead (over_wire (ers_get_by_id "/ers/config/sgt" "s-1" "Sgt") "t-1")
over_wire-IsPlainRead_example =
    over_wire-IsPlainRead (ers_get_by_id "/ers/config/sgt" "s-1" "Sgt") "t-1"
      (ers_get_by_id-Reads "/ers/config/sgt" "s-1" "Sgt")
