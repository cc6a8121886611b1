-- ===== src/Ise/Paging.antt =====
-- ise.go: `ersList` and `openAPIList`, which walk the pages of a collection.
pub mod Complete
use ise2ise.Base.{ℕ, zero, suc, ◌+◌, String, Bool, true, false, Option, none, some, List, [], ◌∷◌}
use ise2ise.Base.{◌++◌, ◌&&◌, ◌||◌, ltb, leb, length, if◌then◌else◌}
use ise2ise.Json.{Obj}
use ise2ise.Request.{Request, read, Side, ers, open_api, Url, url_at, page_size}
use ise2ise.Message.{Message, Piece, lit, address}
use ise2ise.Prog.{Prog, ret, ask, ◌>>=◌, when_some}
use ise2ise.Prog.Sends.{Sends}
use ise2ise.Ise.Errors.{failed, Result, ok, err}
use ise2ise.Ise.Decode.{Body, Stub, search_result, decode_list}
use ise2ise.Ise.Calls.{Calls, Reads, when_ok, as_it_is, do_request, unexpected}

abbrev pub page_url : Side → String → ℕ → Url
page_url side path page = record (url_at side path) { page = some page }

abbrev pub too_many_pages : {A : Type 0} → Side → String → Result A
too_many_pages side path = err (
    failed (
      lit "GET "
      ∷ address (url_at side path)
      ∷ lit ": more than 1000 pages; refusing to keep paging"
      ∷ []))

-- The page just read is the last one, or the answer's total is reached.
abbrev pub is_last_page : ℕ → ℕ → ℕ → Bool
is_last_page got total so_far = ltb got page_size || (ltb 0 total && leb total so_far)

-- The loop of `ersList`: the pages that may still be read, the next page and the stubs so far.
unfoldable pub ers_pages : ℕ → String → ℕ → List Stub → Calls (Result (List Stub))
ers_pages zero path page out = ret (too_many_pages ers path)
ers_pages (suc left) path page out = do
  r ← do_request read (page_url ers path page) none
  when_ok r as_it_is λ b.
      when_some (search_result b)
        (ret (err (unexpected (page_url ers path page) "expected an ERS SearchResult" b.raw)))
        λ (total, stubs).
          let out' = out ++ stubs in
          let more = ers_pages left path (suc page) out' in
          if is_last_page (length stubs) total (length out') then ret (ok out') else more

unfoldable pub ers_list : String → Calls (Result (List Stub))
unfolding ers_pages
ers_list path = ers_pages 1000 path 1 []

-- The loop of `openAPIList`.
unfoldable pub open_api_pages : ℕ → String → ℕ → List Obj → Calls (Result (List Obj))
open_api_pages zero path page out = ret (too_many_pages open_api path)
open_api_pages (suc left) path page out = do
  r ← do_request read (page_url open_api path page) none
  when_ok r as_it_is λ b.
      when_some (decode_list b)
        (ret (err (unexpected (page_url open_api path page) "expected a JSON array" b.raw)))
        λ items.
          let out' = out ++ items in
          let more = open_api_pages left path (suc page) out' in
          if ltb (length items) page_size then ret (ok out') else more

unfoldable pub open_api_list : String → Calls (Result (List Obj))
unfolding open_api_pages
open_api_list path = open_api_pages 1000 path 1 []
