-- ===== src/Ise/Paging/Complete.antt =====
-- Paging reads a whole collection, and only reads.
use ise2ise.Base.{◌≡◌, ◌∙◌, ap, ℕ, zero, suc, ◌+◌, ◌≤◌, ◌<◌, String, true, false}
use ise2ise.Base.{none, some, List, [], ◌++◌, arith, ltb, length, Bool-cases, inl}
use ise2ise.Base.{inr, if◌then◌else◌}
use native.Mathlib.Nat.{add-zero}
use mathlib.Core.List.{append_assoc, append-nil}
use ise2ise.Json.{Obj}
use ise2ise.Request.{Request, read, open_api, page_size}
use ise2ise.Prog.{value_against}
use ise2ise.Prog.Sends.{done, asks, Sends-if, Sends-when_some}
use ise2ise.Ise.Errors.{Result, ok}
use ise2ise.Ise.Decode.{Body, Stub, search_result, decode_list}
use ise2ise.Ise.Calls.{Reads, as_it_is, Sends-when_ok}
use ise2ise.Ise.Paging.{page_url, is_last_page, ers_pages, ers_list, open_api_pages, open_api_list}

ers_pages-Reads :
    (left : ℕ) (path : String) (page : ℕ) (out : List Stub) → Reads (ers_pages left path page out)
unfolding ers_pages
ers_pages-Reads zero path page out = done _
ers_pages-Reads (suc left) path page out = asks tt λ r. Sends-when_ok r as_it_is λ b.
    Sends-when_some (search_result b) (done _) λ (total, stubs).
      Sends-if (is_last_page (length stubs) total (length (out ++ stubs))) (done _)
        (ers_pages-Reads left path (suc page) (out ++ stubs))

pub ers_list-Reads : (path : String) → Reads (ers_list path)
unfolding ers_list
ers_list-Reads path = ers_pages-Reads 1000 path 1 []

open_api_pages-Reads :
    (left : ℕ) (path : String) (page : ℕ) (out : List Obj)
    → Reads (open_api_pages left path page out)
unfolding open_api_pages
open_api_pages-Reads zero path page out = done _
open_api_pages-Reads (suc left) path page out = asks tt λ r. Sends-when_ok r as_it_is λ b.
    Sends-when_some (decode_list b) (done _) λ items.
      Sends-if (ltb (length items) page_size) (done _)
        (open_api_pages-Reads left path (suc page) (out ++ items))

pub open_api_list-Reads : (path : String) → Reads (open_api_list path)
unfolding open_api_list
open_api_list-Reads path = open_api_pages-Reads 1000 path 1 []

-- The pages from one on, put together.
abbrev pub pages_from : (ℕ → List Obj) → ℕ → ℕ → List Obj
pages_from content page zero = []
pages_from content page (suc k) = content page ++ pages_from content (suc page) k

abbrev pub page_request : String → ℕ → Request
page_request path page = record { method = read; url = page_url open_api path page; body = none }

-- A node that answers every page of a collection with that page's objects.
abbrev pub Serves : (Request → Result Body) → String → (ℕ → List Obj) → Type 0
Serves serve path content =
    (page : ℕ)
    → (b : Body) × (serve (page_request path page) ≡ ok b) × (decode_list b ≡ some (content page))

lt→ltb : (a b : ℕ) → a < b → ltb a b ≡ true
lt→ltb a b h = ground arith

le→ltb : (a b : ℕ) → b ≤ a → ltb a b ≡ false
le→ltb a b h = ground arith

suc-add : (a b : ℕ) → suc a + b ≡ a + suc b
suc-add a b = omega arith

module _ (serve : Request → Result Body) (path : String) (content : ℕ → List Obj) where
  open_api_pages_step :
      Serves serve path content
      → (left page : ℕ) (out : List Obj)
      → value_against serve (open_api_pages (suc left) path page out) ≡ (
          if ltb (length (content page)) page_size
          then ok (out ++ content page)
          else value_against serve (open_api_pages left path (suc page) (out ++ content page)))
  unfolding open_api_pages value_against
  open_api_pages_step served left page out =
      let (b, answered, decoded) = served page in
      rw (answered, value_against, decoded)
        (elim (Bool-cases (ltb (length (content page)) page_size)) [
          | inl short ↦ rw short
          | inr full ↦ rw full
        ])

  open_api_pages_complete :
      Serves serve path content
      → (k left page : ℕ) (out : List Obj) → k < left
      → ((i : ℕ) → i < k → page_size ≤ length (content (page + i)))
      → length (content (page + k)) < page_size
      → value_against serve (open_api_pages left path page out)
        ≡ ok (out ++ pages_from content page (suc k))
  open_api_pages_complete served k zero page out room full short = absurd (omega arith)
  open_api_pages_complete served zero (suc left) page out room full short =
      open_api_pages_step served left page out ∙ rw (last_page, append-nil)
    where
      last_page : ltb (length (content page)) page_size ≡ true
      last_page = lt→ltb _ _ (rw add-zero at short)
  open_api_pages_complete served (suc k) (suc left) page out room full short =
      open_api_pages_step served left page out
      ∙ rw full_page (
          open_api_pages_complete served k left (suc page) (out ++ content page) (omega arith)
            (λ i h. rw (suc-add page i) (full (suc i) (omega arith))) (rw (suc-add page k) short)
          ∙ ap ok (append_assoc out (content page) (pages_from content (suc page) (suc k))))
    where
      full_page : ltb (length (content page)) page_size ≡ false
      full_page = le→ltb _ _ (rw add-zero at (full 0 (omega arith)))

-- If the node serves a collection in pages, of which those before the last hold 100 objects each
-- and the last fewer, and there are at most 1000, then `openAPIList` returns all of them in order.
pub open_api_list_complete :
    (serve : Request → Result Body) (path : String) (content : ℕ → List Obj) (k : ℕ)
    → Serves serve path content
    → k < 1000
    → ((i : ℕ) → i < k → page_size ≤ length (content (1 + i)))
    → length (content (1 + k)) < page_size
    → value_against serve (open_api_list path) ≡ ok (pages_from content 1 (suc k))
unfolding open_api_list
open_api_list_complete serve path content k served room full short =
    open_api_pages_complete serve path content served k 1000 1 [] room full short
