-- ===== src/Endpoints/Usage/Told.antt =====
-- endpoints.go: a scan for references of which a part failed says so.
use ise2ise.Base.{
  ◌≡◌, refl, ℕ, zero, suc, String, Bool, true, false, Option, none, some, List, [], ◌∷◌, ◌++◌,
}
use ise2ise.Base.{
  join, ◌⊎◌, inl, inr, ◌==◌, Dict, is_empty, nat_eq, not, ltb, ◌||◌, length, if◌then◌else◌,
}
use ise2ise.Json.{Obj, str}
use ise2ise.Message.{Message, lit}
use ise2ise.Prog.{ret, when_some}
use ise2ise.Prog.Tells.{Tells, ends, answered, Tells-bind, Tells-if, Tells-for_each}
use ise2ise.Texts.{has_suffix}
use ise2ise.Request.{page_size, open_api}
use ise2ise.Ise.Errors.{Result, ok, err}
use ise2ise.Ise.Decode.{Body, decode_list}
use ise2ise.Ise.Calls.{or_zero, unexpected}
use ise2ise.Ise.Paging.{page_url, open_api_pages, open_api_list}
use ise2ise.Endpoints.Usage.{
  Scan, scanned_items, scan, scan_rules, scan_path, scanned_paths, scan_note, scan_policy_usage,
}

abbrev pub is_err : {A : Type 0} → Result A → Bool
is_err (ok a) = false
is_err (err e) = true

-- If a request has failed, then one had before, or the result is an error.
abbrev Admits : {A : Type 0} → Bool → Bool → Result A → Type 0
Admits before failed r = failed ≡ true → (before ≡ true) ⊎ (is_err r ≡ true)

open_api_pages-Tells :
    (before : Bool) (left page : ℕ) (path : String) (out : List Obj)
    → Tells (Admits before) before (open_api_pages left path page out)
unfolding open_api_pages
open_api_pages-Tells before zero page path out = ends inl
open_api_pages-Tells before (suc left) page path out =
    answered
      (λ b.
        of_items (λ out'. open_api_pages-Tells before left (suc page) path out') (decode_list b) b)
      (λ e. ends (λ _. inr refl))
  where
    of_items :
        ((out' : List Obj)
          → Tells (Admits before) before (open_api_pages left path (suc page) out'))
        → (o : Option (List Obj)) (b : Body)
        → Tells (Admits before) before (
            when_some o
              (ret (err (unexpected (page_url open_api path page) "expected a JSON array" b.raw)))
              λ items.
                let out' = out ++ items in
                let more = open_api_pages left path (suc page) out' in
                if ltb (length items) page_size then ret (ok out') else more)
    of_items further none b = ends inl
    of_items further (some items) b =
        Tells-if (ltb (length items) page_size) (ends inl) (further (out ++ items))

open_api_list-Tells :
    (before : Bool) (path : String) → Tells (Admits before) before (open_api_list path)
unfolding open_api_list
open_api_list-Tells before path = open_api_pages-Tells before 1000 1 path []

-- A failure is among the refusals.
abbrev IsTold : Bool → Scan → Type 0
IsTold failed s = failed ≡ true → is_empty s.refused ≡ false

is_empty-snoc : {A : Type 0} (xs : List A) (x : A) → is_empty (xs ++ (x ∷ [])) ≡ false
is_empty-snoc [] x = refl
is_empty-snoc (y ∷ xs) x = refl

scanned_items-IsTold :
    (before failed : Bool) (path : String) (s : Scan) (r : Result (List Obj))
    → IsTold before s
    → Admits before failed r
    → IsTold failed (scanned_items path s r)
scanned_items-IsTold before failed path s (err e) h admits f = is_empty-snoc s.refused _
scanned_items-IsTold before failed path s (ok items) h admits f = elim (admits f) [
  | inl earlier ↦ h earlier
  | inr impossible ↦ absurd (cc impossible)
]

scan-IsTold :
    (before : Bool) (path : String) (s : Scan) → IsTold before s → Tells IsTold before (scan path s)
scan-IsTold before path s h =
    Tells-bind _ (open_api_list-Tells before path)
      λ failed r admits. ends (scanned_items-IsTold before failed path s r h admits)

scan_rules-IsTold :
    (before : Bool) (path : String) (set : Obj) (s : Scan)
    → IsTold before s
    → Tells IsTold before (scan_rules path set s)
scan_rules-IsTold before path set s h =
    Tells-if (str set "id" == "") (ends h)
      (Tells-bind _ (scan-IsTold before _ s h) λ failed s' h'. scan-IsTold failed _ s' h')

scan_path-IsTold :
    (before : Bool) (path : String) (s : Scan)
    → IsTold before s
    → Tells IsTold before (scan_path path s)
scan_path-IsTold before path s h = Tells-bind _ (open_api_list-Tells before path) λ failed r admits.
    Tells-if (has_suffix path "/policy-set")
      (Tells-for_each failed (or_zero [] r) (scanned_items path s r)
        (λ failed' set s' h'. scan_rules-IsTold failed' path set s' h')
        (scanned_items-IsTold before failed path s r h admits))
      (ends (scanned_items-IsTold before failed path s r h admits))

-- The sentence that nothing was read, or that some was not.
abbrev pub says_incomplete : Message → Bool
says_incomplete (lit s ∷ rest) =
    s == "Policy usage could not be determined — nothing was read: "
    || s == "Policy usage may be incomplete; some rules could not be read: "
says_incomplete _ = false

scan_note-IsTold :
    (failed : Bool) (s : Scan)
    → IsTold failed s
    → failed ≡ true
    → says_incomplete (scan_note s) ≡ true
scan_note-IsTold failed s h f = of_tests (nat_eq s.scanned 0) (is_empty s.refused) (h f)
  where
    of_tests :
        (nothing complete : Bool)
        → complete ≡ false
        → says_incomplete (
            if nothing
            then lit "Policy usage could not be determined — nothing was read: "
              ∷ join (lit "; ") s.refused
            else if not complete
            then lit "Policy usage may be incomplete; some rules could not be read: "
              ∷ join (lit "; ") s.refused
            else [])
          ≡ true
    of_tests true complete e = refl
    of_tests false false e = refl
    of_tests false true e = absurd (cc e)

-- The sentence beside the counts says that they are incomplete if a request has failed.
abbrev pub SaysSo : Bool → Dict ℕ × Message → Type 0
SaysSo failed (usage, note) = failed ≡ true → says_incomplete note ≡ true

-- Whatever is answered, if one request of the scan for the use of endpoint groups fails, then the scan
-- ends with a sentence that starts with "Policy usage could not be determined — nothing was read: " or with
-- "Policy usage may be incomplete; some rules could not be read: ".
pub scan_policy_usage-SaysSo : (names : List String) → Tells SaysSo false (scan_policy_usage names)
unfolding scan_policy_usage
scan_policy_usage-SaysSo [] = ends (λ f. absurd (cc f))
scan_policy_usage-SaysSo (name ∷ names) =
    Tells-bind _
      (Tells-for_each false scanned_paths (record { usage = []; refused = []; scanned = 0 })
        (λ failed path s h. scan_path-IsTold failed path s h) (λ f. absurd (cc f)))
      λ failed s h. ends (scan_note-IsTold failed s h)
