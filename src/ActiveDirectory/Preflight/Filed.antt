-- ===== src/ActiveDirectory/Preflight/Filed.antt =====
-- activedirectory.go: what is not filed of the target's join points, none of them has.
use ise2ise.Base.{◌≡◌, refl, ◌∙◌, sym, String, Bool, true, false, Option, none, some}
use ise2ise.Base.{List, [], ◌∷◌, ◌==◌, ◌||◌, any, ◌⊎◌, inl, inr, eq_iff, Bool-cases, arith}
use ise2ise.Base.{Dict, get, put, get-put, if◌then◌else◌}
use ise2ise.Json.{Obj, str}
use ise2ise.ActiveDirectory.Preflight.{Target, file_domain, file_all}

both_false : (a b : Bool) → a ≡ false → b ≡ false → (a || b) ≡ false
both_false a b h h' = ground arith

-- A write that leaves nothing under a key was to another one.
unwritten :
    {A : Type 0} (b : Bool) (v : A) {o : Option A}
    → (if b then some v else o) ≡ none
    → (b ≡ false) × (o ≡ none)
unwritten true v e = absurd (cc e)
unwritten false v e = (refl, e)

pub file_all-unnamed :
    (details : List Obj) (t : Target) (k : String)
    → get (file_all details t).by_name k ≡ none
    → (get t.by_name k ≡ none) × (any (λ d. str d "name" == k) details ≡ false)
unfolding file_all
file_all-unnamed [] t k h = (h, refl)
file_all-unnamed (d ∷ details) t k h =
    let (unset, rest) =
      file_all-unnamed details
        (record { by_name = put t.by_name (str d "name") d; by_domain = file_domain d t.by_domain })
        k h in
    let (other, before) =
      unwritten (str d "name" == k) _ (sym (get-put t.by_name (str d "name") k d) ∙ unset) in
    (before, both_false _ _ other rest)

file_domain-none :
    (d : Obj) (m : Dict String) (k : String)
    → (k == "") ≡ false
    → get (file_domain d m) k ≡ none
    → ((str d "domain" == k) ≡ false) × (get m k ≡ none)
file_domain-none d m k filled h = elim (Bool-cases (str d "domain" == "")) [
  | inl nowhere ↦ (
    rw ((eq_iff (str d "domain") "").0 nowhere) (ground (arith, eq_iff k "", eq_iff "" k)),
    rw nowhere at h,
  )
  | inr somewhere ↦
      unwritten (str d "domain" == k) _
        (sym (get-put m (str d "domain") k (str d "name")) ∙ rw somewhere at h)
]

pub file_all-undomained :
    (details : List Obj) (t : Target) (k : String)
    → (k == "") ≡ false
    → get (file_all details t).by_domain k ≡ none
    → (get t.by_domain k ≡ none) × (any (λ d. str d "domain" == k) details ≡ false)
unfolding file_all
file_all-undomained [] t k filled h = (h, refl)
file_all-undomained (d ∷ details) t k filled h =
    let (unset, rest) =
      file_all-undomained details
        (record { by_name = put t.by_name (str d "name") d; by_domain = file_domain d t.by_domain })
        k filled h in
    let (other, before) = file_domain-none d t.by_domain k filled unset in
    (before, both_false _ _ other rest)

file_domain-some :
    (d : Obj) (m : Dict String) (k n : String)
    → get (file_domain d m) k ≡ some n
    → (get m k ≡ some n) ⊎ ((str d "name" == n) ≡ true)
file_domain-some d m k n h = elim (Bool-cases (str d "domain" == "")) [
  | inl nowhere ↦ inl (rw nowhere at h)
  | inr somewhere ↦
      of_test (str d "domain" == k)
        (sym (get-put m (str d "domain") k (str d "name")) ∙ rw somewhere at h)
]
  where
    of_test :
        (b : Bool)
        → (if b then some (str d "name") else get m k) ≡ some n
        → (get m k ≡ some n) ⊎ ((str d "name" == n) ≡ true)
    of_test true e = inr ((eq_iff (str d "name") n).1 (cc e))
    of_test false e = inl e

-- The name that is filed for a domain is one of a join point.
pub file_all-some :
    (details : List Obj) (t : Target) (k n : String)
    → get (file_all details t).by_domain k ≡ some n
    → (get t.by_domain k ≡ some n) ⊎ (any (λ d. str d "name" == n) details ≡ true)
unfolding file_all
file_all-some [] t k n h = inl h
file_all-some (d ∷ details) t k n h = of_rest (
    file_all-some details
      (record { by_name = put t.by_name (str d "name") d; by_domain = file_domain d t.by_domain }) k
      n h)
  where
    here : (a b : Bool) → a ≡ true → (a || b) ≡ true
    here a b e = ground arith

    later : (a b : Bool) → b ≡ true → (a || b) ≡ true
    later a b e = ground arith

    of_first :
        (get t.by_domain k ≡ some n) ⊎ ((str d "name" == n) ≡ true)
        → (get t.by_domain k ≡ some n) ⊎ (any (λ e. str e "name" == n) (d ∷ details) ≡ true)
    of_first (inl before) = inl before
    of_first (inr this) = inr (here (str d "name" == n) _ this)

    of_rest :
        (get (file_domain d t.by_domain) k ≡ some n) ⊎ (any (λ e. str e "name" == n) details ≡ true)
        → (get t.by_domain k ≡ some n) ⊎ (any (λ e. str e "name" == n) (d ∷ details) ≡ true)
    of_rest (inl before) = of_first (file_domain-some d t.by_domain k n before)
    of_rest (inr after) = inr (later (str d "name" == n) _ after)
