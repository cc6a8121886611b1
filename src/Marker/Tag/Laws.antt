-- ===== src/Marker/Tag/Laws.antt =====
-- policy_elements.go and policy_sets.go: what `tagDescription` marks, `mine` finds.
use ise2ise.Base.{◌≡◌, refl, ℕ, ◌<>◌, ◌==◌, String, Bool, true, false, List, [], ◌∷◌, ◌++◌, ◌||◌}
use ise2ise.Base.{leb, ltb, ◌+◌, if◌then◌else◌}
use package.text.Mathlib.TextLemmas.{nil-append, cons-append}
use ise2ise.Json.{runes, Obj, set, text}
use ise2ise.Json.Laws.{str-set_text}
use ise2ise.Ise.Texts.{begins_with, includes}
use ise2ise.Marker.{import_marker_prefix, mine}
use ise2ise.Marker.Tag.{
  byte_length, import_marker, max_description, shortened, marked, tag_description,
}

abbrev carries_marker : String → Bool
carries_marker s = includes (runes s) (runes import_marker_prefix)

runes-append : (s t : String) → runes (s <> t) ≡ runes s ++ runes t
runes-append String.[] t = rw (nil-append t)
runes-append (String.◌∷◌ c s) t = rw (cons-append c s t, runes-append s t)

includes-after : (s t p : List ℕ) → includes t p ≡ true → includes (s ++ t) p ≡ true
unfolding includes
includes-after [] t p h = h
includes-after (c ∷ s) t p h = rw (includes-after s t p h) (or_true (begins_with (c ∷ (s ++ t)) p))
  where
    or_true : (b : Bool) → (b || true) ≡ true
    or_true true = refl
    or_true false = refl

carries_marker-after : (s t : String) → carries_marker t ≡ true → carries_marker (s <> t) ≡ true
carries_marker-after s t h =
    rw (runes-append s t) (includes-after (runes s) (runes t) (runes import_marker_prefix) h)

carries_marker-import_marker : (today : String) → carries_marker (import_marker today) ≡ true
unfolding includes
carries_marker-import_marker today = rw (runes-append import_marker_prefix (today <> "]"))

-- The second way is taken only where the test fails.
carries_marker-if :
    (b : Bool) (s t : String)
    → (b ≡ true → carries_marker s ≡ true)
    → carries_marker t ≡ true
    → carries_marker (if b then s else t) ≡ true
carries_marker-if true s t h h' = h refl
carries_marker-if false s t h h' = h'

carries_marker-behind :
    (today s : String) → carries_marker (s <> (" " <> import_marker today)) ≡ true
carries_marker-behind today s =
    carries_marker-after s (" " <> import_marker today)
      (carries_marker-after " " (import_marker today) (carries_marker-import_marker today))

carries_marker-shortened :
    (today desc : String) → carries_marker (shortened (import_marker today) desc) ≡ true
carries_marker-shortened today desc =
    carries_marker-if (leb (byte_length (import_marker today) + 1) max_description) _ _
      (λ _. carries_marker-behind today _) (carries_marker-import_marker today)

carries_marker-marked :
    (today desc : String) → carries_marker (marked (import_marker today) desc) ≡ true
carries_marker-marked today desc =
    carries_marker-if (desc == "") _ _ (λ _. carries_marker-import_marker today)
      (carries_marker-behind today desc)

carries_marker-tag_description :
    (today desc : String) → carries_marker (tag_description today desc) ≡ true
unfolding tag_description
carries_marker-tag_description today desc =
    carries_marker-if (carries_marker desc) desc _ (λ h. h)
      (carries_marker-if (ltb max_description (byte_length (marked (import_marker today) desc))) _ _
        (λ _. carries_marker-shortened today desc) (carries_marker-marked today desc))

tag_description-marked : (later s : String) → carries_marker s ≡ true → tag_description later s ≡ s
unfolding tag_description
tag_description-marked later s h = rw h

-- A description that `tagDescription` has made is one that `mine` finds to be this tool's, and
-- `tagDescription` leaves it as it is on any later day.
pub mine-tag_description :
    (o : Obj) (today later desc : String)
    → (mine (set o "description" (text (tag_description today desc))) ≡ true)
      × (tag_description later (tag_description today desc) ≡ tag_description today desc)
unfolding mine
mine-tag_description o today later desc = (
  rw (str-set_text o "description" (tag_description today desc) "description")
      (carries_marker-tag_description today desc),
  tag_description-marked later (tag_description today desc)
      (carries_marker-tag_description today desc),
)
