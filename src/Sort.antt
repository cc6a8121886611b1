-- ===== src/Sort.antt =====
-- `sort.Strings` and `sort.Slice`, as a stable insertion sort: Go leaves the order of equal keys
-- open, and here they stay as they were.
pub mod Laws
use Prim.Native.String.{compare}
use Prim.Native.Nat.{Ordering}
use ise2ise.Base.{String, Bool, true, false, List, [], ◌∷◌, if◌then◌else◌}

-- `s < t` on strings: their bytes order as their code points do.
unfoldable pub before : String → String → Bool
before s t = elim (compare s t) [ Ordering.lt ↦ true | _ ↦ false ]

module _ {A : Type 0} (less : A → A → Bool) where
  -- Behind the elements that are not above it.
  unfoldable pub insert_sorted : A → List A → List A
  insert_sorted x [] = x ∷ []
  insert_sorted x (y ∷ ys) = if less x y then x ∷ y ∷ ys else y ∷ insert_sorted x ys

  unfoldable pub insert_all : List A → List A → List A
  insert_all done [] = done
  insert_all done (x ∷ xs) = insert_all (insert_sorted x done) xs

  unfoldable pub sort : List A → List A
  unfolding insert_sorted insert_all
  sort xs = insert_all [] xs

unfoldable pub sort_strings : List String → List String
unfolding sort before
sort_strings names = sort before names
