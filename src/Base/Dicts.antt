-- ===== src/Base/Dicts.antt =====
-- A Go map from strings, as a list of pairs. A write puts the pair in front, so that the latest
-- write to a key is the one that is read; nothing in the program depends on the order of a map.
use Prim.Native.String.{String}
use mathlib.Core.Path.{◌≡◌, refl}
use mathlib.Core.Bool.{Bool, true, false, ◌||◌}
use mathlib.Core.Option.{Option, none, some}
use mathlib.Core.List.{List, [], ◌∷◌}
use native.Mathlib.Omega.{arith}
use text.Mathlib.Text.{◌==◌}
use text.Mathlib.TextEquality.{eq_iff}
use ise2ise.Base.Tests.{if◌then◌else◌}

abbrev pub Dict {ℓ} : Type ℓ → Type ℓ
Dict V = List (String × V)

module _ {ℓ} {V : Type ℓ} where
  unfoldable pub get : Dict V → String → Option V
  get [] k = none
  get ((j, v) ∷ m) k = if j == k then some v else get m k

  unfoldable pub put : Dict V → String → V → Dict V
  put m k v = (k, v) ∷ m

  unfoldable pub has : Dict V → String → Bool
  unfolding get
  has m k = elim (get m k) [ none ↦ false | some v ↦ true ]

  pub get-put :
      (m : Dict V) (k j : String) (v : V) → get (put m k v) j ≡ (if k == j then some v else get m j)
  unfolding get put
  get-put m k j v = refl

  pub has-put : (m : Dict V) (k j : String) (v : V) → has (put m k v) j ≡ (k == j || has m j)
  unfolding has put
  has-put m k j v = ground (arith, eq_iff k j)

  pub has_of_get : (m : Dict V) (k : String) {v : V} → get m k ≡ some v → has m k ≡ true
  unfolding has
  has_of_get m k h = rw (h, has)

-- A set of names: `map[string]bool` that only ever holds true.
abbrev pub Names : Type 0
Names = Dict Unit

unfoldable pub add_name : Names → String → Names
unfolding put
add_name m k = put m k tt

pub has-add_name : (m : Names) (k j : String) → has (add_name m k) j ≡ (k == j || has m j)
unfolding add_name
has-add_name m k j = has-put m k j tt
