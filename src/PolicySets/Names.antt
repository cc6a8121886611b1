-- ===== src/PolicySets/Names.antt =====
-- policy_sets.go: `freeSetName`. The numbers 2 to 99 are printed with their two digits or one.
use Prim.Native.Nat.{◌/◌, ◌%◌}
use ise2ise.Base.{◌≡◌, refl, ℕ, zero, suc, ◌+◌, ◌<>◌, String, Bool, true, false, Option, none, some}
use ise2ise.Base.{Dict, get, if◌then◌else◌, ◌≢◌, ltb, nat_eq}
use ise2ise.Json.{Obj}
use ise2ise.Marker.{mine}

abbrev digit : ℕ → String
digit n =
    if nat_eq n 0
    then "0"
    else if nat_eq n 1
    then "1"
    else if nat_eq n 2
    then "2"
    else if nat_eq n 3
    then "3"
    else if nat_eq n 4
    then "4"
    else if nat_eq n 5
    then "5"
    else if nat_eq n 6
    then "6"
    else if nat_eq n 7
    then "7"
    else if nat_eq n 8
    then "8"
    else "9"

-- `%d` below 100.
abbrev numeral : ℕ → String
numeral n = if ltb n 10 then digit n else digit (n / 10) <> digit (n % 10)

abbrev pub candidate : String → ℕ → String
candidate name i =
    if ltb 1 i then name <> (" (imported " <> (numeral i <> ")")) else name <> " (imported)"

abbrev of_taken : String → Option Obj → String → String
of_taken c none rest = c
of_taken c (some target) rest = if mine target then "" else rest

-- The loop: how many names may still be tried, and the next number.
unfoldable pub free_name : ℕ → ℕ → String → Dict Obj → String
unfolding mine get
free_name zero i name existing = ""
free_name (suc left) i name existing =
    let rest = free_name left (i + 1) name existing in
    of_taken (candidate name i) (get existing (candidate name i)) rest

unfoldable pub free_set_name : String → Dict Obj → String
unfolding free_name
free_set_name name existing = free_name 99 1 name existing

of_taken-free :
    (c : String) (existing : Dict Obj) (o : Option Obj) (rest : String)
    → get existing c ≡ o
    → (rest ≢ "" → get existing rest ≡ none)
    → of_taken c o rest ≢ ""
    → get existing (of_taken c o rest) ≡ none
of_taken-free c existing none rest h later named = h
of_taken-free c existing (some target) rest h later named = free_if (mine target) named
  where
    free_if :
        (b : Bool) → (if b then "" else rest) ≢ "" → get existing (if b then "" else rest) ≡ none
    free_if true n = absurd (n refl)
    free_if false n = later n

free_name-free :
    (left i : ℕ) (name : String) (existing : Dict Obj)
    → free_name left i name existing ≢ ""
    → get existing (free_name left i name existing) ≡ none
unfolding free_name
free_name-free zero i name existing named = absurd (named refl)
free_name-free (suc left) i name existing named =
    of_taken-free (candidate name i) existing (get existing (candidate name i)) _ refl
      (free_name-free left (i + 1) name existing) named

-- A name that `freeSetName` gives, other than "", is not the name of a set on the target.
pub free_set_name-free :
    (name : String) (existing : Dict Obj)
    → free_set_name name existing ≢ ""
    → get existing (free_set_name name existing) ≡ none
unfolding free_set_name
free_set_name-free name existing named = free_name-free 99 1 name existing named
