-- ===== src/TrustSec/Objects.antt =====
-- trustsec.go: the constants, `portableTrustSec`, `withoutZeroes`, `comparableTarget`,
-- `existsReason` and the small readers of a cell.
use Prim.Native.Char.{nul}
use ise2ise.Base.{ℕ, String, Bool, true, false, List, [], ◌∷◌, ◌++◌, ◌<>◌, ◌==◌}
use ise2ise.Base.{map, if◌then◌else◌}
use ise2ise.Json.{Value, null, bool, text, arr, nil, Obj, end}
use ise2ise.Json.{field, delete, str}
use ise2ise.Json.Links.{strip_local}
use ise2ise.Message.{Message, said, lit, shown, comma_join}
use ise2ise.Drift.{drift_fields}

abbrev pub kind_sgt : String
kind_sgt = "sgt"

abbrev pub kind_sgacl : String
kind_sgacl = "sgacl"

abbrev pub kind_egress_cell : String
kind_egress_cell = "egressCell"

abbrev pub sgt_any : String
sgt_any = "ANY"

-- `trustSecKinds` and `kindRank`
abbrev pub trust_sec_kinds : List String
trust_sec_kinds = kind_sgt ∷ kind_sgacl ∷ kind_egress_cell ∷ []

unfoldable pub kind_rank : String → ℕ
kind_rank kind =
    if kind_sgt == kind
    then 0
    else if kind_sgacl == kind
    then 1
    else if kind_egress_cell == kind
    then 2
    else 3

abbrev pub path_sgt : String
path_sgt = "/ers/config/sgt"

abbrev pub root_sgt : String
root_sgt = "Sgt"

abbrev pub path_sgacl : String
path_sgacl = "/ers/config/sgacl"

abbrev pub root_sgacl : String
root_sgacl = "Sgacl"

abbrev pub path_egress_cell : String
path_egress_cell = "/ers/config/egressmatrixcell"

abbrev pub root_egress_cell : String
root_egress_cell = "EgressMatrixCell"

unfoldable pub portable_trust_sec : Obj → Obj
unfolding delete strip_local
portable_trust_sec o = strip_local (delete (delete o "generationId") "matrixId")

-- A value that carries no information.
abbrev pub is_zero_value : Value → Bool
is_zero_value null = true
is_zero_value (bool b) = if b then false else true
is_zero_value (text s) = s == ""
is_zero_value (arr nil) = true
is_zero_value _ = false

unfoldable pub without_zeroes : Obj → Obj
without_zeroes end = end
without_zeroes (field k v o) =
    let rest = without_zeroes o in if is_zero_value v then rest else field k v rest

-- `comparableTarget`: what was already stripped from the bundle's copy.
abbrev pub comparable_target : Obj → Obj
comparable_target o = portable_trust_sec o

abbrev differing : List String → Message
differing [] = said "already exists on the target, identical"
differing (f ∷ fs) =
    lit "already exists on the target and differs in "
    ∷ (comma_join (map (λ n. shown n ∷ []) (f ∷ fs))
        ++ said " — not changed, edit it on the target if the source's version is the one you want")

unfoldable pub exists_reason : Obj → Obj → Message
unfolding without_zeroes drift_fields portable_trust_sec
exists_reason mine theirs =
    differing (drift_fields (without_zeroes mine) (without_zeroes (comparable_target theirs)))

-- The pair of group names that identifies a cell, with a NUL between them.
unfoldable pub cell_key : String → String → String
cell_key src dst = src <> (String.◌∷◌ nul String.[] <> dst)

unfoldable pub default_rule_of : Obj → String
unfolding str
default_rule_of cell = let rule = str cell "defaultRule" in if rule == "" then "NONE" else rule
