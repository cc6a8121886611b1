-- ===== src/Report.antt =====
-- endpoints.go: the pre-flight report (`PreflightItem`, `PreflightReport`, `add`) and the result of
-- an import (`ImportResult`). A missing object reads as an empty one.
pub mod Counts
use ise2ise.Base.{ℕ, zero, suc, ◌+◌, String, Bool, true, false, List, [], ◌∷◌, ◌++◌, nat_eq}
use ise2ise.Json.{Obj}
use ise2ise.Message.{Message}

pub data Family : Type 0 where
  endpoint_groups endpoints trusted_certs system_certs policy_elements policy_sets : Family
  ad_join_points identity_sources trust_sec : Family

abbrev rank : Family → ℕ
rank endpoint_groups = 0
rank endpoints = 1
rank trusted_certs = 2
rank system_certs = 3
rank policy_elements = 4
rank policy_sets = 5
rank ad_join_points = 6
rank identity_sources = 7
rank trust_sec = 8

abbrev pub same_family : Family → Family → Bool
same_family f g = nat_eq (rank f) (rank g)

pub data Action : Type 0 where
  create skip blocked : Action

abbrev pub is_create : Action → Bool
is_create create = true
is_create skip = false
is_create blocked = false

abbrev pub is_skip : Action → Bool
is_skip create = false
is_skip skip = true
is_skip blocked = false

abbrev pub is_blocked : Action → Bool
is_blocked create = false
is_blocked skip = false
is_blocked blocked = true

pub record Item : Type 0 where
  pub family : Family
  pub name : Message
  pub action : Action
  pub reason : Message
  pub obj : Obj

abbrev pub item_of : Family → Message → Obj → Action → Message → Item
item_of f name o action reason = record {
  family = f;
  name = name;
  action = action;
  reason = reason;
  obj = o;
}

pub record Report : Type 0 where
  pub items : List Item
  pub create : ℕ
  pub skip : ℕ
  pub blocked : ℕ
  pub notes : List Message

abbrev counted : Report → Action → Report
counted r create = record r { create = r.create + 1 }
counted r skip = record r { skip = r.skip + 1 }
counted r blocked = record r { blocked = r.blocked + 1 }

unfoldable pub add : Report → Item → Report
add r it = let r' = counted r it.action in record r' { items = r'.items ++ (it ∷ []) }

unfoldable pub note : Report → Message → Report
note r m = record r { notes = r.notes ++ (m ∷ []) }

pub record ImportResult : Type 0 where
  pub created : ℕ
  pub skipped : ℕ
  pub blocked : ℕ
  pub failed : ℕ
  pub errors : List Message

abbrev pub one_created : ImportResult → ImportResult
one_created res = record res { created = res.created + 1 }

abbrev pub one_skipped : ImportResult → ImportResult
one_skipped res = record res { skipped = res.skipped + 1 }

abbrev pub one_blocked : ImportResult → ImportResult
one_blocked res = record res { blocked = res.blocked + 1 }

-- A failure and the sentence that reports it.
abbrev pub one_failed : ImportResult → Message → ImportResult
one_failed res m = record res { failed = res.failed + 1; errors = res.errors ++ (m ∷ []) }
