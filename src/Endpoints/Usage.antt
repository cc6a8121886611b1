-- ===== src/Endpoints/Usage.antt =====
-- endpoints.go: `scanPolicyUsage`, `walkForGroupRefs`, `isGroupReference` and `extractGroupName`.
pub mod Told
use ise2ise.Base.{
  ℕ, zero, suc, ◌+◌, String, Bool, true, false, Option, none, some, List, [], ◌∷◌, ◌++◌,
}
use ise2ise.Base.{◌==◌, ◌&&◌, not, ◌<>◌, Dict, get, put, nat_eq, is_empty, join, if◌then◌else◌}
use ise2ise.Json.{Value, obj, arr, Values, nil, cons, Obj, end, field, str}
use ise2ise.Message.{Message, Piece, lit, shown}
use ise2ise.Prog.{Prog, ret, ask, ◌>>=◌, for_each}
use ise2ise.Texts.{trim_text, has_prefix, has_suffix, split_at_char}
use ise2ise.Ise.Errors.{Result, ok, err, error_text}
use ise2ise.Ise.Calls.{Calls, or_zero}
use ise2ise.Ise.Paging.{open_api_list}

abbrev pub group_ref_prefix : String
group_ref_prefix = "Endpoint Identity Groups:"

abbrev last_of : List String → String
last_of [] = ""
last_of (s ∷ []) = s
last_of (s ∷ t ∷ ss) = last_of (t ∷ ss)

-- `extractGroupName`
unfoldable pub extract_group_name : String → String
unfolding has_prefix trim_text
extract_group_name s =
    if not (has_prefix s group_ref_prefix) then "" else trim_text (last_of (split_at_char b':' s))

-- `isGroupReference`
unfoldable pub is_group_reference : Obj → Bool
unfolding str has_prefix
is_group_reference o =
    str o "dictionaryName" == "IdentityGroup"
    && (str o "attributeName" == "Name" && has_prefix (str o "attributeValue") group_ref_prefix)

abbrev pub times_used : Dict ℕ → String → ℕ
times_used m name = elim (get m name) [ none ↦ zero | some n ↦ n ]

abbrev counted : String → Dict ℕ → Dict ℕ
counted name m = if not (name == "") then put m name (suc (times_used m name)) else m

unfoldable pub count_reference : Obj → Dict ℕ → Dict ℕ
unfolding is_group_reference extract_group_name get put str
count_reference o m =
    if is_group_reference o then counted (extract_group_name (str o "attributeValue")) m else m

-- `walkForGroupRefs`
unfoldable mutual
  unfolding count_reference

  pub walk_value : Value → Dict ℕ → Dict ℕ
  walk_value (obj o) m = walk_fields o (count_reference o m)
  walk_value (arr vs) m = walk_values vs m
  walk_value v m = m

  pub walk_values : Values → Dict ℕ → Dict ℕ
  walk_values nil m = m
  walk_values (cons v vs) m = walk_values vs (walk_value v m)

  pub walk_fields : Obj → Dict ℕ → Dict ℕ
  walk_fields end m = m
  walk_fields (field k v o) m = walk_fields o (walk_value v m)

-- What the scan carries.
pub record Scan : Type 0 where
  pub usage : Dict ℕ
  pub refused : List Message
  pub scanned : ℕ

abbrev walk_all : List Obj → Dict ℕ → Dict ℕ
walk_all [] m = m
walk_all (o ∷ os) m = walk_all os (walk_value (obj o) m)

abbrev pub scanned_items : String → Scan → Result (List Obj) → Scan
scanned_items path s (err e) = record s {
  refused = s.refused ++ ((shown path ∷ lit ": " ∷ error_text e) ∷ []);
}
scanned_items path s (ok items) = record s {
  scanned = s.scanned + 1;
  usage = walk_all items s.usage;
}

-- One document.
abbrev pub scan : String → Scan → Calls Scan
scan path s = do r ← open_api_list path; ret (scanned_items path s r)

abbrev pub scan_rules : String → Obj → Scan → Calls Scan
scan_rules path set s =
    let both = do
      s' ← scan (path <> ("/" <> (str set "id" <> "/authentication"))) s
      scan (path <> ("/" <> (str set "id" <> "/authorization"))) s'
    in if str set "id" == "" then ret s else both

-- A document and, if it is a list of policy sets, their rules.
abbrev pub scan_path : String → Scan → Calls Scan
scan_path path s = do
  r ← open_api_list path
  let s' = scanned_items path s r in
      let rules = for_each (or_zero [] r) s' (scan_rules path) in
      if has_suffix path "/policy-set" then rules else ret s'

abbrev pub scanned_paths : List String
scanned_paths =
    "/api/v1/policy/network-access/policy-set" ∷ "/api/v1/policy/device-admin/policy-set"
    ∷ "/api/v1/policy/network-access/condition" ∷ "/api/v1/policy/device-admin/condition" ∷ []

-- The sentence of a scan, empty if everything was read.
abbrev pub scan_note : Scan → Message
scan_note s =
    if nat_eq s.scanned 0
    then lit "Policy usage could not be determined — nothing was read: " ∷ join (lit "; ") s.refused
    else if not (is_empty s.refused)
    then lit "Policy usage may be incomplete; some rules could not be read: "
      ∷ join (lit "; ") s.refused
    else []

-- `scanPolicyUsage`
unfoldable pub scan_policy_usage : List String → Calls (Dict ℕ × Message)
unfolding walk_value has_suffix error_text str
scan_policy_usage [] = ret ([], [])
scan_policy_usage (name ∷ names) = do
  s ← for_each scanned_paths (record { usage = []; refused = []; scanned = 0 }) scan_path
  ret (s.usage, scan_note s)
