-- ===== src/IdentitySources/Drift.antt =====
-- identitysources.go: `driftFieldsIdentitySource`, `attributesDiffer` and `mapsEqual`. What Go's
-- `fmt.Sprintf("%v", …)` prints of a value is a parameter.
use ise2ise.Base.{String, Bool, Option, none, some, List, [], ◌∷◌, ◌++◌, ◌==◌, ◌||◌}
use ise2ise.Base.{◌&&◌, not, any, contains, if◌then◌else◌}
use ise2ise.Json.{Value, text, obj, Obj, end, lookup, set, str, child}
use ise2ise.Drift.{keys_of}
use ise2ise.Sort.{sort_strings}
use ise2ise.IdentitySources.Secrets.{
  rest_id_store, attributes_key, device_attributes_key, advance_settings_key, drop_from_attributes,
  extract_headers,
}

abbrev pub not_compared : List String
not_compared = device_attributes_key ∷ advance_settings_key ∷ "id" ∷ "link" ∷ "kind" ∷ []

unfoldable pub headers_into : List Obj → Obj → Obj
unfolding set str
headers_into [] out = out
headers_into (h ∷ hs) out = headers_into hs (set out (str h "key") (text (str h "value")))

-- `headerMap`
unfoldable pub header_map : Obj → Obj
unfolding headers_into extract_headers
header_map m = headers_into (extract_headers m) end

module _ (print : Option Value → String) where
  -- `mapsEqual`
  abbrev pub maps_equal : Option Value → Option Value → Bool
  maps_equal a b = print a == print b

  abbrev pub key_differs : Obj → Obj → String → Bool
  key_differs a b k = not (k == "headers") && not (maps_equal (lookup a k) (lookup b k))

  -- `attributesDiffer`
  unfoldable pub attributes_differ : Obj → Obj → Bool
  unfolding header_map keys_of lookup
  attributes_differ a b =
      not (maps_equal (some (obj (header_map a))) (some (obj (header_map b))))
      || any (key_differs a b) (keys_of a ++ keys_of b)

  abbrev pub plain_drift : Option Value → Option Value → String → List String
  plain_drift a b k = if maps_equal a b then [] else k ∷ []

  abbrev pub attributes_drift : Option Value → Option Value → Option Obj → Option Obj → List String
  attributes_drift a b (some aa) (some ba) =
      if attributes_differ (drop_from_attributes aa) (drop_from_attributes ba)
      then "connection settings" ∷ []
      else []
  attributes_drift a b none bo = plain_drift a b attributes_key
  attributes_drift a b (some aa) none = plain_drift a b attributes_key

  -- One key, as the report names it.
  unfoldable pub field_drift : Obj → Obj → String → String → List String
  unfolding attributes_differ drop_from_attributes child lookup
  field_drift mine theirs kind k =
      if kind == rest_id_store && k == attributes_key
      then attributes_drift (lookup mine k) (lookup theirs k) (child mine attributes_key)
          (child theirs attributes_key)
      else plain_drift (lookup mine k) (lookup theirs k) k

  -- The loop over the keys of both, each of which is looked at once.
  unfoldable pub source_drift_over : Obj → Obj → String → List String → List String → List String
  unfolding field_drift
  source_drift_over mine theirs kind [] seen = []
  source_drift_over mine theirs kind (k ∷ ks) seen =
      let rest = source_drift_over mine theirs kind ks (k ∷ seen) in
      if contains not_compared k || contains seen k
      then rest
      else field_drift mine theirs kind k ++ rest

  -- `driftFieldsIdentitySource`
  unfoldable pub drift_fields_identity_source : Obj → Obj → String → List String
  unfolding source_drift_over sort_strings keys_of
  drift_fields_identity_source mine theirs kind =
      sort_strings (source_drift_over mine theirs kind (keys_of mine ++ keys_of theirs) [])
