-- ===== src/PolicySets/Export.antt =====
-- policy_sets.go: `ExportPolicySets`, with its notes. `hasExceptions` and `hasMFARules` return false, so
-- that their notes are never made. The lower case of a character is a parameter.
use Prim.Native.Char.{Char}
use ise2ise.Base.{String, Bool, false, Option, none, some, List, [], ◌∷◌, ◌++◌}
use ise2ise.Json.{text, obj, objs, Obj, set, delete, str, child, objs_of}
use ise2ise.Json.Links.{strip_local}
use ise2ise.Message.{Message, said}
use ise2ise.Prog.{ret, ◌>>=◌, for_each}
use ise2ise.Sort.{before, sort}
use ise2ise.Texts.{map_text}
use ise2ise.Ise.Errors.{Result, ok}
use ise2ise.Ise.Calls.{Calls, when_ok, because, or_zero}
use ise2ise.Ise.Paging.{open_api_list}
use ise2ise.PolicySets.Clean.{extract_rules, clean_rules, clean_condition}
use ise2ise.PolicySets.Rules.{path_policy_sets, rules_path}

abbrev pub has_exceptions : String → Bool
has_exceptions id = false

abbrev pub has_mfa_rules : String → Bool
has_mfa_rules id = false

abbrev with_clean_condition : Obj → Option Obj → Obj
with_clean_condition o none = o
with_clean_condition o (some cond) = set o "condition" (obj (clean_condition cond))

-- The set as it stands in the bundle, from the set and the rules that the source gave.
unfoldable pub portable_set : Obj → List Obj → List Obj → Obj
unfolding set delete strip_local child clean_condition clean_rules extract_rules
portable_set o authentication authorization =
    let bare = delete (strip_local (set o "kind" (text "policySet"))) "hitCounts" in
    let cleaned = with_clean_condition bare (child bare "condition") in
    set (set cleaned "authentication" (objs (objs_of (clean_rules (extract_rules authentication)))))
      "authorization" (objs (objs_of (clean_rules (extract_rules authorization))))

-- The rules that cannot be read are left out without a note.
unfoldable pub export_set : Obj → List Obj → Calls (List Obj)
unfolding portable_set str
export_set o out = do
  authentication ← open_api_list (rules_path (str o "id") "authentication")
  authorization ← open_api_list (rules_path (str o "id") "authorization")
  ret (out ++ (portable_set o (or_zero [] authentication) (or_zero [] authorization) ∷ []))

module _ (lower : Char → Char) where
  abbrev pub sorts_before : Obj → Obj → Bool
  sorts_before a b = before (map_text lower (str a "name")) (map_text lower (str b "name"))

  -- The objects and the notes of the bundle.
  unfoldable pub export_policy_sets : Calls (Result (List Obj × List Message))
  unfolding export_set before map_text str
  export_policy_sets = do
    listed ← open_api_list path_policy_sets
    when_ok listed (because "listing policy sets") λ sets. do
      out ← for_each sets [] export_set
      ret (
          ok (sort sorts_before out, said "Policy sets and rules were read from the OpenAPI." ∷ []))
