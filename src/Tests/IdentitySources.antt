-- ===== src/Tests/IdentitySources.antt =====
-- A store with a secret among its headers, and two certificate profiles.
use ise2ise.Request.{Request}
use ise2ise.Ise.Errors.{Result, ok, err, failed}
use ise2ise.Ise.Decode.{Body}
use ise2ise.Prog.{value_against}
use Prim.Native.Char.{Char}
use ise2ise.Base.{
  ◌≡◌, refl, String, Bool, true, false, Option, none, some, List, [], ◌∷◌, any, count_of, map,
}
use ise2ise.Base.{every, if◌then◌else◌}
use ise2ise.Json.{Value, text, arr, obj, nil, cons, Obj, end, field}
use ise2ise.Prog.Returns.{Returns}
use ise2ise.Prog.Sends.{Sends}
use ise2ise.Report.{Report, trust_sec, add, create, skip, blocked, Item, identity_sources, item_of}
use ise2ise.Import.Counts.{IsSettled}
use ise2ise.Message.{said}
use ise2ise.IdentitySources.Export.{exported_store, export_identity_sources}
use ise2ise.IdentitySources.Export.Safe.{IsSafeExport, export_identity_sources-IsSafe}
use ise2ise.IdentitySources.Secrets.Laws.{carries_secret}
use ise2ise.IdentitySources.Preflight.{
  Target, read_sources, decide_source, preflight_identity_sources,
}
use ise2ise.IdentitySources.Preflight.Creatable.{IsJudged, preflight_identity_sources-IsJudged}
use ise2ise.IdentitySources.Apply.{is_new_source, is_source, apply_identity_sources}
use ise2ise.IdentitySources.Apply.Counts.{apply_identity_sources-IsSettled}
use ise2ise.IdentitySources.Apply.Posts.{PostsProfile, apply_identity_sources-PostsProfile}
use ise2ise.Tests.Shared.{nothing_listed, empty_report, no_result}

abbrev header : String → String → Value
header key value = obj (field "key" (text key) (field "value" (text value) end))

abbrev attributes : Obj
attributes =
    field "headers" (arr (cons (header "clientID" "c-1") (cons (header "clientSecret" "hush") nil)))
      end

abbrev store : Obj
store =
    field "kind" (text "restIDStore")
      (field "name" (text "Entra") (field "ersRestIDStoreAttributes" (obj attributes) end))

abbrev profile : String → Obj
profile name = field "kind" (text "certificateProfile") (field "name" (text name) end)

abbrev sources : List Obj
sources = store ∷ profile "Staff" ∷ profile "Preloaded_Certificate_Profile" ∷ profile "Guests" ∷ []

abbrev target : Target
target = record { rest_stores = []; cert_profiles = ("Guests", tt) ∷ []; objects = [] }

abbrev blank : Option Value → String
blank v = ""

-- Only the profile that the target lacks is to be created.
verdicts_lem :
    map (λ o. (decide_source blank target o).0) sources ≡ blocked ∷ create ∷ skip ∷ skip ∷ []
unfolding decide_source ise2ise.Base.has ise2ise.Base.get ise2ise.Json.str
verdicts_lem = refl

-- The secret is in the store, and not in what is exported of it.
kept_out : (carries_secret store ≡ true) × (carries_secret (exported_store store) ≡ false)
unfolding exported_store
kept_out = (refl, refl)

same : Char → Char
same c = c

export_identity_sources-IsSafe_example : Returns IsSafeExport (export_identity_sources same)
export_identity_sources-IsSafe_example = export_identity_sources-IsSafe same

abbrev silent : Request → Result Body
silent q = err (failed [])

preflight_identity_sources-IsJudged_example :
    IsJudged blank sources
      (value_against silent read_sources)
      empty_report
      (value_against silent (preflight_identity_sources blank sources empty_report))
preflight_identity_sources-IsJudged_example =
    preflight_identity_sources-IsJudged silent blank sources empty_report

abbrev judged : List Item
judged =
    item_of identity_sources (said "Entra") store blocked []
    ∷ item_of identity_sources (said "Staff") (profile "Staff") create []
    ∷ []

-- A report with a security group to create.
abbrev report_before : Report
report_before = add empty_report (item_of trust_sec (said "Staff") end create [])

-- A target whose lists are empty.
abbrev without_sources : Request → Result Body
without_sources q = ok nothing_listed

apply_identity_sources-PostsProfile_example : Sends PostsProfile (
    apply_identity_sources
      (value_against without_sources (preflight_identity_sources blank sources report_before)).items
      no_result)
unfolding add
apply_identity_sources-PostsProfile_example =
    apply_identity_sources-PostsProfile without_sources blank sources report_before no_result refl

apply_identity_sources-IsSettled_example :
    Returns
      (IsSettled (if any is_new_source judged then count_of is_source judged else 0) no_result)
      (apply_identity_sources judged no_result)
apply_identity_sources-IsSettled_example = apply_identity_sources-IsSettled judged no_result
