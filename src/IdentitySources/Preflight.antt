-- ===== src/IdentitySources/Preflight.antt =====
-- identitysources.go: `preflightIdentitySources` and `identitySourcesAfterThisRun`.
pub mod Creatable
use ise2ise.Base.{
  String, Bool, true, false, Option, none, some, List, [], ◌∷◌, ◌==◌, ◌&&◌, ◌||◌, not,
}
use Prim.Native.Char.{nul}
use ise2ise.Base.{◌++◌, ◌<>◌, Dict, get, put, Names, has, add_name, if◌then◌else◌}
use ise2ise.Json.{Value, Obj, str}
use ise2ise.Message.{Message, Piece, lit, quoted, shown, said, comma_join}
use ise2ise.Prog.{Prog, ret, ask, ◌>>=◌}
use ise2ise.Ise.Errors.{Result, ok, err}
use ise2ise.Import.{stub_names, created_names}
use ise2ise.Ise.Decode.{Stub}
use ise2ise.Ise.Calls.{Calls, or_zero}
use ise2ise.Ise.Paging.{ers_list}
use ise2ise.Ise.Lookup.{ers_get_all}
use ise2ise.Report.{
  item_of, Action, create, skip, blocked, is_create, Item, Report, add, same_family,
}
use ise2ise.Report.{identity_sources}
use ise2ise.IdentitySources.Secrets.{
  rest_id_store, certificate_profile, path_rest_id_store, root_rest_id_store,
  path_certificate_profile, root_certificate_profile, rest_store_manual_steps,
}
use ise2ise.IdentitySources.Drift.{drift_fields_identity_source}

-- What the target holds: the names of each kind, and the objects that could be read.
pub record Target : Type 0 where
  pub rest_stores : Names
  pub cert_profiles : Names
  pub objects : Dict Obj

-- The key of an object: its kind and its name, with a NUL between them.
abbrev pub source_key : String → String → String
source_key kind name = kind <> (String.◌∷◌ nul String.[] <> name)

abbrev pub objects_into : String → List Obj → Dict Obj → Dict Obj
objects_into kind [] m = m
objects_into kind (o ∷ os) m = objects_into kind os (put m (source_key kind (str o "name")) o)

unfoldable pub read_sources : Calls Target
read_sources = do
  rest_stubs ← ers_list path_rest_id_store
  rest ← ers_get_all path_rest_id_store root_rest_id_store (or_zero [] rest_stubs)
  cert_stubs ← ers_list path_certificate_profile
  certs ← ers_get_all path_certificate_profile root_certificate_profile (or_zero [] cert_stubs)
  ret (record {
    rest_stores = stub_names (or_zero [] rest_stubs) [];
    cert_profiles = stub_names (or_zero [] cert_stubs) [];
    objects =
        objects_into certificate_profile (or_zero [] certs)
          (objects_into rest_id_store (or_zero [] rest) []);
  })

abbrev shown_all : List String → List Message
shown_all [] = []
shown_all (f ∷ fs) = (shown f ∷ []) ∷ shown_all fs

abbrev pub differing_source : List String → Message
differing_source [] = said "already exists on the target"
differing_source (f ∷ fs) =
    lit "already exists on the target and DIFFERS from the source in "
    ∷ (comma_join (shown_all (f ∷ fs))
        ++ (lit "; not changed — edit it on the target if the source's version is the one you want"
            ∷ []))

abbrev pub exists_on : Target → String → String → Bool
exists_on t kind name =
    if kind == rest_id_store
    then has t.rest_stores name
    else kind == certificate_profile && has t.cert_profiles name

module _ (print : Option Value → String) where
  abbrev pub against : Obj → String → Option Obj → Message
  against item kind none = said "already exists on the target"
  against item kind (some theirs) =
      differing_source (drift_fields_identity_source print item theirs kind)

  -- The verdict on one item.
  unfoldable pub decide_source : Target → Obj → Action × Message
  unfolding rest_store_manual_steps drift_fields_identity_source get str
  decide_source t item =
      let kind = str item "kind" in
      let name = str item "name" in
      if kind == rest_id_store && not (has t.rest_stores name)
      then (blocked, rest_store_manual_steps item)
      else if name == ""
      then (blocked, lit "the bundle holds a " ∷ shown kind ∷ lit " with no name" ∷ [])
      else if not (kind == rest_id_store) && not (kind == certificate_profile)
      then (blocked, lit "unknown object kind " ∷ quoted kind ∷ [])
      else if kind == certificate_profile && name == "Preloaded_Certificate_Profile"
      then (skip, said "factory certificate profile")
      else if exists_on t kind name
      then (skip, against item kind (get t.objects (source_key kind name)))
      else (create, [])

  abbrev pub source_item : Target → Obj → Item
  source_item t item =
      let (action, reason) = decide_source t item in
      item_of identity_sources (said (str item "name")) item action reason

  unfoldable pub judge_sources : Target → List Obj → Report → Report
  unfolding add decide_source
  judge_sources t [] r = r
  judge_sources t (item ∷ items) r = judge_sources t items (add r (source_item t item))

  unfoldable pub preflight_identity_sources : List Obj → Report → Calls Report
  unfolding read_sources judge_sources
  preflight_identity_sources [] r = ret r
  preflight_identity_sources (item ∷ items) r = do
    t ← read_sources
    ret (judge_sources t (item ∷ items) r)

unfoldable pub identity_sources_after_this_run : Report → Calls Names
identity_sources_after_this_run r = do
  rest_stubs ← ers_list path_rest_id_store
  cert_stubs ← ers_list path_certificate_profile
  ret (
      created_names identity_sources r.items
        (stub_names (or_zero [] cert_stubs) (stub_names (or_zero [] rest_stubs) [])))
