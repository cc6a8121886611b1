-- ===== src/IdentitySources/Export.antt =====
-- identitysources.go: `ExportIdentitySources`, up to the order of the objects, which `sort.Slice` puts
-- by their kind and their name in lower case; the latter is a parameter.
pub mod Safe
use Prim.Native.Char.{Char}
use ise2ise.Base.{String, Bool, true, false, List, [], ◌∷◌, ◌++◌, ◌==◌, map, if◌then◌else◌}
use ise2ise.Json.{text, Obj, set, str}
use ise2ise.Json.Links.{strip_local}
use ise2ise.Prog.{Prog, ret, ask, ◌>>=◌}
use ise2ise.Sort.{before, sort}
use ise2ise.Texts.{map_text}
use ise2ise.Ise.Errors.{IseError, Result, ok, err}
use ise2ise.Ise.Calls.{Calls, when_ok, because}
use ise2ise.Ise.Paging.{ers_list}
use ise2ise.Ise.Lookup.{ers_get_all}
use ise2ise.IdentitySources.Secrets.{
  rest_id_store, certificate_profile, path_rest_id_store, root_rest_id_store,
  path_certificate_profile, root_certificate_profile, drop_client_secret,
}

unfoldable pub exported_store : Obj → Obj
unfolding strip_local drop_client_secret set
exported_store store = strip_local (drop_client_secret (set store "kind" (text rest_id_store)))

unfoldable pub exported_profile : Obj → Obj
unfolding strip_local set
exported_profile profile = strip_local (set profile "kind" (text certificate_profile))

module _ (lower : Char → Char) where
  -- The comparison of `sort.Slice`.
  unfoldable pub comes_before : Obj → Obj → Bool
  unfolding before map_text str
  comes_before a b =
      if str a "kind" == str b "kind"
      then before (map_text lower (str a "name")) (map_text lower (str b "name"))
      else before (str a "kind") (str b "kind")

  abbrev pub exported : List Obj → List Obj → List Obj
  exported stores profiles =
      sort comes_before (map exported_store stores ++ map exported_profile profiles)

  unfoldable pub export_identity_sources : Calls (Result (List Obj))
  unfolding exported_store exported_profile comes_before
  export_identity_sources = do
    rest_stubs ← ers_list path_rest_id_store
    when_ok rest_stubs (because "listing REST ID stores") λ stubs. do
      rest_stores ← ers_get_all path_rest_id_store root_rest_id_store stubs
      when_ok rest_stores (because "reading REST ID stores") λ stores. do
        cert_stubs ← ers_list path_certificate_profile
        when_ok cert_stubs (because "listing certificate authentication profiles") λ c_stubs. do
          cert_profiles ← ers_get_all path_certificate_profile root_certificate_profile c_stubs
          when_ok cert_profiles (because "reading certificate authentication profiles")
              λ profiles. ret (ok (exported stores profiles))
