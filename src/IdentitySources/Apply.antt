-- ===== src/IdentitySources/Apply.antt =====
-- identitysources.go: `applyIdentitySources`. It looks at the items only if one is to be created.
pub mod Counts
pub mod Posts
use ise2ise.Base.{String, Bool, true, false, List, [], ◌∷◌, ◌++◌, ◌==◌, ◌&&◌, any, if◌then◌else◌}
use ise2ise.Json.{Obj, str, delete, delete_all}
use ise2ise.Message.{Message, Piece, lit, quoted, shown}
use ise2ise.Prog.{Prog, ret, ask, ◌>>=◌, for_each}
use ise2ise.Ise.Calls.{Calls, ers_create}
use ise2ise.Report.{Action, create, skip, blocked, is_create, Item, same_family, identity_sources}
use ise2ise.Report.{ImportResult, one_skipped, one_blocked, one_failed}
use ise2ise.Import.{posted}
use ise2ise.IdentitySources.Secrets.{
  rest_id_store, certificate_profile, path_rest_id_store, root_rest_id_store,
  path_certificate_profile, root_certificate_profile, device_attributes_key, advance_settings_key,
}

abbrev pub post_source :
    String → Message → String → String → Obj → ImportResult → Calls ImportResult
post_source kind name path root o res = do r ← ers_create path root o; ret (posted res kind name r)

unfoldable pub create_source : String → Message → Obj → ImportResult → Calls ImportResult
unfolding delete_all
create_source kind name o res =
    let store =
      post_source kind name path_rest_id_store root_rest_id_store
        (delete_all o (device_attributes_key ∷ advance_settings_key ∷ [])) res in
    let profile = post_source kind name path_certificate_profile root_certificate_profile o res in
    let unknown : Calls ImportResult = ret (
      one_failed res
        (shown kind ∷ lit " " ∷ (name ++ (lit ": unknown kind " ∷ quoted kind ∷ [])))) in
    if kind == rest_id_store
    then store
    else if kind == certificate_profile
    then profile
    else unknown

abbrev pub apply_source_action : Item → Action → ImportResult → Calls ImportResult
apply_source_action it skip res = ret (one_skipped res)
apply_source_action it blocked res = ret (one_blocked res)
apply_source_action it create res =
    create_source (str it.obj "kind") it.name (delete it.obj "kind") res

abbrev pub is_source : Item → Bool
is_source it = same_family it.family identity_sources

abbrev pub apply_source : Item → ImportResult → Calls ImportResult
apply_source it res =
    let done = apply_source_action it it.action res in if is_source it then done else ret res

abbrev pub is_new_source : Item → Bool
is_new_source it = is_source it && is_create it.action

unfoldable pub apply_identity_sources : List Item → ImportResult → Calls ImportResult
unfolding create_source
apply_identity_sources items res =
    let run = for_each items res apply_source in if any is_new_source items then run else ret res
