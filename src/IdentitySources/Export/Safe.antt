-- ===== src/IdentitySources/Export/Safe.antt =====
-- identitysources.go: what `ExportIdentitySources` leaves out of the bundle.
use Prim.Native.Char.{Char}
use ise2ise.Base.{◌≡◌, refl, Bool, true, List, [], ◌∷◌, ◌==◌}
use ise2ise.Base.{not, ◌||◌, map, every, every-append, arith, ap, ◌∙◌}
use mathlib.Core.Option
use ise2ise.Json.{text, Obj, set, str, text_of}
use ise2ise.Json.Laws.{lookup-set}
use ise2ise.Json.Links.{lookup-strip_local, strip_value}
use ise2ise.Prog.Returns.{Returns, ends, Returns-any}
use ise2ise.Sort.Laws.{every-sort}
use ise2ise.Ise.Errors.{Result, ok, err}
use ise2ise.Ise.Calls.{Returns-when_ok, because}
use ise2ise.Ise.Paging.{ers_list}
use ise2ise.Ise.Lookup.{ers_get_all}
use ise2ise.IdentitySources.Secrets.{
  rest_id_store, certificate_profile, path_rest_id_store, root_rest_id_store,
  path_certificate_profile, root_certificate_profile,
}
use ise2ise.IdentitySources.Secrets.Laws.{carries_secret, carries_secret-dropped}
use ise2ise.IdentitySources.Export.{
  exported_store, exported_profile, comes_before, exported, export_identity_sources,
}

-- A certificate profile, or a store without the secret.
abbrev pub is_safe : Obj → Bool
is_safe o = str o "kind" == certificate_profile || not (carries_secret o)

all_safe : (os : List Obj) → every is_safe (map exported_store os) ≡ true
unfolding exported_store
all_safe [] = refl
all_safe (o ∷ os) =
    ground (arith, carries_secret-dropped (set o "kind" (text rest_id_store)), all_safe os)

str-exported_profile : (o : Obj) → str (exported_profile o) "kind" ≡ certificate_profile
unfolding exported_profile str strip_value
str-exported_profile o = ap text_of (
    lookup-strip_local (set o "kind" (text certificate_profile)) "kind"
    ∙ ap (Option.map strip_value) (lookup-set o "kind" (text certificate_profile) "kind"))

all_profiles : (os : List Obj) → every is_safe (map exported_profile os) ≡ true
all_profiles [] = refl
all_profiles (o ∷ os) = rw (str-exported_profile o) (all_profiles os)

abbrev pub IsSafeExport : Result (List Obj) → Type 0
IsSafeExport (ok os) = every is_safe os ≡ true
IsSafeExport (err e) = Unit

-- Whatever the source answers, an object of the exported bundle that is not a certificate profile
-- has no header with the key "clientSecret" among its attributes.
pub export_identity_sources-IsSafe :
    (lower : Char → Char) → Returns IsSafeExport (export_identity_sources lower)
unfolding export_identity_sources
export_identity_sources-IsSafe lower = Returns-any (ers_list path_rest_id_store) _ λ rest_stubs.
    Returns-when_ok (because "listing REST ID stores") rest_stubs (λ e. tt)
      λ stubs.
        Returns-any (ers_get_all path_rest_id_store root_rest_id_store stubs) _ λ rest_stores.
          Returns-when_ok (because "reading REST ID stores") rest_stores (λ e. tt)
            λ stores. Returns-any (ers_list path_certificate_profile) _ λ cert_stubs.
              Returns-when_ok (because "listing certificate authentication profiles") cert_stubs
                (λ e. tt)
                λ c_stubs.
                  Returns-any
                    (ers_get_all path_certificate_profile root_certificate_profile c_stubs) _
                    λ cert_profiles.
                      Returns-when_ok (because "reading certificate authentication profiles")
                        cert_profiles (λ e. tt) λ profiles. ends (all_sorted stores profiles)
  where
    all_sorted :
        (stores profiles : List Obj) → every is_safe (exported lower stores profiles) ≡ true
    all_sorted stores profiles =
        rw
          (
            every-sort (comes_before lower) is_safe _,
            every-append is_safe (map exported_store stores) _,
            all_safe stores,
          )
          (all_profiles profiles)
