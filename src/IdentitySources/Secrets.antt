-- ===== src/IdentitySources/Secrets.antt =====
-- identitysources.go: `dropClientSecret`, `extractHeaders` and `restStoreManualSteps`.
pub mod Laws
use ise2ise.Base.{String, Bool, true, false, Option, none, some, List, [], ◌∷◌, ◌++◌, ◌==◌, ◌||◌}
use ise2ise.Base.{not, keep, if◌then◌else◌}
use ise2ise.Json.{
  array_objects, Value, arr, obj, Values, nil, cons, Obj, lookup, set, str, child, rule_list,
}
use ise2ise.Json.{objects_in}
use ise2ise.Message.{Message, Piece, lit, quoted, shown}

abbrev pub rest_id_store : String
rest_id_store = "restIDStore"

abbrev pub certificate_profile : String
certificate_profile = "certificateProfile"

abbrev pub path_rest_id_store : String
path_rest_id_store = "/ers/config/restidstore"

abbrev pub root_rest_id_store : String
root_rest_id_store = "ERSRestIDStore"

abbrev pub path_certificate_profile : String
path_certificate_profile = "/ers/config/certificateprofile"

abbrev pub root_certificate_profile : String
root_certificate_profile = "CertificateProfile"

abbrev pub attributes_key : String
attributes_key = "ersRestIDStoreAttributes"

abbrev pub device_attributes_key : String
device_attributes_key = "ersRestIDStoreDeviceAttributes"

abbrev pub advance_settings_key : String
advance_settings_key = "ersRestIDStoreAdvanceSettings"

abbrev pub is_secret : Obj → Bool
is_secret h = str h "key" == "clientSecret"

unfoldable pub arr_of_list : List Obj → Values
arr_of_list [] = nil
arr_of_list (o ∷ os) = cons (obj o) (arr_of_list os)

-- The attributes without the application secret among their headers.
unfoldable pub drop_from_attributes : Obj → Obj
unfolding rule_list lookup set arr_of_list str
drop_from_attributes attrs =
    set attrs "headers"
      (arr (arr_of_list (keep (λ h. not (is_secret h)) (rule_list (lookup attrs "headers")))))

abbrev pub with_dropped : Obj → Option Obj → Obj
with_dropped store none = store
with_dropped store (some attrs) = set store attributes_key (obj (drop_from_attributes attrs))

-- `dropClientSecret`
unfoldable pub drop_client_secret : Obj → Obj
unfolding drop_from_attributes child set
drop_client_secret store = with_dropped store (child store attributes_key)

-- `extractHeaders`
unfoldable pub extract_headers : Obj → List Obj
unfolding objects_in lookup
extract_headers attrs = array_objects (lookup attrs "headers")

abbrev id_headers : List Obj → Message
id_headers [] = []
id_headers (h ∷ hs) =
    if str h "key" == "clientID" || str h "key" == "tenantID"
    then lit ", " ∷ shown (str h "key") ∷ lit " " ∷ quoted (str h "value") ∷ id_headers hs
    else id_headers hs

abbrev store_text : Option Obj → Message
store_text none = []
store_text (some attrs) =
    lit " — provider "
    ∷ quoted (str attrs "predefined")
    ∷ lit ", rootUrl "
    ∷ quoted (str attrs "rootUrl")
    ∷ lit ", username suffix "
    ∷ quoted (str attrs "usernameSuffix")
    ∷ id_headers (rule_list (lookup attrs "headers"))

-- `restStoreManualSteps`
unfoldable pub rest_store_manual_steps : Obj → Message
unfolding child rule_list lookup str
rest_store_manual_steps item =
    lit
      "a REST identity store cannot be created over ISE's API: its device attributes and device query settings cannot be written, and a store without them cannot be saved in the GUI either. Create it by hand under Administration > Identity Management > External Identity Sources > REST (ROPC)"
    ∷ (store_text (child item attributes_key)
        ++ (lit
              ". The client secret is deliberately not carried in the bundle; take it from your own records."
            ∷ []))
