-- ===== src/Import.antt =====
-- What the families share: the answer to a create, as the result counts it, and the names that the
-- target has after a run.
pub mod Counts
use ise2ise.Base.{String, ◌∷◌, ◌++◌, if◌then◌else◌}
use ise2ise.Base.{List, [], Bool, ◌&&◌, ◌==◌, not, Names, add_name}
use ise2ise.Json.{str}
use ise2ise.Ise.Decode.{Stub}
use ise2ise.Message.{Message, lit, shown}
use ise2ise.Ise.Errors.{Result, ok, err, is_duplicate, error_text}
use ise2ise.Report.{
  Family, Item, same_family, is_create, ImportResult, one_created, one_skipped, one_failed,
}

abbrev pub posted : ImportResult → String → Message → Result Unit → ImportResult
posted res kind name (ok u) = one_created res
posted res kind name (err e) =
    if is_duplicate e
    then one_skipped res
    else one_failed res (shown kind ∷ lit " " ∷ (name ++ (lit ": " ∷ error_text e)))

abbrev pub stub_names : List Stub → Names → Names
stub_names [] m = m
stub_names (s ∷ stubs) m = stub_names stubs (add_name m s.name)

-- The names of the family's items that this run creates.
abbrev pub created_names : Family → List Item → Names → Names
created_names f [] m = m
created_names f (it ∷ items) m = created_names f items (
    if same_family it.family f && (is_create it.action && not (str it.obj "name" == ""))
    then add_name m (str it.obj "name")
    else m)
