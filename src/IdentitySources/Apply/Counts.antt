-- ===== src/IdentitySources/Apply/Counts.antt =====
-- identitysources.go: what `applyIdentitySources` counts.
use ise2ise.Base.{String, Bool, true, false, List, ◌==◌, any, count_of}
use ise2ise.Base.{if◌then◌else◌}
use ise2ise.Json.{Obj, str, delete}
use ise2ise.Message.{Message}
use ise2ise.Prog
use ise2ise.Prog.{for_each}
use ise2ise.Prog.Returns.{Returns, ends, Returns-mono, Returns-any, Returns-if}
use ise2ise.Ise.Calls.{ers_create}
use ise2ise.Report.{Action, create, skip, blocked, Item, ImportResult}
use ise2ise.Import.Counts.{
  IsOneMore, one_skipped-IsOneMore, one_blocked-IsOneMore, one_failed-IsOneMore, posted-IsOneMore,
  IsSettled, IsSettled-one, unchanged-IsSettled, for_each-IsSettled,
}
use ise2ise.IdentitySources.Secrets.{rest_id_store, certificate_profile}
use ise2ise.IdentitySources.Apply.{
  post_source, create_source, apply_source_action, is_source, apply_source, is_new_source,
  apply_identity_sources,
}

post_source-IsOneMore :
    (kind path root : String) (name : Message) (o : Obj) (res : ImportResult)
    → Returns (IsOneMore res) (post_source kind name path root o res)
post_source-IsOneMore kind path root name o res =
    Returns-any (ers_create path root o) _ λ r. ends (posted-IsOneMore res kind name r)

create_source-IsOneMore :
    (kind : String) (name : Message) (o : Obj) (res : ImportResult)
    → Returns (IsOneMore res) (create_source kind name o res)
unfolding create_source
create_source-IsOneMore kind name o res =
    Returns-if (kind == rest_id_store) (λ _. post_source-IsOneMore kind _ _ name _ res)
      λ _.
        Returns-if (kind == certificate_profile) (λ _. post_source-IsOneMore kind _ _ name o res)
          λ _. ends (one_failed-IsOneMore res _)

apply_source_action-IsOneMore :
    (it : Item) (a : Action) (res : ImportResult)
    → Returns (IsOneMore res) (apply_source_action it a res)
apply_source_action-IsOneMore it skip res = ends (one_skipped-IsOneMore res)
apply_source_action-IsOneMore it blocked res = ends (one_blocked-IsOneMore res)
apply_source_action-IsOneMore it create res =
    create_source-IsOneMore (str it.obj "kind") it.name (delete it.obj "kind") res

apply_source-IsSettled :
    (it : Item) (res : ImportResult)
    → Returns (IsSettled (if is_source it then 1 else 0) res) (apply_source it res)
apply_source-IsSettled it res = of_family (is_source it)
  where
    of_family :
        (b : Bool)
        → Returns
            (IsSettled (if b then 1 else 0) res)
            (if b then apply_source_action it it.action res else Prog.ret res)
    of_family true =
        Returns-mono (apply_source_action-IsOneMore it it.action res) λ _. IsSettled-one
    of_family false = ends (unchanged-IsSettled res)

-- If an identity source is to be created, the import counts each item of the family once, as
-- created, skipped, blocked or failed. If none is, it counts none of them, although the pre-flight
-- may have skipped or blocked some. Either way there is one more sentence per failure.
pub apply_identity_sources-IsSettled :
    (items : List Item) (res : ImportResult)
    → Returns
        (IsSettled (if any is_new_source items then count_of is_source items else 0) res)
        (apply_identity_sources items res)
unfolding apply_identity_sources
apply_identity_sources-IsSettled items res = of_any (any is_new_source items)
  where
    of_any :
        (b : Bool)
        → Returns
            (IsSettled (if b then count_of is_source items else 0) res)
            (if b then for_each items res apply_source else Prog.ret res)
    of_any true = for_each-IsSettled is_source apply_source-IsSettled items res
    of_any false = ends (unchanged-IsSettled res)
