-- ===== src/Translate/Columns.antt =====
-- translate.go: the part of `Translate` that pairs the target's columns with the source's.
use Prim.Native.Char.{Char}
use ise2ise.Base.{ℕ, ◌+◌, String, Bool, false, Option, none, some, List, [], ◌∷◌, ◌==◌, ◌&&◌}
use ise2ise.Base.{not, contains, nat_eq, Dict, get, put, if◌then◌else◌, ◌||◌}
use ise2ise.Translate.Labels.{key_of, column_label, read_only_labels, node_labels}

-- What the loop over the target's header leaves: for each column the source's, if it has one, and the
-- lists of the report.
pub record Columns : Type 0 where
  pub picks : List (Option ℕ)
  pub mapped : List String
  pub dropped_ro : List String
  pub empty_target : List String
  pub node_rewrites : List String

abbrev pub no_columns : Columns
no_columns = record {
  picks = [];
  mapped = [];
  dropped_ro = [];
  empty_target = [];
  node_rewrites = [];
}

abbrev pub dropped : String → Columns → Columns
dropped label c = record c { picks = none ∷ c.picks; dropped_ro = label ∷ c.dropped_ro }

abbrev pub rewritten : Bool → String → List String → List String
rewritten b label labels = if b then label ∷ labels else labels

abbrev pub with_source : Option ℕ → Bool → String → Columns → Columns
with_source none is_node label c = record c {
  picks = none ∷ c.picks;
  empty_target = label ∷ c.empty_target;
}
with_source (some j) is_node label c = record c {
  picks = some j ∷ c.picks;
  mapped = label ∷ c.mapped;
  node_rewrites = rewritten is_node label c.node_rewrites;
}

abbrev pub is_used : List (Option ℕ) → ℕ → Bool
is_used [] i = false
is_used (none ∷ picks) i = is_used picks i
is_used (some j ∷ picks) i = nat_eq j i || is_used picks i

module _ (lower : Char → Char) where
  -- `srcIdx`: of columns with one key the last. The table of aliases is empty.
  unfoldable pub index_columns : ℕ → List String → Dict ℕ → Dict ℕ
  unfolding put
  index_columns i [] m = m
  index_columns i (h ∷ hs) m = index_columns (i + 1) hs (put m (key_of lower h) i)

  -- The column is a node's and there is a node to write.
  abbrev pub takes_node : String → String → Bool
  takes_node target_node key = contains node_labels key && not (target_node == "")

  unfoldable pub choose_columns : Dict ℕ → String → List String → Columns
  unfolding get
  choose_columns idx target_node [] = no_columns
  choose_columns idx target_node (h ∷ hs) =
      let key = key_of lower h in
      let rest = choose_columns idx target_node hs in
      if contains read_only_labels key
      then dropped (column_label h) rest
      else with_source (get idx key) (takes_node target_node key) (column_label h) rest

  -- The loop over the source's header from column `i` on.
  unfoldable pub unmapped : List (Option ℕ) → ℕ → List String → List String
  unmapped picks i [] = []
  unmapped picks i (h ∷ hs) =
      let rest = unmapped picks (i + 1) hs in
      if is_used picks i || contains read_only_labels (key_of lower h)
      then rest
      else column_label h ∷ rest
