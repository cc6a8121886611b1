-- ===== src/Translate/Rows/Placed.antt =====
-- translate.go: where the values of a written record come from.
use Prim.Native.Char.{Char}
use ise2ise.Base.{◌≡◌, refl, ℕ, zero, suc, ◌+◌, String, Bool, true, false, Option, none, some, List}
use ise2ise.Base.{[], ◌∷◌, ◌==◌, ◌&&◌, not, contains, Dict, get, put, All, arith, eq_iff}
use ise2ise.Base.{if◌then◌else◌, ap, ◌∙◌, sym}
use ise2ise.Texts.{trim_text}
use ise2ise.Translate.Labels.{
  key_of, column_label, read_only_labels, secret_label, is_masked, at, has_content,
}
use ise2ise.Translate.Columns.{
  Columns, dropped, with_source, index_columns, choose_columns, takes_node,
}
use ise2ise.Translate.Rows.{
  Filled, filled, masked, cons_value, Written, writing, carried, fill, write_rows,
}

module _ (lower : Char → Char) (target_node : String) (header : List String) where
  -- What a column of the target with the header `h` may hold, for a row of the source: nothing, or the
  -- value of a source column with the same key, which is no masked secret.
  pub data Carries (row : List String) (h v : String) : Type 0 where
    blank : v ≡ "" → Carries row h v
    copied :
        (j : ℕ)
        → key_of lower (at header j) ≡ key_of lower h
        → (secret_label (key_of lower (at header j)) && is_masked (at row j)) ≡ false
        → v ≡ carried lower target_node (key_of lower (at header j)) (at row j)
        → Carries row h v

  -- Column by column: the record is as wide as the target's header.
  abbrev pub Placed : List String → List String → List String → Type 0
  Placed row [] [] = Unit
  Placed row [] (v ∷ vs) = ⊥
  Placed row (h ∷ hs) [] = ⊥
  Placed row (h ∷ hs) (v ∷ vs) = Carries row h v × Placed row hs vs

  -- The record is placed from one of the rows.
  pub data Comes (hs rec : List String) : List (List String) → Type 0 where
    here :
        {row : List String} {rows : List (List String)}
        → Placed row hs rec
        → Comes hs rec (row ∷ rows)
    there :
        {row : List String} {rows : List (List String)}
        → Comes hs rec rows
        → Comes hs rec (row ∷ rows)

  abbrev pub Aligned : List String → List (Option ℕ) → Type 0
  Aligned [] [] = Unit
  Aligned [] (p ∷ ps) = ⊥
  Aligned (h ∷ hs) [] = ⊥
  Aligned (h ∷ hs) (none ∷ ps) = Aligned hs ps
  Aligned (h ∷ hs) (some j ∷ ps) = (key_of lower (at header j) ≡ key_of lower h) × Aligned hs ps

  abbrev pub IsIndex : Dict ℕ → Type 0
  IsIndex m = (k : String) (j : ℕ) → get m k ≡ some j → key_of lower (at header j) ≡ k

  put-IsIndex :
      (m : Dict ℕ) (i : ℕ) (x : String)
      → at header i ≡ x
      → IsIndex m
      → IsIndex (put m (key_of lower x) i)
  unfolding get put
  put-IsIndex m i x there_is h k j found =
      of_test (key_of lower x == k) (λ e. (eq_iff (key_of lower x) k).0 e) found
    where
      of_test :
          (b : Bool)
          → (b ≡ true → key_of lower x ≡ k)
          → (if b then some i else get m k) ≡ some j
          → key_of lower (at header j) ≡ k
      of_test true same e =
          let p : i ≡ j = cc in
          ap (λ n. key_of lower (at header n)) (sym p) ∙ (ap (key_of lower) there_is ∙ same refl)
      of_test false same e = h k j e

  pub index_columns-IsIndex :
      (i : ℕ) (hs : List String) (m : Dict ℕ)
      → ((n : ℕ) → at header (i + n) ≡ at hs n)
      → IsIndex m
      → IsIndex (index_columns lower i hs m)
  unfolding index_columns at
  index_columns-IsIndex i [] m within h = h
  index_columns-IsIndex i (x ∷ xs) m within h =
      let behind : (n : ℕ) → at header (i + 1 + n) ≡ at xs n =
        λ n. ap (at header) (omega arith) ∙ within (suc n) in
      let first : at header i ≡ x = ap (at header) (omega arith) ∙ within zero in
      index_columns-IsIndex (i + 1) xs (put m (key_of lower x) i) behind (put-IsIndex m i x first h)

  chosen-Aligned :
      (b : Bool) (o : Option ℕ) (h : String) (hs : List String) (label : String) (is_node : Bool)
      (rest : Columns)
      → ((j : ℕ) → o ≡ some j → key_of lower (at header j) ≡ key_of lower h)
      → Aligned hs rest.picks
      → Aligned (h ∷ hs) (if b then dropped label rest else with_source o is_node label rest).picks
  chosen-Aligned true o h hs label is_node rest f a = a
  chosen-Aligned false none h hs label is_node rest f a = a
  chosen-Aligned false (some j) h hs label is_node rest f a = (f j refl, a)

  pub choose_columns-Aligned :
      (idx : Dict ℕ) (hs : List String)
      → IsIndex idx
      → Aligned hs (choose_columns lower idx target_node hs).picks
  unfolding choose_columns
  choose_columns-Aligned idx [] h = tt
  choose_columns-Aligned idx (x ∷ xs) h =
      chosen-Aligned (contains read_only_labels (key_of lower x)) (get idx (key_of lower x)) x xs
        (column_label x) (takes_node lower target_node (key_of lower x))
        (choose_columns lower idx target_node xs) (h (key_of lower x))
        (choose_columns-Aligned idx xs h)

  abbrev FilledAs : List String → List String → Filled → Type 0
  FilledAs row hs (filled rec) = Placed row hs rec
  FilledAs row hs (masked label) = Unit

  cons_value-FilledAs :
      (row hs : List String) (h v : String) (f : Filled)
      → Carries row h v
      → FilledAs row hs f
      → FilledAs row (h ∷ hs) (cons_value v f)
  cons_value-FilledAs row hs h v (filled rec) c a = (c, a)
  cons_value-FilledAs row hs h v (masked label) c a = tt

  unless_masked :
      (row hs : List String) (b : Bool) (label : String) (f : Filled)
      → (b ≡ false → FilledAs row hs f)
      → FilledAs row hs (if b then masked label else f)
  unless_masked row hs true label f g = tt
  unless_masked row hs false label f g = g refl

  fill-FilledAs :
      (row hs : List String) (ps : List (Option ℕ))
      → Aligned hs ps
      → FilledAs row hs (fill lower target_node header row ps)
  unfolding fill
  fill-FilledAs row [] [] a = tt
  fill-FilledAs row [] (p ∷ ps) a = elim a [ ]
  fill-FilledAs row (h ∷ hs) [] a = elim a [ ]
  fill-FilledAs row (h ∷ hs) (none ∷ ps) a =
      cons_value-FilledAs row hs h "" (fill lower target_node header row ps) (blank refl)
        (fill-FilledAs row hs ps a)
  fill-FilledAs row (h ∷ hs) (some j ∷ ps) (same, a) =
      let key : String = key_of lower (at header j) in
      let v : String = carried lower target_node key (at row j) in
      let rest : Filled = fill lower target_node header row ps in
      let placed : FilledAs row hs rest = fill-FilledAs row hs ps a in
      unless_masked row (h ∷ hs) (secret_label key && is_masked (at row j))
        (column_label (at header j)) (cons_value v rest)
        (λ usable. cons_value-FilledAs row hs h v rest (copied j same usable refl) placed)

  All-there :
      (hs row : List String) (rows recs : List (List String))
      → All (λ rec. Comes hs rec rows) recs
      → All (λ rec. Comes hs rec (row ∷ rows)) recs
  All-there hs row rows [] a = tt
  All-there hs row rows (rec ∷ recs) (c, a) = (there c, All-there hs row rows recs a)

  unfoldable pub AllCome : List String → List (List String) → Written → Type 0
  AllCome hs rows w = All (λ rec. Comes hs rec rows) w.records

  chosen_row :
      (P : Written → Type 0) (empty nameless : Bool) (x y z : Written)
      → P x
      → P y
      → P z
      → P (if empty then x else if nameless then y else z)
  chosen_row P true nameless x y z hx hy hz = hx
  chosen_row P false true x y z hx hy hz = hy
  chosen_row P false false x y z hx hy hz = hz

  writing-AllCome :
      (hs row : List String) (rows : List (List String)) (name : String) (f : Filled) (w : Written)
      → FilledAs row hs f
      → AllCome hs rows w
      → AllCome hs (row ∷ rows) (writing name f w)
  unfolding AllCome
  writing-AllCome hs row rows name (filled rec) w placed a =
      (here placed, All-there hs row rows w.records a)
  writing-AllCome hs row rows name (masked label) w placed a = All-there hs row rows w.records a

  pub write_rows-AllCome :
      (name_col : ℕ) (hs : List String) (ps : List (Option ℕ)) (rows : List (List String))
      → Aligned hs ps
      → AllCome hs rows (write_rows lower target_node header name_col ps rows)
  unfolding write_rows AllCome
  write_rows-AllCome name_col hs ps [] a = tt
  write_rows-AllCome name_col hs ps (row ∷ rows) a =
      let w : Written = write_rows lower target_node header name_col ps rows in
      let ih : AllCome hs rows w = write_rows-AllCome name_col hs ps rows a in
      let later : AllCome hs (row ∷ rows) w = All-there hs row rows w.records ih in
      chosen_row (AllCome hs (row ∷ rows)) (not (has_content row))
        (trim_text (at row name_col) == "") w _
        (writing (at row name_col) (fill lower target_node header row ps) w) later later
        (writing-AllCome hs row rows (at row name_col) (fill lower target_node header row ps) w
          (fill-FilledAs row hs ps a) ih)
