-- ===== src/Json/Nulls.antt =====
-- ise.go: `withoutNulls`, which an ERS create applies to its body.
use ise2ise.Base.{◌≡◌, refl, ℕ, ◌+◌, arith, Bool, true, false, ◌&&◌}
use ise2ise.Json.{Value, Objs, stop, more, objs, null, arr, obj, Values, nil, cons, Obj, end}
use ise2ise.Json.{field}

-- An item that is itself a list is copied as it stands.
unfoldable mutual
  pub without_nulls : Obj → Obj
  without_nulls end = end
  without_nulls (field k null o) = without_nulls o
  without_nulls (field k (obj p) o) = field k (obj (without_nulls p)) (without_nulls o)
  without_nulls (field k (arr vs) o) = field k (arr (clean_items vs)) (without_nulls o)
  without_nulls (field k v o) = field k v (without_nulls o)

  pub clean_items : Values → Values
  clean_items nil = nil
  clean_items (cons null vs) = clean_items vs
  clean_items (cons (obj p) vs) = cons (obj (without_nulls p)) (clean_items vs)
  clean_items (cons v vs) = cons v (clean_items vs)

-- How many nulls stand in objects and in their `[]any`, leaving out the lists in lists and
-- `[]map[string]any`.
unfoldable mutual
  pub nulls_in : Obj → ℕ
  nulls_in end = 0
  nulls_in (field k null o) = 1 + nulls_in o
  nulls_in (field k (obj p) o) = nulls_in p + nulls_in o
  nulls_in (field k (arr vs) o) = nulls_among vs + nulls_in o
  nulls_in (field k v o) = nulls_in o

  pub nulls_among : Values → ℕ
  nulls_among nil = 0
  nulls_among (cons null vs) = 1 + nulls_among vs
  nulls_among (cons (obj p) vs) = nulls_in p + nulls_among vs
  nulls_among (cons v vs) = nulls_among vs

-- How many nulls stand anywhere in a value.
unfoldable mutual
  pub nulls : Value → ℕ
  nulls null = 1
  nulls (obj o) = nulls_of o
  nulls (arr vs) = nulls_of_each vs
  nulls (objs os) = nulls_of_all os
  nulls v = 0

  pub nulls_of : Obj → ℕ
  nulls_of end = 0
  nulls_of (field k v o) = nulls v + nulls_of o

  pub nulls_of_each : Values → ℕ
  nulls_of_each nil = 0
  nulls_of_each (cons v vs) = nulls v + nulls_of_each vs

  pub nulls_of_all : Objs → ℕ
  nulls_of_all stop = 0
  nulls_of_all (more o os) = nulls_of o + nulls_of_all os

-- No list stands directly in a list, and no list is a `[]map[string]any`.
unfoldable mutual
  pub has_plain_lists : Obj → Bool
  has_plain_lists end = true
  has_plain_lists (field k (obj p) o) = has_plain_lists p && has_plain_lists o
  has_plain_lists (field k (arr vs) o) = is_plain_list vs && has_plain_lists o
  has_plain_lists (field k (objs os) o) = false
  has_plain_lists (field k v o) = has_plain_lists o

  pub is_plain_list : Values → Bool
  is_plain_list nil = true
  is_plain_list (cons (obj p) vs) = has_plain_lists p && is_plain_list vs
  is_plain_list (cons (arr ws) vs) = false
  is_plain_list (cons (objs os) vs) = false
  is_plain_list (cons v vs) = is_plain_list vs

both : (a b : Bool) → (a && b) ≡ true → (a ≡ true) × (b ≡ true)
both true b h = (refl, h)
both false b h = absurd (cc h)

mutual
  unfolding without_nulls nulls has_plain_lists

  nulls_of-without_nulls_rec : (o : Obj) → has_plain_lists o ≡ true → nulls_of (without_nulls o) ≡ 0
  nulls_of-without_nulls_rec end h = refl
  nulls_of-without_nulls_rec (field k null o) h = nulls_of-without_nulls_rec o h
  nulls_of-without_nulls_rec (field k (obj p) o) h =
      let (h1, h2) = both (has_plain_lists p) (has_plain_lists o) h in
      omega (arith, nulls_of-without_nulls_rec p h1, nulls_of-without_nulls_rec o h2)
  nulls_of-without_nulls_rec (field k (arr vs) o) h =
      let (h1, h2) = both (is_plain_list vs) (has_plain_lists o) h in
      omega (arith, nulls_of_each-clean_items vs h1, nulls_of-without_nulls_rec o h2)
  nulls_of-without_nulls_rec (field k (objs os) o) h = absurd (cc h)
  nulls_of-without_nulls_rec (field k v o) h = omega (arith, nulls_of-without_nulls_rec o h)

  nulls_of_each-clean_items :
      (vs : Values) → is_plain_list vs ≡ true → nulls_of_each (clean_items vs) ≡ 0
  nulls_of_each-clean_items nil h = refl
  nulls_of_each-clean_items (cons null vs) h = nulls_of_each-clean_items vs h
  nulls_of_each-clean_items (cons (obj p) vs) h =
      let (h1, h2) = both (has_plain_lists p) (is_plain_list vs) h in
      omega (arith, nulls_of-without_nulls_rec p h1, nulls_of_each-clean_items vs h2)
  nulls_of_each-clean_items (cons (arr ws) vs) h = absurd (cc h)
  nulls_of_each-clean_items (cons (objs os) vs) h = absurd (cc h)
  nulls_of_each-clean_items (cons v vs) h = omega (arith, nulls_of_each-clean_items vs h)

mutual
  unfolding without_nulls nulls_in

  without_nulls_fixed_rec : (o : Obj) → nulls_in o ≡ 0 → without_nulls o ≡ o
  without_nulls_fixed_rec end h = refl
  without_nulls_fixed_rec (field k null o) h = absurd (omega arith)
  without_nulls_fixed_rec (field k (obj p) o) h =
      rw (without_nulls_fixed_rec p (omega arith), without_nulls_fixed_rec o (omega arith))
  without_nulls_fixed_rec (field k (arr vs) o) h =
      rw (clean_items_fixed vs (omega arith), without_nulls_fixed_rec o (omega arith))
  without_nulls_fixed_rec (field k v o) h = rw (without_nulls_fixed_rec o h)

  clean_items_fixed : (vs : Values) → nulls_among vs ≡ 0 → clean_items vs ≡ vs
  clean_items_fixed nil h = refl
  clean_items_fixed (cons null vs) h = absurd (omega arith)
  clean_items_fixed (cons (obj p) vs) h =
      rw (without_nulls_fixed_rec p (omega arith), clean_items_fixed vs (omega arith))
  clean_items_fixed (cons v vs) h = rw (clean_items_fixed vs h)

-- `withoutNulls` leaves no null anywhere, at any depth, in an object in which no list stands directly in a
-- list and no list is a `[]map[string]any`.
pub nulls_of-without_nulls : (o : Obj) → has_plain_lists o ≡ true → nulls_of (without_nulls o) ≡ 0
nulls_of-without_nulls o h = nulls_of-without_nulls_rec o h

-- `withoutNulls` returns as it is what has no null in an object or in a list of objects, leaving out
-- what stands below a list inside a list.
pub without_nulls_fixed : (o : Obj) → nulls_in o ≡ 0 → without_nulls o ≡ o
without_nulls_fixed o h = without_nulls_fixed_rec o h
