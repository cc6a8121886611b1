-- ===== src/Import/Counts.antt =====
-- Every item that an import deals with is counted once, and every failure has a sentence.
use ise2ise.Base.{
  suc, count_of, Bool, true, false, if◌then◌else◌, ◌≡◌, refl, ℕ, ◌+◌, String, List, [], ◌∷◌, arith,
  length, length-append, Bool-cases, inl, inr,
}
use ise2ise.Message.{Message}
use ise2ise.Ise.Errors.{Result, ok, err, is_duplicate}
use ise2ise.Report.{ImportResult, one_skipped, one_blocked, one_failed}
use ise2ise.Import.{posted}
use ise2ise.Prog.{Prog, for_each}
use ise2ise.Prog.Returns.{Returns, ends, Returns-bind, Returns-mono}
use ise2ise.Report.{Item}

-- The items that an import has dealt with.
abbrev pub total : ImportResult → ℕ
total res = res.created + res.skipped + res.blocked + res.failed

-- One more item is counted, and one more sentence is there for a failure.
pub record IsOneMore (res res' : ImportResult) : Type 0 where
  pub counted : total res' ≡ total res + 1
  pub reported : length res'.errors + res.failed ≡ length res.errors + res'.failed

pub one_skipped-IsOneMore : (res : ImportResult) → IsOneMore res (one_skipped res)
one_skipped-IsOneMore res = record { counted = omega arith; reported = refl }

pub one_blocked-IsOneMore : (res : ImportResult) → IsOneMore res (one_blocked res)
one_blocked-IsOneMore res = record { counted = omega arith; reported = refl }

pub one_failed-IsOneMore : (res : ImportResult) (m : Message) → IsOneMore res (one_failed res m)
one_failed-IsOneMore res m = record {
  counted = omega arith;
  reported = omega (arith, length-append res.errors (m ∷ []));
}

pub posted-IsOneMore :
    (res : ImportResult) (kind : String) (name : Message) (r : Result Unit)
    → IsOneMore res (posted res kind name r)
posted-IsOneMore res kind name (ok u) = record { counted = omega arith; reported = refl }
posted-IsOneMore res kind name (err e) = elim (Bool-cases (is_duplicate e)) [
  | inl again ↦ rw (again, posted) (one_skipped-IsOneMore res)
  | inr refused ↦ rw (refused, posted) (one_failed-IsOneMore res _)
]

-- So many more items are counted, and as many more sentences as failures.
pub record IsSettled (n : ℕ) (res res' : ImportResult) : Type 0 where
  pub counted : total res' ≡ total res + n
  pub reported : length res'.errors + res.failed ≡ length res.errors + res'.failed

pub unchanged-IsSettled : (res : ImportResult) → IsSettled 0 res res
unchanged-IsSettled res = record { counted = omega arith; reported = refl }

pub IsSettled-one : {res res' : ImportResult} → IsOneMore res res' → IsSettled 1 res res'
IsSettled-one one = record { counted = one.counted; reported = one.reported }

-- Which step an item leads to, by whether it is one of those that are dealt with.
pub IsSettled-then :
    (b : Bool) (n : ℕ) (res res' res'' : ImportResult)
    → IsSettled (if b then 1 else 0) res res'
    → IsSettled n res' res''
    → IsSettled (if b then suc n else n) res res''
IsSettled-then true n res res' res'' h h' = record {
  counted = omega (arith, h.counted, h'.counted);
  reported = omega (arith, h.reported, h'.reported);
}
IsSettled-then false n res res' res'' h h' = record {
  counted = omega (arith, h.counted, h'.counted);
  reported = omega (arith, h.reported, h'.reported);
}

-- A loop whose step settles the items that pass a test settles as many as there are.
pub for_each-IsSettled :
    {Q R : Type 0} (p : Item → Bool) {step : Item → ImportResult → Prog Q R ImportResult}
    → ((it : Item) (res : ImportResult)
        → Returns (IsSettled (if p it then 1 else 0) res) (step it res))
    → (items : List Item) (res : ImportResult)
    → Returns (IsSettled (count_of p items) res) (for_each items res step)
unfolding for_each
for_each-IsSettled p h [] res = ends (unchanged-IsSettled res)
for_each-IsSettled p h (it ∷ items) res = Returns-bind _ (h it res) λ res' one.
    Returns-mono (for_each-IsSettled p h items res')
      λ res'' rest. IsSettled-then (p it) _ res res' res'' one rest
