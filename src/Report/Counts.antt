-- ===== src/Report/Counts.antt =====
-- endpoints.go: the items and the counters of a pre-flight report.
use ise2ise.Base.{◌≡◌, ◌++◌, [], ◌∷◌, arith, count_of, count_of-append}
use ise2ise.Report.{Item, Report, is_create, is_skip, is_blocked, add}
use ise2ise.Report.{note}
use ise2ise.Message.{Message}

pub items-add : (r : Report) (it : Item) → (add r it).items ≡ r.items ++ (it ∷ [])
unfolding add
items-add r it = ground arith

pub record IsCounted (r : Report) : Type 0 where
  pub created : r.create ≡ count_of (λ it. is_create it.action) r.items
  pub skipped : r.skip ≡ count_of (λ it. is_skip it.action) r.items
  pub stopped : r.blocked ≡ count_of (λ it. is_blocked it.action) r.items

-- If the three counters of a report are the numbers of its items with each action, they still are
-- after `add`.
pub add-IsCounted : (r : Report) (it : Item) → IsCounted r → IsCounted (add r it)
unfolding add
add-IsCounted r it c = record {
  created = ground (arith, c.created, count_of-append (λ i. is_create i.action) r.items (it ∷ []));
  skipped = ground (arith, c.skipped, count_of-append (λ i. is_skip i.action) r.items (it ∷ []));
  stopped = ground (arith, c.stopped, count_of-append (λ i. is_blocked i.action) r.items (it ∷ []));
}

pub note-IsCounted : (r : Report) (m : Message) → IsCounted r → IsCounted (note r m)
unfolding note
note-IsCounted r m c = record { created = c.created; skipped = c.skipped; stopped = c.stopped }
