-- ===== src/Ise/Csrf/Laws.antt =====
-- ise.go: how often `do` sends a request, and what a reading program sends.
use ise2ise.Base.{◌≡◌, refl, ℕ, zero, suc, ◌≤◌, String, Bool, true, false, arith}
use ise2ise.Base.{count_of, if◌then◌else◌, ◌==◌, ◌&&◌}
use ise2ise.Request.{Request, Url, Method, read, post, replace, IsRead, needs_csrf}
use ise2ise.Prog.{ret, ask, ◌>>=◌, run}
use ise2ise.Prog.Sends.{Sends, done, asks, Sends-bind}
use ise2ise.Ise.Errors.{IseError, Result, ok, err, is_csrf_failure}
use ise2ise.Ise.Decode.{Body}
use ise2ise.Ise.Calls.{Calls, Reads}
use ise2ise.Ise.Csrf.{
  Wire, fetch, send, Answer, Wired, fetched, send_with, send_fetched, attempt, second_try,
  after_first, exchange, over_wire, reply,
}

abbrev pub is_send : Wire → Bool
is_send (fetch u) = false
is_send (send q tok) = true

-- At most so many sends on every path, whatever is answered.
data AtMost {A : Type 0} : ℕ → Wired A → Type 0 where
  over : {n : ℕ} (a : A) → AtMost n (ret a)
  fetching :
      {n : ℕ} (u : Url) {k : Answer → Wired A}
      → ((a : Answer) → AtMost n (k a))
      → AtMost n (ask (fetch u) k)
  sending :
      {n : ℕ} (q : Request) (tok : String) {k : Answer → Wired A}
      → ((a : Answer) → AtMost n (k a))
      → AtMost (suc n) (ask (send q tok) k)

module _ {A : Type 0} where
  AtMost-if :
      {n : ℕ} (b : Bool) {l r : Wired A} → AtMost n l → AtMost n r → AtMost n (if b then l else r)
  AtMost-if true h h' = h
  AtMost-if false h h' = h'

  AtMost-suc : {n : ℕ} {p : Wired A} → AtMost n p → AtMost (suc n) p
  AtMost-suc (over a) = over a
  AtMost-suc (fetching u h) = fetching u λ a. AtMost-suc (h a)
  AtMost-suc (sending q tok h) = sending q tok λ a. AtMost-suc (h a)

  AtMost-more : (n : ℕ) {p : Wired A} → AtMost 1 p → AtMost (suc n) p
  AtMost-more zero h = h
  AtMost-more (suc n) h = AtMost-suc (AtMost-more n h)

module _ {A B : Type 0} where
  AtMost-bind :
      {n : ℕ} {p : Wired A} (f : A → Wired B)
      → AtMost n p
      → ((a : A) → AtMost 1 (f a))
      → AtMost (suc n) (p >>= f)
  AtMost-bind f (over a) hf = AtMost-more _ (hf a)
  AtMost-bind f (fetching u h) hf = fetching u λ a. AtMost-bind f (h a) hf
  AtMost-bind f (sending q tok h) hf = sending q tok λ a. AtMost-bind f (h a) hf

send_fetched-AtMost :
    (q : Request) (tok : String) (r : Result String) → AtMost 1 (send_fetched q tok r)
unfolding send_with
send_fetched-AtMost q tok (err e) = over _
send_fetched-AtMost q tok (ok new) = sending q new λ a. over _

attempt-AtMost : (q : Request) (tok : String) → AtMost 1 (attempt q tok)
unfolding attempt send_with
attempt-AtMost q tok =
    AtMost-if (needs_csrf q.method q.url)
      (AtMost-if (tok == "") (fetching q.url λ a. send_fetched-AtMost q tok (fetched q.url tok a))
        (sending q tok λ a. over _))
      (sending q "" λ a. over _)

after_first-AtMost : (q : Request) (r : Result Body × String) → AtMost 1 (after_first q r)
after_first-AtMost q (ok b, tok) = over _
after_first-AtMost q (err e, tok) =
    AtMost-if (is_csrf_failure e && needs_csrf q.method q.url)
      (fetching q.url λ a. second q e (fetched q.url "" a)) (over _)
  where
    second : (q : Request) (e : IseError) (r : Result String) → AtMost 1 (second_try q e r)
    second q e (err e') = over _
    second q e (ok new) = attempt-AtMost q new

run-AtMost :
    {S A : Type 0} (serve : S → Wire → Answer × S) {n : ℕ} {m : Wired A} (s : S)
    → AtMost n m
    → count_of is_send (run serve m s).2 ≤ n
unfolding run
run-AtMost serve s (over a) = omega arith
run-AtMost serve s (fetching u h) = run-AtMost serve (serve s (fetch u)).1 (h (serve s (fetch u)).0)
run-AtMost serve s (sending q tok h) =
    omega (arith, run-AtMost serve (serve s (send q tok)).1 (h (serve s (send q tok)).0))

-- Whatever the node answers, `do` sends the request itself at most twice.
pub exchange_twice :
    {S : Type 0} (serve : S → Wire → Answer × S) (s : S) (q : Request) (tok : String)
    → count_of is_send (run serve (exchange q tok) s).2 ≤ 2
unfolding exchange
exchange_twice serve s q tok =
    run-AtMost serve s (AtMost-bind (after_first q) (attempt-AtMost q tok) (after_first-AtMost q))

-- A GET without a token.
abbrev pub IsPlainRead : Wire → Type 0
IsPlainRead (fetch u) = ⊥
IsPlainRead (send q tok) = IsRead q × (tok ≡ "")

exchange-IsPlainRead : (q : Request) (tok : String) → IsRead q → Sends IsPlainRead (exchange q tok)
unfolding exchange attempt send_with needs_csrf
exchange-IsPlainRead q tok h = of_method q.method h
  where
    never :
        (b : Bool) (l : Wired (Result Body × String)) {r : Wired (Result Body × String)}
        → Sends IsPlainRead r
        → Sends IsPlainRead (if b && false then l else r)
    never true l h = h
    never false l h = h

    not_again :
        (r : Result Body) → Sends IsPlainRead (after_first (record q { method = read }) (r, tok))
    not_again (ok b) = done _
    not_again (err e) = never (is_csrf_failure e) _ (done _)

    of_method :
        (m : Method)
        → IsRead (record q { method = m })
        → Sends IsPlainRead (exchange (record q { method = m }) tok)
    of_method read r = asks (r, refl) λ a. not_again (reply (record q { method = read }) a)
    of_method post r = absurd r
    of_method replace r = absurd r

-- A program that sends nothing but GETs fetches no CSRF token over the wire and sends none: its
-- every message is a plain GET.
pub over_wire-IsPlainRead :
    {A : Type 0} (m : Calls A) (tok : String) → Reads m → Sends IsPlainRead (over_wire m tok)
unfolding over_wire
over_wire-IsPlainRead m tok (done a) = done _
over_wire-IsPlainRead m tok (asks {q} {k} h hk) =
    Sends-bind _ (exchange-IsPlainRead q tok h) λ (r, tok'). over_wire-IsPlainRead (k r) tok' (hk r)
