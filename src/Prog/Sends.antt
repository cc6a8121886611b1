-- ===== src/Prog/Sends.antt =====
-- Every request that a program may send, whatever it is answered, has a property.
use ise2ise.Base.{List, [], ◌∷◌, All, Bool, true, false, Option, none, some, if◌then◌else◌}
use ise2ise.Prog.{Prog, ret, ask, ◌>>=◌, run, when_some, for_each}

pub data Sends {Q R : Type 0} (P : Q → Type 0) {A : Type 0} : Prog Q R A → Type 0 where
  done : (a : A) → Sends P (ret a)
  asks : {q : Q} {k : R → Prog Q R A} → P q → ((r : R) → Sends P (k r)) → Sends P (ask q k)

pub Sends-mono :
    {Q R A : Type 0} {P P' : Q → Type 0} {m : Prog Q R A}
    → ((q : Q) → P q → P' q)
    → Sends P m
    → Sends P' m
Sends-mono f (done a) = done a
Sends-mono f (asks h hk) = asks (f _ h) (λ r. Sends-mono f (hk r))

module _ {Q R : Type 0} {P : Q → Type 0} where
  pub Sends-bind :
      {A B : Type 0} {m : Prog Q R A} (f : A → Prog Q R B)
      → Sends P m
      → ((a : A) → Sends P (f a))
      → Sends P (m >>= f)
  Sends-bind f (done a) hf = hf a
  Sends-bind f (asks h hk) hf = asks h (λ r. Sends-bind f (hk r) hf)

  pub Sends-if :
      {A : Type 0} (b : Bool) {m n : Prog Q R A}
      → Sends P m
      → Sends P n
      → Sends P (if b then m else n)
  Sends-if true h h' = h
  Sends-if false h h' = h'

  pub Sends-when_some :
      {A B : Type 0} (o : Option A) {m : Prog Q R B} {k : A → Prog Q R B}
      → Sends P m
      → ((a : A) → Sends P (k a))
      → Sends P (when_some o m k)
  Sends-when_some none h hk = h
  Sends-when_some (some a) h hk = hk a

  pub Sends-for_each :
      {A S : Type 0} {f : A → S → Prog Q R S} (xs : List A) (s : S)
      → ((x : A) (t : S) → Sends P (f x t))
      → Sends P (for_each xs s f)
  unfolding for_each
  Sends-for_each [] s h = done s
  Sends-for_each (x ∷ xs) s h = Sends-bind _ (h x s) (λ t. Sends-for_each xs t h)

module _ {Q R : Type 0} (P : Q → Type 0) where
  -- So a run against any server sends only such requests.
  pub run-Sends :
      {S A : Type 0} (serve : S → Q → R × S) {m : Prog Q R A} (s : S)
      → Sends P m
      → All P (run serve m s).2
  unfolding run
  run-Sends serve s (done a) = tt
  run-Sends serve s (asks {q} h hk) = (h, run-Sends serve (serve s q).1 (hk (serve s q).0))
