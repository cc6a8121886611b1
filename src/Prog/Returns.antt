-- ===== src/Prog/Returns.antt =====
-- Every value that a program may end with, whatever it is answered, has a property.
use ise2ise.Base.{List, [], ◌∷◌, Bool, true, false, if◌then◌else◌, ◌≡◌, refl}
use ise2ise.Prog.{Prog, ret, ask, ◌>>=◌, for_each, value_against}

pub data Returns {Q R A : Type 0} (P : A → Type 0) : Prog Q R A → Type 0 where
  ends : {a : A} → P a → Returns P (ret a)
  answered : {q : Q} {k : R → Prog Q R A} → ((r : R) → Returns P (k r)) → Returns P (ask q k)

module _ {Q R : Type 0} where
  pub Returns-bind :
      {A B : Type 0} {P : A → Type 0} {P' : B → Type 0} {m : Prog Q R A} (f : A → Prog Q R B)
      → Returns P m
      → ((a : A) → P a → Returns P' (f a))
      → Returns P' (m >>= f)
  Returns-bind f (ends h) hf = hf _ h
  Returns-bind f (answered h) hf = answered (λ r. Returns-bind f (h r) hf)

  -- Where nothing is known of the first value.
  pub Returns-any :
      {A B : Type 0} {P : B → Type 0} (m : Prog Q R A) (f : A → Prog Q R B)
      → ((a : A) → Returns P (f a))
      → Returns P (m >>= f)
  Returns-any (ret a) f hf = hf a
  Returns-any (ask q k) f hf = answered (λ r. Returns-any (k r) f hf)

  pub Returns-mono :
      {A : Type 0} {P P' : A → Type 0} {m : Prog Q R A}
      → Returns P m
      → ((a : A) → P a → P' a)
      → Returns P' m
  Returns-mono (ends h) f = ends (f _ h)
  Returns-mono (answered h) f = answered (λ r. Returns-mono (h r) f)

  pub Returns-both :
      {A : Type 0} {P P' : A → Type 0} {m : Prog Q R A}
      → Returns P m
      → Returns P' m
      → Returns (λ a. P a × P' a) m
  Returns-both (ends h) (ends h') = ends (h, h')
  Returns-both (answered h) (answered h') = answered (λ r. Returns-both (h r) (h' r))

  pub Returns-always :
      {A : Type 0} {P : A → Type 0} (m : Prog Q R A) → ((a : A) → P a) → Returns P m
  Returns-always (ret a) h = ends (h a)
  Returns-always (ask q k) h = answered (λ r. Returns-always (k r) h)

  pub Returns-if :
      {A : Type 0} {P : A → Type 0} (b : Bool) {m n : Prog Q R A}
      → (b ≡ true → Returns P m)
      → (b ≡ false → Returns P n)
      → Returns P (if b then m else n)
  Returns-if true h h' = h refl
  Returns-if false h h' = h' refl

  -- A loop keeps an invariant of its state.
  pub Returns-for_each :
      {A S : Type 0} {P : S → Type 0} {f : A → S → Prog Q R S} (xs : List A) (s : S)
      → ((x : A) (t : S) → P t → Returns P (f x t))
      → P s
      → Returns P (for_each xs s f)
  unfolding for_each
  Returns-for_each [] s step h = ends h
  Returns-for_each (x ∷ xs) s step h =
      Returns-bind _ (step x s h) (λ t ht. Returns-for_each xs t step ht)

  -- So the value against any server has it.
  pub value_against-Returns :
      {A : Type 0} {P : A → Type 0} (serve : Q → R) {m : Prog Q R A}
      → Returns P m
      → P (value_against serve m)
  unfolding value_against
  value_against-Returns serve (ends h) = h
  value_against-Returns serve (answered {q} h) = value_against-Returns serve (h (serve q))

  pub value_against-bind :
      {A B : Type 0} (serve : Q → R) (m : Prog Q R A) (f : A → Prog Q R B)
      → value_against serve (m >>= f) ≡ value_against serve (f (value_against serve m))
  unfolding value_against
  value_against-bind serve (ret a) f = refl
  value_against-bind serve (ask q k) f = value_against-bind serve (k (serve q)) f
