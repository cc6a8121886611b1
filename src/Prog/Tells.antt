-- ===== src/Prog/Tells.antt =====
-- Every value that a program may end with has a property, which may depend on whether a request has
-- failed on the way.
use ise2ise.Base.{Bool, true, false, List, [], ◌∷◌, if◌then◌else◌}
use ise2ise.Prog.{Prog, ret, ask, ◌>>=◌, for_each}
use ise2ise.Ise.Errors.{IseError, Result, ok, err}

module _ {Q B : Type 0} where
  -- `failed` says whether one has failed so far.
  pub data Tells {A : Type 0} (P : Bool → A → Type 0) : Bool → Prog Q (Result B) A → Type 0 where
    ends : {failed : Bool} {a : A} → P failed a → Tells P failed (ret a)
    answered :
        {failed : Bool} {q : Q} {k : Result B → Prog Q (Result B) A}
        → ((b : B) → Tells P failed (k (ok b)))
        → ((e : IseError) → Tells P true (k (err e)))
        → Tells P failed (ask q k)

  pub Tells-bind :
      {A C : Type 0} {P : Bool → A → Type 0} {P' : Bool → C → Type 0} {failed : Bool}
      {m : Prog Q (Result B) A} (f : A → Prog Q (Result B) C)
      → Tells P failed m
      → ((failed' : Bool) (a : A) → P failed' a → Tells P' failed' (f a))
      → Tells P' failed (m >>= f)
  Tells-bind f (ends h) hf = hf _ _ h
  Tells-bind f (answered h h') hf =
      answered (λ b. Tells-bind f (h b) hf) (λ e. Tells-bind f (h' e) hf)

  pub Tells-if :
      {A : Type 0} {P : Bool → A → Type 0} {failed : Bool} (b : Bool) {m n : Prog Q (Result B) A}
      → Tells P failed m
      → Tells P failed n
      → Tells P failed (if b then m else n)
  Tells-if true h h' = h
  Tells-if false h h' = h'

  -- A loop keeps what holds of its state.
  pub Tells-for_each :
      {A S : Type 0} {P : Bool → S → Type 0} {f : A → S → Prog Q (Result B) S} (failed : Bool)
      (xs : List A) (s : S)
      → ((failed' : Bool) (x : A) (t : S) → P failed' t → Tells P failed' (f x t))
      → P failed s
      → Tells P failed (for_each xs s f)
  unfolding for_each
  Tells-for_each failed [] s step h = ends h
  Tells-for_each failed (x ∷ xs) s step h =
      Tells-bind _ (step failed x s h) (λ failed' t ht. Tells-for_each failed' xs t step ht)
