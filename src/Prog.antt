-- ===== src/Prog.antt =====
-- A program that talks to a server: it ends with a value, or sends a request and goes on with the
-- answer. Nothing is assumed of the server: a statement about a program holds for every answer.
pub mod Sends
pub mod Returns
pub mod Tells
use ise2ise.Base.{Option, none, some, List, [], ◌∷◌}

pub data Prog (Q R A : Type 0) : Type 0 where
  ret : A → Prog Q R A
  ask : Q → (R → Prog Q R A) → Prog Q R A

infixl 5 ◌>>=◌ ◌>>◌
abbrev pub ◌>>=◌ : {Q R A B : Type 0} → Prog Q R A → (A → Prog Q R B) → Prog Q R B
ret a >>= f = f a
ask q k >>= f = ask q (λ r. k r >>= f)

abbrev pub ◌>>◌ : {Q R A B : Type 0} → Prog Q R A → Prog Q R B → Prog Q R B
m >> k = m >>= λ _. k

-- Against a server with state `S`: the value, the final state and the requests in order.
module _ {Q R S : Type 0} (serve : S → Q → R × S) where
  unfoldable pub run : {A : Type 0} → Prog Q R A → S → A × S × List Q
  run (ret a) s = (a, s, [])
  run (ask q k) s =
      let (r, s') = serve s q in let (a, s'', sent) = run (k r) s' in (a, s'', q ∷ sent)

-- `if` on a value that may be absent.
abbrev pub when_some : {Q R A B : Type 0} → Option A → Prog Q R B → (A → Prog Q R B) → Prog Q R B
when_some none m k = m
when_some (some a) m k = k a

-- A loop over a list that carries a state.
unfoldable pub for_each : {Q R A S : Type 0} → List A → S → (A → S → Prog Q R S) → Prog Q R S
for_each [] s f = ret s
for_each (x ∷ xs) s f = f x s >>= λ t. for_each xs t f

-- The value, against a server whose answer depends on the request alone.
unfoldable pub value_against : {Q R A : Type 0} → (Q → R) → Prog Q R A → A
value_against serve (ret a) = a
value_against serve (ask q k) = value_against serve (k (serve q))
