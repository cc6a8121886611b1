-- ===== src/Bytes.antt =====
-- Go's slices of bytes: `x[:n]` and `x[n:]` where they are in range, one byte, and equality.
use ise2ise.Base.{
  ◌≡◌, refl, ℕ, zero, suc, ◌+◌, ◌≤◌, ◌<◌, Bool, true, false, List, [], ◌∷◌, ◌++◌, ◌&&◌,
}
use ise2ise.Base.{ap, nat_eq, length, arith}

module _ {A : Type 0} where
  unfoldable pub take : ℕ → List A → List A
  take zero xs = []
  take (suc n) [] = []
  take (suc n) (x ∷ xs) = x ∷ take n xs

  unfoldable pub drop : ℕ → List A → List A
  drop zero xs = xs
  drop (suc n) [] = []
  drop (suc n) (x ∷ xs) = drop n xs

  pub take-drop : (n : ℕ) (xs : List A) → take n xs ++ drop n xs ≡ xs
  unfolding take drop
  take-drop zero xs = refl
  take-drop (suc n) [] = refl
  take-drop (suc n) (x ∷ xs) = ap (x ∷◌) (take-drop n xs)

  pub take-take : (n m : ℕ) (xs : List A) → n ≤ m → take n (take m xs) ≡ take n xs
  unfolding take
  take-take zero m xs h = refl
  take-take (suc n) zero xs h = absurd (omega (arith, h))
  take-take (suc n) (suc m) [] h = refl
  take-take (suc n) (suc m) (x ∷ xs) h = ap (x ∷◌) (take-take n m xs (omega (arith, h)))

  pub length-take : (n : ℕ) (xs : List A) → n ≤ length xs → length (take n xs) ≡ n
  unfolding take
  length-take zero xs h = refl
  length-take (suc n) [] h = absurd (omega (arith, h))
  length-take (suc n) (x ∷ xs) h = omega (arith, length-take n xs (omega (arith, h)))

  pub length-drop : (n : ℕ) (xs : List A) → n ≤ length xs → length (drop n xs) + n ≡ length xs
  unfolding drop
  length-drop zero xs h = omega arith
  length-drop (suc n) [] h = absurd (omega (arith, h))
  length-drop (suc n) (x ∷ xs) h = omega (arith, length-drop n xs (omega (arith, h)))

  pub take-append : (xs ys : List A) → take (length xs) (xs ++ ys) ≡ xs
  unfolding take
  take-append [] ys = refl
  take-append (x ∷ xs) ys = ap (x ∷◌) (take-append xs ys)

  pub drop-append : (xs ys : List A) → drop (length xs) (xs ++ ys) ≡ ys
  unfolding drop
  drop-append [] ys = refl
  drop-append (x ∷ xs) ys = drop-append xs ys

  drop_none : (n : ℕ) → drop n [] ≡ []
  unfolding drop
  drop_none zero = refl
  drop_none (suc n) = refl

  pub drop-drop : (m n k : ℕ) (xs : List A) → k ≡ m + n → drop n (drop m xs) ≡ drop k xs
  unfolding drop
  drop-drop zero n k xs h = ap (λ i. drop i xs) (omega (arith, h))
  drop-drop (suc m) n zero xs h = absurd (omega (arith, h))
  drop-drop (suc m) n (suc k) [] h = drop_none n
  drop-drop (suc m) n (suc k) (x ∷ xs) h = drop-drop m n k xs (omega (arith, h))

-- The byte at a place, or 0 where there is none: the code looks in range only.
unfoldable pub byte_at : List ℕ → ℕ → ℕ
byte_at [] n = 0
byte_at (x ∷ xs) zero = x
byte_at (x ∷ xs) (suc n) = byte_at xs n

pub byte_at-take : (n m : ℕ) (xs : List ℕ) → n < m → byte_at (take m xs) n ≡ byte_at xs n
unfolding byte_at take
byte_at-take n zero xs h = absurd (omega (arith, h))
byte_at-take n (suc m) [] h = refl
byte_at-take zero (suc m) (x ∷ xs) h = refl
byte_at-take (suc n) (suc m) (x ∷ xs) h = byte_at-take n m xs (omega (arith, h))

pub drop-byte_at :
    (n : ℕ) (xs : List ℕ) → n < length xs → drop n xs ≡ byte_at xs n ∷ drop (suc n) xs
unfolding byte_at drop
drop-byte_at n [] h = absurd (omega (arith, h))
drop-byte_at zero (x ∷ xs) h = refl
drop-byte_at (suc n) (x ∷ xs) h = drop-byte_at n xs (omega (arith, h))

unfoldable pub same_bytes : List ℕ → List ℕ → Bool
same_bytes [] [] = true
same_bytes (x ∷ xs) (y ∷ ys) = nat_eq x y && same_bytes xs ys
same_bytes _ _ = false

pub nat_eq-equal : (a b : ℕ) → nat_eq a b ≡ true → a ≡ b
nat_eq-equal a b h = ground arith

pub nat_eq_refl : (a : ℕ) → nat_eq a a ≡ true
nat_eq_refl a = ground arith

pub same_bytes-equal : (xs ys : List ℕ) → same_bytes xs ys ≡ true → xs ≡ ys
unfolding same_bytes
same_bytes-equal [] [] h = refl
same_bytes-equal (x ∷ xs) (y ∷ ys) h = ground (arith, nat_eq-equal x y, same_bytes-equal xs ys)
same_bytes-equal [] (y ∷ ys) h = absurd (cc h)
same_bytes-equal (x ∷ xs) [] h = absurd (cc h)

pub same_bytes_refl : (xs : List ℕ) → same_bytes xs xs ≡ true
unfolding same_bytes
same_bytes_refl [] = refl
same_bytes_refl (x ∷ xs) = rw (nat_eq_refl x) (same_bytes_refl xs)
