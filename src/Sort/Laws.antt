-- ===== src/Sort/Laws.antt =====
-- A test that every element passes is passed by every element of the sorted list.
use ise2ise.Base.{◌≡◌, refl, Bool, List, [], ◌∷◌, ◌&&◌, every, arith}
use ise2ise.Sort.{insert_sorted, insert_all, sort}

module _ {A : Type 0} (less : A → A → Bool) (p : A → Bool) where
  every-insert_sorted :
      (x : A) (ys : List A) → every p (insert_sorted less x ys) ≡ (p x && every p ys)
  unfolding insert_sorted
  every-insert_sorted x [] = refl
  every-insert_sorted x (y ∷ ys) = ground (arith, every-insert_sorted x ys)

  every-insert_all :
      (done xs : List A) → every p (insert_all less done xs) ≡ (every p done && every p xs)
  unfolding insert_all
  every-insert_all done [] = ground arith
  every-insert_all done (x ∷ xs) =
      ground (arith, every-insert_all (insert_sorted less x done) xs, every-insert_sorted x done)

  pub every-sort : (xs : List A) → every p (sort less xs) ≡ every p xs
  unfolding sort
  every-sort xs = every-insert_all [] xs
