-- ===== src/VideoDb/Walks.antt =====
-- Facts that hold of the elements of a hash container in whatever order it is walked.
use video_match.Base.{
  ℕ, zero, suc, ◌+◌, ◌≤◌, ltb, min, ◌≡◌, refl, Bool, true, List, [], ◌∷◌, any_of, any_of-count_if,
  count_if, length, arith,
}
use video_match.VideoDb.{HashOrder}

module _ {A : Type 0} where
  count_all : (xs : List A) → count_if (λ _. true) xs ≡ length xs
  count_all [] = refl
  count_all (x ∷ xs) = omega (arith, count_all xs)

  pub length-arrange : (o : HashOrder A) (xs : List A) → length (o.arrange xs) ≡ length xs
  length-arrange o xs =
      omega (arith, count_all xs, count_all (o.arrange xs), o.arrange-count_if (λ _. true) xs)

  pub any_of-arrange :
      (o : HashOrder A) (p : A → Bool) (xs : List A) → any_of p (o.arrange xs) ≡ any_of p xs
  any_of-arrange o p xs =
      ground
        (arith, any_of-count_if p xs, any_of-count_if p (o.arrange xs), o.arrange-count_if p xs)

-- A sum does not depend on the order in which a hash container is walked.
module _ {A : Type 0} (f : A → ℕ) where
  abbrev pub sum_of : List A → ℕ
  sum_of [] = 0
  sum_of (x ∷ xs) = f x + sum_of xs

  abbrev capped : ℕ → List A → ℕ
  capped b [] = 0
  capped b (x ∷ xs) = min (f x) b + capped b xs

  capped-suc :
      (b : ℕ) (xs : List A) → capped (suc b) xs ≡ capped b xs + count_if (λ x. ltb b (f x)) xs
  capped-suc b [] = refl
  capped-suc b (x ∷ xs) = ground (arith, capped-suc b xs)

  capped-zero : (xs : List A) → capped 0 xs ≡ 0
  capped-zero [] = refl
  capped-zero (x ∷ xs) = omega (arith, capped-zero xs)

  capped_all : (b : ℕ) (xs : List A) → sum_of xs ≤ b → capped b xs ≡ sum_of xs
  capped_all b [] h = refl
  capped_all b (x ∷ xs) h = omega (arith, capped_all b xs (omega arith))

  capped-arrange : (o : HashOrder A) (b : ℕ) (xs : List A) → capped b (o.arrange xs) ≡ capped b xs
  capped-arrange o zero xs = omega (arith, capped-zero xs, capped-zero (o.arrange xs))
  capped-arrange o (suc b) xs = omega (
    arith,
    capped-suc b xs,
    capped-suc b (o.arrange xs),
    capped-arrange o b xs,
    o.arrange-count_if (λ x. ltb b (f x)) xs,
  )

  pub sum_of-arrange : (o : HashOrder A) (xs : List A) → sum_of (o.arrange xs) ≡ sum_of xs
  sum_of-arrange o xs =
      let b = sum_of xs + sum_of (o.arrange xs) in
      omega (
        arith,
        capped_all b xs (omega arith),
        capped_all b (o.arrange xs) (omega arith),
        capped-arrange o b xs,
      )
