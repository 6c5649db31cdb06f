-- ===== src/VideoDb/Sets.antt =====
-- `unordered_set<uint64_t>` and `unordered_set<DataItem*>`: lists without repetition, and how often
-- a value stands in what the loops of server/VideoDB.cpp insert.
use video_match.Base.{
  ℕ, ◌≡◌, refl, Bool, true, ◌||◌, List, [], ◌∷◌, ◌==◌, if◌then◌else◌, member, count, any_of,
  any_of-count_if, Bool-cases, inl, inr, ==_iff, max, arith,
}

-- `set.insert(k)`
unfoldable pub insert : ℕ → List ℕ → List ℕ
insert k s = if member k s then s else k ∷ s

-- `for (k : frames) set.insert(k)`
unfoldable pub insert_all : List ℕ → List ℕ → List ℕ
unfolding insert
insert_all s [] = s
insert_all s (k ∷ ks) = insert_all (insert k s) ks

abbrev pub bit : Bool → ℕ
bit b = if b then 1 else 0

pub count-insert : (p k : ℕ) (s : List ℕ) → count p (insert k s) ≡ max (count p s) (bit (k == p))
unfolding insert
count-insert p k s = ground (arith, any_of-count_if (λ x. x == k) s)

pub count-insert_all :
    (p : ℕ) (s ks : List ℕ) → count p (insert_all s ks) ≡ max (count p s) (bit (member p ks))
unfolding insert_all
count-insert_all p s [] = omega arith
count-insert_all p s (k ∷ ks) =
    ground (arith, count-insert_all p (insert k s) ks, count-insert p k s)

any_of-member :
    (f : ℕ → Bool) (k : ℕ) (s : List ℕ) → member k s ≡ true → f k ≡ true → any_of f s ≡ true
any_of-member f k [] h e = cc
any_of-member f k (x ∷ s) h e = elim (Bool-cases (x == k)) [
  | inl same ↦ let q : x ≡ k = (==_iff x k).0 same in rw (q, e)
  | inr other ↦ ground (arith, any_of-member f k s)
]

any_of-insert : (f : ℕ → Bool) (k : ℕ) (s : List ℕ) → any_of f (insert k s) ≡ f k || any_of f s
unfolding insert
any_of-insert f k s = ground (arith, any_of-member f k s)

pub any_of-insert_all :
    (f : ℕ → Bool) (s ks : List ℕ) → any_of f (insert_all s ks) ≡ any_of f ks || any_of f s
unfolding insert_all
any_of-insert_all f s [] = refl
any_of-insert_all f s (k ∷ ks) =
    ground (arith, any_of-insert_all f (insert k s) ks, any_of-insert f k s)
