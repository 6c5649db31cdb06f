-- ===== src/Cache/Names.antt =====
-- The map of names of `VideoManager` against the cells of its list: what it finds and what the
-- sizes of its items add up to.
use video_match.Base.{
  ℕ, ◌+◌, ◌≤◌, ◌≡◌, refl, Bool, List, [], ◌∷◌, Option, none, some, if◌then◌else◌, count_if, arith,
  Bool-cases, inl, inr, Name, bytes_eq, bytes_eq_iff, ap,
}
use video_match.Cache.{erase_name}
use video_match.Cache.Chain.{Cell}
use video_match.VideoDb.{NameMap, find_name}

-- The place of the cell of a name.
unfoldable pub place_of : Name → List Cell → Option ℕ
place_of n [] = none
place_of n (c ∷ cs) = if bytes_eq c.name n then some c.place else place_of n cs

abbrev pub has_name : Name → Cell → Bool
has_name n c = bytes_eq c.name n

-- No name is there twice.
abbrev pub Named : List Cell → Type 0
Named cs = (n : Name) → count_if (has_name n) cs ≤ 1

-- No name is in the map twice.
abbrev pub Unique : NameMap → Type 0
Unique [] = Unit
Unique (e ∷ db) = (find_name e.0 db ≡ none) × Unique db

abbrev pub total : List Cell → ℕ
total [] = 0
total (c ∷ cs) = c.size + total cs

-- The cells without those of a name.
unfoldable pub without : Name → List Cell → List Cell
without n [] = []
without n (c ∷ cs) = if bytes_eq c.name n then without n cs else c ∷ without n cs

pub find_name-erase_name :
    (n m : Name) (db : NameMap)
    → find_name m (erase_name n db) ≡ (if bytes_eq n m then none else find_name m db)
unfolding find_name erase_name
find_name-erase_name n m [] = ground arith
find_name-erase_name n m ((k, p) ∷ db) = elim (Bool-cases (bytes_eq k n)) [
  | inl same ↦
      let t : k ≡ n = (bytes_eq_iff k n).0 same in
      let u : bytes_eq k m ≡ bytes_eq n m = ap (λ x. bytes_eq x m) t in
      ground (arith, same, u, find_name-erase_name n m db)
  | inr other ↦ elim (Bool-cases (bytes_eq n m)) [
    | inr away ↦ ground (arith, other, away, find_name-erase_name n m db)
    | inl here ↦
        let t : n ≡ m = (bytes_eq_iff n m).0 here in
        let u : bytes_eq k n ≡ bytes_eq k m = ap (bytes_eq k) t in
        ground (arith, other, here, u, find_name-erase_name n m db)
  ]
]

pub Unique-erase_name : (n : Name) (db : NameMap) → Unique db → Unique (erase_name n db)
unfolding erase_name
Unique-erase_name n [] u = tt
Unique-erase_name n ((k, p) ∷ db) u = elim (Bool-cases (bytes_eq k n)) [
  | inl same ↦ rw same (Unique-erase_name n db u.1)
  | inr other ↦
      rw other (ground (arith, find_name-erase_name n k db, u.0), Unique-erase_name n db u.1)
]

pub place_of-without :
    (n m : Name) (cs : List Cell)
    → place_of m (without n cs) ≡ (if bytes_eq n m then none else place_of m cs)
unfolding place_of without
place_of-without n m [] = ground arith
place_of-without n m (c ∷ cs) = elim (Bool-cases (bytes_eq c.name n)) [
  | inl same ↦
      let t : c.name ≡ n = (bytes_eq_iff c.name n).0 same in
      let u : bytes_eq c.name m ≡ bytes_eq n m = ap (λ x. bytes_eq x m) t in
      ground (arith, same, u, place_of-without n m cs)
  | inr other ↦ elim (Bool-cases (bytes_eq n m)) [
    | inr away ↦ ground (arith, other, away, place_of-without n m cs)
    | inl here ↦
        let t : n ≡ m = (bytes_eq_iff n m).0 here in
        let u : bytes_eq c.name n ≡ bytes_eq c.name m = ap (bytes_eq c.name) t in
        ground (arith, other, here, u, place_of-without n m cs)
  ]
]

-- Cells of which none has the name are all kept.
pub without_absent : (n : Name) (cs : List Cell) → count_if (has_name n) cs ≡ 0 → without n cs ≡ cs
unfolding without
without_absent n [] a = refl
without_absent n (c ∷ cs) a =
    let rest = without_absent n cs (ground (arith, a)) in ground (arith, a, rest)

pub place_of_absent :
    (n : Name) (cs : List Cell) → place_of n cs ≡ none → count_if (has_name n) cs ≡ 0
unfolding place_of
place_of_absent n [] a = refl
place_of_absent n (c ∷ cs) a = elim (Bool-cases (bytes_eq c.name n)) [
  | inl same ↦ absurd (cc (rw same at a))
  | inr other ↦ let rest = place_of_absent n cs (rw other at a) in ground (arith, other, rest)
]
