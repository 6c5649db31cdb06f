-- ===== src/Cache/Sizes.antt =====
-- `get_size` of `VideoManager` against the cells of its list: the walk over the map meets each
-- cell once.
use video_match.Base.{
  ℕ, ◌+◌, ◌≤◌, ◌<◌, ◌≡◌, refl, List, [], ◌∷◌, Option, none, some, count_if, arith, Bool-cases, inl,
  inr, Name, bytes_eq, bytes_eq_iff, bytes_eq_refl, ◌∙◌, ap, sym, length,
}
use video_match.Cache.{Heap, Item, item_at, erase_name, sum_sizes}
use video_match.Cache.Chain.{Cell, item_of, Links}
use video_match.Cache.Names.{
  place_of, has_name, Named, Unique, total, without, place_of-without, without_absent,
}
use video_match.VideoDb.{NameMap, find_name}

-- The heap has an item of each cell, whatever its links are.
abbrev pub Stored : Heap → List Cell → Type 0
Stored h [] = Unit
Stored h (c ∷ cs) =
    ((p : Option ℕ) × (n : Option ℕ) × (item_at h c.place ≡ some (item_of c p n))) × Stored h cs

pub Links-Stored :
    (h : Heap) (before after : Option ℕ) (cs : List Cell) → Links h before cs after → Stored h cs
Links-Stored h before after [] l = tt
Links-Stored h before after (c ∷ cs) l =
    ((before, _, l.0), Links-Stored h (some c.place) after cs l.1)

pub Stored-without : (n : Name) (h : Heap) (cs : List Cell) → Stored h cs → Stored h (without n cs)
unfolding without
Stored-without n h [] s = tt
Stored-without n h (c ∷ cs) s = elim (Bool-cases (bytes_eq c.name n)) [
  | inl same ↦ rw same (Stored-without n h cs s.1)
  | inr other ↦ rw other (s.0, Stored-without n h cs s.1)
]

pub Named-tail : (c : Cell) (cs : List Cell) → Named (c ∷ cs) → Named cs
Named-tail c cs a n = omega (arith, a n)

count-without :
    (n k : Name) (cs : List Cell) → count_if (has_name k) (without n cs) ≤ count_if (has_name k) cs
unfolding without
count-without n k [] = omega arith
count-without n k (c ∷ cs) = ground (arith, count-without n k cs)

pub Named-without : (n : Name) (cs : List Cell) → Named cs → Named (without n cs)
Named-without n cs a k = omega (arith, a k, count-without n k cs)

-- The cell of a name that is there, and what its size adds.
size_of_cell :
    (n : Name) (h : Heap) (cs : List Cell) (p : ℕ)
    → Named cs
    → Stored h cs
    → place_of n cs ≡ some p
    → (i : Item) × (item_at h p ≡ some i) × (total cs ≡ i.size + total (without n cs))
unfolding place_of without
size_of_cell n h [] p a s e = cc
size_of_cell n h (c ∷ cs) p a s e = elim (Bool-cases (bytes_eq c.name n)) [
  | inl same ↦
      let here : some c.place ≡ some p = rw same at e in
      let place : p ≡ c.place = cc here in
      let gone : without n cs ≡ cs = without_absent n cs (ground (arith, a n, same)) in
      (item_of c s.0.0 s.0.1, rw place s.0.2, rw same (rw gone refl))
  | inr other ↦
      let (i, at_p, sum) = size_of_cell n h cs p (Named-tail c cs a) s.1 (rw other at e) in
      (i, at_p, rw other (omega (arith, sum)))
]

no_cells : (cs : List Cell) → ((n : Name) → place_of n cs ≡ none) → cs ≡ []
unfolding place_of
no_cells [] f = refl
no_cells (c ∷ cs) f =
    let there : some c.place ≡ none = rw (bytes_eq_refl c.name) at (f c.name) in absurd (cc there)

found_behind :
    (k : Name) (p : ℕ) (db : NameMap) (cs : List Cell)
    → find_name k db ≡ none
    → ((n : Name) → find_name n ((k, p) ∷ db) ≡ place_of n cs)
    → (n : Name) → find_name n db ≡ place_of n (without k cs)
unfolding find_name
found_behind k p db cs u f n = elim (Bool-cases (bytes_eq k n)) [
  | inl same ↦
      let t : k ≡ n = (bytes_eq_iff k n).0 same in
      let v : find_name k db ≡ find_name n db = ap (λ x. find_name x db) t in
      ground (arith, same, u, v, place_of-without k n cs)
  | inr other ↦ ground (arith, other, f n, place_of-without k n cs)
]

-- The sizes that the walk over the map adds up are those of the cells.
pub total-cells :
    (h : Heap) (db : NameMap) (cs : List Cell)
    → Unique db
    → Named cs
    → Stored h cs
    → ((n : Name) → find_name n db ≡ place_of n cs)
    → sum_sizes h db ≡ some (total cs)
unfolding sum_sizes find_name
total-cells h [] cs u a s f = rw (no_cells cs (λ n. sym (f n))) refl
total-cells h ((k, p) ∷ db) cs u a s f =
    let there : place_of k cs ≡ some p = sym (f k) ∙ rw (bytes_eq_refl k) refl in
    let (i, at_p, sum) = size_of_cell k h cs p a s there in
    let rest : sum_sizes h db ≡ some (total (without k cs)) =
      total-cells h db (without k cs) u.1 (Named-without k cs a) (Stored-without k h cs s)
        (found_behind k p db cs u.0 f) in
    rw at_p (rw rest (ap some (sym sum)))

length-erase_name_le : (n : Name) (db : NameMap) → length (erase_name n db) ≤ length db
unfolding erase_name
length-erase_name_le n [] = omega arith
length-erase_name_le n (e ∷ db) = ground (arith, length-erase_name_le n db)

pub length-erase_name :
    (n : Name) (db : NameMap) (p : ℕ)
    → find_name n db ≡ some p
    → length (erase_name n db) < length db
unfolding find_name erase_name
length-erase_name n [] p e = cc
length-erase_name n ((k, q) ∷ db) p e = elim (Bool-cases (bytes_eq k n)) [
  | inl same ↦ rw same (omega (arith, length-erase_name_le n db))
  | inr other ↦ rw other (omega (arith, length-erase_name n db p (rw other at e)))
]
