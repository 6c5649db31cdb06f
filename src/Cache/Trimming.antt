-- ===== src/Cache/Trimming.antt =====
-- The loop of `check_cache_overflow` of browse_server/main.cpp: which items it keeps, and that it
-- ends.
use video_match.Base.{
  ℕ, zero, suc, ◌+◌, ◌-◌, ◌^◌, ◌≤◌, ◌<◌, ◌≡◌, refl, false, List, [], ◌∷◌, ◌++◌, Option, none, some,
  ltb, leb, if◌then◌else◌, length, arith, Bool-cases, inl, inr, ◌∙◌, ap,
}
use video_match.Cache.Chain.{Cell, last_or-append}
use video_match.Cache.Names.{total}
use video_match.Cache.Holds.{Holds, get_size-Holds, evict-Holds}
use video_match.Cache.Writes.{Ends, empty, snoc, split_end}
use video_match.Cache.{Manager, trim, check_cache_overflow}

-- The cells that fit into the cache, from the front on.
unfoldable pub fitting : ℕ → List Cell → List Cell
fitting room [] = []
fitting room (c ∷ cs) =
    let rest = fitting (room - c.size) cs in if leb c.size room then c ∷ rest else []

total-append : (cs ds : List Cell) → total (cs ++ ds) ≡ total cs + total ds
total-append [] ds = omega arith
total-append (c ∷ cs) ds = omega (arith, total-append cs ds)

-- Cells that fit are all kept.
pub fitting_all : (room : ℕ) (cs : List Cell) → total cs ≤ room → fitting room cs ≡ cs
unfolding fitting
fitting_all room [] h = refl
fitting_all room (c ∷ cs) h = ground (arith, fitting_all (room - c.size) cs (omega arith))

-- Of cells that do not all fit the last one goes.
fitting_snoc :
    (room : ℕ) (cs : List Cell) (c : Cell)
    → room < total (cs ++ c ∷ [])
    → fitting room (cs ++ c ∷ []) ≡ fitting room cs
unfolding fitting
fitting_snoc room [] c h = ground arith
fitting_snoc room (d ∷ cs) c h = elim (Bool-cases (leb d.size room)) [
  | inl fits ↦ rw fits (ap (◌∷◌ d) (fitting_snoc (room - d.size) cs c (ground (arith, fits, h))))
  | inr wide ↦ rw wide refl
]

abbrev Trims : Option Manager → Manager → List Cell → Type 0
Trims r m cs =
    (m' : Manager) × (r ≡ some m')
    × Holds m' (fitting m.cache_size cs)
    × (m'.cache_size ≡ m.cache_size)
    × (m'.raw_path ≡ m.raw_path)

trim-Ends :
    (fuel : ℕ) (m : Manager) {cs : List Cell}
    → Ends cs
    → Holds m cs
    → total cs < 2 ^ 64
    → length m.loaded < fuel
    → Trims (trim fuel m) m cs
unfolding trim fitting
trim-Ends zero m e v small enough = elim enough [ ]
trim-Ends (suc fuel) m empty v small enough =
    let fits : ltb m.cache_size 0 ≡ false = ground arith in
    rw (get_size-Holds m [] v small) (rw fits (m, refl, v, refl, refl))
trim-Ends (suc fuel) m (snoc cs c) v small enough =
    elim (Bool-cases (ltb m.cache_size (total (cs ++ c ∷ [])))) [
      | inr fits ↦ rw (get_size-Holds m (cs ++ c ∷ []) v small) (
          rw fits (
            m,
            refl,
            rw (fitting_all m.cache_size (cs ++ c ∷ []) (ground (arith, fits))) v,
            refl,
            refl,
          ))
      | inl over ↦
          let (m', done, v', same_size, same_paths, shorter) = evict-Holds m cs c v in
          let at_tail : m.tail ≡ some c.place = v.tail_last ∙ last_or-append none cs (c ∷ []) in
          let less : total cs < 2 ^ 64 = omega (arith, small, total-append cs (c ∷ [])) in
          let (m2, trimmed, v2, same_size', same_paths') =
            trim-Ends fuel m' (split_end cs) v' less (omega (arith, shorter, enough)) in
          rw (get_size-Holds m (cs ++ c ∷ []) v small) (
            rw over (
              rw at_tail (
                rw done (
                  m2,
                  trimmed,
                  rw (fitting_snoc m.cache_size cs c (ground (arith, over))) (rw same_size at v2),
                  same_size' ∙ same_size,
                  same_paths' ∙ same_paths,
                ))))
    ]

-- The loop of `check_cache_overflow` comes to an end without a fault: where the sizes of the items
-- add up to less than 2 ^ 64, what is left are the items from the front of the list on that fit
-- into the cache together, in the same order, and the list and the map still agree.
pub check_cache_overflow-Holds :
    (m : Manager) (cs : List Cell)
    → Holds m cs
    → total cs < 2 ^ 64
    → (m' : Manager) × (check_cache_overflow m ≡ some m')
      × Holds m' (fitting m.cache_size cs)
      × (m'.cache_size ≡ m.cache_size)
      × (m'.raw_path ≡ m.raw_path)
unfolding check_cache_overflow
check_cache_overflow-Holds m cs v small =
    trim-Ends (length m.loaded + 1) m (split_end cs) v small (omega arith)

-- The kept items fit.
pub total-fitting : (room : ℕ) (cs : List Cell) → total (fitting room cs) ≤ room
unfolding fitting
total-fitting room [] = omega arith
total-fitting room (c ∷ cs) = ground (arith, total-fitting (room - c.size) cs)
