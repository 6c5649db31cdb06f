-- ===== src/BitCount/Nearest.antt =====
-- `min_diff_bits` finds the first frame of a range that differs least.
use video_match.Base.{
  ℕ, zero, suc, ◌+◌, ◌-◌, ◌≤◌, ◌<◌, ◌≡◌, ◌⊎◌, inl, inr, refl, List, get_or, ltb, arith, Bool-cases,
  tests, any_of, take, min, leb, [], ◌∷◌, false, ap,
}
use video_match.BitCount.{diff_bits, min_diff_from, min_diff_bits}

-- The differences of the frames at the positions from `i` on.
abbrev pub differences : ℕ → List ℕ → ℕ → ℕ → List ℕ
differences key base i zero = []
differences key base i (suc rounds) =
    diff_bits key (get_or base i 0) ∷ differences key base (i + 1) rounds

abbrev pub smallest : ℕ → List ℕ → ℕ
smallest md [] = md
smallest md (d ∷ ds) = min d (smallest md ds)

-- What the scan over `rounds` frames from `i` on makes of the difference `md` at `pos`: the least
-- difference, and the place of the first frame that has it unless `md` is as small.
pub record Nearest (key : ℕ) (base : List ℕ) (i rounds md pos : ℕ) (r : ℕ × ℕ) : Type 0 where
  pub least : r.0 ≡ smallest md (differences key base i rounds)
  pub place :
      ((r.0 ≡ md) × (r.1 ≡ pos))
      ⊎ ((i ≤ r.1)
          × (r.1 < i + rounds)
          × (r.0 < md)
          × (diff_bits key (get_or base r.1 0) ≡ r.0)
          × (any_of (λ d. leb d r.0) (take (r.1 - i) (differences key base i rounds)) ≡ false))

smallest-le : (md : ℕ) (ds : List ℕ) → smallest md ds ≤ md
smallest-le md [] = omega arith
smallest-le md (d ∷ ds) = omega (arith, smallest-le md ds)

smallest-min : (a md : ℕ) (ds : List ℕ) → smallest (min a md) ds ≡ min a (smallest md ds)
smallest-min a md [] = refl
smallest-min a md (d ∷ ds) = omega (arith, smallest-min a md ds)

take-after :
    (q i d c : ℕ) (ds : List ℕ)
    → i + 1 ≤ q
    → any_of (λ e. leb e c) (take (q - (i + 1)) ds) ≡ false
    → c < d
    → any_of (λ e. leb e c) (take (q - i) (d ∷ ds)) ≡ false
take-after q i d c ds le early more =
    let n : q - i ≡ suc (q - (i + 1)) = omega arith in rw n (ground (arith, early))

-- One frame more, at the front: the scan goes on from what that frame leaves.
Nearest-step :
    (key : ℕ) (base : List ℕ) (i rounds md pos md' pos' : ℕ) {r : ℕ × ℕ}
    → md' ≡ min (diff_bits key (get_or base i 0)) md
    → (((md' ≡ md) × (pos' ≡ pos))
        ⊎ ((md' < md) × (pos' ≡ i) × (md' ≡ diff_bits key (get_or base i 0))))
    → Nearest key base (i + 1) rounds md' pos' r
    → Nearest key base i (suc rounds) md pos r
Nearest-step key base i rounds md pos md' pos' {r} here from n =
    let ds = differences key base (i + 1) rounds in
    let le : r.0 ≤ md' = omega (arith, n.least, smallest-le md' ds) in
    record {
      least = omega (
        arith,
        n.least,
        ap (λ m. smallest m ds) here,
        smallest-min (diff_bits key (get_or base i 0)) md ds,
      );
      place = elim n.place [
        | inr (lo, hi, less, found, early) ↦ inr (
          omega arith,
          omega arith,
          omega arith,
          found,
          take-after r.1 i (diff_bits key (get_or base i 0)) r.0 ds lo early (omega arith),
        )
        | inl (e, at) ↦ elim from [
          | inl (same, stay) ↦ inl (omega arith, omega arith)
          | inr (less, move, d) ↦
              let n0 : r.1 - i ≡ 0 = omega arith in
              inr
                (omega arith, omega arith, omega arith, rw (at, move, e) (omega arith), rw n0 refl)
        ]
      ];
    }

pub min_diff_from-Nearest :
    (key : ℕ) (base : List ℕ) (i rounds md pos : ℕ)
    → Nearest key base i rounds md pos (min_diff_from key base i rounds md pos)
unfolding min_diff_from diff_bits
min_diff_from-Nearest key base i zero md pos = record { least = refl; place = inl (refl, refl) }
min_diff_from-Nearest key base i (suc rounds) md pos =
    let d = diff_bits key (get_or base i 0) in
    elim (Bool-cases (ltb d md)) [
      | inl less ↦ rw less (
          Nearest-step key base i rounds md pos d i (omega tests) (inr (omega tests, refl, refl))
            (min_diff_from-Nearest key base (i + 1) rounds d i))
      | inr more ↦ rw more (
          Nearest-step key base i rounds md pos md pos (ground arith) (inl (refl, refl))
            (min_diff_from-Nearest key base (i + 1) rounds md pos))
    ]

-- `min_diff_bits` over the frames from `start` up to `end` gives the least of 64 and their
-- differences; either that is 64 and `pos` is unchanged, or `pos` is the first position of the range
-- whose frame has that difference.
pub min_diff_bits-Nearest :
    (key : ℕ) (base : List ℕ) (start end pos : ℕ)
    → Nearest key base start (end - start) 64 pos (min_diff_bits key base start end pos)
unfolding min_diff_bits
min_diff_bits-Nearest key base start end pos =
    min_diff_from-Nearest key base start (end - start) 64 pos
