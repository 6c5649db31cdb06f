-- ===== src/Query/Own.antt =====
-- A stored video is not held back from the query with its own frames.
use video_match.Base.{
  ℕ, ◌+◌, ◌≡◌, refl, true, false, not, ◌&&◌, Bool-cases, inl, inr, List, [], ◌∷◌, ◌==◌, ==_iff,
  if◌then◌else◌, any_of, member, length, arith,
}
use video_match.Query.Matches.{common, near}
use video_match.Score.Floats.{Double}
use video_match.VideoDb.Candidates.{too_different}
use video_match.VideoDb.Index.{collect}
use video_match.VideoDb.Sets.{insert, insert_all}
use video_match.VideoDb.{empty_frame, HashOrder}

-- The set of the query beside that of the index, which has no empty frame.
record Beside (s s' : List ℕ) : Type 0 where
  without : member 0 s ≡ false
  same : (k : ℕ) → (k == 0) ≡ false → member k s' ≡ member k s
  size : length s' ≡ length s + (if member 0 s' then 1 else 0)

Beside-insert :
    (s s' : List ℕ) (k : ℕ)
    → Beside s s'
    → Beside (if k == empty_frame then s else insert k s) (insert k s')
unfolding insert
Beside-insert s s' k b = elim (Bool-cases (k == 0)) [
  | inl zero_frame ↦
      let e : k ≡ 0 = (==_iff k 0).0 zero_frame in
      rw e (record {
        without = b.without;
        same = λ j h. ground (arith, b.same j h);
        size = ground (arith, b.size);
      })
  | inr other ↦ rw other (record {
    without = ground (arith, b.without, other);
    same = λ j h. ground (arith, b.same j h, b.same k other);
    size = ground (arith, b.size, b.same k other, other);
  })
]

Beside-collect : (s s' ks : List ℕ) → Beside s s' → Beside (collect s ks) (insert_all s' ks)
unfolding collect insert_all
Beside-collect s s' [] b = b
Beside-collect s s' (k ∷ ks) b =
    Beside-collect (if k == empty_frame then s else insert k s) (insert k s') ks
      (Beside-insert s s' k b)

-- The numbers of different frames, with and without the empty one, are never too far apart.
pub near_own : (F : Double) (order : HashOrder ℕ) (fs : List ℕ) → near F order fs fs ≡ true
unfolding too_different
near_own F order fs =
    let b = Beside-collect [] [] fs (record { without = refl; same = λ k h. refl; size = refl }) in
    ground (arith, b.size)

common_all :
    (fs ks : List ℕ)
    → ((k : ℕ) → member k ks ≡ true → member k fs ≡ true)
    → any_of (λ k. not (k == empty_frame)) ks ≡ true
    → any_of (λ k. not (k == empty_frame) && member k fs) ks ≡ true
common_all fs [] h e = cc
common_all fs (k ∷ ks) h e = ground (arith, h k, common_all fs ks (λ j m. h j (ground (arith, m))))

pub common_own :
    (F : Double) (order : HashOrder ℕ) (fs : List ℕ)
    → any_of (λ k. not (k == empty_frame)) fs ≡ true
    → common F order fs fs ≡ true
common_own F order fs e = common_all fs fs (λ k h. h) e
