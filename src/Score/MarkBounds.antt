-- ===== src/Score/MarkBounds.antt =====
-- The marks of Score stay one for each frame, and each stays 255 or at most 28.
use video_match.Base.{
  ℕ, zero, suc, ◌+◌, ◌-◌, ◌/◌, ◌%◌, ◌^◌, ◌≤◌, ◌<◌, ◌≡◌, refl, ◌⊎◌, inl, inr, List, [], ◌∷◌, Option,
  some, arith, length, length-set, length-replicate, replicate, set, get_or, ltb, Bool-cases,
  Option-cases, count, ◌∙◌,
}
use video_match.BitCount.{diff_bits, min_diff_bits}
use video_match.Score.{
  Marks, mark_at, lower, mark_pair, step_ahead, step_back, rounds, check_range, positions, visit,
  check_mdf, check_frame, check_frames, final_marks, stop_check_bits, no_match, good_bits,
  check_bits, skip_split_parts, int_index, int_size,
}
use video_match.VideoDb.{HashOrder}

-- A mark: no match, or a difference that did not stop the comparison.
abbrev pub IsMark : ℕ → Type 0
IsMark k = (k ≡ no_match) ⊎ (k ≤ stop_check_bits)

abbrev pub AllMarks : List ℕ → Type 0
AllMarks [] = Unit
AllMarks (k ∷ ks) = IsMark k × AllMarks ks

pub record IsMarked (nc nb : ℕ) (m : Marks) : Type 0 where
  pub clen : length m.cmark ≡ nc
  pub blen : length m.bmark ≡ nb
  pub cmarks : AllMarks m.cmark
  pub bmarks : AllMarks m.bmark

AllMarks-set : (ks : List ℕ) (i v : ℕ) → IsMark v → AllMarks ks → AllMarks (set ks i v)
AllMarks-set [] i v m h = tt
AllMarks-set (k ∷ ks) zero v m h = (m, h.1)
AllMarks-set (k ∷ ks) (suc i) v m h = (h.0, AllMarks-set ks i v m h.1)

AllMarks-replicate : (n : ℕ) → AllMarks (replicate n no_match)
AllMarks-replicate zero = tt
AllMarks-replicate (suc n) = (inl refl, AllMarks-replicate n)

AllMarks-lower :
    (d i : ℕ) (ks : List ℕ) → d ≤ stop_check_bits → AllMarks ks → AllMarks (lower d i ks)
unfolding lower
AllMarks-lower d i ks le h = elim (Bool-cases (ltb d (mark_at ks i))) [
  | inl less ↦ rw less (AllMarks-set ks i _ (inr (omega arith)) h)
  | inr more ↦ rw more h
]

pub length-lower : (d i : ℕ) (ks : List ℕ) → length (lower d i ks) ≡ length ks
unfolding lower
length-lower d i ks = ground (arith, length-set ks i (d % 2 ^ 8))

-- A pair of frames that does not stop the comparison differs in at most 28 bits.
pub mark_pair-some :
    (cf bf : List ℕ) (c b : ℕ) (m : Marks) {m' : Marks}
    → mark_pair cf bf c b m ≡ some m'
    → (diff_bits (get_or cf c 0) (get_or bf b 0) ≤ stop_check_bits)
      × (m' ≡ record {
        cmark = lower (diff_bits (get_or cf c 0) (get_or bf b 0)) c m.cmark;
        bmark = lower (diff_bits (get_or cf c 0) (get_or bf b 0)) b m.bmark;
      })
unfolding mark_pair
mark_pair-some cf bf c b m e = ground arith

-- What every round of a loop keeps, the loop keeps.
pub rounds_keep :
    (P : Marks → Type 0) (step : ℕ → Marks → Option Marks)
    → ((j : ℕ) (m m' : Marks) → 0 < j → P m → step j m ≡ some m' → P m')
    → (fuel j : ℕ) (m : Marks) → 0 < j
    → P m
    → P (rounds step fuel j m)
unfolding rounds
rounds_keep P step keep zero j m pos v = v
rounds_keep P step keep (suc fuel) j m pos v = elim (Option-cases (step j m)) [
  | inl stop ↦ rw (stop, rounds) v
  | inr (m', next) ↦
      rw (next, rounds)
        (rounds_keep P step keep fuel (j + 1) m' (omega arith) (keep j m m' pos v next))
]

module _ (cf bf : List ℕ) (nc nb : ℕ) where
  mark_pair-IsMarked :
      (c b : ℕ) (m : Marks) {m' : Marks}
      → IsMarked nc nb m
      → mark_pair cf bf c b m ≡ some m'
      → IsMarked nc nb m'
  unfolding mark_pair
  mark_pair-IsMarked c b m v e =
      let (near, made) = mark_pair-some cf bf c b m e in
      rw made (record {
        clen = length-lower _ c m.cmark ∙ v.clen;
        blen = length-lower _ b m.bmark ∙ v.blen;
        cmarks = AllMarks-lower _ c m.cmark near v.cmarks;
        bmarks = AllMarks-lower _ b m.bmark near v.bmarks;
      })

  step_ahead-IsMarked :
      (c b j : ℕ) (m m' : Marks)
      → 0 < j
      → IsMarked nc nb m
      → step_ahead cf bf c b j m ≡ some m'
      → IsMarked nc nb m'
  unfolding step_ahead
  step_ahead-IsMarked c b j m m' pos v e =
      mark_pair-IsMarked ((c + j) % 2 ^ 64) ((b + j) % 2 ^ 64) m v (ground (arith, e))

  step_back-IsMarked :
      (c b j : ℕ) (m m' : Marks)
      → 0 < j
      → IsMarked nc nb m
      → step_back cf bf c b j m ≡ some m'
      → IsMarked nc nb m'
  unfolding step_back
  step_back-IsMarked c b j m m' pos v e = mark_pair-IsMarked (c - j) (b - j) m v (ground (arith, e))

  pub check_range-IsMarked :
      (c b : ℕ) (m : Marks) → IsMarked nc nb m → IsMarked nc nb (check_range cf bf c b m)
  unfolding check_range
  check_range-IsMarked c b m v =
      rounds_keep (IsMarked nc nb) (step_back cf bf (int_index c) b)
        (step_back-IsMarked (int_index c) b) (length cf) 1 _ (omega arith)
        (rounds_keep (IsMarked nc nb) (step_ahead cf bf (int_index c) b)
          (step_ahead-IsMarked (int_index c) b) (length cf) 1 m (omega arith) v)

  pub set_zero-IsMarked :
      (b : ℕ) (m : Marks) → IsMarked nc nb m → IsMarked nc nb (record m { bmark = set m.bmark b 0 })
  set_zero-IsMarked b m v = record {
    clen = v.clen;
    blen = length-set m.bmark b 0 ∙ v.blen;
    cmarks = v.cmarks;
    bmarks = AllMarks-set m.bmark b 0 (inr (omega arith)) v.bmarks;
  }

  pub set_match-IsMarked :
      (i : ℕ) (m : Marks) → IsMarked nc nb m → IsMarked nc nb (record m { cmark = set m.cmark i 0 })
  set_match-IsMarked i m v = record {
    clen = length-set m.cmark i 0 ∙ v.clen;
    blen = v.blen;
    cmarks = AllMarks-set m.cmark i 0 (inr (omega arith)) v.cmarks;
    bmarks = v.bmarks;
  }

  visit-IsMarked :
      (i : ℕ) (bs : List ℕ) (m : Marks) → IsMarked nc nb m → IsMarked nc nb (visit cf bf i bs m)
  unfolding visit
  visit-IsMarked i [] m v = v
  visit-IsMarked i (b ∷ bs) m v =
      let z = set_zero-IsMarked b m v in
      elim (Bool-cases (ltb (mark_at m.bmark b) good_bits)) [
        | inl good ↦ rw good (visit-IsMarked i bs _ z)
        | inr bad ↦ rw bad (visit-IsMarked i bs _ (check_range-IsMarked i b _ z))
      ]

  check_mdf-IsMarked : (i : ℕ) (m : Marks) → IsMarked nc nb m → IsMarked nc nb (check_mdf cf bf i m)
  unfolding check_mdf
  check_mdf-IsMarked i m v =
      let r = min_diff_bits (get_or cf i 0) bf 0 (int_size (length bf)) 0 in
      elim (Bool-cases (ltb check_bits r.0)) [
        | inl far ↦ rw far v
        | inr near ↦ rw near (
            check_range-IsMarked i r.1 _ (record {
              clen = length-set m.cmark i _ ∙ v.clen;
              blen = length-set _ r.1 _ ∙ length-lower r.0 r.1 m.bmark ∙ v.blen;
              cmarks = AllMarks-set m.cmark i _ (inr (ground (arith, near))) v.cmarks;
              bmarks =
                  AllMarks-set _ r.1 _ (inr (ground (arith, near)))
                    (AllMarks-lower r.0 r.1 m.bmark (ground (arith, near)) v.bmarks);
            }))
      ]

  module _ (order : HashOrder ℕ) where
    pub check_frame-IsMarked :
        (i : ℕ) (m : Marks) (skipped : ℕ)
        → IsMarked nc nb m
        → IsMarked nc nb (check_frame order cf bf i (m, skipped)).0
    unfolding check_frame
    check_frame-IsMarked i m skipped v =
        let k = get_or cf i 0 in
        let matched =
          visit-IsMarked i (order.arrange (positions k 0 bf)) _ (set_match-IsMarked i m v) in
        elim (Bool-cases (ltb (mark_at m.cmark i) good_bits)) [
          | inl good ↦ rw good v
          | inr bad ↦ elim (Bool-cases (ltb 0 (count k bf))) [
            | inl cmf ↦ rw (bad, cmf) matched
            | inr none_found ↦
                elim (Bool-cases (ltb (skipped + 1) (int_size (length cf / skip_split_parts)))) [
                  | inl skip ↦ rw (bad, none_found, skip) v
                  | inr check ↦ rw (bad, none_found, check) (check_mdf-IsMarked i m v)
                ]
          ]
        ]

    check_frames-IsMarked :
        (left i : ℕ) (m : Marks) (skipped : ℕ)
        → IsMarked nc nb m
        → IsMarked nc nb (check_frames order cf bf left i (m, skipped)).0
    unfolding check_frames
    check_frames-IsMarked zero i m skipped v = v
    check_frames-IsMarked (suc left) i m skipped v =
        let s = check_frame order cf bf i (m, skipped) in
        check_frames-IsMarked left (i + 1) s.0 s.1 (check_frame-IsMarked i m skipped v)

-- The marks that the main loop starts from.
pub blank-IsMarked :
    (nc nb : ℕ)
    → IsMarked nc nb (record { cmark = replicate nc no_match; bmark = replicate nb no_match })
blank-IsMarked nc nb = record {
  clen = length-replicate nc no_match;
  blen = length-replicate nb no_match;
  cmarks = AllMarks-replicate nc;
  bmarks = AllMarks-replicate nb;
}

-- After the main loop there is a mark for each frame of either video, and every mark is 255 or at
-- most 28.
pub final_marks-IsMarked :
    (order : HashOrder ℕ) (cf bf : List ℕ)
    → IsMarked (length cf) (length bf) (final_marks order cf bf)
unfolding final_marks
final_marks-IsMarked order cf bf =
    check_frames-IsMarked cf bf (length cf) (length bf) order (length cf) 0 _ 0
      (blank-IsMarked (length cf) (length bf))
