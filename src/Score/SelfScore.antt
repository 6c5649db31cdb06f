-- ===== src/Score/SelfScore.antt =====
-- A video matches itself with the score 1.
use video_match.Base.{
  ℕ, suc, ◌*◌, ◌/◌, ◌%◌, ◌+◌, ◌≤◌, ◌==◌, false, ◌^◌, ◌<◌, ◌≡◌, refl, ◌∙◌, ap, List, [], ◌∷◌, some,
  arith, length,
}
use video_match.Score.{mark_at, tally, side_score, both_scores, check_candidate, final_marks}
use video_match.Score.Floats.{Double}
use video_match.Score.Range.{side_score_lem, counted}
use video_match.Score.SelfMarks.{final_marks_self}
use video_match.VideoDb.{HashOrder}

tally_zero :
    (ks : List ℕ)
    → length ks < 2 ^ 31
    → ((i : ℕ) → i < length ks → mark_at ks i ≡ 0)
    → tally ks ≡ (0, length ks)
unfolding tally
tally_zero [] small h = refl
tally_zero (k ∷ ks) small h =
    let sized : (length ks + 1) % 2 ^ 32 ≡ length (k ∷ ks) = omega (arith, small) in
    rw (h 0 (omega arith), tally_zero ks (omega (arith, small)) (λ i lt. h (suc i) (omega arith)))
      (ap (λ n. (0, n)) sized)

square_small : (n : ℕ) → 0 < n → n < 2 ^ 31 → (n * n % 2 ^ 64 == 0) ≡ false
square_small n there small =
    let low : 0 < n * n = grind (arith, there) in
    let high : n * n ≤ n * 2 ^ 31 = grind (arith, small) in ground (arith, low, high, small)

module _ (F : Double) where
  open F use {Num, of_nat, mul, div}

  side_score_full : (n : ℕ) → 0 < n → n < 2 ^ 31 → side_score F n (0, n) ≡ some (of_nat 1)
  side_score_full n pos small =
      let one : counted F n ≡ n = ground (arith, pos) in
      let mean : 0 / counted F n ≡ 0 = rw one (omega arith) in
      side_score_lem F n 0 n (omega (arith, small)) (omega arith) small (omega arith)
      ∙ rw (mean, one)
          (rw (F.div_self 18 (omega arith) (omega arith), F.div_self n pos (omega (arith, small)))
            (rw (F.mul_exact 1 1 (omega arith)) refl))

  -- A video of at least one frame and fewer than 2 ^ 31 matches itself with the score 1.
  pub check_candidate_self :
      (order : HashOrder ℕ) (f : List ℕ)
      → 0 < length f
      → length f < 2 ^ 31
      → check_candidate F order f f ≡ of_nat 1
  unfolding check_candidate both_scores
  check_candidate_self order [] pos small = absurd (omega arith)
  check_candidate_self order (x ∷ xs) pos small =
      let n = length (x ∷ xs) in
      let z = final_marks_self order x xs small in
      let full : (n * n % 2 ^ 64 == 0) ≡ false = square_small n pos small in
      let m = final_marks order (x ∷ xs) (x ∷ xs) in
      let c : tally m.cmark ≡ (0, n) =
        tally_zero m.cmark (omega (arith, z.clen, small)) (λ i lt. z.czero i (omega arith))
        ∙ ap (λ k. (0, k)) z.clen in
      let b : tally m.bmark ≡ (0, n) =
        tally_zero m.bmark (omega (arith, z.blen, small)) (λ i lt. z.bzero i (omega arith))
        ∙ ap (λ k. (0, k)) z.blen in
      rw (full, c, b, side_score_full n pos small) (F.mul_exact 1 1 (omega arith))
