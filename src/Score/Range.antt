-- ===== src/Score/Range.antt =====
-- The score of `check_candidate` lies between 0 and 1.
use video_match.Base.{
  ℕ, zero, suc, ◌-◌, ◌%◌, pos, ◌*◌, ◌/◌, ◌^◌, ◌≤◌, ◌<◌, ◌≡◌, refl, inl, inr, true, false, List, [],
  ◌∷◌, Option, none, some, arith, length, ltb, ◌==◌, Bool-cases, if◌then◌else◌, ◌∙◌, ap,
}
use mathlib.Core.Path.{subst}
use native.Mathlib.Decide.{dec_le}
use native.Mathlib.Nat.{mul-one, zero-mul, mul-zero}
use video_match.Score.{
  tally, side_score, both_scores, check_candidate, final_marks, no_match, int_div,
}
use video_match.Score.Floats.{Double}
use video_match.Score.MarkBounds.{final_marks-IsMarked, AllMarks}
use video_match.VideoDb.Index.{to_int, to_int_small}
use video_match.VideoDb.{HashOrder}

-- No more marks are counted than there are, and of fewer than 2 ^ 26 neither sum leaves an `int`.
pub record InInt (marks : List ℕ) : Type 0 where
  pub cnt_le : (tally marks).1 ≤ length marks
  pub total_le : (tally marks).0 ≤ 28 * (tally marks).1

tally-InInt : (marks : List ℕ) → AllMarks marks → length marks < 2 ^ 26 → InInt marks
unfolding tally
tally-InInt [] h small = record { cnt_le = omega arith; total_le = omega arith }
tally-InInt (k ∷ marks) h small =
    let r = tally-InInt marks h.1 (omega (arith, small)) in
    elim h.0 [
      | inl no_mark ↦
          let e : (k == no_match) ≡ true = ground (arith, no_mark) in
          record { cnt_le = rw e (omega (arith, r.cnt_le)); total_le = rw e r.total_le }
      | inr near ↦
          let e : (k == no_match) ≡ false = ground (arith, near) in
          record {
            cnt_le = rw e (omega (arith, r.cnt_le, small));
            total_le = rw e (omega (arith, r.cnt_le, r.total_le, near, small));
          }
    ]

pos_left : (a b : ℕ) → (a * b % 2 ^ 64 == 0) ≡ false → 0 < a
pos_left zero b h = ground (arith, zero-mul b)
pos_left (suc a) b h = omega arith

pos_right : (a b : ℕ) → (a * b % 2 ^ 64 == 0) ≡ false → 0 < b
pos_right a zero h = ground (arith, mul-zero a)
pos_right a (suc b) h = omega arith

module _ (F : Double) where
  open F use {Num, of_nat, sub, mul, div, less}

  -- Not below 0, and not above 1.
  abbrev pub InUnit : Num → Type 0
  InUnit x = (less x (of_nat 0) ≡ false) × (less (of_nat 1) x ≡ false)

  InUnit-zero : InUnit (of_nat 0)
  InUnit-zero =
      (F.less_nat 0 0 (omega arith) (omega arith), F.less_nat 1 0 (omega arith) (omega arith))

  whole :
      (n : ℕ) → n < 2 ^ 53 → mul (of_nat n) (sub (of_nat 1) (mul (of_nat 2) (of_nat 0))) ≡ of_nat n
  whole n h =
      let zero_cut : mul (of_nat 2) (of_nat 0) ≡ of_nat 0 = F.mul_exact 2 0 (omega arith) in
      let one : sub (of_nat 1) (of_nat 0) ≡ of_nat 1 =
        F.sub_exact 1 0 (omega arith) (omega arith) in
      rw (zero_cut, one) (F.mul_exact n 1 (omega arith) ∙ ap of_nat (mul-one n))

  InUnit-div : (a b : ℕ) → 0 < b → b < 2 ^ 53 → a ≤ b → InUnit (div (of_nat a) (of_nat b))
  InUnit-div a b there small le = (F.div_low a b there small le, F.div_high a b there small le)

  InUnit-mul : (x y : Num) → InUnit x → InUnit y → InUnit (mul x y)
  InUnit-mul x y hx hy = (F.mul_low x y hx.0 hy.0, F.mul_high x y hx.0 hx.1 hy.0 hy.1)

  -- The number of counted marks, at least 1.
  abbrev pub counted : ℕ → ℕ
  counted cnt = if cnt == 0 then 1 else cnt

  counted_int : (cnt : ℕ) → cnt < 2 ^ 31 → to_int (counted cnt) ≡ pos (counted cnt)
  counted_int cnt h = to_int_small (counted cnt) (ground (arith, h))

  -- The score of one side: the mean difference out of 18, times the share of the frames.
  pub side_score_lem :
      (n total cnt : ℕ)
      → n < 2 ^ 53
      → total < 2 ^ 31
      → cnt < 2 ^ 31
      → total / counted cnt ≤ 18
      → side_score F n (total, cnt)
        ≡ some (
            mul
              (div (of_nat (18 - total / counted cnt)) (of_nat 18))
              (div (of_nat (counted cnt)) (of_nat n)))
  unfolding side_score int_div
  side_score_lem n total cnt small few some_marks le =
      let test : ltb 18 (total / counted cnt) ≡ false = ground (arith, le) in
      rw (to_int_small total few) (
        rw (counted_int cnt some_marks)
          (rw (test, whole n small, F.sub_exact 18 (total / counted cnt) le (omega arith)) refl))

  side_score-none :
      (n total cnt : ℕ)
      → total < 2 ^ 31
      → cnt < 2 ^ 31
      → 18 < total / counted cnt
      → side_score F n (total, cnt) ≡ none
  unfolding side_score int_div
  side_score-none n total cnt few some_marks h =
      let test : ltb 18 (total / counted cnt) ≡ true = ground (arith, h) in
      rw (to_int_small total few) (rw (counted_int cnt some_marks) (rw test refl))

  side_score-InUnit :
      (n : ℕ) (t : ℕ × ℕ) (s : Num)
      → 0 < n
      → n < 2 ^ 26
      → t.1 ≤ n
      → t.0 ≤ 28 * t.1
      → side_score F n t ≡ some s
      → InUnit s
  side_score-InUnit n (total, cnt) s there small le sum e = elim (dec_le (total / counted cnt) 18) [
    | no far ↦ absurd (
        cc (
          side_score-none n total cnt (omega (arith, small, le, sum)) (omega (arith, small, le))
            (omega arith)))
    | yes near ↦
        let made =
          side_score_lem n total cnt (omega (arith, small)) (omega (arith, small, le, sum))
            (omega (arith, small, le)) near in
        let same : mul (div (of_nat (18 - total / counted cnt)) (of_nat 18))
              (div (of_nat (counted cnt)) (of_nat n))
            ≡ s =
          cc made in
        subst InUnit same (
          InUnit-mul _ _
            (InUnit-div (18 - total / counted cnt) 18 (omega arith) (omega arith) (omega arith))
            (InUnit-div (counted cnt) n there (omega (arith, small)) (ground arith)))
  ]

  both_scores-InUnit :
      (s1 s2 : Option Num)
      → ((s : Num) → s1 ≡ some s → InUnit s)
      → ((s : Num) → s2 ≡ some s → InUnit s)
      → InUnit (both_scores F s1 s2)
  unfolding both_scores
  both_scores-InUnit none s2 h1 h2 = InUnit-zero
  both_scores-InUnit (some s1) none h1 h2 = InUnit-zero
  both_scores-InUnit (some s1) (some s2) h1 h2 = InUnit-mul s1 s2 (h1 s1 refl) (h2 s2 refl)

  -- The score of any two videos of fewer than 2 ^ 26 frames lies between 0 and 1.
  pub check_candidate-InUnit :
      (order : HashOrder ℕ) (bf cf : List ℕ)
      → length bf < 2 ^ 26
      → length cf < 2 ^ 26
      → InUnit (check_candidate F order bf cf)
  unfolding check_candidate
  check_candidate-InUnit order bf cf hb hc =
      let m = final_marks order cf bf in
      let v = final_marks-IsMarked order cf bf in
      let c = tally-InInt m.cmark v.cmarks (omega (arith, v.clen, hc)) in
      let b = tally-InInt m.bmark v.bmarks (omega (arith, v.blen, hb)) in
      elim (Bool-cases (length cf * length bf % 2 ^ 64 == 0)) [
        | inl empty ↦ rw empty InUnit-zero
        | inr full ↦ rw full (
            both_scores-InUnit _ _
              (λ s.
                side_score-InUnit (length cf) (tally m.cmark) s (pos_left _ _ full) hc
                  (omega (arith, c.cnt_le, v.clen)) c.total_le)
              (λ s.
                side_score-InUnit (length bf) (tally m.bmark) s (pos_right _ _ full) hb
                  (omega (arith, b.cnt_le, v.blen)) b.total_le))
      ]
