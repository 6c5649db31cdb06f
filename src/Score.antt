-- ===== src/Score.antt =====
-- `VideoDB::check_candidate` of server/VideoDB.cpp: how alike two videos are. `cf` are the frames
-- of the query, `bf` those of the stored item, and a mark is the least difference found so far for
-- a frame, 255 if none was.
pub mod Floats
pub mod MarkBounds
pub mod Range
pub mod SelfMarks
pub mod SelfScore
use video_match.Base.{
  ℕ, zero, suc, ◌+◌, ◌-◌, ◌*◌, ◌/◌, ◌%◌, ◌^◌, Bool, true, false, ◌&&◌, List, [], ◌∷◌, Option, none,
  some, ◌==◌, ltb, leb, if◌then◌else◌, get_or, set, length, replicate, count, ◌||◌, ℤ, pos, negsuc,
  ◌-ℤ◌,
}
use video_match.BitCount.{diff_bits, min_diff_bits}
use video_match.Score.Floats.{Double}
use video_match.VideoDb.Index.{to_int}
use video_match.VideoDb.{HashOrder}

abbrev pub skip_split_parts : ℕ
skip_split_parts = 32

abbrev pub check_bits : ℕ
check_bits = 12

abbrev pub stop_check_bits : ℕ
stop_check_bits = 28

abbrev pub good_bits : ℕ
good_bits = 4

abbrev pub no_match : ℕ
no_match = 255

pub record Marks : Type 0 where
  pub cmark : List ℕ
  pub bmark : List ℕ

abbrev pub mark_at : List ℕ → ℕ → ℕ
mark_at marks i = get_or marks i no_match

-- `if (d < marks[i]) marks[i] = d;` with the conversion to `uint8_t`
unfoldable pub lower : ℕ → ℕ → List ℕ → List ℕ
lower d i marks = if ltb d (mark_at marks i) then set marks i (d % 2 ^ 8) else marks

-- `(int)n` as an index: the low 32 bits, with the sign extended to 64. A number of 2 ^ 31 or more
-- becomes negative, and the index lies outside of every vector; what the code does there is not
-- defined, here it reads no mark and writes none.
unfoldable pub int_index : ℕ → ℕ
int_index n = let low = n % 2 ^ 32 in if ltb low (2 ^ 31) then low else low + (2 ^ 64 - 2 ^ 32)

-- `(int)size()` as a bound for numbers that are not negative.
unfoldable pub int_size : ℕ → ℕ
int_size n = let low = n % 2 ^ 32 in if ltb low (2 ^ 31) then low else 0

-- `pos + j < (int)size()` for an `int pos`
abbrev pub is_ahead : ℕ → ℕ → ℕ → Bool
is_ahead p j size = leb (2 ^ 31) p || ltb (p + j) (int_size size)

-- `pos - j >= 0` for an `int pos`
abbrev pub is_behind : ℕ → ℕ → Bool
is_behind p j = ltb p (2 ^ 31) && leb j p

-- The body of both loops of `check_range` at a pair of positions; `none` is the `break`.
unfoldable pub mark_pair : List ℕ → List ℕ → ℕ → ℕ → Marks → Option Marks
unfolding lower
mark_pair cf bf c b m =
    let d = diff_bits (get_or cf c 0) (get_or bf b 0) in
    if ltb stop_check_bits d
    then none
    else some (record { cmark = lower d c m.cmark; bmark = lower d b m.bmark })

-- One round of the loop ahead and one of the loop backward; `none` ends the loop.
unfoldable pub step_ahead : List ℕ → List ℕ → ℕ → ℕ → ℕ → Marks → Option Marks
unfolding mark_pair int_size
step_ahead cf bf cpos bpos j m =
    if is_ahead cpos j (length cf) && is_ahead bpos j (length bf)
    then mark_pair cf bf ((cpos + j) % 2 ^ 64) ((bpos + j) % 2 ^ 64) m
    else none

unfoldable pub step_back : List ℕ → List ℕ → ℕ → ℕ → ℕ → Marks → Option Marks
unfolding mark_pair
step_back cf bf cpos bpos j m =
    if is_behind cpos j && is_behind bpos j then mark_pair cf bf (cpos - j) (bpos - j) m else none

-- `for (j = 1; ...; j++)`; the fuel bounds the rounds.
unfoldable pub rounds : (ℕ → Marks → Option Marks) → ℕ → ℕ → Marks → Marks
rounds step zero j m = m
rounds step (suc fuel) j m = elim (step j m) [ none ↦ m | some m' ↦ rounds step fuel (j + 1) m' ]

-- `check_range(cpos, bpos)`, where `cpos` is made an `int`: from positions that are not negative
-- neither loop makes more than `cf.size()` rounds.
unfoldable pub check_range : List ℕ → List ℕ → ℕ → ℕ → Marks → Marks
unfolding step_ahead step_back rounds int_index
check_range cf bf cpos bpos m =
    let c = int_index cpos in
    rounds (step_back cf bf c bpos) (length cf) 1 (rounds (step_ahead cf bf c bpos) (length cf) 1 m)

-- The positions of a frame, each made an `int`: `base_frames.equal_range(k)`, in the order of
-- insertion.
unfoldable pub positions : ℕ → ℕ → List ℕ → List ℕ
unfolding int_index
positions k i [] = []
positions k i (f ∷ bf) =
    if f == k then int_index i ∷ positions k (i + 1) bf else positions k (i + 1) bf

-- The loop over the range of a completely matching frame at `i`.
unfoldable pub visit : List ℕ → List ℕ → ℕ → List ℕ → Marks → Marks
unfolding check_range
visit cf bf i [] m = m
visit cf bf i (b ∷ bs) m =
    let matched = record m { bmark = set m.bmark b 0 } in
    visit cf bf i bs
      (if ltb (mark_at m.bmark b) good_bits then matched else check_range cf bf i b matched)

-- The end of the round: the least different frame, taken if it is near enough.
unfoldable pub check_mdf : List ℕ → List ℕ → ℕ → Marks → Marks
unfolding check_range int_size
check_mdf cf bf i m =
    let (diff, mdf_pos) = min_diff_bits (get_or cf i 0) bf 0 (int_size (length bf)) 0 in
    if ltb check_bits diff
    then m
    else check_range cf bf i mdf_pos (record {
      cmark = set m.cmark i (diff % 2 ^ 8);
      bmark = set (lower diff mdf_pos m.bmark) mdf_pos (diff % 2 ^ 8);
    })

-- The order of equal keys in an `unordered_multimap` is the standard library's.
module _ (order : HashOrder ℕ) (cf bf : List ℕ) where
  -- One round of the main loop, on the marks and `skipped`.
  unfoldable pub check_frame : ℕ → Marks × ℕ → Marks × ℕ
  unfolding positions visit check_mdf int_size
  check_frame i (m, skipped) =
      let skip_itvl = int_size (length cf / skip_split_parts) in
      let k = get_or cf i 0 in
      if ltb (mark_at m.cmark i) good_bits
      then (m, skipped)
      else if ltb 0 (count k bf)
      then (
        visit cf bf i (order.arrange (positions k 0 bf)) (record m { cmark = set m.cmark i 0 }),
        skipped,
      )
      else if ltb (skipped + 1) skip_itvl
      then (m, skipped + 1)
      else (check_mdf cf bf i m, 0)

  unfoldable pub check_frames : ℕ → ℕ → Marks × ℕ → Marks × ℕ
  unfolding check_frame
  check_frames zero i s = s
  check_frames (suc left) i s = check_frames left (i + 1) (check_frame i s)

  -- The marks when the main loop has ended.
  unfoldable pub final_marks : Marks
  unfolding check_frames
  final_marks =
      (check_frames (length cf) 0 (
        record { cmark = replicate (length cf) no_match; bmark = replicate (length bf) no_match },
        0,
      )).0

-- `total_diff_bits` and `cnt` over a vector of marks: two `int`, as their 32 bits
unfoldable pub tally : List ℕ → ℕ × ℕ
tally [] = (0, 0)
tally (k ∷ marks) =
    let (total, cnt) = tally marks in
    if k == no_match then (total, cnt) else ((k + total) % 2 ^ 32, (cnt + 1) % 2 ^ 32)

-- The quotient of two `int`, rounded towards 0.
unfoldable pub int_div : ℤ → ℤ → ℤ
unfolding ◌-ℤ◌
int_div (pos a) (pos b) = pos (a / b)
int_div (pos a) (negsuc b) = pos 0 -ℤ pos (a / (b + 1))
int_div (negsuc a) (pos b) = pos 0 -ℤ pos ((a + 1) / b)
int_div (negsuc a) (negsuc b) = pos ((a + 1) / (b + 1))

abbrev pub above_18 : ℤ → Bool
above_18 (pos n) = ltb 18 n
above_18 (negsuc n) = false

-- The score of one side, `none` for the early `return 0.0`; `n` is the number of frames.
module _ (F : Double) where
  open F use {Num, of_nat, sub, mul, div}

  -- An `int` as a `double`
  abbrev pub of_int : ℤ → Num
  of_int (pos n) = of_nat n
  of_int (negsuc n) = sub (of_nat 0) (of_nat (n + 1))

  unfoldable pub side_score : ℕ → ℕ × ℕ → Option Num
  unfolding to_int int_div
  side_score n (total, cnt) =
      let cnt' = to_int (if cnt == 0 then 1 else cnt) in
      let mean = int_div (to_int total) cnt' in
      let cut_ratio = of_nat 0 in
      if above_18 mean
      then none
      else some (
          mul (div (sub (of_nat 18) (of_int mean)) (of_nat 18))
            (div (of_int cnt') (mul (of_nat n) (sub (of_nat 1) (mul (of_nat 2) cut_ratio)))))

  unfoldable pub both_scores : Option Num → Option Num → Num
  both_scores none s2 = of_nat 0
  both_scores (some s1) none = of_nat 0
  both_scores (some s1) (some s2) = mul s1 s2

  -- `check_candidate`: the frames of the stored item, then those of the query.
  unfoldable pub check_candidate : HashOrder ℕ → List ℕ → List ℕ → Num
  unfolding final_marks tally side_score both_scores
  check_candidate order bf cf =
      let m = final_marks order cf bf in
      if length cf * length bf % 2 ^ 64 == 0
      then of_nat 0
      else both_scores (side_score (length cf) (tally m.cmark))
          (side_score (length bf) (tally m.bmark))
