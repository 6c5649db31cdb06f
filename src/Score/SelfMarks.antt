-- ===== src/Score/SelfMarks.antt =====
-- The marks that `check_candidate` leaves when a video is compared with itself.
use video_match.Base.{
  ℕ, zero, suc, ◌+◌, ◌%◌, ◌^◌, ◌≤◌, ◌<◌, ◌≡◌, refl, true, false, ◌&&◌, List, [], ◌∷◌, none, some,
  arith, length, length-set, set, get_or, get_or-set, ltb, leb, ◌==◌, Bool-cases, inl, inr,
  if◌then◌else◌, member, count, ==_iff, ==_refl, tests, ◌∙◌, sym, replicate,
}
use mathlib.Core.Path.{subst}
use native.Mathlib.Decide.{ℕ_discrete}
use native.Mathlib.Nat.{zero-add}
use video_match.BitCount.{diff_bits}
use video_match.BitCount.Xor.{diff_bits_self}
use video_match.Score.{
  Marks, mark_at, lower, mark_pair, step_ahead, step_back, rounds, check_range, positions, visit,
  check_frame, check_frames, final_marks, no_match, good_bits, int_index, int_size,
}
use video_match.Score.MarkBounds.{
  IsMarked, blank-IsMarked, set_zero-IsMarked, set_match-IsMarked, rounds_keep, mark_pair-some,
  length-lower, check_range-IsMarked,
}
use video_match.VideoDb.Walks.{any_of-arrange}
use video_match.VideoDb.{HashOrder}

-- Every frame of both videos has the mark 0.
pub record AllZero (n : ℕ) (m : Marks) : Type 0 where
  pub clen : length m.cmark ≡ n
  pub blen : length m.bmark ≡ n
  pub czero : (i : ℕ) → i < n → mark_at m.cmark i ≡ 0
  pub bzero : (i : ℕ) → i < n → mark_at m.bmark i ≡ 0

lower-zero :
    (i j : ℕ) (ks : List ℕ)
    → i < length ks
    → mark_at (lower 0 i ks) j ≡ (if i == j then 0 else mark_at ks j)
unfolding lower
lower-zero i j ks h = elim (Bool-cases (i == j)) [
  | inl same ↦
      let e : i ≡ j = (==_iff i j).0 same in
      rw e (ground (arith, get_or-set ks j j 0 no_match (omega arith)))
  | inr other ↦ ground (arith, get_or-set ks i j 0 no_match h, other)
]

lower-first : (d i : ℕ) (ks : List ℕ) → 0 < i → mark_at (lower d i ks) 0 ≡ mark_at ks 0
unfolding lower
lower-first d zero ks h = elim h [ ]
lower-first d (suc i) [] h = ground arith
lower-first d (suc i) (k ∷ ks) h = ground arith

-- What the loop ahead does to one list of marks from position `j` on.
abbrev Cleared : ℕ → ℕ → List ℕ → List ℕ → Type 0
Cleared n j ks ks' =
    (length ks' ≡ n) × ((i : ℕ) → mark_at ks' i ≡ (if leb j i && ltb i n then 0 else mark_at ks i))

Cleared-end : (n j : ℕ) (ks : List ℕ) → length ks ≡ n → n ≤ j → Cleared n j ks ks
Cleared-end n j ks len h = (len, λ i. ground arith)

Cleared-step :
    (n j : ℕ) (ks ks' : List ℕ)
    → length ks ≡ n
    → j < n
    → Cleared n (j + 1) (lower 0 j ks) ks'
    → Cleared n j ks ks'
Cleared-step n j ks ks' len h c = (c.0, λ i. ground (arith, c.1 i, lower-zero j i ks))

-- Numbers below 2 ^ 31 are what they are as an `int`.
int_index-lt : (n : ℕ) → n < 2 ^ 31 → int_index n ≡ n
unfolding int_index
int_index-lt n h = ground (arith, h)

int_size-lt : (n : ℕ) → n < 2 ^ 31 → int_size n ≡ n
unfolding int_size
int_size-lt n h = ground (arith, h)

word_small : (n : ℕ) → n < 2 ^ 32 → n % 2 ^ 64 ≡ n
word_small n h = omega (arith, h)

module _ (f : List ℕ) (short : length f < 2 ^ 31) where
  step_ahead_self :
      (j : ℕ) (m : Marks)
      → j ≤ length f
      → step_ahead f f 0 0 j m ≡ (
          if ltb j (length f)
          then some (record { cmark = lower 0 j m.cmark; bmark = lower 0 j m.bmark })
          else none)
  unfolding step_ahead mark_pair
  step_ahead_self j m h =
      rw
        (
          zero-add,
          int_size-lt (length f) short,
          word_small j (omega (arith, h, short)),
          diff_bits_self,
        )
        (ground arith)

  ahead-Cleared :
      (fuel j : ℕ) (m : Marks)
      → length m.cmark ≡ length f
      → length m.bmark ≡ length f
      → length f ≤ fuel + j
      → j ≤ length f
      → Cleared (length f) j m.cmark (rounds (step_ahead f f 0 0) fuel j m).cmark
        × Cleared (length f) j m.bmark (rounds (step_ahead f f 0 0) fuel j m).bmark
  unfolding rounds
  ahead-Cleared zero j m hc hb h le = (
    Cleared-end (length f) j m.cmark hc (omega arith),
    Cleared-end (length f) j m.bmark hb (omega arith),
  )
  ahead-Cleared (suc fuel) j m hc hb h le = elim (Bool-cases (ltb j (length f))) [
    | inl inside ↦
        let (c, b) =
          ahead-Cleared fuel (j + 1)
            (record { cmark = lower 0 j m.cmark; bmark = lower 0 j m.bmark })
            (length-lower 0 j m.cmark ∙ hc) (length-lower 0 j m.bmark ∙ hb) (omega arith)
            (ground (arith, inside)) in
        rw (step_ahead_self j m le, inside, rounds)
          (
            Cleared-step (length f) j m.cmark _ hc (omega tests) c,
            Cleared-step (length f) j m.bmark _ hb (omega tests) b,
          )
    | inr outside ↦
        rw (step_ahead_self j m le, outside, rounds)
          (
            Cleared-end (length f) j m.cmark hc (ground (arith, outside)),
            Cleared-end (length f) j m.bmark hb (ground (arith, outside)),
          )
  ]

  -- From position 0 the loop backward makes no round.
  back_none : (b fuel : ℕ) (m : Marks) → rounds (step_back f f 0 b) fuel 1 m ≡ m
  unfolding rounds step_back
  back_none b zero m = refl
  back_none b (suc fuel) m = refl

  step_ahead-first :
      (b x y j : ℕ) (s s' : Marks)
      → b < 2 ^ 31
      → 0 < j
      → (mark_at s.cmark 0 ≡ x) × (mark_at s.bmark 0 ≡ y)
      → step_ahead f f 0 b j s ≡ some s'
      → (mark_at s'.cmark 0 ≡ x) × (mark_at s'.bmark 0 ≡ y)
  unfolding step_ahead
  step_ahead-first b x y j s s' small pos v e =
      let c' = (0 + j) % 2 ^ 64 in
      let b' = (b + j) % 2 ^ 64 in
      let (_, made) = mark_pair-some f f c' b' s {m' = s'} (ground (arith, e)) in
      let sized = int_size-lt (length f) short in
      let near : j < 2 ^ 31 = ground (arith, e, sized, short) in
      let d = diff_bits (get_or f c' 0) (get_or f b' 0) in
      rw made (
        lower-first d c' s.cmark (omega (arith, near, pos)) ∙ v.0,
        lower-first d b' s.bmark (omega (arith, near, pos, small)) ∙ v.1,
      )

  -- From position 0 neither loop changes the marks at position 0.
  check_range-first :
      (b x y : ℕ) (m : Marks)
      → b < 2 ^ 31
      → (mark_at m.cmark 0 ≡ x) × (mark_at m.bmark 0 ≡ y)
      → (mark_at (check_range f f 0 b m).cmark 0 ≡ x)
        × (mark_at (check_range f f 0 b m).bmark 0 ≡ y)
  unfolding check_range
  check_range-first b x y m small h =
      rw (back_none b (length f) (rounds (step_ahead f f 0 b) (length f) 1 m)) (
        rounds_keep (λ s. (mark_at s.cmark 0 ≡ x) × (mark_at s.bmark 0 ≡ y)) (step_ahead f f 0 b)
          (λ j s s' pos v e. step_ahead-first b x y j s s' small pos v e) (length f) 1 m
          (omega arith) h)

  check_range-AllZero :
      (m : Marks)
      → 0 < length f
      → length m.cmark ≡ length f
      → length m.bmark ≡ length f
      → (mark_at m.cmark 0 ≡ 0) × (mark_at m.bmark 0 ≡ 0)
      → AllZero (length f) (check_range f f 0 0 m)
  unfolding check_range
  check_range-AllZero m there hc hb h =
      let (c, b) = ahead-Cleared (length f) 1 m hc hb (omega arith) (omega (arith, there)) in
      rw (back_none 0 (length f) (rounds (step_ahead f f 0 0) (length f) 1 m)) (record {
        clen = c.0;
        blen = b.0;
        czero = λ i lt. elim (ℕ_discrete i 0) [
          | yes e ↦ rw e (ground (arith, c.1 0, h.0))
          | no ne ↦ ground (arith, c.1 i, ne, lt)
        ];
        bzero = λ i lt. elim (ℕ_discrete i 0) [
          | yes e ↦ rw e (ground (arith, b.1 0, h.1))
          | no ne ↦ ground (arith, b.1 i, ne, lt)
        ];
      })

  abbrev InRange : List ℕ → Type 0
  InRange [] = Unit
  InRange (b ∷ bs) = (b < length f) × InRange bs

  -- Marks that are all 0 stay so.
  visit_zero :
      (bs : List ℕ) (m : Marks)
      → InRange bs
      → AllZero (length f) m
      → AllZero (length f) (visit f f 0 bs m)
  unfolding visit
  visit_zero [] m r z = z
  visit_zero (b ∷ bs) m r z = rw (z.bzero b r.0) (
      visit_zero bs _ r.1 (record {
        clen = z.clen;
        blen = length-set m.bmark b 0 ∙ z.blen;
        czero = z.czero;
        bzero =
            λ i lt. ground (arith, get_or-set m.bmark b i 0 no_match, z.bzero i lt, r.0, z.blen);
      }))

  set-first : (b : ℕ) (ks : List ℕ) (v : ℕ) → 0 < b → mark_at (set ks b v) 0 ≡ mark_at ks 0
  set-first zero ks v h = elim h [ ]
  set-first (suc b) [] v h = refl
  set-first (suc b) (k ∷ ks) v h = refl

  -- The visits of the first frame end with all marks 0.
  visit_first :
      (bs : List ℕ) (m : Marks)
      → IsMarked (length f) (length f) m
      → 0 < length f
      → InRange bs
      → member 0 bs ≡ true
      → mark_at m.cmark 0 ≡ 0
      → mark_at m.bmark 0 ≡ no_match
      → AllZero (length f) (visit f f 0 bs m)
  unfolding visit
  visit_first [] m v pos r there c b = absurd (cc)
  visit_first (zero ∷ bs) m v pos r there c b = rw b (
      visit_zero bs _ r.1 (
        check_range-AllZero (record m { bmark = set m.bmark 0 0 }) pos v.clen
          (length-set m.bmark 0 0 ∙ v.blen)
          (c, ground (arith, get_or-set m.bmark 0 0 0 no_match, v.blen))))
  visit_first (suc p ∷ bs) m v pos r there c b =
      let n = length f in
      let m1 : Marks = record m { bmark = set m.bmark (suc p) 0 } in
      let v1 = set_zero-IsMarked f f n n (suc p) m v in
      let later : member 0 bs ≡ true = ground (arith, there) in
      let b1 : mark_at m1.bmark 0 ≡ no_match = set-first (suc p) m.bmark 0 (omega arith) ∙ b in
      elim (Bool-cases (ltb (mark_at m.bmark (suc p)) good_bits)) [
        | inl good ↦ rw good (visit_first bs m1 v1 pos r.1 later c b1)
        | inr bad ↦
            let (c2, b2) =
              check_range-first (suc p) 0 no_match m1 (omega (arith, r.0, short)) (c, b1) in
            rw bad (
              visit_first bs (check_range f f 0 (suc p) m1)
                (check_range-IsMarked f f n n 0 (suc p) m1 v1) pos r.1 later c2 b2)
      ]

  InRange-of_member : (bs : List ℕ) → ((b : ℕ) → member b bs ≡ true → b < length f) → InRange bs
  InRange-of_member [] h = tt
  InRange-of_member (b ∷ bs) h =
      (h b (rw (==_refl b) refl), InRange-of_member bs (λ c m. h c (ground (arith, m))))

  -- Once all marks are 0 the main loop passes over every frame.
  check_frames_zero :
      (order : HashOrder ℕ) (left i : ℕ) (m : Marks) (skipped : ℕ)
      → i + left ≤ length f
      → AllZero (length f) m
      → check_frames order f f left i (m, skipped) ≡ (m, skipped)
  unfolding check_frames check_frame
  check_frames_zero order zero i m skipped h z = refl
  check_frames_zero order (suc left) i m skipped h z =
      rw (z.czero i (omega arith)) (check_frames_zero order left (i + 1) m skipped (omega arith) z)

member-positions-lt :
    (k i : ℕ) (bf : List ℕ) (b : ℕ)
    → i + length bf < 2 ^ 31
    → member b (positions k i bf) ≡ true
    → b < i + length bf
unfolding positions
member-positions-lt k i [] b small h = absurd (cc)
member-positions-lt k i (f ∷ bf) b small h =
    let same : int_index i ≡ i = int_index-lt i (omega (arith, small)) in
    ground (arith, same, h, member-positions-lt k (i + 1) bf b (omega (arith, small)))

-- A round of the main loop at a completely matching frame.
check_frame_cmf :
    (order : HashOrder ℕ) (cf bf : List ℕ) (i : ℕ) (m : Marks) (skipped : ℕ)
    → ltb (mark_at m.cmark i) good_bits ≡ false
    → ltb 0 (count (get_or cf i 0) bf) ≡ true
    → check_frame order cf bf i (m, skipped) ≡ (
      visit cf bf i
          (order.arrange (positions (get_or cf i 0) 0 bf))
          (record m { cmark = set m.cmark i 0 }),
      skipped,
    )
unfolding check_frame
check_frame_cmf order cf bf i m skipped bad cmf = rw (bad, cmf) refl

-- Compared with itself a video of at least one frame gets the mark 0 for every frame, on both
-- sides.
pub final_marks_self :
    (order : HashOrder ℕ) (x : ℕ) (xs : List ℕ)
    → length (x ∷ xs) < 2 ^ 31
    → AllZero (length (x ∷ xs)) (final_marks order (x ∷ xs) (x ∷ xs))
unfolding final_marks check_frames
final_marks_self order x xs short =
    let f : List ℕ = x ∷ xs in
    let n = length f in
    let blank : Marks = record { cmark = replicate n no_match; bmark = replicate n no_match } in
    let bs = order.arrange (positions x 0 f) in
    let here : member 0 bs ≡ true =
      any_of-arrange order (λ x. x == 0) (positions x 0 f) ∙ (unfold positions in ground arith) in
    let inside = InRange-of_member f short bs (λ b m. omega (
      arith,
      member-positions-lt x 0 f b (omega (arith, short))
          (sym (any_of-arrange order (λ x. x == b) (positions x 0 f)) ∙ m),
    )) in
    let z =
      visit_first f short bs (record { cmark = set blank.cmark 0 0; bmark = blank.bmark })
        (set_match-IsMarked f f n n 0 blank (blank-IsMarked n n)) (omega arith) inside here refl
        refl in
    subst (λ s. AllZero n (check_frames order f f (length xs) 1 s).0)
      (sym (check_frame_cmf order f f 0 blank 0 refl (ground arith)))
      (rw (check_frames_zero f short order (length xs) 1 _ 0 (omega arith) z) z)
