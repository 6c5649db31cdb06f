-- ===== src/Picture/Edges.antt =====
-- Where the loops of `crop_border` stop, and the numbers that they find.
use video_match.Base.{
  ℕ, zero, suc, ◌+◌, ◌-◌, ◌/◌, ◌≤◌, ◌<◌, ◌≡◌, refl, Bool, true, false, Bool-cases, ◌⊎◌, inl, inr,
  ◌==◌, if◌then◌else◌, arith,
}
use native.Mathlib.Decide.{dec_lt}
use video_match.Picture.Floats.{Float}
use video_match.Picture.Library.{Images}
use video_match.Picture.{Box, border, borders, mean, deviation, is_edge}

-- `i` is the first line below `rounds` that passes the test, or else the last line.
pub record StopsAt (test : ℕ → Bool) (rounds i : ℕ) : Type 0 where
  pub below : i < rounds
  pub passed : (j : ℕ) → j < i → test j ≡ false
  pub stopped : (test i ≡ true) ⊎ (suc i ≡ rounds)

module _ (F : Float) where
  open F use {Num, of_nat}

  -- The line `y` is an edge, in a loop whose line 0 has the average `first`.
  unfoldable pub edge_at : ℕ → ℕ → (ℕ → ℕ → Num) → ℕ → Bool
  unfolding mean deviation is_edge
  edge_at n count line y =
      let avg = mean F n count (line y) in
      is_edge F y (deviation F n count (line y) avg) avg (mean F n count (line 0))

  -- The average that the loop compares with is that of line 0, and at line 0 none is compared.
  Compared : ℕ → ℕ → (ℕ → ℕ → Num) → ℕ → Num → Type 0
  Compared n count line y last_avg = (y ≡ 0) ⊎ (last_avg ≡ mean F n count (line 0))

  is_edge-edge_at :
      (n count : ℕ) (line : ℕ → ℕ → Num) (y : ℕ) (last_avg : Num)
      → Compared n count line y last_avg
      → let avg = mean F n count (line y) in
        is_edge F y (deviation F n count (line y) avg) avg last_avg ≡ edge_at n count line y
  unfolding edge_at Compared
  is_edge-edge_at n count line y last_avg (inl first) = rw first refl
  is_edge-edge_at n count line y last_avg (inr same) = rw same refl

  Compared-next :
      (n count : ℕ) (line : ℕ → ℕ → Num) (y : ℕ) (last_avg : Num)
      → Compared n count line y last_avg
      → Compared n count line (y + 1) (if y == 0 then mean F n count (line y) else last_avg)
  unfolding Compared
  Compared-next n count line zero last_avg c = inr refl
  Compared-next n count line (suc y) last_avg (inl first) = absurd (omega arith)
  Compared-next n count line (suc y) last_avg (inr same) = inr (ground arith)

  border_step :
      (n count : ℕ) (line : ℕ → ℕ → Num) (place : ℕ → ℕ) (rounds y found : ℕ) (last_avg : Num)
      → Compared n count line y last_avg
      → let next_avg = if y == 0 then mean F n count (line y) else last_avg in
        border F n count line place (suc rounds) y found last_avg ≡ (
          if edge_at n count line y
          then (place y, next_avg)
          else border F n count line place rounds (y + 1) (place y) next_avg)
  unfolding border
  border_step n count line place rounds y found last_avg c =
      rw (is_edge-edge_at n count line y last_avg c) refl

  none_before :
      (n count : ℕ) (line : ℕ → ℕ → Num) (y : ℕ)
      → ((j : ℕ) → j < y → edge_at n count line j ≡ false)
      → edge_at n count line y ≡ false
      → (j : ℕ) → j < y + 1
      → edge_at n count line j ≡ false
  none_before n count line y before inner j lt = elim (dec_lt j y) [
    | yes less ↦ before j less
    | no more ↦ let e : j ≡ y = omega arith in rw e inner
  ]

  -- The loop from line `y` on, when no line before it stopped it.
  border_from :
      (n count : ℕ) (line : ℕ → ℕ → Num) (place : ℕ → ℕ) (rounds y found : ℕ) (last_avg : Num)
      → Compared n count line y last_avg
      → ((j : ℕ) → j < y → edge_at n count line j ≡ false)
      → (i : ℕ) × StopsAt (edge_at n count line) (suc rounds + y) i
        × ((border F n count line place (suc rounds) y found last_avg).0 ≡ place i)
  border_from n count line place zero y found last_avg c before =
      let step = border_step n count line place zero y found last_avg c in
      elim (Bool-cases (edge_at n count line y)) [
        | inl edge ↦ (
          y,
          record { below = omega arith; passed = before; stopped = inl edge },
          rw step (rw edge refl),
        )
        | inr inner ↦ (
          y,
          record { below = omega arith; passed = before; stopped = inr (omega arith) },
          rw step (rw inner (unfold border in refl)),
        )
      ]
  border_from n count line place (suc rounds) y found last_avg c before =
      let step = border_step n count line place (suc rounds) y found last_avg c in
      elim (Bool-cases (edge_at n count line y)) [
        | inl edge ↦ (
          y,
          record { below = omega arith; passed = before; stopped = inl edge },
          rw step (rw edge refl),
        )
        | inr inner ↦
            let rest =
              border_from n count line place rounds (y + 1) (place y)
                (if y == 0 then mean F n count (line y) else last_avg)
                (Compared-next n count line y last_avg c)
                (none_before n count line y before inner) in
            let same : suc rounds + (y + 1) ≡ suc (suc rounds) + y = omega arith in
            (rest.0, rw same at rest.1, rw step (rw inner rest.2))
      ]

  -- A loop of `crop_border` over at least one line finds the place of the line at which it stops.
  pub border_place :
      (n count : ℕ) (line : ℕ → ℕ → Num) (place : ℕ → ℕ) (rounds : ℕ) (last_avg : Num)
      → 0 < rounds
      → (i : ℕ) × StopsAt (edge_at n count line) rounds i
        × ((border F n count line place rounds 0 0 last_avg).0 ≡ place i)
  unfolding Compared
  border_place n count line place zero last_avg h = elim h [ ]
  border_place n count line place (suc rounds) last_avg h =
      let found =
        border_from n count line place rounds 0 0 last_avg (inl refl) (λ j lt. elim lt [ ]) in
      let same : suc rounds + 0 ≡ suc rounds = omega arith in (found.0, rw same at found.1, found.2)

  place_near :
      (n count : ℕ) (line : ℕ → ℕ → Num) (rounds : ℕ) (last_avg : Num)
      → 0 < rounds
      → StopsAt (edge_at n count line) rounds (border F n count line (λ y. y) rounds 0 0 last_avg).0
  place_near n count line rounds last_avg h =
      let found = border_place n count line (λ y. y) rounds last_avg h in rw found.2 found.1

  place_far :
      (n count : ℕ) (line : ℕ → ℕ → Num) (size : ℕ) (last_avg : Num)
      → 1 < size
      → let r = (border F n count line (λ y. size - y) (size / 2) 0 0 last_avg).0 in
        StopsAt (edge_at n count line) (size / 2) (size - r) × (r ≤ size)
  place_far n count line size last_avg h =
      let found = border_place n count line (λ y. size - y) (size / 2) last_avg (omega arith) in
      let back : size - (size - found.0) ≡ found.0 = omega (arith, found.1.below) in
      (rw found.2 (rw back found.1), rw found.2 (omega arith))

  module _ (I : Images F) where
    open I use {Image, width, height, pixel}

    -- The lines of the picture that the four loops pass over, from each side.
    abbrev pub from_top : Image → ℕ → Bool
    from_top img = edge_at (width img) (width img) (λ y x. pixel img x y)

    abbrev pub from_bottom : Image → ℕ → Bool
    from_bottom img = edge_at (width img) (width img) (λ y x. pixel img x (height img - 1 - y))

    abbrev pub from_left : Image → ℕ → Bool
    from_left img = edge_at (height img) (width img) (λ x y. pixel img x y)

    abbrev pub from_right : Image → ℕ → Bool
    from_right img = edge_at (height img) (width img) (λ x y. pixel img (width img - 1 - x) y)

    -- Each side of the box stands where the lines from that side stop being border.
    pub record Surrounds (img : Image) (b : Box) : Type 0 where
      pub top : StopsAt (from_top img) (height img / 2) b.y1
      pub bottom : StopsAt (from_bottom img) (height img / 2) (height img - b.y2)
      pub left : StopsAt (from_left img) (width img / 2) b.x1
      pub right : StopsAt (from_right img) (width img / 2) (width img - b.x2)
      pub x_le : b.x2 ≤ width img
      pub y_le : b.y2 ≤ height img

    pub borders-Surrounds :
        (img : Image) → 1 < width img → 1 < height img → Surrounds img (borders F I img)
    unfolding borders
    borders-Surrounds img wide high =
        let w = width img in
        let h = height img in
        let t = border F w w (λ y x. pixel img x y) (λ y. y) (h / 2) 0 0 (of_nat 0) in
        let b = border F w w (λ y x. pixel img x (h - 1 - y)) (λ y. h - y) (h / 2) 0 0 t.1 in
        let l = border F h w (λ x y. pixel img x y) (λ x. x) (w / 2) 0 0 b.1 in
        let far_y = place_far w w (λ y x. pixel img x (h - 1 - y)) h t.1 high in
        let far_x = place_far h w (λ x y. pixel img (w - 1 - x) y) w l.1 wide in
        record {
          top = place_near w w (λ y x. pixel img x y) (h / 2) (of_nat 0) (omega arith);
          bottom = far_y.0;
          left = place_near h w (λ x y. pixel img x y) (w / 2) b.1 (omega arith);
          right = far_x.0;
          x_le = far_x.1;
          y_le = far_y.1;
        }
