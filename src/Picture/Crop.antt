-- ===== src/Picture/Crop.antt =====
-- The crop of `crop_border`: what it keeps of a picture.
use video_match.Base.{
  ℕ, ◌+◌, ◌-◌, ◌/◌, ◌^◌, ◌≤◌, ◌<◌, ◌≡◌, refl, ◌⊎◌, inl, inr, Bool-cases, ltb, Option, none, some,
  arith,
}
use native.Mathlib.Decide.{dec_lt}
use video_match.Picture.Edges.{Surrounds, borders-Surrounds}
use video_match.Picture.Floats.{Float, FloatLaws}
use video_match.Picture.Library.{Images}
use video_match.Picture.{Box, border, borders, crop_border, margin_up, margin_down}

module _ (F : Float) where
  border_none :
      (n count : ℕ) (line : ℕ → ℕ → F.Num) (place : ℕ → ℕ) (rounds : ℕ) (last_avg : F.Num)
      → rounds ≡ 0
      → (border F n count line place rounds 0 0 last_avg).0 ≡ 0
  unfolding border
  border_none n count line place rounds last_avg e = rw e refl

  module _ (I : Images F) where
    open I use {Image, width, height, pixel, crop_slice}

    -- A tenth of the box is cut off at each side: the corners that the crop is given.
    pub record Inner (b : Box) (x y x' y' : ℕ) : Type 0 where
      pub wide : b.x1 + 32 ≤ b.x2
      pub high : b.y1 + 32 ≤ b.y2
      pub left : x ≡ b.x1 + (b.x2 - b.x1) / 10
      pub top : y ≡ b.y1 + (b.y2 - b.y1) / 10
      pub right_low : b.x2 ≤ x' + (b.x2 - b.x1) / 10 + 1
      pub right_high : x' + (b.x2 - b.x1) / 10 ≤ b.x2
      pub bottom_low : b.y2 ≤ y' + (b.y2 - b.y1) / 10 + 1
      pub bottom_high : y' + (b.y2 - b.y1) / 10 ≤ b.y2

    -- The picture is kept, between corners that lie inside of it.
    pub record Kept (img r : Image) : Type 0 where
      pub x : ℕ
      pub y : ℕ
      pub x' : ℕ
      pub y' : ℕ
      pub cropped : r ≡ crop_slice img x y x' y'
      pub surrounds : Surrounds F I img (borders F I img)
      pub inner : Inner (borders F I img) x y x' y'
      pub across : x < x'
      pub down : y < y'
      pub in_width : x' < width img
      pub in_height : y' < height img

    -- The result of `crop_border`, -1 included.
    unfoldable pub Crops : Image → Option Image → Type 0
    Crops img none = let b = borders F I img in (b.x2 - b.x1 < 32) ⊎ (b.y2 - b.y1 < 32)
    Crops img (some r) = Kept img r

    wide_enough : (img : Image) → 0 < (borders F I img).x2 → 1 < width img
    unfolding borders
    wide_enough img h = elim (dec_lt 1 (width img)) [
      | yes wide ↦ wide
      | no narrow ↦ absurd (
          omega (
            arith,
            h,
            border_none (height img) (width img) (λ x y. pixel img (width img - 1 - x) y)
                (λ x. width img - x) (width img / 2) _ (omega arith),
          ))
    ]

    high_enough : (img : Image) → 0 < (borders F I img).y2 → 1 < height img
    unfolding borders
    high_enough img h = elim (dec_lt 1 (height img)) [
      | yes high ↦ high
      | no low ↦ absurd (
          omega (
            arith,
            h,
            border_none (width img) (width img) (λ y x. pixel img x (height img - 1 - y))
                (λ y. height img - y) (height img / 2) _ (omega arith),
          ))
    ]

    module _ (L : FloatLaws F) where
      margins-Inner :
          (b : Box)
          → b.x1 + 32 ≤ b.x2
          → b.y1 + 32 ≤ b.y2
          → b.x2 < 2 ^ 31
          → b.y2 < 2 ^ 31
          → Inner b
              (margin_up F b.x1 (b.x2 - b.x1))
              (margin_up F b.y1 (b.y2 - b.y1))
              (margin_down F b.x2 (b.x2 - b.x1))
              (margin_down F b.y2 (b.y2 - b.y1))
      margins-Inner b wide high x_small y_small =
          let right = L.sub_tenth b.x2 (b.x2 - b.x1) (omega arith) x_small in
          let bottom = L.sub_tenth b.y2 (b.y2 - b.y1) (omega arith) y_small in
          record {
            wide = wide;
            high = high;
            left = L.add_tenth b.x1 (b.x2 - b.x1) (omega arith) (omega arith);
            top = L.add_tenth b.y1 (b.y2 - b.y1) (omega arith) (omega arith);
            right_low = right.1;
            right_high = right.0;
            bottom_low = bottom.1;
            bottom_high = bottom.0;
          }

      kept_of :
          (img : Image)
          → width img < 2 ^ 31
          → height img < 2 ^ 31
          → 32 ≤ (borders F I img).x2 - (borders F I img).x1
          → 32 ≤ (borders F I img).y2 - (borders F I img).y1
          → let b = borders F I img in
            Kept img (
              crop_slice img
                (margin_up F b.x1 (b.x2 - b.x1))
                (margin_up F b.y1 (b.y2 - b.y1))
                (margin_down F b.x2 (b.x2 - b.x1))
                (margin_down F b.y2 (b.y2 - b.y1)))
      kept_of img w_small h_small wide high =
          let b = borders F I img in
          let s =
            borders-Surrounds F I img (wide_enough img (omega arith))
              (high_enough img (omega arith)) in
          let i =
            margins-Inner b (omega arith) (omega arith) (omega (arith, s.x_le))
              (omega (arith, s.y_le)) in
          record {
            x = margin_up F b.x1 (b.x2 - b.x1);
            y = margin_up F b.y1 (b.y2 - b.y1);
            x' = margin_down F b.x2 (b.x2 - b.x1);
            y' = margin_down F b.y2 (b.y2 - b.y1);
            cropped = refl;
            surrounds = s;
            inner = i;
            across = omega (arith, i.left, i.right_low);
            down = omega (arith, i.top, i.bottom_low);
            in_width = omega (arith, i.right_high, s.x_le);
            in_height = omega (arith, i.bottom_high, s.y_le);
          }

      -- For a picture with sizes below 2 ^ 31, `crop_border` gives -1 only where the box of the four
      -- borders is narrower or lower than 32. Otherwise each side of the box stands at the first line
      -- from that side that passes the edge test, or at the last line before the middle where none
      -- does; a tenth of the box is cut off at each side, and both corners given to the crop lie
      -- inside the picture, the second right of and below the first.
      pub crop_border-Crops :
          (img : Image) → width img < 2 ^ 31 → height img < 2 ^ 31 → Crops img (crop_border F I img)
      unfolding crop_border Crops
      crop_border-Crops img w_small h_small =
          let b = borders F I img in
          let nw = b.x2 - b.x1 in
          let nh = b.y2 - b.y1 in
          elim (Bool-cases (ltb nh 32)) [
            | inl low ↦ rw low (inr (ground (arith, low)))
            | inr high ↦ elim (Bool-cases (ltb nw 32)) [
              | inl thin ↦ rw high (rw thin (inl (ground (arith, thin))))
              | inr wide ↦ rw high (
                  rw wide
                    (kept_of img w_small h_small (ground (arith, wide)) (ground (arith, high))))
            ]
          ]
