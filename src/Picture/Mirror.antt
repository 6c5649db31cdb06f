-- ===== src/Picture/Mirror.antt =====
-- `mirror` gives a picture and its mirror image the same result.
use video_match.Base.{
  ℕ, zero, suc, ◌+◌, ◌-◌, ◌/◌, ◌≤◌, ◌<◌, ◌≡◌, refl, ◌⊎◌, inl, inr, true, false, arith, ap, ◌∙◌,
}
use video_match.Picture.Floats.{Float, FloatLaws}
use video_match.Picture.Library.{Images, ImageLaws}
use video_match.Picture.{add_column, half_sums, mirror}

module _ (F : Float) (I : Images F) where
  open F use {Num, of_nat}
  open I use {Image, width}

  -- The brightness of the left and of the right half, as `mirror` adds it up.
  abbrev pub halves : Image → Num × Num
  halves img = half_sums F I (width img / 2) img 0 (of_nat 0) (of_nat 0)

module _ (F : Float) (I : Images F) (A : ImageLaws F I) where
  open F use {Num, of_nat, less}
  open I use {Image, width, height, pixel, mirror_x}

  -- Two columns with the same pixels.
  add_column-same :
      (m n : Image) (a b k y : ℕ) (sum : Num)
      → ((j : ℕ) → j < y + k → pixel m a j ≡ pixel n b j)
      → add_column F I k m a y sum ≡ add_column F I k n b y sum
  unfolding add_column
  add_column-same m n a b zero y sum same = refl
  add_column-same m n a b (suc k) y sum same =
      rw (same y (omega arith))
        (add_column-same m n a b k (y + 1) (F.add sum (pixel n b y)) (λ j lt. same j (omega arith)))

  column-mirror_x :
      (img : Image) (x : ℕ) (sum : Num)
      → x < width img
      → add_column F I (height img) (mirror_x img) x 0 sum
        ≡ add_column F I (height img) img (width img - 1 - x) 0 sum
  column-mirror_x img x sum inside =
      add_column-same (mirror_x img) img x (width img - 1 - x) (height img) 0 sum
        (λ j lt. A.pixel-mirror_x img x j inside (omega arith))

  abbrev swapped : Num × Num → Num × Num
  swapped p = (p.1, p.0)

  -- The sums of the two halves change places.
  half_sums-mirror_x :
      (k : ℕ) (img : Image) (x : ℕ) (suma sumb : Num)
      → x + k ≤ width img
      → half_sums F I k (mirror_x img) x suma sumb ≡ swapped (half_sums F I k img x sumb suma)
  unfolding half_sums
  half_sums-mirror_x zero img x suma sumb inside = refl
  half_sums-mirror_x (suc k) img x suma sumb inside =
      let near = column-mirror_x img x suma (omega arith) in
      let back : width img - 1 - (width img - 1 - x) ≡ x = omega arith in
      let far =
        column-mirror_x img (width img - 1 - x) sumb (omega arith)
        ∙ ap (λ i. add_column F I (height img) img i 0 sumb) back in
      rw (A.height-mirror_x img) (
        rw (A.width-mirror_x img)
          (rw near (rw far (half_sums-mirror_x k img (x + 1) _ _ (omega arith)))))

  halves-mirror_x : (img : Image) → halves F I (mirror_x img) ≡ swapped (halves F I img)
  halves-mirror_x img =
      rw (A.width-mirror_x img)
        (half_sums-mirror_x (width img / 2) img 0 (of_nat 0) (of_nat 0) (omega arith))

  -- Where one half of a picture adds up to more than the other, `mirror` gives the same picture for it
  -- and for its mirror image, and in the result the right half is not brighter than the left.
  pub mirror-mirror_x :
      (L : FloatLaws F) (img : Image)
      → (less (halves F I img).0 (halves F I img).1 ≡ true)
        ⊎ (less (halves F I img).1 (halves F I img).0 ≡ true)
      → (mirror F I (mirror_x img) ≡ mirror F I img)
        × (less (halves F I (mirror F I img)).0 (halves F I (mirror F I img)).1 ≡ false)
  unfolding mirror
  mirror-mirror_x L img (inl darker) =
      let h = halves-mirror_x img in
      let back = L.less_asymm _ _ darker in rw darker (rw h (rw back (refl, refl)))
  mirror-mirror_x L img (inr brighter) =
      let h = halves-mirror_x img in
      let back = L.less_asymm _ _ brighter in
      rw back (rw h (rw brighter (A.mirror_x-mirror_x img, back)))
