-- ===== src/Picture/Library.antt =====
-- What client/ImageProcessor.cpp uses of the image library CImg, and the documented laws of it that
-- the theorems take. `Image` is CImg<float> with one slice and one channel or empty, `Source` is
-- CImg<uint8_t> with one slice, as a picture has.
use video_match.Base.{
  ℕ, zero, suc, ◌+◌, ◌-◌, ◌*◌, ◌≤◌, ◌<◌, ◌≡◌, Bool, ◌&&◌, ◌==◌, Option, ℤ, pos, negsuc, Name,
  if◌then◌else◌,
}
use video_match.Picture.Floats.{Float}

-- How many of the `n` numbers from `i` on pass the test.
unfoldable pub count_from : (ℕ → Bool) → ℕ → ℕ → ℕ
count_from test zero i = 0
count_from test (suc n) i = (if test i then 1 else 0) + count_from test n (i + 1)

pub record Images (F : Float) : Type 1 where
  pub Image : Type 0
  -- The image of the constructor with no arguments, and of that with sizes and a value.
  pub empty : Image
  pub filled : ℕ → ℕ → F.Num → Image
  pub width : Image → ℕ
  pub height : Image → ℕ
  pub depth : Image → ℕ
  -- The value at `data(x, y)`, and a write there.
  pub pixel : Image → ℕ → ℕ → F.Num
  pub put : Image → ℕ → ℕ → F.Num → Image
  -- crop(x1, y1, 0, x2, y2, 0) and crop(x1, y1, x2, y2), with both corners inside.
  pub crop_slice : Image → ℕ → ℕ → ℕ → ℕ → Image
  pub crop : Image → ℕ → ℕ → ℕ → ℕ → Image
  pub mirror_x : Image → Image
  pub get_convolve : Image → Image → Image
  pub resize : Image → ℕ → ℕ → Image
  pub get_transpose : Image → Image
  pub product : Image → Image → Image
  pub unroll_x : Image → Image
  pub median : Image → F.Num
  pub value : Image → ℕ → F.Num
  pub Source : Type 0
  -- `none` is a CImgIOException.
  pub load : Name → Option Source
  pub spectrum : Source → ℕ
  pub rgb_to_ycbcr : Source → Source
  pub channel : Source → ℕ → Source
  -- crop(x1, y1, z1, c1, x2, y2, z2, c2).
  pub crop_source : Source → ℤ → ℤ → ℤ → ℤ → ℤ → ℤ → ℤ → ℤ → Source
  pub to_float : Source → Image

-- Pixels and sizes.
pub record ImageLaws (F : Float) (I : Images F) : Type 0 where
  pub width-empty : I.width I.empty ≡ 0
  pub height-empty : I.height I.empty ≡ 0
  pub pixel-filled :
      (w h : ℕ) (v : F.Num) (x y : ℕ) → x < w → y < h → I.pixel (I.filled w h v) x y ≡ v
  pub width-filled : (w h : ℕ) (v : F.Num) → I.width (I.filled w h v) ≡ w
  pub height-filled : (w h : ℕ) (v : F.Num) → I.height (I.filled w h v) ≡ h
  pub width-put : (m : I.Image) (x y : ℕ) (v : F.Num) → I.width (I.put m x y v) ≡ I.width m
  pub height-put : (m : I.Image) (x y : ℕ) (v : F.Num) → I.height (I.put m x y v) ≡ I.height m
  pub pixel-put :
      (m : I.Image) (x y : ℕ) (v : F.Num) (a b : ℕ)
      → x < I.width m
      → y < I.height m
      → I.pixel (I.put m x y v) a b ≡ (if x == a && y == b then v else I.pixel m a b)
  pub width-mirror_x : (m : I.Image) → I.width (I.mirror_x m) ≡ I.width m
  pub height-mirror_x : (m : I.Image) → I.height (I.mirror_x m) ≡ I.height m
  pub pixel-mirror_x :
      (m : I.Image) (x y : ℕ)
      → x < I.width m
      → y < I.height m
      → I.pixel (I.mirror_x m) x y ≡ I.pixel m (I.width m - 1 - x) y
  pub mirror_x-mirror_x : (m : I.Image) → I.mirror_x (I.mirror_x m) ≡ m
  -- A crop between the columns 0 and -1 and the rows 0 and -1 has both of each.
  pub size-crop_source :
      (s : I.Source) (z1 c1 z2 c2 : ℤ)
      → let img = I.to_float (
          I.channel
            (I.rgb_to_ycbcr (I.crop_source s (pos 0) (pos 0) z1 c1 (negsuc 0) (negsuc 0) z2 c2))
            0) in
        (I.width img ≡ 2) × (I.height img ≡ 2)

-- The sizes of the images that the frequencies are computed with, and that at most half of the
-- values of an image of 64 by 1 are above their median.
pub record MedianLaw (F : Float) (I : Images F) : Type 0 where
  pub height-get_transpose : (m : I.Image) → I.height (I.get_transpose m) ≡ I.width m
  pub width-get_transpose : (m : I.Image) → I.width (I.get_transpose m) ≡ I.height m
  pub size-resize :
      (m : I.Image) (w h : ℕ) → (I.width (I.resize m w h) ≡ w) × (I.height (I.resize m w h) ≡ h)
  pub size-product :
      (a b : I.Image)
      → I.width a ≡ I.height b
      → (I.width (I.product a b) ≡ I.width b) × (I.height (I.product a b) ≡ I.height a)
  pub size-crop :
      (m : I.Image) (x1 y1 x2 y2 : ℕ)
      → x1 ≤ x2
      → y1 ≤ y2
      → x2 < I.width m
      → y2 < I.height m
      → (I.width (I.crop m x1 y1 x2 y2) ≡ x2 + 1 - x1)
        × (I.height (I.crop m x1 y1 x2 y2) ≡ y2 + 1 - y1)
  pub width-unroll_x : (m : I.Image) → I.width (I.unroll_x m) ≡ I.width m * I.height m
  pub height-unroll_x : (m : I.Image) → I.height (I.unroll_x m) ≡ 1
  pub few_above :
      (s : I.Image)
      → I.width s ≡ 64
      → I.height s ≡ 1
      → count_from (λ i. F.less (I.median s) (I.value s i)) 64 0 ≤ 32
