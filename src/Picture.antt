-- ===== src/Picture.antt =====
-- client/ImageProcessor.cpp: the hash of a picture. `crop_border` looks for the edge of the picture
-- from its four sides by one loop, `border`, in place of the four that the source writes out.
pub mod Floats
pub mod Library
pub mod Edges
pub mod Crop
pub mod Mirror
pub mod Dct
pub mod Bits
pub mod Hash
use Prim.Native.Nat.{bit_or}
use video_match.Base.{
  ℕ, zero, suc, ◌+◌, ◌-◌, ◌*◌, ◌/◌, ◌%◌, ◌^◌, Bool, ◌&&◌, ◌||◌, not, ◌==◌, ltb, Option, none, some,
  pos, sub_ℕ, Name, if◌then◌else◌,
}
use video_match.Picture.Floats.{Float}
use video_match.Picture.Library.{Images}

-- The four numbers that `crop_border` finds.
pub record Box : Type 0 where
  pub x1 : ℕ
  pub y1 : ℕ
  pub x2 : ℕ
  pub y2 : ℕ

module _ (F : Float) where
  open F use {
    Num, of_nat, add, sub, div, neg, less, widen, narrow, wide_of, tenth, pi, wide_add, wide_sub,
    wide_mul, wide_div, pow, sqrt, cos, truncated,
  }

  -- The loops over a line of the picture, of which `p` gives the values.
  pub add_values : ℕ → (ℕ → Num) → ℕ → Num → Num
  add_values zero p i sum = sum
  add_values (suc n) p i sum = add_values n p (i + 1) (add sum (p i))

  pub add_squares : ℕ → Num → (ℕ → Num) → ℕ → Num → Num
  add_squares zero avg p i sum = sum
  add_squares (suc n) avg p i sum =
      add_squares n avg p (i + 1) (narrow (wide_add (widen sum) (pow (widen (sub avg (p i))) 2)))

  -- `n` values are added up, and the sum is divided by `count`.
  unfoldable pub mean : ℕ → ℕ → (ℕ → Num) → Num
  unfolding add_values
  mean n count p = div (add_values n p 0 (of_nat 0)) (of_nat count)

  unfoldable pub deviation : ℕ → ℕ → (ℕ → Num) → Num → Num
  unfolding add_squares
  deviation n count p avg =
      narrow (sqrt (widen (div (add_squares n avg p 0 (of_nat 0)) (of_nat count))))

  abbrev pub distance : Num → Num → Num
  distance avg last_avg =
      let diff = sub avg last_avg in if less diff (of_nat 0) then neg diff else diff

  -- The line stops the loop.
  unfoldable pub is_edge : ℕ → Num → Num → Num → Bool
  is_edge y sd avg last_avg =
      less (of_nat 10) sd || (not (y == 0) && less (of_nat 255) (distance avg last_avg))

  -- One of the four loops over the lines from a side of the picture: `place y` is the number that
  -- it has found at the line `y`. With it the loop leaves `last_avg`.
  pub border : ℕ → ℕ → (ℕ → ℕ → Num) → (ℕ → ℕ) → ℕ → ℕ → ℕ → Num → ℕ × Num
  unfolding mean deviation is_edge
  border n count line place zero y found last_avg = (found, last_avg)
  border n count line place (suc rounds) y found last_avg =
      let avg = mean n count (line y) in
      let sd = deviation n count (line y) avg in
      let next_avg = if y == 0 then avg else last_avg in
      let rest = border n count line place rounds (y + 1) (place y) next_avg in
      if is_edge y sd avg last_avg then (place y, next_avg) else rest

  -- The coordinates after `+= n * 0.1` and `-= n * 0.1`.
  abbrev pub margin_up : ℕ → ℕ → ℕ
  margin_up x n = truncated (wide_add (wide_of x) (wide_mul (wide_of n) tenth))

  abbrev pub margin_down : ℕ → ℕ → ℕ
  margin_down x n = truncated (wide_sub (wide_of x) (wide_mul (wide_of n) tenth))

  -- The entries of the matrix of `ph_dct_matrix`: those of row 0, and the others.
  abbrev pub dct_first : ℕ → Num
  dct_first n = narrow (wide_div (wide_of 1) (sqrt (widen (of_nat n))))

  abbrev pub dct_entry : ℕ → ℕ → ℕ → Num
  dct_entry n x y =
      let c1 = narrow (sqrt (wide_div (wide_of 2) (wide_of n))) in
      let angle =
        wide_mul (wide_mul (wide_div (wide_div pi (wide_of 2)) (wide_of n)) (wide_of y))
          (wide_of (2 * x + 1)) in
      narrow (wide_mul (widen c1) (cos angle))

  module _ (I : Images F) where
    open I use {
      Image, empty, filled, width, height, depth, pixel, put, crop_slice, crop, mirror_x,
      get_convolve, resize, get_transpose, product, unroll_x, median, value, Source, load, spectrum,
      rgb_to_ycbcr, channel, crop_source, to_float,
    }

    pub put_column : ℕ → ℕ → ℕ → ℕ → Image → Image
    put_column n x zero y m = m
    put_column n x (suc rounds) y m = put_column n x rounds (y + 1) (put m x y (dct_entry n x y))

    pub put_columns : ℕ → ℕ → ℕ → Image → Image
    put_columns n zero x m = m
    put_columns n (suc rounds) x m = put_columns n rounds (x + 1) (put_column n x (n - 1) 1 m)

    unfoldable pub ph_dct_matrix : ℕ → Image
    unfolding put_column put_columns
    ph_dct_matrix n = put_columns n n 0 (filled n n (dct_first n))

    unfoldable pub borders : Image → Box
    unfolding border
    borders img =
        let w = width img in
        let h = height img in
        let top = border w w (λ y x. pixel img x y) (λ y. y) (h / 2) 0 0 (of_nat 0) in
        let bottom = border w w (λ y x. pixel img x (h - 1 - y)) (λ y. h - y) (h / 2) 0 0 top.1 in
        let left = border h w (λ x y. pixel img x y) (λ x. x) (w / 2) 0 0 bottom.1 in
        let right = border h w (λ x y. pixel img (w - 1 - x) y) (λ x. w - x) (w / 2) 0 0 left.1 in
        record { x1 = left.0; y1 = top.0; x2 = right.0; y2 = bottom.0 }

    -- `none` is the result -1.
    unfoldable pub crop_border : Image → Option Image
    unfolding borders
    crop_border img =
        let b = borders img in
        let nw = b.x2 - b.x1 in
        let nh = b.y2 - b.y1 in
        if ltb nh 32 || ltb nw 32
        then none
        else some (
            crop_slice img (margin_up b.x1 nw) (margin_up b.y1 nh) (margin_down b.x2 nw)
              (margin_down b.y2 nh))

    -- The sums of the left and the right half.
    unfoldable pub add_column : ℕ → Image → ℕ → ℕ → Num → Num
    add_column zero img x y sum = sum
    add_column (suc n) img x y sum = add_column n img x (y + 1) (add sum (pixel img x y))

    unfoldable pub half_sums : ℕ → Image → ℕ → Num → Num → Num × Num
    unfolding add_column
    half_sums zero img x suma sumb = (suma, sumb)
    half_sums (suc n) img x suma sumb =
        half_sums n img (x + 1) (add_column (height img) img x 0 suma)
          (add_column (height img) img (width img - 1 - x) 0 sumb)

    unfoldable pub mirror : Image → Image
    unfolding half_sums
    mirror img =
        let (suma, sumb) = half_sums (width img / 2) img 0 (of_nat 0) (of_nat 0) in
        if less suma sumb then mirror_x img else img

    -- The frequencies that the hash is made of.
    unfoldable pub frequencies : Image → Image
    unfolding ph_dct_matrix
    frequencies c0 =
        let c = ph_dct_matrix 32 in
        let img = resize (get_convolve c0 (filled 7 7 (of_nat 1))) 32 32 in
        unroll_x (crop (product (product c img) (get_transpose c)) 1 1 8 8)

    -- The loop over the 64 bits; `one` wraps around at the end.
    pub set_bits : ℕ → ℕ → Image → Num → ℕ → ℕ → ℕ
    set_bits zero i subsec limit one result = result
    set_bits (suc n) i subsec limit one result =
        set_bits n (i + 1) subsec limit (one * 2 % 2 ^ 64)
          (if less limit (value subsec i) then bit_or result one else result)

    -- The brightness: `img` is still the empty image where the source reads its sizes.
    unfoldable pub brightness : Source → Image
    brightness src =
        if spectrum src == 3
        then to_float (channel (rgb_to_ycbcr src) 0)
        else if spectrum src == 4
        then to_float (
            channel
              (rgb_to_ycbcr (
                crop_source src (pos 0) (pos 0) (pos 0) (pos 0) (sub_ℕ (width empty) 1)
                  (sub_ℕ (height empty) 1) (sub_ℕ (depth empty) 1) (pos 2)))
              0)
        else to_float (channel src 0)

    -- `GetHashCode` after the picture is loaded.
    unfoldable pub hash_picture : Source → ℕ
    unfolding brightness crop_border mirror frequencies set_bits
    hash_picture src = elim (crop_border (brightness src)) [
      | none ↦ 0
      | some c0 ↦ let subsec = frequencies (mirror c0) in set_bits 64 0 subsec (median subsec) 1 0
    ]

    -- `none` is the result -1; `none` for the name is the null pointer.
    unfoldable pub get_hash_code : Option Name → Option ℕ
    unfolding hash_picture
    get_hash_code none = none
    get_hash_code (some filename) = elim (load filename) [
      | none ↦ none
      | some src ↦ some (hash_picture src)
    ]
