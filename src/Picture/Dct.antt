-- ===== src/Picture/Dct.antt =====
-- The matrix that `ph_dct_matrix` fills in.
use video_match.Base.{
  ℕ, zero, suc, ◌+◌, ◌-◌, ◌<◌, ◌≡◌, ◌&&◌, ◌==◌, ltb, if◌then◌else◌, arith, ◌∙◌, ◌≢◌, ◌*◌, refl,
}
use video_match.Picture.Floats.{Float}
use video_match.Picture.Library.{Images, ImageLaws}
use video_match.Picture.{put_column, put_columns, ph_dct_matrix, dct_first, dct_entry}

module _ (F : Float) where
  open F use {Num, of_nat, widen, narrow, wide_of, wide_mul, wide_div, pi, sqrt, cos}

  -- What the source fills in, row 0 apart.
  abbrev dct : ℕ → ℕ → ℕ → Num
  dct n x y = if y == 0 then dct_first F n else dct_entry F n x y

  -- The cosine transform: 1 / sqrt(N) in row 0, sqrt(2 / N) * cos(PI / 2 / N * y * (2 * x + 1)) in
  -- row `y`, with the roundings to `float`.
  abbrev pub cosine : ℕ → ℕ → ℕ → Num
  cosine n x y =
      if y == 0
      then narrow (wide_div (wide_of 1) (sqrt (widen (of_nat n))))
      else narrow (
          wide_mul (widen (narrow (sqrt (wide_div (wide_of 2) (wide_of n))))) (
            cos (
              wide_mul (wide_mul (wide_div (wide_div pi (wide_of 2)) (wide_of n)) (wide_of y))
                (wide_of (2 * x + 1)))))

  dct-cosine : (n x y : ℕ) → dct n x y ≡ cosine n x y
  dct-cosine n x y = refl

module _ (F : Float) (I : Images F) (A : ImageLaws F I) where
  open F use {Num}
  open I use {Image, width, height, pixel, put, filled}

  -- An `n` by `n` image with these pixels in the columns before `x` and in column `x` before `y`.
  record Begun (n x y : ℕ) (m : Image) : Type 0 where
    wide : width m ≡ n
    high : height m ≡ n
    filled_in :
        (a b : ℕ)
        → a < n
        → b < n
        → pixel m a b ≡ (
            if ltb a x
            then dct F n a b
            else if a == x && ltb b y
            then dct F n a b
            else dct_first F n)

  begun_pixel :
      (n x y a b : ℕ) (before : Num)
      → y ≢ 0
      → before ≡ (
          if ltb a x then dct F n a b else if a == x && ltb b y then dct F n a b else dct_first F n)
      → (if x == a && y == b then dct_entry F n x y else before) ≡ (
          if ltb a x
          then dct F n a b
          else if a == x && ltb b (y + 1)
          then dct F n a b
          else dct_first F n)
  begun_pixel n x y a b before row e = ground arith

  Begun-put :
      (n x y : ℕ) (m : Image)
      → x < n
      → y < n
      → y ≢ 0
      → Begun n x y m
      → Begun n x (y + 1) (put m x y (dct_entry F n x y))
  Begun-put n x y m x_in y_in row g = record {
    wide = A.width-put m x y _ ∙ g.wide;
    high = A.height-put m x y _ ∙ g.high;
    filled_in = λ a b ha hb.
        A.pixel-put m x y (dct_entry F n x y) a b (rw g.wide x_in) (rw g.high y_in)
        ∙ begun_pixel n x y a b (pixel m a b) row (g.filled_in a b ha hb);
  }

  Begun-put_column :
      (n x k y : ℕ) (m : Image)
      → x < n
      → y ≢ 0
      → y + k ≡ n
      → Begun n x y m
      → Begun n x n (put_column F I n x k y m)
  unfolding put_column
  Begun-put_column n x zero y m x_in row sized g = let e : y ≡ n = omega arith in rw e at g
  Begun-put_column n x (suc k) y m x_in row sized g =
      Begun-put_column n x k (y + 1) (put m x y (dct_entry F n x y)) x_in (omega arith)
        (omega arith) (Begun-put n x y m x_in (omega arith) row g)

  Begun-next : (n x : ℕ) (m : Image) → Begun n x n m → Begun n (x + 1) 1 m
  Begun-next n x m g = record {
    wide = g.wide;
    high = g.high;
    filled_in = λ a b ha hb. ground (arith, g.filled_in a b ha hb);
  }

  Begun-put_columns :
      (n k x : ℕ) (m : Image) → x + k ≡ n → Begun n x 1 m → Begun n n 1 (put_columns F I n k x m)
  unfolding put_columns
  Begun-put_columns n zero x m sized g = let e : x ≡ n = omega arith in rw e at g
  Begun-put_columns n (suc k) x m sized g =
      Begun-put_columns n k (x + 1) (put_column F I n x (n - 1) 1 m) (omega arith) (
        Begun-next n x _
          (Begun-put_column n x (n - 1) 1 m (omega arith) (omega arith) (omega arith) g))

  Begun-filled : (n : ℕ) → Begun n 0 1 (filled n n (dct_first F n))
  Begun-filled n = record {
    wide = A.width-filled n n _;
    high = A.height-filled n n _;
    filled_in = λ a b ha hb. A.pixel-filled n n (dct_first F n) a b ha hb ∙ ground arith;
  }

  begun_all :
      (n a b : ℕ) (p : Num)
      → p ≡ (
          if ltb a n then dct F n a b else if a == n && ltb b 1 then dct F n a b else dct_first F n)
      → a < n
      → p ≡ dct F n a b
  begun_all n a b p e inside = ground (arith, e)

  -- `ph_dct_matrix` makes an image of the given width and height in which every pixel is the entry of
  -- the cosine transform at its place: 1 / sqrt(N) in row 0, sqrt(2 / N) * cos(PI / 2 / N * y * (2 * x
  -- + 1)) in the other rows, each with the roundings of the source.
  pub ph_dct_matrix_lem :
      (n : ℕ)
      → (width (ph_dct_matrix F I n) ≡ n)
        × (height (ph_dct_matrix F I n) ≡ n)
        × ((x y : ℕ) → x < n → y < n → pixel (ph_dct_matrix F I n) x y ≡ cosine F n x y)
  unfolding ph_dct_matrix
  ph_dct_matrix_lem n =
      let g = Begun-put_columns n n 0 _ (omega arith) (Begun-filled n) in
      let made = λ (x y : ℕ). begun_all n x y _ in
      (g.wide, g.high, λ x y hx hy. made x y (g.filled_in x y hx hy) hx ∙ dct-cosine F n x y)
