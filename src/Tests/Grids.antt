-- ===== src/Tests/Grids.antt =====
-- Stand-ins for `float` and for the image library that have the laws of Picture/Floats.antt and
-- Picture/Library.antt: whole numbers, and grids of them.
use mathlib.Core.Path.{fun_ext}
use mathlib.Core.Path.{subst}
use video_match.Base.{
  leb→le, sym, leb, max, ℕ, zero, suc, ◌+◌, ◌-◌, ◌*◌, ◌/◌, ◌%◌, ◌^◌, ◌≤◌, ◌<◌, ◌≡◌, refl, Bool,
  true, false, ◌&&◌, ◌==◌, ltb, some, if◌then◌else◌, ℤ, pos, negsuc, arith, ap,
}
use video_match.Picture.Floats.{Float, FloatLaws}
use video_match.Picture.Library.{Images, ImageLaws, MedianLaw, count_from}

-- A `double` is its tenfold.
abbrev pub whole : Float
whole = record {
  Num = ℕ;
  Wide = ℕ;
  of_nat = λ n. n;
  add = λ x y. x + y;
  sub = λ x y. (x - y) + (y - x);
  div = λ x y. x / y;
  neg = λ x. x;
  less = ltb;
  widen = λ x. x * 10;
  narrow = λ x. x / 10;
  wide_of = λ n. n * 10;
  tenth = 1;
  pi = 31;
  wide_add = λ x y. x + y;
  wide_sub = λ x y. x - y;
  wide_mul = λ x y. x * y / 10;
  wide_div = λ x y. x * 10 / y;
  pow = λ x n. (x / 10) ^ n * 10;
  sqrt = λ x. x;
  cos = λ x. x;
  truncated = λ x. x / 10;
}

less_asymm_law : (x y : ℕ) → ltb x y ≡ true → ltb y x ≡ false
less_asymm_law x y h = ground arith

add_tenth_law : (x n : ℕ) → (x * 10 + n * 10 * 1 / 10) / 10 ≡ x + n / 10
add_tenth_law x n = omega arith

sub_tenth_law :
    (x n : ℕ)
    → n ≤ x
    → ((x * 10 - n * 10 * 1 / 10) / 10 + n / 10 ≤ x)
      × (x ≤ (x * 10 - n * 10 * 1 / 10) / 10 + n / 10 + 1)
sub_tenth_law x n h = (omega arith, omega arith)

pub whole_laws : FloatLaws whole
whole_laws = record {
  less_asymm = less_asymm_law;
  add_tenth = λ x n hx hn. add_tenth_law x n;
  sub_tenth = λ x n h hx. sub_tenth_law x n h;
}

pub record Grid : Type 0 where
  pub wide : ℕ
  pub high : ℕ
  pub at : ℕ → ℕ → ℕ

-- The column on the other side.
abbrev across : ℕ → ℕ → ℕ
across w x = if ltb x w then w - 1 - x else x

across_across : (w x : ℕ) → across w (across w x) ≡ x
across_across w x = ground arith

across_inside : (w x : ℕ) → x < w → across w x ≡ w - 1 - x
across_inside w x h = ground arith

abbrev pub mirrored : Grid → Grid
mirrored g = record g { at = λ x y. g.at (across g.wide x) y }

mirrored-mirrored : (g : Grid) → mirrored (mirrored g) ≡ g
mirrored-mirrored g =
    ap (λ f. record { wide = g.wide; high = g.high; at = f })
      (fun_ext λ x. ap g.at (across_across g.wide x))

-- The number of columns from one to another, both included.
abbrev span : ℤ → ℤ → ℕ
span (pos a) (pos b) = b - a + 1
span (pos a) (negsuc b) = a + b + 2
span (negsuc a) b = 1

-- A picture with its number of channels.
abbrev Channels : Type 0
Channels = ℕ × Grid

abbrev pub checked : Grid
checked = record { wide = 40; high = 40; at = λ x y. if (x + y) % 2 == 0 then 200 else 0 }

-- The median of 64 values in a row: the least number from 0 to 255 that at most 32 of them are above,
-- and else the greatest of them.
abbrev pub greatest : (ℕ → ℕ) → ℕ → ℕ → ℕ
greatest f zero i = 0
greatest f (suc n) i = max (f i) (greatest f n (i + 1))

unfoldable pub least_above : (ℕ → ℕ) → ℕ → ℕ → ℕ
least_above f zero k = greatest f 64 0
least_above f (suc n) k =
    let next = least_above f n (k + 1) in
    if leb (count_from (λ i. ltb k (f i)) 64 0) 32 then k else next

-- Every file holds the picture with so many channels. The filter and the sizing leave it as it is,
-- and of a product the pixels are those of the picture.
abbrev pub grids : ℕ → Images whole
grids channels = record {
  Image = Grid;
  empty = record { wide = 0; high = 0; at = λ x y. 0 };
  filled = λ w h v. record { wide = w; high = h; at = λ x y. v };
  width = λ g. g.wide;
  height = λ g. g.high;
  depth = λ g. 1;
  pixel = λ g. g.at;
  put = λ g x y v. record g { at = λ a b. if x == a && y == b then v else g.at a b };
  crop_slice = λ g x1 y1 x2 y2. record {
    wide = x2 - x1 + 1;
    high = y2 - y1 + 1;
    at = λ x y. g.at (x + x1) (y + y1);
  };
  crop = λ g x1 y1 x2 y2. record {
    wide = x2 + 1 - x1;
    high = y2 + 1 - y1;
    at = λ x y. g.at (x + x1) (y + y1);
  };
  mirror_x = mirrored;
  get_convolve = λ g filter. g;
  resize = λ g w h. record g { wide = w; high = h };
  get_transpose = λ g. record { wide = g.high; high = g.wide; at = λ x y. 0 };
  product = λ a b. record {
    wide = b.wide;
    high = a.high;
    at = λ x y. if b.at 0 0 == 0 then a.at x y else b.at x y;
  };
  unroll_x =
      λ g. record { wide = g.wide * g.high; high = 1; at = λ x y. g.at (x % g.wide) (x / g.wide) };
  median = λ g. least_above (λ i. g.at i 0) 256 0;
  value = λ g i. g.at i 0;
  Source = Channels;
  load = λ file. some (channels, checked);
  spectrum = λ s. s.0;
  rgb_to_ycbcr = λ s. s;
  channel = λ s c. s;
  crop_source = λ s x1 y1 z1 c1 x2 y2 z2 c2.
      (s.0, record { wide = span x1 x2; high = span y1 y2; at = s.1.at });
  to_float = λ s. s.1;
}

pub grid_laws : (channels : ℕ) → ImageLaws whole (grids channels)
grid_laws channels = record {
  width-empty = refl;
  height-empty = refl;
  pixel-filled = λ w h v x y hx hy. refl;
  width-filled = λ w h v. refl;
  height-filled = λ w h v. refl;
  width-put = λ m x y v. refl;
  height-put = λ m x y v. refl;
  pixel-put = λ m x y v a b hx hy. refl;
  width-mirror_x = λ m. refl;
  height-mirror_x = λ m. refl;
  pixel-mirror_x = λ m x y hx hy. ap (λ c. m.at c y) (across_inside m.wide x hx);
  mirror_x-mirror_x = mirrored-mirrored;
  size-crop_source = λ s z1 c1 z2 c2. (refl, refl);
}

none_above : (f : ℕ → ℕ) (k n i : ℕ) → greatest f n i ≤ k → count_from (λ j. ltb k (f j)) n i ≡ 0
unfolding count_from
none_above f k zero i h = refl
none_above f k (suc n) i h =
    let rest = none_above f k n (i + 1) (omega (arith, h)) in
    let low : ltb k (f i) ≡ false = ground (arith, h) in rw low (omega (arith, rest))

above_when :
    (f : ℕ → ℕ) (k next : ℕ) (b : Bool)
    → leb (count_from (λ i. ltb k (f i)) 64 0) 32 ≡ b
    → count_from (λ i. ltb next (f i)) 64 0 ≤ 32
    → count_from (λ i. ltb (if b then k else next) (f i)) 64 0 ≤ 32
above_when f k next true few rest = leb→le _ _ few
above_when f k next false many rest = rest

least_above-le : (f : ℕ → ℕ) (n k : ℕ) → count_from (λ i. ltb (least_above f n k) (f i)) 64 0 ≤ 32
unfolding least_above
least_above-le f zero k =
    let e : count_from (λ i. ltb (greatest f 64 0) (f i)) 64 0 ≡ 0 =
      none_above f (greatest f 64 0) 64 0 (omega arith) in
    subst (λ c. c ≤ 32) (sym e) (omega arith)
least_above-le f (suc n) k =
    above_when f k (least_above f n (k + 1)) _ refl (least_above-le f n (k + 1))

pub grid_median : (channels : ℕ) → MedianLaw whole (grids channels)
grid_median channels = record {
  height-get_transpose = λ m. refl;
  width-get_transpose = λ m. refl;
  size-resize = λ m w h. (refl, refl);
  size-product = λ a b e. (refl, refl);
  size-crop = λ m x1 y1 x2 y2 hx hy wx wy. (refl, refl);
  width-unroll_x = λ m. refl;
  height-unroll_x = λ m. refl;
  few_above = λ s wide high. least_above-le (λ i. s.at i 0) 256 0;
}
