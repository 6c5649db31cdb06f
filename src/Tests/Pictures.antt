-- ===== src/Tests/Pictures.antt =====
-- The hash of a picture of alternating pixels.
use video_match.Base.{ℕ, ◌≡◌, refl, inl, false, ltb, some, bytes_of, arith, ◌<◌, ◌+◌}
use video_match.Picture.Crop.{Crops, crop_border-Crops}
use video_match.Picture.Dct.{cosine, ph_dct_matrix_lem}
use video_match.Picture.Hash.{Outcome, get_hash_code-Outcome, get_hash_code_transparent}
use video_match.Picture.Library.{count_from}
use video_match.Picture.Mirror.{halves, mirror-mirror_x}
use video_match.Picture.{add_column, half_sums, mirror, crop_border, ph_dct_matrix, get_hash_code}
use video_match.Tests.Grids.{
  least_above, Grid, whole, whole_laws, checked, mirrored, grids, grid_laws, grid_median,
}

crop_border-Crops_example : Crops whole (grids 3) checked (crop_border whole (grids 3) checked)
crop_border-Crops_example =
    crop_border-Crops whole (grids 3) whole_laws checked (omega arith) (omega arith)

-- Its right half is brighter.
abbrev slope : Grid
slope = record { wide = 4; high = 2; at = λ x y. x + y }

mirror-mirror_x_example :
    (mirror whole (grids 3) (mirrored slope) ≡ mirror whole (grids 3) slope)
    × (ltb
          (halves whole (grids 3) (mirror whole (grids 3) slope)).0
          (halves whole (grids 3) (mirror whole (grids 3) slope)).1
        ≡ false)
mirror-mirror_x_example =
    mirror-mirror_x whole (grids 3) (grid_laws 3) whole_laws slope
      (inl (unfold half_sums add_column in refl))

ph_dct_matrix_lem_example :
    let c = ph_dct_matrix whole (grids 3) 32 in
    (c.wide ≡ 32) × (c.high ≡ 32) × ((x y : ℕ) → x < 32 → y < 32 → c.at x y ≡ cosine whole 32 x y)
ph_dct_matrix_lem_example = ph_dct_matrix_lem whole (grids 3) (grid_laws 3) 32

get_hash_code-Outcome_example :
    Outcome whole
      (grids 3)
      (some (3, checked))
      (get_hash_code whole (grids 3) (some (bytes_of "1.jpg")))
get_hash_code-Outcome_example =
    get_hash_code-Outcome whole (grids 3) (grid_median 3) (grid_laws 3) (bytes_of "1.jpg")

get_hash_code_transparent_example : get_hash_code whole (grids 4) (some (bytes_of "1.jpg")) ≡ some 0
get_hash_code_transparent_example =
    get_hash_code_transparent whole (grids 4) whole_laws (grid_laws 4) (bytes_of "1.jpg")
      (4, checked) refl refl

-- Every other of the first 32 bits.
pub checked_hash :
    get_hash_code whole (grids 3) (some (bytes_of "1.jpg")) ≡ some 0xaa55_aa55_aa55_aa55
unfolding get_hash_code least_above count_from
checked_hash = refl
