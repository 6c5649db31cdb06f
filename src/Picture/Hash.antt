-- ===== src/Picture/Hash.antt =====
-- `GetHashCode` as a whole.
use video_match.Base.{
  ◌≢◌, ap, sym, ◌∙◌, ℕ, ◌^◌, ◌≤◌, ◌<◌, ◌≡◌, refl, Option, none, some, Option-cases, inl, inr, Name,
  if◌then◌else◌, arith, negsuc, sub_ℕ, pos,
}
use video_match.BitCount.Laws.{ones}
use video_match.Picture.Bits.{above, bit_at, set_bits_lem}
use video_match.Picture.Crop.{Crops, crop_border-Crops}
use video_match.Picture.Dct.{ph_dct_matrix_lem}
use video_match.Picture.Floats.{Float, FloatLaws}
use video_match.Picture.Library.{Images, ImageLaws, MedianLaw}
use video_match.Picture.{
  crop_border, mirror, frequencies, brightness, hash_picture, get_hash_code, set_bits,
  ph_dct_matrix,
}

module _ (F : Float) (I : Images F) where
  open I use {Image, Source, width, height, median, load, spectrum}

  -- The bits of the hash are the comparisons of the 64 frequencies with their median.
  pub record IsHashOf (cropped : Image) (hash : ℕ) : Type 0 where
    pub bits :
        let subsec = frequencies F I (mirror F I cropped) in
        (j : ℕ) → j < 64 → bit_at hash j ≡ (if above F I subsec (median subsec) j then 1 else 0)
    pub half : ones 64 hash ≤ 32

  -- The hash of the cropped picture; 0 where `crop_border` refuses the picture.
  pub Summary : Option Image → ℕ → Type 0
  Summary none hash = hash ≡ 0
  Summary (some cropped) hash = IsHashOf cropped hash

  -- The result of `GetHashCode`: an error where nothing was loaded, and else a word of 64 bits.
  pub Outcome : Option Source → Option ℕ → Type 0
  Outcome none result = result ≡ none
  Outcome (some src) result =
      (hash : ℕ) × (result ≡ some hash)
      × (hash < 2 ^ 64)
      × Summary (crop_border F I (brightness F I src)) hash

  -- The frequencies are 64 values in a row.
  size-frequencies :
      (M : MedianLaw F I) (A : ImageLaws F I) (c0 : Image)
      → (width (frequencies F I c0) ≡ 64) × (height (frequencies F I c0) ≡ 1)
  unfolding frequencies
  size-frequencies M A c0 =
      let c = ph_dct_matrix F I 32 in
      let dct = ph_dct_matrix_lem F I A 32 in
      let img = I.resize (I.get_convolve c0 (I.filled 7 7 (F.of_nat 1))) 32 32 in
      let sized = M.size-resize (I.get_convolve c0 (I.filled 7 7 (F.of_nat 1))) 32 32 in
      let first = M.size-product c img (dct.0 ∙ sym sized.1) in
      let half = I.product c img in
      let turned = I.get_transpose c in
      let second =
        M.size-product half turned (first.0 ∙ sized.0 ∙ sym (M.height-get_transpose c ∙ dct.0)) in
      let whole = I.product half turned in
      let wide : width whole ≡ 32 = second.0 ∙ M.width-get_transpose c ∙ dct.1 in
      let high : height whole ≡ 32 = second.1 ∙ first.1 ∙ dct.1 in
      let cut =
        M.size-crop whole 1 1 8 8 (omega arith) (omega arith) (omega (arith, wide))
          (omega (arith, high)) in
      let part = I.crop whole 1 1 8 8 in
      (M.width-unroll_x part ∙ rw (cut.0, cut.1) refl, M.height-unroll_x part)

  set_bits-IsHashOf :
      (M : MedianLaw F I) (A : ImageLaws F I) (cropped : Image)
      → let subsec = frequencies F I (mirror F I cropped) in
        let hash = set_bits F I 64 0 subsec (median subsec) 1 0 in
        (hash < 2 ^ 64) × IsHashOf cropped hash
  set_bits-IsHashOf M A cropped =
      let subsec = frequencies F I (mirror F I cropped) in
      let size = size-frequencies M A (mirror F I cropped) in
      let b = set_bits_lem F I subsec (median subsec) in
      (b.1, record { bits = b.0; half = rw b.2 (M.few_above subsec size.0 size.1) })

  hash_picture-Summary :
      (M : MedianLaw F I) (A : ImageLaws F I) (src : Source)
      → (hash_picture F I src < 2 ^ 64)
        × Summary (crop_border F I (brightness F I src)) (hash_picture F I src)
  unfolding hash_picture Summary
  hash_picture-Summary M A src = elim (Option-cases (crop_border F I (brightness F I src))) [
    | inl small ↦ rw (small, hash_picture, Summary) (omega arith, refl)
    | inr (c, kept) ↦ rw (kept, hash_picture, Summary) (set_bits-IsHashOf M A c)
  ]

  loaded_hash :
      (filename : Name) (src : Source)
      → load filename ≡ some src
      → get_hash_code F I (some filename) ≡ some (hash_picture F I src)
  unfolding get_hash_code
  loaded_hash filename src loaded = rw (loaded, get_hash_code) refl

  failed_hash :
      (filename : Name) (hash : ℕ)
      → load filename ≡ none
      → get_hash_code F I (some filename) ≢ some hash
  unfolding get_hash_code
  failed_hash filename hash failed h = let e = rw (failed, get_hash_code) at h in cc e

  refused_hash :
      (src : Source) → crop_border F I (brightness F I src) ≡ none → hash_picture F I src ≡ 0
  unfolding hash_picture
  refused_hash src refused = rw (refused, hash_picture) refl

  -- `GetHashCode` fails exactly for a file that cannot be loaded. For any other it gives a word of 64
  -- bits: 0 where `crop_border` refuses the picture, and otherwise the word whose bit `j` tells
  -- whether frequency `j` of the cropped and mirrored picture is above the median of the 64, so that
  -- at most 32 bits are set. The laws taken of the library are the sizes of its images, and that at
  -- most half of 64 values are above their median.
  pub get_hash_code-Outcome :
      (M : MedianLaw F I) (A : ImageLaws F I) (filename : Name)
      → Outcome (load filename) (get_hash_code F I (some filename))
  unfolding get_hash_code Outcome
  get_hash_code-Outcome M A filename = elim (Option-cases (load filename)) [
    | inl failed ↦ rw (failed, get_hash_code) refl
    | inr (src, loaded) ↦
        let h = hash_picture-Summary M A src in
        rw loaded (hash_picture F I src, loaded_hash filename src loaded, h.0, h.1)
  ]

  hash_picture-lt : (src : Source) → hash_picture F I src < 2 ^ 64
  unfolding hash_picture
  hash_picture-lt src = elim (Option-cases (crop_border F I (brightness F I src))) [
    | inl small ↦ rw (small, hash_picture) (omega arith)
    | inr (c, kept) ↦
        let subsec = frequencies F I (mirror F I c) in
        rw (kept, hash_picture) ((set_bits_lem F I subsec (median subsec)).1)
  ]

  -- Every hash that is returned is a word of 64 bits.
  pub get_hash_code-lt :
      (filename : Name) (hash : ℕ) → get_hash_code F I (some filename) ≡ some hash → hash < 2 ^ 64
  get_hash_code-lt filename hash h = elim (Option-cases (load filename)) [
    | inl failed ↦ absurd (failed_hash filename hash failed h)
    | inr (src, loaded) ↦
        let same : hash ≡ hash_picture F I src = cc (loaded_hash filename src loaded) in
        rw same (hash_picture-lt src)
  ]

  small_refused :
      (L : FloatLaws F) (img : Image) (r : Option Image)
      → width img ≡ 2
      → Crops F I img r
      → r ≡ none
  unfolding Crops
  small_refused L img none narrow crops = refl
  small_refused L img (some c) narrow kept =
      absurd (omega (arith, kept.inner.wide, kept.surrounds.x_le))

  -- Every picture with four channels that can be loaded, such as one with transparency, has the hash
  -- 0: the crop to three channels takes the sizes of an image that is still empty, so that of the
  -- picture only two columns are left, which `crop_border` refuses.
  pub get_hash_code_transparent :
      (L : FloatLaws F) (A : ImageLaws F I) (filename : Name) (src : Source)
      → load filename ≡ some src
      → spectrum src ≡ 4
      → get_hash_code F I (some filename) ≡ some 0
  unfolding brightness
  get_hash_code_transparent L A filename src loaded four =
      let size = A.size-crop_source src (pos 0) (pos 0) (sub_ℕ (I.depth I.empty) 1) (pos 2) in
      let img = I.to_float (
        I.channel
          (I.rgb_to_ycbcr (
            I.crop_source src (pos 0) (pos 0) (pos 0) (pos 0) (negsuc 0) (negsuc 0)
              (sub_ℕ (I.depth I.empty) 1) (pos 2)))
          0) in
      let crops = crop_border-Crops F I L img (rw size.0 (omega arith)) (rw size.1 (omega arith)) in
      let refused = small_refused L img (crop_border F I img) size.0 crops in
      let seen : brightness F I src ≡ img = rw four (rw A.width-empty (rw A.height-empty refl)) in
      loaded_hash filename src loaded
      ∙ ap some (refused_hash src (ap (crop_border F I) seen ∙ refused))
