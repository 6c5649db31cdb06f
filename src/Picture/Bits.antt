-- ===== src/Picture/Bits.antt =====
-- The 64 bits of the hash: the loop of `GetHashCode` over the frequencies.
use Prim.Native.Nat.{bit_or, bit_or-bitwise, max}
use native.Mathlib.Nat.{div-div-eq-div-mul}
use video_match.Base.{
  ℕ, zero, suc, ◌+◌, ◌*◌, ◌/◌, ◌%◌, ◌^◌, ◌<◌, ◌≡◌, refl, Bool, Bool-cases, inl, inr, if◌then◌else◌,
  arith, ap, ◌∙◌,
}
use video_match.BitCount.Digits.{word_step}
use video_match.BitCount.Laws.{ones}
use video_match.Picture.Floats.{Float}
use video_match.Picture.Library.{Images, count_from}
use video_match.Picture.{set_bits}

zero_max : (d : ℕ) → max 0 d ≡ d
zero_max d = omega arith

bit_or_step : (x y : ℕ) → bit_or x y ≡ bit_or (x / 2) (y / 2) * 2 + max (x % 2) (y % 2)
bit_or_step x y =
    omega (arith, word_step max zero_max x y, bit_or-bitwise x y, bit_or-bitwise (x / 2) (y / 2))

-- Setting a bit above all those that are set is an addition.
pub bit_or_power : (i r : ℕ) → r < 2 ^ i → bit_or r (2 ^ i) ≡ r + 2 ^ i
bit_or_power zero zero h = refl
bit_or_power zero (suc r) h = absurd (omega arith)
bit_or_power (suc i) r h =
    let half : 2 ^ suc i / 2 ≡ 2 ^ i = omega arith in
    let even : 2 ^ suc i % 2 ≡ 0 = omega arith in
    omega (
      arith,
      bit_or_step r (2 ^ suc i),
      ap (bit_or (r / 2)) half,
      ap (max (r % 2)) even,
      bit_or_power i (r / 2) (omega arith),
    )

-- Bit `j` of a word.
abbrev pub bit_at : ℕ → ℕ → ℕ
bit_at word j = word / 2 ^ j % 2

-- The word of `n` bits whose bit `j` tells whether `i + j` passes the test.
packed : (ℕ → Bool) → ℕ → ℕ → ℕ
packed test zero i = 0
packed test (suc n) i = (if test i then 1 else 0) + 2 * packed test n (i + 1)

packed-lt : (test : ℕ → Bool) (n i : ℕ) → packed test n i < 2 ^ n
unfolding packed
packed-lt test zero i = omega arith
packed-lt test (suc n) i = ground (arith, packed-lt test n (i + 1))

ones-packed : (test : ℕ → Bool) (n i : ℕ) → ones n (packed test n i) ≡ count_from test n i
unfolding packed ones count_from
ones-packed test zero i = refl
ones-packed test (suc n) i =
    let p = packed test n (i + 1) in
    elim (Bool-cases (test i)) [
      | inl set ↦
          let half : (1 + 2 * p) / 2 ≡ p = omega arith in
          rw set (rw half (omega (arith, ones-packed test n (i + 1))))
      | inr clear ↦
          let half : (0 + 2 * p) / 2 ≡ p = omega arith in
          rw clear (rw half (omega (arith, ones-packed test n (i + 1))))
    ]

-- A bit is the lowest one of what is left after so many halvings.
bit_at-suc : (word j : ℕ) → bit_at word (suc j) ≡ bit_at (word / 2) j
bit_at-suc word j = rw (div-div-eq-div-mul word 2 (2 ^ j)) (ap (λ k. word / k % 2) (omega arith))

bit_at-packed :
    (test : ℕ → Bool) (n i j : ℕ)
    → j < n
    → bit_at (packed test n i) j ≡ (if test (i + j) then 1 else 0)
unfolding packed
bit_at-packed test zero i j h = elim h [ ]
bit_at-packed test (suc n) i zero h = ground arith
bit_at-packed test (suc n) i (suc j) h =
    let p = packed test n (i + 1) in
    let ih = bit_at-packed test n (i + 1) j (omega arith) in
    let next : i + 1 + j ≡ i + suc j = omega arith in
    let half : ((if test i then 1 else 0) + 2 * p) / 2 ≡ p = ground arith in
    rw (bit_at-suc ((if test i then 1 else 0) + 2 * p) j) (rw half (rw next at ih))

move_two : (p q : ℕ) → 2 * p * q ≡ p * (2 * q)
move_two p q = grind arith

regroup : (r p q b t : ℕ) → q ≡ 2 * p → r + p * b + q * t ≡ r + p * (b + 2 * t)
regroup r p q b t e = rw e (grind arith)

below_shift : (p q m : ℕ) → p * (2 * (2 * q)) ≡ m → 0 < m → p * 2 < m
below_shift p q m e h = grind arith

-- The mask does not wrap around before its last shift.
shifted : (p n : ℕ) → p * (2 * 2 ^ suc n) ≡ 2 ^ 64 → p * 2 % 2 ^ 64 ≡ 2 * p
shifted p n e =
    let power : 2 ^ suc n ≡ 2 * 2 ^ n = omega arith in
    let e' : p * (2 * (2 * 2 ^ n)) ≡ 2 ^ 64 = rw power at e in
    omega (arith, below_shift p (2 ^ n) (2 ^ 64) e' (omega arith))

pow_next : (i : ℕ) → 2 ^ (i + 1) ≡ 2 * 2 ^ i
pow_next i = let e : 2 ^ (i + 1) ≡ 2 ^ suc i = ap (λ k. 2 ^ k) (omega arith) in omega (arith, e)

module _ (F : Float) (I : Images F) where
  -- The value at `i` is above the limit.
  abbrev pub above : I.Image → F.Num → ℕ → Bool
  above subsec limit i = F.less limit (I.value subsec i)

  -- One step of the loop, at a bit above all those that are set.
  set_bit :
      (i : ℕ) (subsec : I.Image) (limit : F.Num) (result : ℕ)
      → result < 2 ^ i
      → (if above subsec limit i then bit_or result (2 ^ i) else result)
        ≡ result + 2 ^ i * (if above subsec limit i then 1 else 0)
  set_bit i subsec limit result small = ground (arith, bit_or_power i result small)

  set_bit-lt :
      (i : ℕ) (subsec : I.Image) (limit : F.Num) (result : ℕ)
      → result < 2 ^ i
      → result + 2 ^ i * (if above subsec limit i then 1 else 0) < 2 ^ (i + 1)
  set_bit-lt i subsec limit result small = ground (arith, pow_next i)

  set_bits-packed :
      (n i : ℕ) (subsec : I.Image) (limit : F.Num) (result : ℕ)
      → 2 ^ i * 2 ^ suc n ≡ 2 ^ 64
      → result < 2 ^ i
      → set_bits F I (suc n) i subsec limit (2 ^ i) result
        ≡ result + 2 ^ i * packed (above subsec limit) (suc n) i
  unfolding set_bits packed
  set_bits-packed zero i subsec limit result sized small =
      rw (set_bit i subsec limit result small) (grind arith)
  set_bits-packed (suc n) i subsec limit result sized small =
      let b : ℕ = if above subsec limit i then 1 else 0 in
      let power = pow_next i in
      let quarter : 2 ^ suc (suc n) ≡ 2 * 2 ^ suc n = omega arith in
      let sized' : 2 ^ i * (2 * 2 ^ suc n) ≡ 2 ^ 64 = rw quarter at sized in
      let next : 2 ^ i * 2 % 2 ^ 64 ≡ 2 ^ (i + 1) = rw power (shifted (2 ^ i) n sized') in
      let moved : 2 ^ (i + 1) * 2 ^ suc n ≡ 2 ^ 64 =
        rw power (move_two (2 ^ i) (2 ^ suc n) ∙ sized') in
      let rest =
        set_bits-packed n (i + 1) subsec limit (result + 2 ^ i * b) moved
          (set_bit-lt i subsec limit result small) in
      rw (set_bit i subsec limit result small) (
        rw next (
          rest
          ∙ regroup result (2 ^ i) (2 ^ (i + 1)) b (packed (above subsec limit) (suc n) (i + 1))
              power))

  -- The loop sets bit `i` exactly where the frequency `i` is above the limit, for the 64 values of
  -- `i`; the result is a word of 64 bits, with as many ones as there are such frequencies.
  pub set_bits_lem :
      (subsec : I.Image) (limit : F.Num)
      → let hash = set_bits F I 64 0 subsec limit 1 0 in
        ((j : ℕ) → j < 64 → bit_at hash j ≡ (if above subsec limit j then 1 else 0))
        × (hash < 2 ^ 64)
        × (ones 64 hash ≡ count_from (above subsec limit) 64 0)
  set_bits_lem subsec limit =
      let whole = set_bits-packed 63 0 subsec limit 0 refl (omega arith) in
      let word : set_bits F I 64 0 subsec limit 1 0 ≡ packed (above subsec limit) 64 0 =
        whole ∙ omega arith in
      rw word (
        λ j lt.
            bit_at-packed (above subsec limit) 64 0 j lt
            ∙ ap (λ k. if above subsec limit k then 1 else 0) (omega arith),
        packed-lt (above subsec limit) 64 0,
        ones-packed (above subsec limit) 64 0,
      )
