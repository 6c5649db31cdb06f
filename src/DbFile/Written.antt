-- ===== src/DbFile/Written.antt =====
-- What the block buffer of `Save` hands to `write`, as one sequence of bytes.
use video_match.Base.{
  ℕ, ◌+◌, ◌-◌, ◌≤◌, ◌≡◌, refl, false, Bool, List, [], ◌∷◌, ◌++◌, some, any_of, length,
  length-append, append_assoc, append-nil, ltb, arith, ap, sym, ◌∙◌, inl, inr, Bool-cases,
}
use video_match.DbFile.{ByteList, le_bytes, frame_bytes}
use video_match.DbFile.Bytes.{length-le_bytes}
use video_match.DbFile.Save.{Writer, block_size, below_int, check_flush, put, put_frames}
use video_match.VideoDb.Index.{to_int, to_int_small}

-- The blocks one after the other.
abbrev pub joined : List ByteList → ByteList
joined [] = []
joined (b ∷ bs) = b ++ joined bs

abbrev pub too_long : ByteList → Bool
too_long b = ltb block_size (length b)

-- All bytes so far, those in the block last.
abbrev pub sent : Writer → ByteList
sent w = joined w.written ++ w.block

-- No block is longer than the buffer.
pub record Fits (w : Writer) : Type 0 where
  pub room : length w.block ≤ block_size
  pub short : any_of too_long w.written ≡ false

pub record Sends (bytes : ByteList) (w w' : Writer) : Type 0 where
  pub bytes_sent : sent w' ≡ sent w ++ bytes
  pub fits : Fits w'

pub Sends-trans :
    {a b : ByteList} {w w1 w2 : Writer} → Sends a w w1 → Sends b w1 w2 → Sends (a ++ b) w w2
Sends-trans {a} {b} {w} s t = record {
  bytes_sent = t.bytes_sent ∙ ap (λ c. c ++ b) s.bytes_sent ∙ append_assoc (sent w) a b;
  fits = t.fits;
}

pub joined-append : (bs cs : List ByteList) → joined (bs ++ cs) ≡ joined bs ++ joined cs
joined-append [] cs = refl
joined-append (b ∷ bs) cs =
    ap (◌++◌ b) (joined-append bs cs) ∙ sym (append_assoc b (joined bs) (joined cs))

any_of-append :
    (p : ByteList → Bool) (bs cs : List ByteList)
    → any_of p bs ≡ false
    → any_of p cs ≡ false
    → any_of p (bs ++ cs) ≡ false
any_of-append p [] cs h k = k
any_of-append p (b ∷ bs) cs h k =
    let rest = any_of-append p bs cs (ground (arith, h)) k in ground (arith, h, rest)

-- A flush sends nothing new, and leaves room for what it was called for.
pub flush-Sends : (i : ℕ) (w : Writer) → Fits w → Sends [] w (check_flush i w)
unfolding check_flush
flush-Sends i w f = elim (Bool-cases (below_int (block_size - length w.block) (to_int i))) [
  | inl full ↦ rw full (record {
    bytes_sent =
        ap (λ b. b ++ [])
          (joined-append w.written (w.block ∷ [])
            ∙ ap (◌++◌ (joined w.written)) (append-nil w.block));
    fits = record {
      room = omega arith;
      short = any_of-append too_long w.written (w.block ∷ []) f.short (ground (arith, f.room));
    };
  })
  | inr space ↦ rw space (record { bytes_sent = sym (append-nil (sent w)); fits = f })
]

flush_room :
    (i : ℕ) (w : Writer) → i ≤ block_size → Fits w → length (check_flush i w).block + i ≤ block_size
unfolding check_flush
flush_room i w le f =
    let small = to_int_small i (omega arith) in
    elim (Bool-cases (ltb (block_size - length w.block) i)) [
      | inl full ↦ rw (small, full) (omega arith)
      | inr space ↦ rw (small, space) (ground (arith, f.room))
    ]

put-Sends :
    (bytes : ByteList) (w : Writer)
    → length w.block + length bytes ≤ block_size
    → Fits w
    → (w' : Writer) × (put bytes w ≡ some w') × Sends bytes w w'
unfolding put
put-Sends bytes w le f =
    let space : ltb block_size (length w.block + length bytes) ≡ false = ground arith in
    (
      record w { block = w.block ++ bytes },
      rw space refl,
      record {
        bytes_sent = sym (append_assoc (joined w.written) w.block bytes);
        fits = record { room = omega (arith, length-append w.block bytes); short = f.short };
      },
    )

pub put_flushed-Sends :
    (i : ℕ) (bytes : ByteList) (w : Writer)
    → i ≤ block_size
    → length bytes ≤ i
    → Fits w
    → (w' : Writer) × (put bytes (check_flush i w) ≡ some w') × Sends bytes w w'
put_flushed-Sends i bytes w le fit f =
    let s = flush-Sends i w f in
    let r = flush_room i w le f in
    let (w', runs, t) = put-Sends bytes (check_flush i w) (omega arith) s.fits in
    (
      w',
      runs,
      record {
        bytes_sent = t.bytes_sent ∙ ap (λ b. b ++ bytes) (s.bytes_sent ∙ append-nil (sent w));
        fits = t.fits;
      },
    )

pub put_frames-Sends :
    (fs : List ℕ) (w : Writer)
    → Fits w
    → (w' : Writer) × (put_frames fs w ≡ some w') × Sends (frame_bytes fs) w w'
unfolding put_frames
put_frames-Sends [] w f = (w, refl, record { bytes_sent = sym (append-nil (sent w)); fits = f })
put_frames-Sends (x ∷ fs) w f =
    let (w1, runs1, s1) =
      put_flushed-Sends 8 (le_bytes 8 x) w (omega arith) (omega (arith, length-le_bytes 8 x)) f in
    let (w2, runs2, s2) = put_frames-Sends fs w1 s1.fits in (w2, rw runs1 runs2, Sends-trans s1 s2)
