-- ===== src/DbFile/Reading.antt =====
-- `VideoDB::Load` of server/VideoDB.cpp reads the items back that stand in a file.
use mathlib.Core.Path.{subst}
use native.Mathlib.Nat.{add-zero}
use video_match.Base.{
  ℕ, ◌+◌, ◌-◌, ◌^◌, ◌<◌, ◌≡◌, refl, false, true, Bool, ◌&&◌, not, List, [], ◌∷◌, ◌++◌, some, any_of,
  length, ltb, leb, length-append, append_assoc, append-nil, arith, ap, sym, ◌∙◌, pos, ◌+ℤ◌, drop,
  member, Name,
}
use video_match.DbFile.{ByteList, le_bytes, frame_bytes, item_head}
use video_match.DbFile.Bytes.{length-le_bytes, read_le-le_bytes, read_text-append, drop_past}
use video_match.DbFile.Load.{Loading, read_int, count_slot, load_frames, load_item}
use video_match.VideoDb.Index.{to_int_small}
use video_match.VideoDb.{DataItem, new_item, push_frame, insert_name, key_shorten}

-- What the format can hold: a name without a zero byte, numbers that fit.
abbrev pub fits_format : Name × List ℕ → Bool
fits_format (n, fs) =
    not (member 0 n)
    && (ltb (length n) (2 ^ 31 - 1) && (ltb (length fs) (2 ^ 31) && not (any_of (leb (2 ^ 64)) fs)))

abbrev pub loaded : Name × List ℕ → DataItem
loaded (n, fs) = record { uniq_frm_cnt = 0; name = n; frames = fs; ref = pos 0; deleted = false }

pos_add : (a b : ℕ) → pos a +ℤ pos b ≡ pos (a + b)
unfolding ◌+ℤ◌
pos_add a b = ground arith

pub read_int_at :
    (file rest : ByteList) (c n : ℕ)
    → n < 2 ^ 31
    → drop c file ≡ le_bytes 4 n ++ rest
    → read_int file (pos c) ≡ some (pos n)
unfolding read_int
read_int_at file rest c n h e =
    rw (e, read_le-le_bytes 4 n rest (omega arith)) (ap some (to_int_small n h))

load_frames_at :
    (file rest : ByteList) (fs : List ℕ) (c : ℕ) (di : DataItem) (cnt : ℕ → ℕ)
    → any_of (leb (2 ^ 64)) fs ≡ false
    → drop c file ≡ frame_bytes fs ++ rest
    → (cnt' : ℕ → ℕ) × (load_frames file (length fs) (pos c) di cnt
        ≡ some (pos (c + length (frame_bytes fs)), record di { frames = di.frames ++ fs }, cnt'))
unfolding load_frames push_frame
load_frames_at file rest [] c di cnt small e = (cnt, rw (append-nil di.frames, add-zero) refl)
load_frames_at file rest (f ∷ fs) c di cnt small e =
    let more : ByteList = frame_bytes fs ++ rest in
    let here : drop c file ≡ le_bytes 8 f ++ more =
      e ∙ append_assoc (le_bytes 8 f) (frame_bytes fs) rest in
    let fits : f < 256 ^ 8 = ground (arith, small) in
    let past : drop (c + 8) file ≡ more =
      subst (λ k. drop (c + k) file ≡ more) (length-le_bytes 8 f)
        (drop_past file (le_bytes 8 f) more c here) in
    let (cnt', runs) =
      load_frames_at file rest fs (c + 8) (push_frame f di) (count_slot (key_shorten f) cnt)
        (ground (arith, small)) past in
    let len : c + 8 + length (frame_bytes fs) ≡ c + length (le_bytes 8 f ++ frame_bytes fs) =
      omega (arith, length-append (le_bytes 8 f) (frame_bytes fs), length-le_bytes 8 f) in
    (
      cnt',
      rw (here, read_le-le_bytes 8 f more fits, pos_add c 8)
          (runs ∙ rw (len, append_assoc di.frames (f ∷ []) fs) refl),
    )

-- What one round of the loop over the items makes of `l`.
abbrev pub with_item : Name × List ℕ → ℕ → (ℕ → ℕ) → Loading → Loading
with_item (n, fs) c cnt l = record {
  cursor = pos c;
  heap = l.heap ++ some (loaded (n, fs)) ∷ [];
  db = insert_name n (length l.heap) l.db;
  hslot_cnt = cnt;
}

-- The four reads of a head, at their places.
pub record Head (file rest : ByteList) (c : ℕ) (n : Name) (fs : List ℕ) : Type 0 where
  pub name_length : read_int file (pos c) ≡ some (pos (length n))
  pub text : drop (c + 4) file ≡ n ++ 0 ∷ (le_bytes 4 (length fs) ++ rest)
  pub frame_number : read_int file (pos (c + 4 + (length n + 1))) ≡ some (pos (length fs))
  pub frames : drop (c + 4 + (length n + 1) + 4) file ≡ rest

read-Head :
    (file rest : ByteList) (c : ℕ) (n : Name) (fs : List ℕ)
    → length n < 2 ^ 31
    → length fs < 2 ^ 31
    → drop c file ≡ item_head n fs ++ rest
    → Head file rest c n fs
read-Head file rest c n fs hn hf e =
    let tail : ByteList = le_bytes 4 (length fs) ++ rest in
    let body : ByteList = n ++ 0 ∷ tail in
    let here : drop c file ≡ le_bytes 4 (length n) ++ body =
      e
      ∙ append_assoc (le_bytes 4 (length n)) (n ++ 0 ∷ le_bytes 4 (length fs)) rest
      ∙ ap (◌++◌ (le_bytes 4 (length n))) (append_assoc n (0 ∷ le_bytes 4 (length fs)) rest) in
    let text : drop (c + 4) file ≡ body =
      subst (λ k. drop (c + k) file ≡ body) (length-le_bytes 4 (length n))
        (drop_past file (le_bytes 4 (length n)) body c here) in
    let split : body ≡ (n ++ 0 ∷ []) ++ tail = sym (append_assoc n (0 ∷ []) tail) in
    let after : drop (c + 4 + (length n + 1)) file ≡ tail =
      subst (λ k. drop (c + 4 + k) file ≡ tail) (length-append n (0 ∷ []))
        (drop_past file (n ++ 0 ∷ []) tail (c + 4) (text ∙ split)) in
    record {
      name_length = read_int_at file body c (length n) hn here;
      text = text;
      frame_number = read_int_at file rest (c + 4 + (length n + 1)) (length fs) hf after;
      frames =
          subst (λ k. drop (c + 4 + (length n + 1) + k) file ≡ rest) (length-le_bytes 4 (length fs))
            (drop_past file (le_bytes 4 (length fs)) rest (c + 4 + (length n + 1)) after);
    }

pub load_item_at :
    (file rest : ByteList) (n : Name) (fs : List ℕ) (c : ℕ) (l : Loading)
    → l.cursor ≡ pos c
    → fits_format (n, fs) ≡ true
    → drop c file ≡ item_head n fs ++ (frame_bytes fs ++ rest)
    → (c' : ℕ) × (cnt : ℕ → ℕ) × (load_item file l ≡ some (with_item (n, fs) c' cnt l))
      × (drop c' file ≡ rest)
unfolding load_item new_item
load_item_at file rest n fs c l at ok e =
    let clean : member 0 n ≡ false = ground (arith, ok) in
    let hn : length n < 2 ^ 31 = ground (arith, ok) in
    let hf : length fs < 2 ^ 31 = ground (arith, ok) in
    let small : any_of (leb (2 ^ 64)) fs ≡ false = ground (arith, ok) in
    let h = read-Head file (frame_bytes fs ++ rest) c n fs hn hf e in
    let start = c + 4 + (length n + 1) + 4 in
    let (cnt, runs) = load_frames_at file rest fs start (new_item n) l.hslot_cnt small h.frames in
    let name = read_text-append n (le_bytes 4 (length fs) ++ (frame_bytes fs ++ rest)) clean in
    (
      start + length (frame_bytes fs),
      cnt,
      rw (at, h.name_length, pos_add c 4, pos_add (length n) 1, pos_add (c + 4) (length n + 1))
          (rw (h.text, name, h.frame_number, pos_add (c + 4 + (length n + 1)) 4) (rw runs refl)),
      drop_past file (frame_bytes fs) rest start h.frames,
    )
