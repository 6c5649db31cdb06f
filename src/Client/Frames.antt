-- ===== src/Client/Frames.antt =====
-- The frames in the request that the client writes, and how the server reads them.
use video_match.Base.{
  ℕ, zero, suc, ◌+◌, ◌^◌, ◌<◌, ◌≡◌, refl, true, false, Bool-cases, inl, inr, List, [], ◌∷◌, ◌++◌,
  some, ◌==◌, if◌then◌else◌, length, length-append, get_or, append_assoc, append-nil, Name,
  bytes_eq, bytes_of, arith, ap, sym, ◌∙◌,
}
use video_match.Client.Laws.{JsonLaws}
use video_match.Client.{put_frames}
use video_match.Requests.Library.{Json}
use video_match.Requests.{push_frames}
use video_match.Score.Floats.{Double}
use video_match.VideoDb.{DataItem, push_frame}

abbrev pub AllWords : List ℕ → Type 0
AllWords [] = Unit
AllWords (f ∷ frames) = (f < 2 ^ 64) × AllWords frames

abbrev pub frames_key : Name
frames_key = bytes_of "frames"

get_or-snoc :
    (fs : List ℕ) (f i : ℕ)
    → get_or (fs ++ f ∷ []) i 0 ≡ (if i == length fs then f else get_or fs i 0)
get_or-snoc [] f zero = refl
get_or-snoc [] f (suc i) = ground arith
get_or-snoc (g ∷ fs) f zero = ground arith
get_or-snoc (g ∷ fs) f (suc i) = ground (arith, get_or-snoc fs f i)

module _ (F : Double) (J : Json F) (L : JsonLaws F J) where
  open J use {
    Value, null, from_uint64, from_string, get, set, set_at, at, size, is_member, is_string,
    is_array, as_string, as_uint64, parse, write,
  }

  -- The value carries the frames done so far.
  pub record Carries (v : Value) (done : List ℕ) : Type 0 where
    pub object : L.IsObject v
    pub array : L.IsArray (get v frames_key)
    pub sized : size (get v frames_key) ≡ length done
    pub words :
        (i : ℕ) → i < length done → as_uint64 (at (get v frames_key) i) ≡ some (get_or done i 0)

  -- The other members are those of before.
  abbrev pub SameOthers : Value → Value → Type 0
  SameOthers v w =
      (k : Name)
      → bytes_eq frames_key k ≡ false
      → (get w k ≡ get v k) × (is_member w k ≡ is_member v k)

  -- The frames, where there are some, are an array.
  abbrev pub Shown : Value → Type 0
  Shown v = (is_member v frames_key ≡ some true) × (is_array (get v frames_key) ≡ true)

  frame_put : Value → ℕ → ℕ → Value
  frame_put v i f = set v frames_key (set_at (get v frames_key) i (from_uint64 f))

  put-Shown :
      (v : Value) (done : List ℕ) (f : ℕ) → Carries v done → Shown (frame_put v (length done) f)
  unfolding frame_put bytes_eq
  put-Shown v done f c =
      let a = get v frames_key in
      (
        L.is_member-set v _ frames_key frames_key c.object,
        rw (L.get-set v (set_at a (length done) (from_uint64 f)) frames_key frames_key c.object)
            (rw (sym c.sized) (L.is_array-set_at a (from_uint64 f) c.array)),
      )

  put_word :
      (v : Value) (done : List ℕ) (f i : ℕ)
      → Carries v done
      → f < 2 ^ 64
      → i < length (done ++ f ∷ [])
      → as_uint64 (if i == size (get v frames_key) then from_uint64 f else at (get v frames_key) i)
        ≡ some (get_or (done ++ f ∷ []) i 0)
  put_word v done f i c word lt = rw (get_or-snoc done f i) (
      rw c.sized (elim (Bool-cases (i == length done)) [
        | inl last ↦ rw last (L.as_uint64-from_uint64 f word)
        | inr before ↦
            rw before (c.words i (ground (arith, before, lt, length-append done (f ∷ []))))
      ]))

  put-Carries :
      (v : Value) (done : List ℕ) (f : ℕ)
      → Carries v done
      → f < 2 ^ 64
      → Carries (frame_put v (length done) f) (done ++ f ∷ [])
  unfolding frame_put bytes_eq
  put-Carries v done f c word =
      let a = get v frames_key in
      let now : get (frame_put v (length done) f) frames_key ≡ set_at a (size a) (from_uint64 f) =
        L.get-set v (set_at a (length done) (from_uint64 f)) frames_key frames_key c.object
        ∙ ap (λ n. set_at a n (from_uint64 f)) (sym c.sized) in
      record {
        object = L.set-IsObject v _ frames_key c.object;
        array = rw now (L.set_at-IsArray a (from_uint64 f) c.array);
        sized = rw now (
            omega (
              arith,
              L.size-set_at a (from_uint64 f) c.array,
              c.sized,
              length-append done (f ∷ []),
            ));
        words = λ i lt. rw now (
            ap as_uint64 (L.at-set_at a (from_uint64 f) i c.array) ∙ put_word v done f i c word lt);
      }

  put-SameOthers :
      (v : Value) (done : List ℕ) (f : ℕ)
      → Carries v done
      → SameOthers v (frame_put v (length done) f)
  unfolding frame_put
  put-SameOthers v done f c k other = (
    L.get-set v _ frames_key k c.object ∙ rw other refl,
    L.is_member-set v _ frames_key k c.object ∙ rw other refl,
  )

  -- The whole loop.
  pub record Puts (v w : Value) (done : List ℕ) : Type 0 where
    pub carries : Carries w done
    pub others : SameOthers v w

  pub put_frames-Puts :
      (v : Value) (done frames : List ℕ)
      → Carries v done
      → AllWords frames
      → Puts v (put_frames F J frames (length done) v) (done ++ frames)
  unfolding put_frames frame_put
  put_frames-Puts v done [] c words =
      rw (append-nil done) (record { carries = c; others = λ k other. (refl, refl) })
  put_frames-Puts v done (f ∷ frames) c words =
      let v' = frame_put v (length done) f in
      let next : length (done ++ f ∷ []) ≡ length done + 1 = length-append done (f ∷ []) in
      let rest =
        put_frames-Puts v' (done ++ f ∷ []) frames (put-Carries v done f c words.0) words.1 in
      let moved = rw append_assoc at (rw next at rest) in
      let first = put-SameOthers v done f c in
      record {
        carries = moved.carries;
        others = λ k other. (
          (moved.others k other).0 ∙ (first k other).0,
          (moved.others k other).1 ∙ (first k other).1,
        );
      }

  pub put_frames-Shown :
      (v : Value) (done frames : List ℕ) (f : ℕ)
      → Carries v done
      → AllWords (f ∷ frames)
      → Shown (put_frames F J (f ∷ frames) (length done) v)
  unfolding put_frames frame_put
  put_frames-Shown v done [] f c words = put-Shown v done f c
  put_frames-Shown v done (g ∷ frames) f c words =
      let next : length (done ++ f ∷ []) ≡ length done + 1 = length-append done (f ∷ []) in
      let rest =
        put_frames-Shown (frame_put v (length done) f) (done ++ f ∷ []) frames g
          (put-Carries v done f c words.0) words.1 in
      rw next at rest

  pub push_words :
      (a : Value) (ns : List ℕ) (i : ℕ) (item : DataItem)
      → ((j : ℕ) → j < length ns → as_uint64 (at a (i + j)) ≡ some (get_or ns j 0))
      → push_frames F J a (length ns) i item ≡ some (record item { frames = item.frames ++ ns })
  unfolding push_frames push_frame
  push_words a [] i item h = rw append-nil refl
  push_words a (n ∷ ns) i item h =
      let here : as_uint64 (at a i) ≡ some n =
        ap (λ x. as_uint64 (at a x)) (omega arith) ∙ h 0 (omega arith) in
      let rest =
        push_words a ns (i + 1) (push_frame n item)
          (λ j lt. ap (λ x. as_uint64 (at a x)) (omega arith) ∙ h (suc j) (omega (arith, lt))) in
      rw here
        (rest ∙ ap (λ x. some (record item { frames = x })) (append_assoc item.frames (n ∷ []) ns))
