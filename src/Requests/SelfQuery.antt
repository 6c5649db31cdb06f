-- ===== src/Requests/SelfQuery.antt =====
-- `Query` with the key of a stored video: the video finds itself.
use video_match.Base.{
  ℕ, ◌^◌, ◌<◌, ◌≡◌, refl, Bool, true, not, ◌&&◌, Bool-cases, Option-cases, inl, inr, List, [], ◌∷◌,
  some, none, ◌==◌, if◌then◌else◌, any_of, count_if, length, Name, bytes_eq, bytes_of, ℤ, pos,
  arith, ap, ◌∙◌,
}
use video_match.Query.Loop.{hit_of, is_hit}
use video_match.Query.Matches.{listing, common, near, query_frames-Lists}
use video_match.Query.Own.{common_own, near_own}
use video_match.Query.Ranking.{IsRanked}
use video_match.Query.{Scores}
use video_match.Requests.Library.{Json}
use video_match.Requests.{query_key, put_result, code_reply, plain_lines}
use video_match.Score.{check_candidate}
use video_match.Score.Floats.{Double}
use video_match.Score.Range.{check_candidate-InUnit}
use video_match.Score.SelfScore.{check_candidate_self}
use video_match.VideoDb.Index.{to_int, query_name}
use video_match.VideoDb.Refinement.{query_name-view, query_answer}
use video_match.VideoDb.Valid.{IsValid, Videos, view}
use video_match.VideoDb.{empty_frame, DataItem, new_item, VideoDb, HashOrder, Orders}

-- A frame that is not empty.
abbrev pub has_content : List ℕ → Bool
has_content fs = any_of (λ k. not (k == empty_frame)) fs

-- No video has 2 ^ 26 frames.
abbrev pub AllShort : Videos → Type 0
AllShort vs = (m : Name) (gs : List ℕ) → vs m ≡ some gs → length gs < 2 ^ 26

module _ (F : Double) (J : Json F) (order : HashOrder ℕ) (orders : Orders) where
  open F use {Num, of_nat, less}
  open J use {write, set, from_int}

  -- The list has the name once, with the score 1, and no higher score; its scores fall.
  pub record Tops (n : Name) (r : Scores F) : Type 0 where
    pub own :
        (t : Name × Num → Bool)
        → count_if (λ e. bytes_eq e.0 n && t e) r ≡ (if t (n, of_nat 1) then 1 else 0)
    pub top : (m : Name) → count_if (λ e. bytes_eq e.0 m && less (of_nat 1) e.1) r ≡ 0
    pub ranked : IsRanked F r

  -- The text of the reply.
  abbrev pub reply_of : ℤ → Name → Bool → Scores F → Name
  reply_of time_ms key plain r =
      if plain
      then plain_lines F J order orders key r []
      else write (
          set (put_result F J r 0 (code_reply F J (to_int (length r)))) (bytes_of "time_ms")
            (from_int time_ms))

  has_content-lt : (fs : List ℕ) → has_content fs ≡ true → 0 < length fs
  has_content-lt [] h = absurd (cc)
  has_content-lt (k ∷ fs) h = omega arith

  listing_found :
      (vs : Videos) (m : Name) (fs gs : List ℕ)
      → vs m ≡ some gs
      → listing F order fs vs m ≡ (
          if common F order fs gs && near F order fs gs
          then hit_of F order fs (some (m, gs))
          else [])
  listing_found vs m fs gs found = rw (found, listing) refl

  listing_missing :
      (vs : Videos) (m : Name) (fs : List ℕ) → vs m ≡ none → listing F order fs vs m ≡ []
  listing_missing vs m fs missing = rw (missing, listing) refl

  listing_own :
      (vs : Videos) (n : Name) (fs : List ℕ)
      → vs n ≡ some fs
      → has_content fs ≡ true
      → length fs < 2 ^ 26
      → listing F order fs vs n ≡ (n, of_nat 1) ∷ []
  listing_own vs n fs stored content short =
      let near_all : (common F order fs fs && near F order fs fs) ≡ true =
        rw (common_own F order fs content) (near_own F order fs) in
      let full : check_candidate F order fs fs ≡ of_nat 1 =
        check_candidate_self F order fs (has_content-lt fs content) (omega (arith, short)) in
      let above : less (F.hundredths 9) (of_nat 1) ≡ true =
        F.hundredths_less 9 1 (omega arith) (omega arith) in
      let hit : is_hit F order fs fs ≡ true = ap (less (F.hundredths 9)) full ∙ above in
      listing_found vs n fs fs stored ∙ (rw near_all (rw hit (ap (λ s. (n, s) ∷ []) full)))

  listing_top :
      (vs : Videos) (m : Name) (fs : List ℕ)
      → AllShort vs
      → length fs < 2 ^ 26
      → count_if (λ e. less (of_nat 1) e.1) (listing F order fs vs m) ≡ 0
  listing_top vs m fs all short = elim (Option-cases (vs m)) [
    | inl missing ↦ rw (listing_missing vs m fs missing) refl
    | inr (gs, found) ↦
        let unit = check_candidate-InUnit F order gs fs (all m gs found) short in
        elim (Bool-cases (common F order fs gs && near F order fs gs)) [
          | inr far ↦ rw (listing_found vs m fs gs found) (rw far refl)
          | inl close ↦ elim (Bool-cases (less (F.hundredths 9) (check_candidate F order gs fs))) [
            | inl hit ↦ rw (listing_found vs m fs gs found) (rw close (rw hit (rw unit.1 refl)))
            | inr miss ↦ rw (listing_found vs m fs gs found) (rw close (rw miss refl))
          ]
        ]
  ]

  -- On a well-formed database in which every video has fewer than 2 ^ 26 frames: `Query` with the key
  -- of a stored video that has a non-empty frame does not fault, leaves the database as it was, and
  -- replies with a list, in its plain or its JSON form, that has falling scores, has that key just
  -- once, with the score 1, and has no entry with a higher score.
  pub query_key-Tops :
      (v : VideoDb)
      → IsValid v
      → AllShort (view v)
      → (n : Name) (fs : List ℕ) → view v n ≡ some fs
      → has_content fs ≡ true
      → (time_ms : ℤ) (plain : Bool)
      → (r : Scores F) × (query_key F J order orders time_ms n plain v
          ≡ some (reply_of time_ms n plain r, v))
        × Tops n r
  unfolding query_key
  query_key-Tops v valid all n fs stored content time_ms plain =
      let short = all n fs stored in
      let item : DataItem = (query_answer n (new_item []) (some fs)).1 in
      let named : query_name n (new_item []) v ≡ some (pos 0, item) =
        query_name-view n (new_item []) v valid
        ∙ ap (λ o. some (query_answer n (new_item []) o)) stored in
      let (found, ran, lists) = query_frames-Lists F order orders item v valid in
      (
        found.1,
        rw (named, query_key) (rw ran (rw lists.code (rw lists.kept refl))),
        record {
          own = λ t.
              lists.listed n t
              ∙ ap (count_if t) (listing_own (view v) n fs stored content short)
              ∙ omega arith;
          top =
              λ m. lists.listed m (λ e. less (of_nat 1) e.1) ∙ listing_top (view v) m fs all short;
          ranked = lists.ranked;
        },
      )
