-- ===== src/Query/Ranking.antt =====
-- The ranking of Query: a permutation with falling scores.
use video_match.Base.{◌+◌, ◌≡◌, refl, Bool, false, [], ◌∷◌, count_if, Name, arith}
use video_match.Score.Floats.{Double}
use video_match.Query.{Scores, insert_ranked, rank_onto}

module _ (F : Double) where
  open F use {Num, less}

  -- No score is below the next one.
  abbrev pub IsRanked : Scores F → Type 0
  IsRanked [] = Unit
  IsRanked (x ∷ []) = Unit
  IsRanked (x ∷ y ∷ l) = (less x.1 y.1 ≡ false) × IsRanked (y ∷ l)

  insert_ranked-IsRanked :
      (e : Name × Num) (l : Scores F) → IsRanked l → IsRanked (insert_ranked F e l)
  unfolding insert_ranked
  insert_ranked-IsRanked e [] r = tt
  insert_ranked-IsRanked e (x ∷ []) r = ground (arith, F.less_asymm x.1 e.1)
  insert_ranked-IsRanked e (x ∷ y ∷ l) r =
      let rest = insert_ranked-IsRanked e (y ∷ l) r.1 in ground (arith, F.less_asymm x.1 e.1, rest)

  count_if-insert_ranked :
      (p : Name × Num → Bool) (e : Name × Num) (l : Scores F)
      → count_if p (insert_ranked F e l) ≡ count_if p (e ∷ l)
  unfolding insert_ranked
  count_if-insert_ranked p e [] = refl
  count_if-insert_ranked p e (x ∷ l) = ground (arith, count_if-insert_ranked p e l)

  rank_onto-IsRanked : (done es : Scores F) → IsRanked done → IsRanked (rank_onto F done es)
  unfolding rank_onto
  rank_onto-IsRanked done [] r = r
  rank_onto-IsRanked done (e ∷ es) r =
      rank_onto-IsRanked (insert_ranked F e done) es (insert_ranked-IsRanked e done r)

  -- Ranking keeps every entry, as often as it came, and puts the scores in falling order.
  pub count_if-rank_onto :
      (p : Name × Num → Bool) (done es : Scores F)
      → count_if p (rank_onto F done es) ≡ count_if p done + count_if p es
  unfolding rank_onto
  count_if-rank_onto p done [] = omega arith
  count_if-rank_onto p done (e ∷ es) =
      omega
        (arith, count_if-rank_onto p (insert_ranked F e done) es, count_if-insert_ranked p e done)

  pub rank-IsRanked : (es : Scores F) → IsRanked (rank_onto F [] es)
  rank-IsRanked es = rank_onto-IsRanked [] es tt
