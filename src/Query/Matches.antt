-- ===== src/Query/Matches.antt =====
-- Which videos `VideoDB::Query` by frames lists, said of the map from names to frames alone.
use video_match.Base.{
  ℕ, ◌+◌, ◌*◌, ◌≡◌, refl, Bool, true, false, ◌&&◌, not, List, [], ◌∷◌, Option, none, some, ◌==◌,
  ==_iff, ==_refl, if◌then◌else◌, Name, bytes_eq, bytes_eq_iff, ℤ, arith, Bool-cases, Option-cases,
  inl, inr, member, count, count_if, count_if-append, any_of, any_of-count_if, length, sym, ◌∙◌, ap,
}
use mathlib.Core.Path.{ap₂}
use video_match.Score.Floats.{Double}
use video_match.Query.{Scores, rank_onto, query_frames}
use video_match.Query.Ranking.{IsRanked, rank-IsRanked, count_if-rank_onto}
use video_match.Query.Loop.{
  content_at, content_at-take_refs, hit_of, hits, hits_ext, score_each-hits,
}
use video_match.VideoDb.Index.{collect, to_int}
use video_match.VideoDb.Sets.{insert_all, bit}
use video_match.VideoDb.Candidates.{too_different}
use video_match.VideoDb.Matching.{
  shares, is_near, get_candidates1-Finds, any_of_ext, shares-registered, registered-IsLive,
  IsLive-take_refs,
}
use video_match.VideoDb.References.{take_refs, drop_refs-take_refs, Kept-take_refs}
use video_match.VideoDb.Refinement.{view_missing, view_found}
use video_match.VideoDb.Valid.{
  Entries, IsValid, Videos, view, registered, indexed, registered-Entry, find_name-Entry,
}
use video_match.VideoDb.{
  empty_frame, DataItem, Heap, NameMap, VideoDb, item_at, find_name, HashOrder, Orders,
}

-- The pointer of an entry is the one that its name is found at.
registered-find_name :
    (h : Heap) (db : NameMap) (p : ℕ) {d : DataItem}
    → Entries h db
    → registered p db ≡ true
    → item_at h p ≡ some d
    → find_name d.name db ≡ some p
unfolding find_name
registered-find_name h [] p e r s = absurd (cc)
registered-find_name h ((m, o) ∷ db) p {d} e r s = elim (Bool-cases (o == p)) [
  | inl same ↦
      let t : o ≡ p = (==_iff o p).0 same in
      let i : d ≡ e.0.item = cc (e.0.stored) in
      let named : d.name ≡ m = ap (λ (x : DataItem). x.name) i ∙ e.0.named in
      rw ((bytes_eq_iff m d.name).1 (sym named)) (ap some t)
  | inr other ↦
      let later = registered-find_name h db p e.2 (rw other at r) s in
      elim (Bool-cases (bytes_eq m d.name)) [
        | inr new ↦ rw new later
        | inl again ↦
            let t : m ≡ d.name = (bytes_eq_iff m d.name).0 again in
            let gone : find_name d.name db ≡ none = rw (← t) e.1 in absurd (cc)
      ]
]

name_at :
    (h : Heap) (db : NameMap) (n : Name) (p : ℕ) {d : DataItem}
    → Entries h db
    → registered p db ≡ true
    → item_at h p ≡ some d
    → bytes_eq d.name n ≡ elim (find_name n db) [ none ↦ false | some o ↦ o == p ]
name_at h db n p {d} e r s =
    let here = registered-find_name h db p e r s in
    elim (Bool-cases (bytes_eq d.name n)) [
      | inl same ↦
          let t : d.name ≡ n = (bytes_eq_iff d.name n).0 same in
          let f : find_name n db ≡ some p = rw (← t) here in rw (same, f) (sym (==_refl p))
      | inr differs ↦ elim (Option-cases (find_name n db)) [
        | inl miss ↦ rw (differs, miss) refl
        | inr (o, found) ↦ elim (Bool-cases (o == p)) [
          | inr other ↦ rw (differs, found, other) refl
          | inl same ↦
              let t : o ≡ p = (==_iff o p).0 same in
              let x = (find_name-Entry h db n o e found).0 in
              let i : d ≡ x.item = cc (x.stored) in
              let named : d.name ≡ n = ap (λ (y : DataItem). y.name) i ∙ x.named in
              absurd (cc ((bytes_eq_iff d.name n).1 named))
        ]
      ]
    ]

module _ (F : Double) (order : HashOrder ℕ) (q : List ℕ) where
  open F use {Num, less}

  -- A non-empty frame in common, and numbers of different frames that are not too far apart.
  abbrev pub common : List ℕ → Bool
  common fs = any_of (λ k. not (k == empty_frame) && member k fs) q

  abbrev pub near : List ℕ → Bool
  near fs = not (too_different (length (collect [] fs)) (length (insert_all [] q)))

  -- The entry of the result for a name: its score, if the video is alike enough.
  abbrev pub listing : Videos → Name → Scores F
  listing vs n = elim (vs n) [
    | none ↦ []
    | some fs ↦ if common fs && near fs then hit_of F order q (some (n, fs)) else []
  ]

  -- How often an entry passes that is of the name `n`, in a list of at most one.
  count-hit_of :
      (n m : Name) (fs : List ℕ) (t : Name × Num → Bool)
      → count_if (λ e. bytes_eq e.0 n && t e) (hit_of F order q (some (m, fs)))
        ≡ (if bytes_eq m n then count_if t (hit_of F order q (some (m, fs))) else 0)
  count-hit_of n m fs t = ground arith

  -- An item adds its hit to the name that is found at it, and to no other.
  count_one :
      (h : Heap) (db : NameMap) (n : Name) (t : Name × Num → Bool) (p : ℕ) {d : DataItem}
      → Entries h db
      → registered p db ≡ true
      → item_at h p ≡ some d
      → count_if (λ e. bytes_eq e.0 n && t e) (hit_of F order q (content_at h p))
        ≡ elim (find_name n db) [
          | none ↦ 0
          | some o ↦ if o == p then count_if t (hit_of F order q (content_at h o)) else 0
        ]
  count_one h db n t p {d} e r s =
      let c : content_at h p ≡ some (d.name, d.frames) = ground (arith, s) in
      let same = name_at h db n p e r s in
      let first = count-hit_of n d.name d.frames t in
      elim (Option-cases (find_name n db)) [
        | inl miss ↦ rw (c, miss, first) (rw (same, miss) refl)
        | inr (o, found) ↦ elim (Bool-cases (o == p)) [
          | inl here ↦
              let i : o ≡ p = (==_iff o p).0 here in
              rw (found, here, i, c, first) (rw (same, found, here) refl)
          | inr other ↦ rw (c, found, other, first) (rw (same, found, other) refl)
        ]
      ]

  -- The count of one item more, for the one pointer that counts.
  count_sum :
      (n : Name) (p : ℕ) (ps : List ℕ) (x : ℕ → ℕ) (found : Option ℕ) {a b : ℕ}
      → a ≡ elim found [ none ↦ 0 | some o ↦ if o == p then x o else 0 ]
      → b ≡ elim found [ none ↦ 0 | some o ↦ count o ps * x o ]
      → a + b ≡ elim found [ none ↦ 0 | some o ↦ count o (p ∷ ps) * x o ]
  count_sum n p ps x none e f = omega arith
  count_sum n p ps x (some o) e f = elim (Bool-cases (o == p)) [
    | inl here ↦
        let g : (p == o) ≡ true = ground (arith, here) in
        let e' = rw here at e in rw g (omega (arith, e', f))
    | inr other ↦
        let g : (p == o) ≡ false = ground (arith, other) in
        let e' = rw other at e in rw g (omega (arith, e', f))
  ]

  -- How often an entry of the name `n` stands among the hits of registered items.
  count-hits :
      (h : Heap) (db : NameMap) (n : Name) (t : Name × Num → Bool) (ps : List ℕ)
      → Entries h db
      → ((p : ℕ) → member p ps ≡ true → registered p db ≡ true)
      → count_if (λ e. bytes_eq e.0 n && t e) (hits F order q h ps) ≡ elim (find_name n db) [
        | none ↦ 0
        | some o ↦ count o ps * count_if t (hit_of F order q (content_at h o))
      ]
  count-hits h db n t [] e r = elim (Option-cases (find_name n db)) [
    | inl miss ↦ rw miss refl
    | inr (o, found) ↦ rw found (omega arith)
  ]
  count-hits h db n t (p ∷ ps) e r =
      let known = r p (ground (arith, ==_refl p)) in
      let (m, x) = registered-Entry h db p e known in
      let one = count_one h db n t p e known x.stored in
      let rest = count-hits h db n t ps e (λ o i. r o (ground (arith, i))) in
      count_if-append (λ i. bytes_eq i.0 n && t i) (hit_of F order q (content_at h p))
        (hits F order q h ps)
      ∙ count_sum n p ps (λ o. count_if t (hit_of F order q (content_at h o))) (find_name n db) one
          rest

  -- `common` and `near` of the frames, at the pointer that the name is found at.
  found_near :
      (v : VideoDb) (n : Name) (o : ℕ)
      → IsValid v
      → find_name n v.db ≡ some o
      → (fs : List ℕ) × (view v n ≡ some fs)
        × (content_at v.heap o ≡ some (n, fs))
        × ((shares v q o && is_near (length (insert_all [] q)) v.heap o) ≡ (common fs && near fs))
  found_near v n o valid found =
      let known = (find_name-Entry v.heap v.db n o valid.entries found).1 in
      let (e, seen) = view_found v n o valid found in
      let fs = e.item.frames in
      let same : shares v q o ≡ common fs =
        any_of_ext (λ k. indexed v k o) (λ k. not (k == empty_frame) && member k fs)
          (λ k. ground (arith, e.stored, known)) q in
      (
        fs,
        seen,
        ground (arith, e.stored, e.named),
        ap₂ ◌&&◌ same (ground (arith, e.stored, e.counted)),
      )

  -- What a query gives on `v`.
  pub record Lists (orders : Orders) (v : VideoDb) (r : ℤ × Scores F × VideoDb) : Type 0 where
    pub code : r.0 ≡ to_int (length r.1)
    pub ranked : IsRanked F r.1
    pub kept : r.2 ≡ v
    pub listed :
        (n : Name) (t : Name × Num → Bool)
        → count_if (λ e. bytes_eq e.0 n && t e) r.1 ≡ count_if t (listing (view v) n)

  -- The hits of the candidates are, for each name, its listing.
  pub listed_names :
      (v : VideoDb) (n : Name) (t : Name × Num → Bool) (ps : List ℕ)
      → IsValid v
      → ((p : ℕ) → member p ps ≡ true → registered p v.db ≡ true)
      → ((p : ℕ) → count p ps ≡ bit (shares v q p && is_near (length (insert_all [] q)) v.heap p))
      → 0 + count_if (λ e. bytes_eq e.0 n && t e) (hits F order q v.heap ps)
        ≡ count_if t (listing (view v) n)
  listed_names v n t ps valid known found = elim (Option-cases (find_name n v.db)) [
    | inl miss ↦
        let c = count-hits v.heap v.db n t ps valid.entries known in
        let gone = view_missing v n miss in ground (arith, c, miss, gone)
    | inr (o, place) ↦
        let (fs, seen, content, same) = found_near v n o valid place in
        let c = rw place at (count-hits v.heap v.db n t ps valid.entries known) in
        let hit = ap (λ i. count_if t (hit_of F order q i)) content in
        elim (Bool-cases (common fs && near fs)) [
          | inl yes_near ↦
              let once : count o ps ≡ 1 = found o ∙ ap bit (same ∙ yes_near) in
              let c1 = rw once at c in
              let l : listing (view v) n ≡ hit_of F order q (some (n, fs)) =
                ground (arith, seen, yes_near) in
              omega (arith, c1, hit, ap (count_if t) l)
          | inr not_near ↦
              let none_there : count o ps ≡ 0 = found o ∙ ap bit (same ∙ not_near) in
              let c1 = rw none_there at c in
              let l : listing (view v) n ≡ [] = ground (arith, seen, not_near) in
              omega (arith, c1, ap (count_if t) l)
        ]
  ]

-- On a well-formed database `Query` by frames does not fault and leaves the database as it was,
-- reference counts included. Its result has falling scores, and for each name the entry of
-- `listing` and nothing else: a stored video is listed, once, with its score, exactly if it has a
-- non-empty frame in common with the query, a near number of frames, and a score above the
-- threshold. The code is the number of entries.
pub query_frames-Lists :
    (F : Double) (order : HashOrder ℕ) (orders : Orders) (d : DataItem) (v : VideoDb)
    → IsValid v
    → (r : ℤ × Scores F × VideoDb) × (query_frames F order orders d v ≡ some r)
      × Lists F order d.frames orders v r
unfolding query_frames
query_frames-Lists F order orders d v valid =
    let (found, x) = get_candidates1-Finds orders d.frames v valid in
    let ps = found.1 in
    let h1 = take_refs ps v.heap in
    let hs = hits F order d.frames v.heap ps in
    let known : (p : ℕ) → member p ps ≡ true → registered p v.db ≡ true = λ p m.
      shares-registered v d.frames p
        (ground (arith, m, any_of-count_if (λ x. x == p) ps, x.found p)) in
    let live : (p : ℕ) → member p ps ≡ true → (i : DataItem) × (item_at h1 p ≡ some i) =
      λ p m. IsLive-take_refs ps v.heap p (registered-IsLive v p valid (known p m)) in
    let same = hits_ext F order d.frames h1 v.heap (λ p. content_at-take_refs ps p v.heap) ps in
    let ran =
      score_each-hits F order d.frames ps h1 [] (Kept-take_refs ps v.heap valid.kept) live in
    let back = drop_refs-take_refs ps v.heap valid.kept in
    (
      (to_int (length (rank_onto F [] hs)), rank_onto F [] hs, v),
      rw (x.runs, x.taken) (rw (ran, same, back) refl),
      record {
        code = refl;
        ranked = rank-IsRanked F hs;
        kept = refl;
        listed = λ n t.
            count_if-rank_onto F (λ e. bytes_eq e.0 n && t e) [] hs
            ∙ listed_names F order d.frames v n t ps valid known x.found;
      },
    )
