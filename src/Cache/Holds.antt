-- ===== src/Cache/Holds.antt =====
-- The invariant of `VideoManager` of browse_server/main.cpp: the list and the map hold the same
-- items, and the writes at the ends of the list keep that.
use video_match.Base.{
  ◌^◌, ◌<◌, ◌≡◌, refl, List, [], ◌∷◌, ◌++◌, none, some, if◌then◌else◌, count, set, length, arith,
  inl, inr, Name, bytes_eq, bytes_eq_refl, ◌∙◌, ap, sym, count_if-append, ==_refl, Option-cases,
}
use video_match.Cache.Chain.{
  Cell, places, first_or, last_or, Links, Links-split, SameAt-set, Links-SameAt, item_at-lt, Apart,
  count-places_append,
}
use video_match.Cache.Names.{
  place_of, has_name, Named, Unique, total, find_name-erase_name, place_of_absent,
  Unique-erase_name,
}
use video_match.Cache.Sizes.{length-erase_name, Links-Stored, total-cells}
use video_match.Cache.Writes.{set_next-Links}
use video_match.Cache.{Heap, Manager, erase_name, get_size, evict, same_ptr}
use video_match.VideoDb.{find_name}

pub record Holds (m : Manager) (cs : List Cell) : Type 0 where
  pub head_first : m.head ≡ first_or none cs
  pub tail_last : m.tail ≡ last_or none cs
  pub linked : Links m.heap none cs none
  pub apart : Apart cs
  pub named : Named cs
  pub unique : Unique m.loaded
  pub found : (n : Name) → find_name n m.loaded ≡ place_of n cs

pub get_size-Holds :
    (m : Manager) (cs : List Cell) → Holds m cs → total cs < 2 ^ 64 → get_size m ≡ some (total cs)
unfolding get_size
get_size-Holds m cs v small =
    rw
      (total-cells m.heap m.loaded cs v.unique v.named (Links-Stored m.heap none none cs v.linked)
        v.found)
      (ap some (omega (arith, small)))

count-places_snoc :
    (cs : List Cell) (c : Cell) → Apart (cs ++ c ∷ []) → count c.place (places cs) ≡ 0
count-places_snoc cs c a = ground (arith, a c.place, count-places_append c.place cs (c ∷ []))

Apart-front : (cs ds : List Cell) → Apart (cs ++ ds) → Apart cs
Apart-front cs ds a q = omega (arith, a q, count-places_append q cs ds)

Named-front : (cs ds : List Cell) → Named (cs ++ ds) → Named cs
Named-front cs ds a n = omega (arith, a n, count_if-append (has_name n) cs ds)

place_of-front :
    (n : Name) (cs : List Cell) (c : Cell)
    → Named (cs ++ c ∷ [])
    → (if bytes_eq c.name n then none else place_of n (cs ++ c ∷ [])) ≡ place_of n cs
unfolding place_of
place_of-front n [] c a = ground arith
place_of-front n (d ∷ cs) c a =
    let rest = place_of-front n cs c (λ k. omega (arith, a k)) in
    let once = count_if-append (has_name n) cs (c ∷ []) in ground (arith, rest, once, a n)

head-front :
    (cs : List Cell) (c : Cell)
    → Apart (cs ++ c ∷ [])
    → (if same_ptr (first_or none (cs ++ c ∷ [])) (some c.place)
        then none
        else first_or none (cs ++ c ∷ []))
      ≡ first_or none cs
head-front [] c a = rw (==_refl c.place) refl
head-front (d ∷ cs) c a = let alone = count-places_snoc (d ∷ cs) c a in ground (arith, alone)

length-erased :
    (m : Manager) (cs : List Cell) (c : Cell)
    → Holds m (cs ++ c ∷ [])
    → length (erase_name c.name m.loaded) < length m.loaded
length-erased m cs c v = elim (Option-cases (find_name c.name m.loaded)) [
  | inr (p, there) ↦ length-erase_name c.name m.loaded p there
  | inl gone ↦
      let absent = place_of_absent c.name (cs ++ c ∷ []) (sym (v.found c.name) ∙ gone) in
      let once = count_if-append (has_name c.name) cs (c ∷ []) in
      absurd (ground (arith, absent, once, bytes_eq_refl c.name))
]

-- The last item is taken out.
abbrev evicted : Manager → List Cell → Cell → Heap → Manager
evicted m cs c h = record m {
  heap = set h c.place none;
  head = if same_ptr m.head (some c.place) then none else m.head;
  tail = last_or none cs;
  loaded = erase_name c.name m.loaded;
}

evicted-Holds :
    (m : Manager) (cs : List Cell) (c : Cell) (h : Heap)
    → Holds m (cs ++ c ∷ [])
    → Links h none cs none
    → c.place < length h
    → Holds (evicted m cs c h) cs
evicted-Holds m cs c h v l lt = record {
  head_first = rw v.head_first (head-front cs c v.apart);
  tail_last = refl;
  linked =
      Links-SameAt h (set h c.place none) none none cs
        (SameAt-set h c.place none cs lt (count-places_snoc cs c v.apart)) l;
  apart = Apart-front cs (c ∷ []) v.apart;
  named = Named-front cs (c ∷ []) v.named;
  unique = Unique-erase_name c.name m.loaded v.unique;
  found =
      λ n. find_name-erase_name c.name n m.loaded ∙ rw (v.found n) (place_of-front n cs c v.named);
}

pub evict-Holds :
    (m : Manager) (cs : List Cell) (c : Cell)
    → Holds m (cs ++ c ∷ [])
    → (m' : Manager) × (evict c.place m ≡ some m')
      × Holds m' cs
      × (m'.cache_size ≡ m.cache_size)
      × (m'.raw_path ≡ m.raw_path)
      × (length m'.loaded < length m.loaded)
unfolding evict
evict-Holds m cs c v =
    let (left, right) = Links-split m.heap none none cs (c ∷ []) v.linked in
    let (h, wrote, links, kept) =
      set_next-Links m.heap none (some c.place) none cs (Apart-front cs (c ∷ []) v.apart) left in
    let lt : c.place < length h = rw kept.0 (item_at-lt m.heap c.place right.0) in
    (
      evicted m cs c h,
      rw right.0 (rw wrote refl),
      evicted-Holds m cs c h v links lt,
      refl,
      refl,
      length-erased m cs c v,
    )
