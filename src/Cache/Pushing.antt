-- ===== src/Cache/Pushing.antt =====
-- The end of `VideoManager::load` of browse_server/main.cpp: a new item at the front of the list.
use video_match.Base.{
  ℕ, ◌≤◌, ◌<◌, ◌≡◌, refl, List, get_or-append, [], ◌∷◌, ◌++◌, Option, none, some, ◌==◌, length,
  arith, Bool-cases, inl, inr, ◌∙◌, sym, Name, bytes_eq, bytes_eq_iff, bytes_eq_refl, count,
}
use video_match.Cache.Files.{Frames}
use video_match.Cache.Chain.{
  Cell, item_of, places, first_or, last_or, Links, SameAt, Links-SameAt, item_at-lt, Outside, Apart,
}
use video_match.Cache.Names.{
  place_of, Named, Unique, place_of_absent, find_name-erase_name, Unique-erase_name,
}
use video_match.Cache.Holds.{Holds}
use video_match.Cache.Writes.{set_prev-Links}
use video_match.Cache.{Heap, Item, Manager, item_at, assign_name, push_front}
use video_match.VideoDb.{NameMap, find_name}

-- The heap grows at its end.
item_at-append :
    (h : Heap) (x : Option Item) (p : ℕ) → p < length h → item_at (h ++ x ∷ []) p ≡ item_at h p
item_at-append h x p lt = ground (arith, get_or-append h p x none, lt)

item_at_end : (h : Heap) (x : Option Item) → item_at (h ++ x ∷ []) (length h) ≡ x
item_at_end h x = ground (arith, get_or-append h (length h) x none)

SameAt-append :
    (h : Heap) (x : Option Item) (before after : Option ℕ) (cs : List Cell)
    → Links h before cs after
    → SameAt cs h (h ++ x ∷ [])
SameAt-append h x before after [] l = tt
SameAt-append h x before after (c ∷ cs) l = (
  item_at-append h x c.place (item_at-lt h c.place l.0),
  SameAt-append h x (some c.place) after cs l.1,
)

-- A place behind the heap is that of no cell.
count-places_behind :
    (h : Heap) (before after : Option ℕ) (cs : List Cell) (q : ℕ)
    → Links h before cs after
    → length h ≤ q
    → count q (places cs) ≡ 0
count-places_behind h before after [] q l far = refl
count-places_behind h before after (c ∷ cs) q l far =
    ground (
      arith,
      far,
      item_at-lt h c.place l.0,
      count-places_behind h (some c.place) after cs q l.1 far,
    )

first_Outside :
    (h : Heap) (before after : Option ℕ) (cs : List Cell) (c : Cell)
    → Links h before cs after
    → length h ≤ c.place
    → Outside (first_or none cs) (c ∷ [])
first_Outside h before after [] c l far = tt
first_Outside h before after (d ∷ cs) c l far = ground (arith, far, item_at-lt h d.place l.0)

Apart-cons :
    (h : Heap) (before after : Option ℕ) (cs : List Cell) (c : Cell)
    → Links h before cs after
    → length h ≤ c.place
    → Apart cs
    → Apart (c ∷ cs)
Apart-cons h before after cs c l far a q = elim (Bool-cases (c.place == q)) [
  | inr other ↦ ground (arith, other, a q)
  | inl same ↦
      let none_there = count-places_behind h before after cs q l (ground (arith, same, far)) in
      ground (arith, same, none_there)
]

new_Unique : (n : Name) (p : ℕ) (db : NameMap) → Unique db → Unique (assign_name n p db)
unfolding assign_name
new_Unique n p db u =
    (find_name-erase_name n n db ∙ rw (bytes_eq_refl n) refl, Unique-erase_name n db u)

assign_name-place_of :
    (n : Name) (c : Cell) (cs : List Cell) (db : NameMap)
    → find_name n db ≡ place_of n cs
    → find_name n (assign_name c.name c.place db) ≡ place_of n (c ∷ cs)
unfolding assign_name find_name place_of
assign_name-place_of n c cs db f = ground (arith, f, find_name-erase_name c.name n db)

pub last_or_there :
    (p d : ℕ) (cs : List Cell)
    → elim (last_or (some p) cs) [ none ↦ some d | some t ↦ some t ] ≡ last_or (some p) cs
last_or_there p d [] = refl
last_or_there p d (c ∷ cs) = last_or_there c.place d cs

-- `if (tail_ == nullptr) tail_ = di;` with a new item before the others
pub tail-front :
    (d : ℕ) (cs : List Cell)
    → elim (last_or none cs) [ none ↦ some d | some t ↦ some t ] ≡ last_or (some d) cs
tail-front d [] = refl
tail-front d (c ∷ cs) = last_or_there c.place d cs

pub Named-cons : (c : Cell) (cs : List Cell) → Named cs → place_of c.name cs ≡ none → Named (c ∷ cs)
Named-cons c cs a out n = elim (Bool-cases (bytes_eq c.name n)) [
  | inr other ↦ ground (arith, other, a n)
  | inl same ↦
      let t : c.name ≡ n = (bytes_eq_iff c.name n).0 same in
      let u : place_of n cs ≡ none = rw t at out in ground (arith, same, place_of_absent n cs u)
]

-- The cell of a new item.
abbrev pub new_cell : Name → Frames × ℕ → Manager → Cell
new_cell key files m = record {
  place = length m.heap;
  name = key;
  frames = files.0;
  size = files.1;
}

pub push_front-Holds :
    (m : Manager) (cs : List Cell) (key : Name) (files : Frames × ℕ)
    → Holds m cs
    → find_name key m.loaded ≡ none
    → (m' : Manager) × (push_front key files m ≡ some m')
      × Holds m' (new_cell key files m ∷ cs)
      × (m'.cache_size ≡ m.cache_size)
      × (m'.raw_path ≡ m.raw_path)
unfolding push_front
push_front-Holds m cs key files v fresh =
    let c = new_cell key files m in
    let h1 = m.heap ++ some (item_of c none (first_or none cs)) ∷ [] in
    let old =
      Links-SameAt m.heap h1 none none cs
        (SameAt-append m.heap (some (item_of c none (first_or none cs))) none none cs v.linked)
        v.linked in
    let (g, wrote, links, kept) = set_prev-Links h1 none none (some c.place) cs v.apart old in
    let out = first_Outside m.heap none none cs c v.linked (omega arith) in
    (
      record m {
        heap = g;
        head = some c.place;
        tail = elim m.tail [ none ↦ some c.place | some t ↦ some t ];
        loaded = assign_name key c.place m.loaded;
      },
      rw v.head_first (rw wrote refl),
      record {
        head_first = refl;
        tail_last = rw v.tail_last (tail-front c.place cs);
        linked = ((kept.1 (c ∷ []) out).0 ∙ item_at_end m.heap _, links);
        apart = λ q. Apart-cons m.heap none none cs c v.linked (omega arith) v.apart q;
        named = Named-cons c cs v.named (sym (v.found key) ∙ fresh);
        unique = new_Unique key c.place m.loaded v.unique;
        found = λ n. assign_name-place_of n c cs m.loaded (v.found n);
      },
      refl,
      refl,
    )
