-- ===== src/Cache/Chain.antt =====
-- Stretches of the doubly linked list of `VideoManager`, and what a write to a link makes of them.
use video_match.Base.{
  ℕ, ◌+◌, ◌≤◌, ◌<◌, ◌≡◌, refl, List, [], ◌∷◌, ◌++◌, Option, none, some, ◌==◌, ==_refl, length,
  count, count_if-append, set, get_or-set, get_or-lt, length-set, arith, Name, ◌∙◌, ap,
}
use video_match.Cache.Files.{Frames}
use video_match.Cache.{Item, Heap, item_at}

-- What the cache holds for a video, and the place of its item.
pub record Cell : Type 0 where
  pub place : ℕ
  pub name : Name
  pub frames : Frames
  pub size : ℕ

abbrev pub item_of : Cell → Option ℕ → Option ℕ → Item
item_of c p n = record { name = c.name; frames = c.frames; size = c.size; prev = p; next = n }

abbrev pub places : List Cell → List ℕ
places [] = []
places (c ∷ cs) = c.place ∷ places cs

-- The place of the first cell, and of the last; `other` for no cells.
abbrev pub first_or : Option ℕ → List Cell → Option ℕ
first_or other [] = other
first_or other (c ∷ cs) = some c.place

abbrev pub last_or : Option ℕ → List Cell → Option ℕ
last_or other [] = other
last_or other (c ∷ cs) = last_or (some c.place) cs

-- The items of the cells are linked in this order, from `before` to `after`.
abbrev pub Links : Heap → Option ℕ → List Cell → Option ℕ → Type 0
Links h before [] after = Unit
Links h before (c ∷ cs) after =
    (item_at h c.place ≡ some (item_of c before (first_or after cs)))
    × Links h (some c.place) cs after

pub places-append : (cs ds : List Cell) → places (cs ++ ds) ≡ places cs ++ places ds
places-append [] ds = refl
places-append (c ∷ cs) ds = ap (◌∷◌ c.place) (places-append cs ds)

pub last_or-append :
    (o : Option ℕ) (cs ds : List Cell) → last_or o (cs ++ ds) ≡ last_or (last_or o cs) ds
last_or-append o [] ds = refl
last_or-append o (c ∷ cs) ds = last_or-append (some c.place) cs ds

pub first_or-append :
    (o : Option ℕ) (cs ds : List Cell) → first_or o (cs ++ ds) ≡ first_or (first_or o ds) cs
first_or-append o [] ds = refl
first_or-append o (c ∷ cs) ds = refl

pub Links-append :
    (h : Heap) (before after : Option ℕ) (cs ds : List Cell)
    → Links h before cs (first_or after ds)
    → Links h (last_or before cs) ds after
    → Links h before (cs ++ ds) after
Links-append h before after [] ds l k = k
Links-append h before after (c ∷ cs) ds l k =
    (rw (first_or-append after cs ds) l.0, Links-append h (some c.place) after cs ds l.1 k)

pub Links-split :
    (h : Heap) (before after : Option ℕ) (cs ds : List Cell)
    → Links h before (cs ++ ds) after
    → Links h before cs (first_or after ds) × Links h (last_or before cs) ds after
Links-split h before after [] ds l = (tt, l)
Links-split h before after (c ∷ cs) ds l =
    let (left, right) = Links-split h (some c.place) after cs ds l.1 in
    ((rw (first_or-append after cs ds) at l.0, left), right)

-- `g` has the items of `h` at the places of the cells.
abbrev pub SameAt : List Cell → Heap → Heap → Type 0
SameAt [] h g = Unit
SameAt (c ∷ cs) h g = (item_at g c.place ≡ item_at h c.place) × SameAt cs h g

pub Links-SameAt :
    (h g : Heap) (before after : Option ℕ) (cs : List Cell)
    → SameAt cs h g
    → Links h before cs after
    → Links g before cs after
Links-SameAt h g before after [] s l = tt
Links-SameAt h g before after (c ∷ cs) s l =
    (s.0 ∙ l.0, Links-SameAt h g (some c.place) after cs s.1 l.1)

-- A write to a place that no cell has.
pub SameAt-set :
    (h : Heap) (p : ℕ) (v : Option Item) (cs : List Cell)
    → p < length h
    → count p (places cs) ≡ 0
    → SameAt cs h (set h p v)
SameAt-set h p v [] lt out = tt
SameAt-set h p v (c ∷ cs) lt out = (
  ground (arith, get_or-set h p c.place v none lt, out),
  SameAt-set h p v cs lt (ground (arith, out)),
)

pub SameAt-trans : (cs : List Cell) (f g h : Heap) → SameAt cs f g → SameAt cs g h → SameAt cs f h
SameAt-trans [] f g h s t = tt
SameAt-trans (c ∷ cs) f g h s t = (t.0 ∙ s.0, SameAt-trans cs f g h s.1 t.1)

pub SameAt-refl : (cs : List Cell) (h : Heap) → SameAt cs h h
SameAt-refl [] h = tt
SameAt-refl (c ∷ cs) h = (refl, SameAt-refl cs h)

pub item_at-lt : (h : Heap) (p : ℕ) {i : Item} → item_at h p ≡ some i → p < length h
item_at-lt h p e = get_or-lt h p e

pub item_at-set : (h : Heap) (p : ℕ) (v : Option Item) → p < length h → item_at (set h p v) p ≡ v
item_at-set h p v lt = get_or-set h p p v none lt ∙ rw (==_refl p) refl

-- The place is that of no cell.
abbrev pub Outside : Option ℕ → List Cell → Type 0
Outside none cs = Unit
Outside (some q) cs = count q (places cs) ≡ 0

-- What a write to the links at `p` leaves alone: all other places.
abbrev pub Wrote : Heap → Option ℕ → Heap → Type 0
Wrote h p g = (length g ≡ length h) × ((cs : List Cell) → Outside p cs → SameAt cs h g)

pub Wrote-set : (h : Heap) (p : ℕ) (v : Option Item) → p < length h → Wrote h (some p) (set h p v)
Wrote-set h p v lt = (length-set h p v, λ cs out. SameAt-set h p v cs lt out)

-- No place is there twice.
abbrev pub Apart : List Cell → Type 0
Apart cs = (q : ℕ) → count q (places cs) ≤ 1

pub count-places_append :
    (q : ℕ) (cs ds : List Cell)
    → count q (places (cs ++ ds)) ≡ count q (places cs) + count q (places ds)
count-places_append q cs ds =
    ap (count q) (places-append cs ds) ∙ count_if-append (λ x. x == q) (places cs) (places ds)
