-- ===== src/DbFile/Fresh.antt =====
-- What the first loop of `VideoDB::Load` makes of any file that it can read: items that are not yet
-- counted, each under its name.
use video_match.Base.{
  ℕ, zero, suc, ◌≡◌, refl, false, [], ◌∷◌, ◌++◌, Option, none, some, any_of, leb, length, arith,
  Name, ℤ, pos, pos_part, ◌+ℤ◌, Option-cases, some_injective, inl, inr, ◌∙◌,
}
use mathlib.Core.Path.{subst}
use video_match.DbFile.{ByteList, read_le, read_text}
use video_match.DbFile.Load.{
  Loading, load_frames, load_item, load_items, read_int, bytes_from, count_slot,
}
use video_match.DbFile.Loading.{Sound, with_item-Sound}
use video_match.VideoDb.Index.{◌>>=◌}
use video_match.VideoDb.References.{Kept, Kept-append}
use video_match.VideoDb.Valid.{item_at-append, item_at-lt}
use video_match.VideoDb.{
  DataItem, Heap, item_at, NameMap, find_name, insert_name, key_shorten, new_item, push_frame,
}

-- Inversion of a step that succeeded.
pub >>=-eq-some :
    {A B : Type 0} (m : Option A) (f : A → Option B) {b : B}
    → (m >>= f) ≡ some b
    → (a : A) × (m ≡ some a) × (f a ≡ some b)
>>=-eq-some none f h = absurd (cc h)
>>=-eq-some (some a) f h = (a, refl, h)

new_item-name : (n : Name) → (new_item n).name ≡ n
unfolding new_item
new_item-name n = refl

new_item-kept : (n : Name) → (new_item n).deleted ≡ false
unfolding new_item
new_item-kept n = refl

-- The pointer leads to a live item of the name.
pub record Named (h : Heap) (n : Name) (p : ℕ) : Type 0 where
  pub item : DataItem
  pub stored : item_at h p ≡ some item
  pub named : item.name ≡ n

-- Every name leads to its item, no name is there twice, and the pointers fall along the list.
abbrev pub AllNamed : Heap → NameMap → Type 0
AllNamed h [] = Unit
AllNamed h ((n, p) ∷ db) =
    Named h n p × (find_name n db ≡ none) × (any_of (λ e. leb p e.1) db ≡ false) × AllNamed h db

pub record Fresh (h : Heap) (db : NameMap) : Type 0 where
  pub sound : Sound h db
  pub named : AllNamed h db
  pub kept : Kept h

Named-append :
    {h : Heap} {n : Name} {p : ℕ} (c : Option DataItem) → Named h n p → Named (h ++ c ∷ []) n p
Named-append {h} {n} {p} c e = record {
  item = e.item;
  stored = ground (arith, item_at-append h c p, item_at-lt h p e.stored, e.stored);
  named = e.named;
}

AllNamed-append :
    (h : Heap) (db : NameMap) (c : Option DataItem) → AllNamed h db → AllNamed (h ++ c ∷ []) db
AllNamed-append h [] c e = tt
AllNamed-append h ((n, p) ∷ db) c e = (Named-append c e.0, e.1, e.2, AllNamed-append h db c e.3)

last-Named : (h : Heap) (d : DataItem) → Named (h ++ some d ∷ []) d.name (length h)
last-Named h d = record {
  item = d;
  stored = ground (arith, item_at-append h (some d) (length h));
  named = refl;
}

-- An item that is not marked goes to the end of the heap, and into the map if its name is free.
with_item-Fresh :
    (d : DataItem) (h : Heap) (db : NameMap)
    → d.deleted ≡ false
    → Fresh h db
    → Fresh (h ++ some d ∷ []) (insert_name d.name (length h) db)
unfolding insert_name
with_item-Fresh d h db unmarked f = record {
  sound = with_item-Sound d.name d h db f.sound;
  named = elim (Option-cases (find_name d.name db)) [
    | inl free ↦
        rw (free, insert_name)
          (last-Named h d, free, f.sound.below, AllNamed-append h db (some d) f.named)
    | inr (p, taken) ↦ rw (taken, insert_name) (AllNamed-append h db (some d) f.named)
  ];
  kept = Kept-append h d f.kept unmarked;
}

-- The loop over the frames leaves the name and the mark alone.
load_frames-name :
    (file : ByteList) (rounds : ℕ) (s : ℤ) (di : DataItem) (cnt : ℕ → ℕ) {s' : ℤ} {di' : DataItem}
    {cnt' : ℕ → ℕ}
    → load_frames file rounds s di cnt ≡ some (s', di', cnt')
    → (di'.name ≡ di.name) × (di'.deleted ≡ di.deleted)
unfolding load_frames push_frame
load_frames-name file zero s di cnt h = (cc h, cc h)
load_frames-name file (suc rounds) s di cnt h =
    let (bytes, e1, h1) = >>=-eq-some (bytes_from file s) _ h in
    let (hash, e2, h2) = >>=-eq-some (read_le 8 bytes) _ h1 in
    load_frames-name file rounds (s +ℤ pos 8) (push_frame hash di)
      (count_slot (key_shorten hash) cnt) h2

load_item-Fresh :
    (file : ByteList) (l : Loading) {l' : Loading}
    → load_item file l ≡ some l'
    → Fresh l.heap l.db
    → Fresh l'.heap l'.db
unfolding load_item
load_item-Fresh file l {l'} h f =
    let (vnlen, e1, h1) = >>=-eq-some (read_int file l.cursor) _ h in
    let (text, e2, h2) = >>=-eq-some (bytes_from file (l.cursor +ℤ pos 4)) _ h1 in
    let (vn, e3, h3) = >>=-eq-some (read_text text) _ h2 in
    let (fc, e4, h4) = >>=-eq-some (read_int file (l.cursor +ℤ pos 4 +ℤ (vnlen +ℤ pos 1))) _ h3 in
    let ((s2, di, cnt), e5, h5) =
      >>=-eq-some
        (load_frames file (pos_part fc) (l.cursor +ℤ pos 4 +ℤ (vnlen +ℤ pos 1) +ℤ pos 4)
          (new_item vn) l.hslot_cnt)
        _ h4 in
    let (named, marked) =
      load_frames-name file (pos_part fc) (l.cursor +ℤ pos 4 +ℤ (vnlen +ℤ pos 1) +ℤ pos 4)
        (new_item vn) l.hslot_cnt e5 in
    let made : Fresh (l.heap ++ some di ∷ []) (insert_name vn (length l.heap) l.db) =
      subst (λ n. Fresh (l.heap ++ some di ∷ []) (insert_name n (length l.heap) l.db))
        (named ∙ new_item-name vn) (with_item-Fresh di l.heap l.db (marked ∙ new_item-kept vn) f) in
    subst (λ x. Fresh x.heap x.db) (some_injective h5) made

pub load_items-Fresh :
    (file : ByteList) (rounds : ℕ) (l : Loading) {l' : Loading}
    → load_items file rounds l ≡ some l'
    → Fresh l.heap l.db
    → Fresh l'.heap l'.db
unfolding load_items
load_items-Fresh file zero l h f = subst (λ x. Fresh x.heap x.db) (some_injective h) f
load_items-Fresh file (suc rounds) l h f =
    let (l1, e1, h1) = >>=-eq-some (load_item file l) _ h in
    load_items-Fresh file rounds l1 h1 (load_item-Fresh file l e1 f)
