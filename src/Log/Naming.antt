-- ===== src/Log/Naming.antt =====
-- The name that `LogMsg` takes out of the text of a function.
use video_match.Base.{
  ℕ, zero, suc, ◌+◌, ◌<◌, ◌≡◌, refl, true, false, Bool-cases, inl, inr, [], ◌∷◌, ◌++◌, append_assoc,
  ◌==◌, get_or, set, drop, drop-append, length, length-append, member, Name, arith, ap, ◌∙◌, sym,
}
use video_match.Log.{find_name, short_name}
use video_match.Text.{c_str}

get_or-append : (xs ys : Name) (i : ℕ) → get_or (xs ++ ys) (length xs + i) 0 ≡ get_or ys i 0
get_or-append [] ys i = let e : length {A = ℕ} [] + i ≡ i = omega arith in ap (λ k. get_or ys k 0) e
get_or-append (x ∷ xs) ys i =
    let e : length (x ∷ xs) + i ≡ suc (length xs + i) = omega arith in
    ap (λ k. get_or (x ∷ xs ++ ys) k 0) e ∙ get_or-append xs ys i

set-append : (xs ys : Name) (b c : ℕ) → set (xs ++ b ∷ ys) (length xs) c ≡ xs ++ c ∷ ys
set-append [] ys b c = refl
set-append (x ∷ xs) ys b c = ap (◌∷◌ x) (set-append xs ys b c)

get_or-append_left : (xs ys : Name) (i : ℕ) → i < length xs → get_or (xs ++ ys) i 0 ≡ get_or xs i 0
get_or-append_left [] ys i h = elim h [ ]
get_or-append_left (x ∷ xs) ys zero h = refl
get_or-append_left (x ∷ xs) ys (suc i) h = get_or-append_left xs ys i (omega arith)

absent_at :
    (b : ℕ) (xs : Name) (i : ℕ) → member b xs ≡ false → i < length xs → (get_or xs i 0 == b) ≡ false
absent_at b [] i h lt = elim lt [ ]
absent_at b (x ∷ xs) zero h lt = ground arith
absent_at b (x ∷ xs) (suc i) h lt = ground (arith, absent_at b xs i)

-- The loop passes over bytes that are not what it looks for.
skip_args :
    (n k : ℕ) (buffer : Name)
    → ((j : ℕ) → j < k → (get_or buffer (n + j) 0 == b'(') ≡ false)
    → find_name (n + k) false buffer ≡ find_name n false buffer
skip_args n zero buffer h = ap (λ i. find_name i false buffer) (omega arith)
skip_args n (suc k) buffer h =
    let last : find_name (suc (n + k)) false buffer ≡ find_name (n + k) false buffer =
      unfold find_name in rw (h k (omega arith)) refl in
    ap (λ i. find_name i false buffer) (omega arith)
    ∙ last
    ∙ skip_args n k buffer (λ j lt. h j (omega arith))

skip_name :
    (n k : ℕ) (buffer : Name)
    → ((j : ℕ) → j < k → (get_or buffer (n + j) 0 == b' ') ≡ false)
    → find_name (n + k) true buffer ≡ find_name n true buffer
skip_name n zero buffer h = ap (λ i. find_name i true buffer) (omega arith)
skip_name n (suc k) buffer h =
    let last : find_name (suc (n + k)) true buffer ≡ find_name (n + k) true buffer =
      unfold find_name in rw (h k (omega arith)) refl in
    ap (λ i. find_name i true buffer) (omega arith)
    ∙ last
    ∙ skip_name n k buffer (λ j lt. h j (omega arith))

c_str-append : (name rest : Name) → member 0 name ≡ false → c_str (name ++ 0 ∷ rest) ≡ name
unfolding c_str
c_str-append [] rest h = refl
c_str-append (b ∷ name) rest h = elim (Bool-cases (b == 0)) [
  | inl zero_byte ↦ let e = rw zero_byte at h in cc e
  | inr other ↦ let h' = rw other at h in rw other (ap (◌∷◌ b) (c_str-append name rest h'))
]

module _ (before name args : Name) where
  -- `before`, a space, the name, a parenthesis, `args`.
  abbrev pub function_text : Name
  function_text = before ++ b' ' ∷ name ++ b'(' ∷ args

  -- The text up to the name, and up to the parenthesis.
  abbrev front : Name
  front = before ++ b' ' ∷ []

  abbrev stem : Name
  stem = before ++ b' ' ∷ name

  -- The buffer after the parenthesis has been cut off.
  abbrev cut_text : Name
  cut_text = stem ++ 0 ∷ args

  split_front : cut_text ≡ front ++ (name ++ 0 ∷ args)
  split_front =
      ap (λ s. s ++ 0 ∷ args) (sym (append_assoc before (b' ' ∷ []) name))
      ∙ append_assoc front name (0 ∷ args)

  after_paren :
      member b'(' args ≡ false
      → (j : ℕ) → j < length args
      → (get_or function_text (suc (length stem) + j) 0 == b'(') ≡ false
  after_paren plain j lt =
      let place : suc (length stem) + j ≡ length stem + suc j = omega arith in
      rw place (rw (get_or-append stem (b'(' ∷ args) (suc j)) (absent_at b'(' args j plain lt))

  find_paren :
      member b'(' args ≡ false
      → find_name (length function_text) false function_text ≡ find_name (length stem) true cut_text
  find_paren plain =
      let size : length function_text ≡ suc (length stem) + length args =
        length-append stem (b'(' ∷ args) ∙ omega arith in
      let start : length stem ≡ length stem + 0 = omega arith in
      let here : get_or function_text (length stem) 0 ≡ b'(' =
        ap (λ i. get_or function_text i 0) start ∙ get_or-append stem (b'(' ∷ args) 0 in
      let step : find_name (suc (length stem)) false function_text
          ≡ find_name (length stem) true (set function_text (length stem) 0) =
        unfold find_name in rw here refl in
      ap (λ i. find_name i false function_text) size
      ∙ skip_args (suc (length stem)) (length args) function_text (after_paren plain)
      ∙ step
      ∙ ap (find_name (length stem) true) (set-append stem args b'(' 0)

  in_name :
      member b' ' name ≡ false
      → (j : ℕ) → j < length name
      → (get_or cut_text (length front + j) 0 == b' ') ≡ false
  in_name whole j lt = rw split_front (
      rw (get_or-append front (name ++ 0 ∷ args) j)
        (rw (get_or-append_left name (0 ∷ args) j lt) (absent_at b' ' name j whole lt)))

  find_space :
      member b' ' name ≡ false → find_name (length stem) true cut_text ≡ (length front, cut_text)
  find_space whole =
      let fore : length front ≡ suc (length before) =
        length-append before (b' ' ∷ []) ∙ omega arith in
      let size : length stem ≡ length front + length name =
        length-append before (b' ' ∷ name) ∙ omega (arith, fore) in
      let start : length before ≡ length before + 0 = omega arith in
      let here : get_or cut_text (length before) 0 ≡ b' ' =
        ap (λ s. get_or s (length before) 0) (append_assoc before (b' ' ∷ name) (0 ∷ args))
        ∙ ap (λ i. get_or (before ++ (b' ' ∷ name ++ 0 ∷ args)) i 0) start
        ∙ get_or-append before (b' ' ∷ name ++ 0 ∷ args) 0 in
      let step : find_name (suc (length before)) true cut_text ≡ (length before + 1, cut_text) =
        unfold find_name in rw here refl in
      let next : length before + 1 ≡ length front = omega (arith, fore) in
      ap (λ i. find_name i true cut_text) size
      ∙ skip_name (length front) (length name) cut_text (in_name whole)
      ∙ ap (λ i. find_name i true cut_text) fore
      ∙ step
      ∙ ap (λ i. (i, cut_text)) next

  -- name
  pub short_name_lem :
      member b'(' args ≡ false
      → member b' ' name ≡ false
      → member 0 name ≡ false
      → short_name function_text ≡ name
  unfolding short_name
  short_name_lem plain whole text = rw (find_paren plain ∙ find_space whole) (
      ap (λ s. c_str (drop (length front) s)) split_front
      ∙ ap c_str (drop-append front (name ++ 0 ∷ args))
      ∙ c_str-append name args text)
