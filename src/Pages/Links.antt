-- ===== src/Pages/Links.antt =====
-- Where the links lead that `my_handler` of browse_server/main.cpp writes into its pages.
use video_match.Base.{
  ℕ, zero, suc, ◌+◌, ◌/◌, ◌%◌, ◌^◌, ◌≤◌, ◌<◌, ◌≡◌, refl, true, false, Bool-cases, inl, inr, [], ◌∷◌,
  ◌++◌, ◌==◌, ltb, if◌then◌else◌, length, length-append, append_assoc, append-nil, member, take,
  arith, ap, ◌∙◌, Name, bytes_of, bytes_eq, pos,
}
use video_match.Cache.{Manager, Unpacked}
use video_match.Pages.{page_link, image_link, path_params, route, browse, image}
use video_match.Text.{
  c_str, c_str_whole, atoi, decimal, decimal_onto, digits_from, signed_from, is_digit, is_blank,
}
use video_match.VideoDb.Index.{to_int, to_int_small}

last_digit : (n : ℕ) (s : Name) → digits_from (n / 10) ((n % 10 + b'0') ∷ s) ≡ digits_from n s
unfolding digits_from
last_digit n s =
    let digit : is_digit (n % 10 + b'0') ≡ true = ground arith in
    rw digit (ap (λ x. digits_from x s) (omega arith))

digits_from-decimal :
    (k n : ℕ) (s : Name) → n < k → digits_from 0 (decimal_onto k n s) ≡ digits_from n s
unfolding digits_from decimal_onto
digits_from-decimal zero n s lt = elim lt [ ]
digits_from-decimal (suc k) n s lt = elim (Bool-cases (ltb n 10)) [
  | inl one ↦
      let digit : is_digit (n + b'0') ≡ true = ground (arith, one) in
      rw one (rw digit (ap (λ x. digits_from x s) (omega arith)))
  | inr more ↦ rw more (
      digits_from-decimal k (n / 10) ((n % 10 + b'0') ∷ s) (ground (arith, more, lt))
      ∙ last_digit n s)
]

-- The digits begin with a digit.
record Starts (s : Name) : Type 0 where
  first : ℕ
  others : Name
  parts : s ≡ first ∷ others
  digit : is_digit first ≡ true

decimal-Starts : (k n : ℕ) (s : Name) → n < k → Starts (decimal_onto k n s)
unfolding decimal_onto
decimal-Starts zero n s lt = elim lt [ ]
decimal-Starts (suc k) n s lt = elim (Bool-cases (ltb n 10)) [
  | inl one ↦
      rw one (record { first = n + b'0'; others = s; parts = refl; digit = ground (arith, one) })
  | inr more ↦ rw more (decimal-Starts k (n / 10) ((n % 10 + b'0') ∷ s) (ground (arith, more, lt)))
]

member-decimal :
    (k n : ℕ) (s : Name) → member b'/' s ≡ false → member b'/' (decimal_onto k n s) ≡ false
unfolding decimal_onto
member-decimal zero n s h = h
member-decimal (suc k) n s h = elim (Bool-cases (ltb n 10)) [
  | inl one ↦ rw one (ground (arith, h))
  | inr more ↦ rw more (member-decimal k (n / 10) ((n % 10 + b'0') ∷ s) (ground (arith, h)))
]

-- `atoi` reads what `%d` has printed.
atoi-decimal : (n : ℕ) → n < 2 ^ 31 → atoi (decimal (pos n)) ≡ pos n
unfolding atoi signed_from decimal digits_from
atoi-decimal n small =
    let t = decimal-Starts (n + 1) n [] (omega arith) in
    let read : digits_from 0 (decimal_onto (n + 1) n []) ≡ n =
      digits_from-decimal (n + 1) n [] (omega arith) in
    let value : digits_from 0 (t.first ∷ t.others) ≡ n = rw t.parts at read in
    let blank : is_blank t.first ≡ false = ground (arith, t.digit) in
    let minus : (t.first == b'-') ≡ false = ground (arith, t.digit) in
    let plus : (t.first == b'+') ≡ false = ground (arith, t.digit) in
    rw (t.parts, decimal) (rw blank (rw minus (rw plus (ap to_int value ∙ to_int_small n small))))

-- The loop over the characters of a path, up to the next '/'.
path_params-part :
    (laststr part path : Name)
    → member b'/' part ≡ false
    → path_params laststr (part ++ b'/' ∷ path) ≡ (
        if length (laststr ++ part) == 0
        then path_params [] path
        else (laststr ++ part) ∷ path_params [] path)
unfolding path_params
path_params-part laststr [] path out = rw append-nil refl
path_params-part laststr (c ∷ part) path out =
    let other : (c == b'/') ≡ false = ground (arith, out) in
    let rest = path_params-part (laststr ++ c ∷ []) part path (ground (arith, out)) in
    rw other (rest ∙ rw append_assoc refl)

path_params_last :
    (laststr part : Name)
    → member b'/' part ≡ false
    → path_params laststr part
      ≡ (if length (laststr ++ part) == 0 then [] else (laststr ++ part) ∷ [])
unfolding path_params
path_params_last laststr [] out = rw append-nil refl
path_params_last laststr (c ∷ part) out =
    let other : (c == b'/') ≡ false = ground (arith, out) in
    let rest = path_params_last (laststr ++ c ∷ []) part (ground (arith, out)) in
    rw other (rest ∙ rw append_assoc refl)

take_all : (n : ℕ) (xs : Name) → length xs ≤ n → take n xs ≡ xs
take_all zero [] le = refl
take_all zero (x ∷ xs) le = absurd (omega (arith, le))
take_all (suc n) [] le = refl
take_all (suc n) (x ∷ xs) le = ap (◌∷◌ x) (take_all n xs (omega (arith, le)))

-- A path of three parts.
three_params :
    (verb key id : Name)
    → member b'/' verb ≡ false
    → member b'/' key ≡ false
    → member b'/' id ≡ false
    → 0 < length verb
    → 0 < length key
    → 0 < length id
    → path_params [] (b'/' ∷ (verb ++ (b'/' ∷ (key ++ (b'/' ∷ id))))) ≡ verb ∷ key ∷ id ∷ []
unfolding path_params
three_params verb key id v k i vl kl il =
    let v0 : (length verb == 0) ≡ false = ground (arith, vl) in
    let k0 : (length key == 0) ≡ false = ground (arith, kl) in
    let i0 : (length id == 0) ≡ false = ground (arith, il) in
    path_params-part [] verb (key ++ b'/' ∷ id) v
    ∙ rw v0 (
        ap (◌∷◌ verb) (
          path_params-part [] key id k
          ∙ rw k0 (ap (◌∷◌ key) (path_params_last [] id i ∙ rw i0 refl))))

decimal-length : (n : ℕ) → 0 < length (decimal (pos n))
unfolding decimal
decimal-length n = let t = decimal-Starts (n + 1) n [] (omega arith) in rw t.parts (omega arith)

decimal_part : (n : ℕ) → member b'/' (decimal (pos n)) ≡ false
unfolding decimal
decimal_part n = member-decimal (n + 1) n [] refl

-- A path as it is put together.
path_parts : (a key d : Name) → a ++ key ++ bytes_of "/" ++ d ≡ a ++ (key ++ (b'/' ∷ d))
path_parts a key d = append_assoc (a ++ key) (bytes_of "/") d ∙ append_assoc a key (b'/' ∷ d)

route-browse :
    (unpack : Unpacked) (m : Manager) (key : Name) (id : ℕ)
    → id < 2 ^ 31
    → route unpack (bytes_of "browse" ∷ key ∷ decimal (pos id) ∷ []) m
      ≡ browse unpack key (pos id) m
unfolding route bytes_eq
route-browse unpack m key id small = ap (λ n. browse unpack key n m) (atoi-decimal id small)

route-image :
    (unpack : Unpacked) (m : Manager) (key : Name) (id : ℕ)
    → id < 2 ^ 31
    → route unpack (bytes_of "image" ∷ key ∷ decimal (pos id) ∷ []) m ≡ image unpack key (pos id) m
unfolding route bytes_eq
route-image unpack m key id small = ap (λ n. image unpack key n m) (atoi-decimal id small)

route_path :
    (unpack : Unpacked) (m : Manager) (verb key link : Name) (id : ℕ)
    → member b'/' verb ≡ false
    → 0 < length verb
    → member b'/' key ≡ false
    → 0 < length key
    → link ≡ b'/' ∷ (verb ++ (b'/' ∷ (key ++ (b'/' ∷ decimal (pos id)))))
    → route unpack (path_params [] link) m ≡ route unpack (verb ∷ key ∷ decimal (pos id) ∷ []) m
route_path unpack m verb key link id v vl k kl e =
    ap (λ l. route unpack (path_params [] l) m) e
    ∙ ap (λ ps. route unpack ps m)
        (three_params verb key (decimal (pos id)) v k (decimal_part id) vl kl (decimal-length id))

-- The links in a page lead to what they name: for a key that is not empty and has no '/' and no zero
-- byte, a number below 2 ^ 31, and where the link to a page is not cut off at 31 bytes, the link to
-- a frame's page is routed to that page, and the link to its picture to that picture.
pub route-link :
    (unpack : Unpacked) (m : Manager) (key : Name) (id : ℕ)
    → member b'/' key ≡ false
    → member 0 key ≡ false
    → 0 < length key
    → id < 2 ^ 31
    → length (bytes_of "/browse/" ++ key ++ bytes_of "/" ++ decimal (pos id)) ≤ 31
    → (route unpack (path_params [] (page_link key (pos id))) m ≡ browse unpack key (pos id) m)
      × (route unpack (path_params [] (image_link key (pos id))) m ≡ image unpack key (pos id) m)
unfolding page_link image_link
route-link unpack m key id part text there small short =
    let d = decimal (pos id) in
    let front = bytes_of "/browse/" ++ key in
    let sized : length (front ++ bytes_of "/" ++ d) ≡ 8 + length key + 1 + length d = omega (
      arith,
      length-append (front ++ bytes_of "/") d,
      length-append front (bytes_of "/"),
      length-append (bytes_of "/browse/") key,
    ) in
    let page = take_all 31 (front ++ bytes_of "/" ++ d) short in
    let number = take_all 31 d (omega (arith, short, sized)) in
    let same = to_int_small id small in
    let whole = c_str_whole key text in
    (
      route_path unpack m (bytes_of "browse") key (page_link key (pos id)) id refl (omega arith)
            part there
            (ap (λ n. take 31 (bytes_of "/browse/" ++ c_str key ++ bytes_of "/" ++ decimal n)) same
              ∙ ap (λ k. take 31 (bytes_of "/browse/" ++ k ++ bytes_of "/" ++ d)) whole
              ∙ page
              ∙ path_parts (bytes_of "/browse/") key d)
          ∙ route-browse unpack m key id small,
      route_path unpack m (bytes_of "image") key (image_link key (pos id)) id refl (omega arith)
            part there
            (ap (λ n. bytes_of "/image/" ++ key ++ bytes_of "/" ++ take 31 (decimal n)) same
              ∙ ap (λ n. bytes_of "/image/" ++ key ++ bytes_of "/" ++ n) number
              ∙ path_parts (bytes_of "/image/") key d)
          ∙ route-image unpack m key id small,
    )
