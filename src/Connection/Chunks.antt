-- ===== src/Connection/Chunks.antt =====
-- Requests that arrive in pieces at browse_server/http_server.cpp.
use video_match.Base.{
  ℕ, ◌+◌, ◌≤◌, ◌<◌, ◌≡◌, refl, true, false, Bool-cases, Option-cases, inl, inr, List, [], ◌∷◌, ◌++◌,
  Option, none, some, ltb, leb, ◌∙◌, sym, ap, Name, arith, length, append_assoc, length-append,
}
use video_match.Connection.{reading_header, reading_post, HttpConnection, crlf}
use video_match.Connection.Parsing.{
  Parsed, parsed, go_on, refused, try_parse_request, parse_request, parse_post,
}
use video_match.Text.{find_text, find_from, starts}

-- The pieces are read one after the other, as long as `try_parse_request` goes on.
unfoldable pub read_pieces : List Name → HttpConnection → Parsed
unfolding try_parse_request
read_pieces [] c = go_on c
read_pieces (p ∷ pieces) c = elim (try_parse_request p c) [
  | parsed c' ↦ parsed c'
  | go_on c' ↦ read_pieces pieces c'
  | refused ↦ refused
]

abbrev pub joined : List Name → Name
joined [] = []
joined (p ∷ pieces) = p ++ joined pieces

abbrev pub header_end : Name → Option ℕ
header_end request = find_from (crlf ++ crlf) 0 request

-- A connection that has read a part of a header, and one that has read a part of a posted text.
abbrev pub in_header : HttpConnection → Name → HttpConnection
in_header c request = record c { state = reading_header; request = request }

abbrev pub in_post : HttpConnection → Name → HttpConnection
in_post c post = record c { state = reading_post; post = post }

starts-append : (s t p : Name) → starts s p ≡ true → starts (s ++ t) p ≡ true
unfolding starts
starts-append s t [] h = refl
starts-append [] t (x ∷ p) h = absurd (cc h)
starts-append (y ∷ s) t (x ∷ p) h = ground (arith, h, starts-append s t p)

-- A text without an occurrence has no beginning with one.
find_text-append : (p s t : Name) → find_text p (s ++ t) ≡ none → find_text p s ≡ none
unfolding find_text
find_text-append [] [] [] h = absurd (cc h)
find_text-append [] [] (x ∷ t) h = absurd (cc h)
find_text-append (y ∷ p) [] t h = refl
find_text-append p (x ∷ s) t h = elim (Bool-cases (starts (x ∷ s ++ t) p)) [
  | inl here ↦ absurd (cc (rw here at h))
  | inr away ↦ elim (Option-cases (find_text p (s ++ t))) [
    | inr (n, later) ↦ absurd (cc (rw later at (rw away at h)))
    | inl nowhere ↦
        let rest = find_text-append p s t nowhere in
        elim (Bool-cases (starts (x ∷ s) p)) [
          | inr off ↦ rw off (rw rest refl)
          | inl on ↦ absurd (cc (sym (starts-append (x ∷ s) t p on) ∙ away))
        ]
  ]
]

header_end-append : (s t : Name) → header_end (s ++ t) ≡ none → header_end s ≡ none
unfolding find_from
header_end-append s t h =
    let long : ltb (length (s ++ t)) 0 ≡ false = ground arith in
    elim (Option-cases (find_text (crlf ++ crlf) (s ++ t))) [
      | inl nowhere ↦ rw (find_text-append (crlf ++ crlf) s t nowhere) (ground arith)
      | inr (n, there) ↦
          let found : some (0 + n) ≡ none =
            rw (there, header_end) at (rw (long, header_end) at h) in
          absurd (cc found)
    ]

-- Before the end of the header, a piece is kept and the next one awaited.
read_header :
    (c : HttpConnection) (r p : Name)
    → header_end (r ++ p) ≡ none
    → length (r ++ p) ≤ 4096
    → try_parse_request p (in_header c r) ≡ go_on (in_header c (r ++ p))
unfolding try_parse_request parse_request
read_header c r p no_end short =
    let few : ltb 4096 (length (r ++ p)) ≡ false = ground (arith, short) in
    rw (no_end, parse_request, try_parse_request) (rw few refl)

same_header :
    (c : HttpConnection) (r p q : Name)
    → try_parse_request q (in_header c (r ++ p)) ≡ try_parse_request (p ++ q) (in_header c r)
unfolding try_parse_request
same_header c r p q = ap (λ t. parse_request (in_header c t)) (append_assoc r p q)

read_post :
    (c : HttpConnection) (r p : Name)
    → length (r ++ p) < c.postsize
    → try_parse_request p (in_post c r) ≡ go_on (in_post c (r ++ p))
unfolding try_parse_request parse_post
read_post c r p short =
    let few : leb c.postsize (length (r ++ p)) ≡ false = ground (arith, short) in
    rw (few, parse_post, try_parse_request) refl

same_post :
    (c : HttpConnection) (r p q : Name)
    → try_parse_request q (in_post c (r ++ p)) ≡ try_parse_request (p ++ q) (in_post c r)
unfolding try_parse_request
same_post c r p q = ap (λ t. parse_post (in_post c t)) (append_assoc r p q)

settled : (r : Parsed) → elim r [ parsed c ↦ parsed c | go_on c ↦ go_on c | refused ↦ refused ] ≡ r
settled (parsed c) = refl
settled (go_on c) = refl
settled refused = refl

read_one : (p : Name) (c : HttpConnection) → read_pieces (p ∷ []) c ≡ try_parse_request p c
unfolding read_pieces
read_one p c = settled (try_parse_request p c)

-- A header that arrives in pieces is read as if its pieces had come at once: where the pieces before
-- the last do not hold its end and are at most 4096 bytes, reading one after the other gives what
-- the text of all of them gives.
pub read_pieces-header :
    (c : HttpConnection) (pieces : List Name) (r last : Name)
    → header_end (r ++ joined pieces) ≡ none
    → length (r ++ joined pieces) ≤ 4096
    → read_pieces (pieces ++ last ∷ []) (in_header c r)
      ≡ try_parse_request (joined pieces ++ last) (in_header c r)
unfolding read_pieces
read_pieces-header c [] r last no_end short = settled (try_parse_request last (in_header c r))
read_pieces-header c (p ∷ pieces) r last no_end short =
    let whole : header_end ((r ++ p) ++ joined pieces) ≡ none =
      ap header_end (append_assoc r p (joined pieces)) ∙ no_end in
    let size = length-append (r ++ p) (joined pieces) in
    let short' : length ((r ++ p) ++ joined pieces) ≤ 4096 =
      omega (arith, ap length (append_assoc r p (joined pieces)), short) in
    let one =
      read_header c r p (header_end-append (r ++ p) (joined pieces) whole)
        (omega (arith, size, short')) in
    let rest = read_pieces-header c pieces (r ++ p) last whole short' in
    let all =
      ap (λ t. try_parse_request t (in_header c r)) (sym (append_assoc p (joined pieces) last)) in
    rw (one, read_pieces) (rest ∙ same_header c r p (joined pieces ++ last) ∙ all)

-- A posted text that arrives in pieces is read as if its pieces had come at once: where those before
-- the last are fewer bytes than the header has named, reading one after the other gives what the
-- text of all of them gives.
pub read_pieces-post :
    (c : HttpConnection) (pieces : List Name) (r last : Name)
    → length (r ++ joined pieces) < c.postsize
    → read_pieces (pieces ++ last ∷ []) (in_post c r)
      ≡ try_parse_request (joined pieces ++ last) (in_post c r)
unfolding read_pieces
read_pieces-post c [] r last short = settled (try_parse_request last (in_post c r))
read_pieces-post c (p ∷ pieces) r last short =
    let size = length-append (r ++ p) (joined pieces) in
    let short' : length ((r ++ p) ++ joined pieces) < c.postsize =
      omega (arith, ap length (append_assoc r p (joined pieces)), short) in
    let one = read_post c r p (omega (arith, size, short')) in
    let rest = read_pieces-post c pieces (r ++ p) last short' in
    let all =
      ap (λ t. try_parse_request t (in_post c r)) (sym (append_assoc p (joined pieces) last)) in
    rw (one, read_pieces) (rest ∙ same_post c r p (joined pieces ++ last) ∙ all)
