-- ===== src/Connection/Parsing.antt =====
-- `HttpConnection::try_parse_request` of browse_server/http_server.cpp: the bytes that arrive.
use video_match.Base.{
  ℕ, ◌+◌, ◌-◌, ◌%◌, ◌^◌, Bool, true, false, ◌&&◌, ◌++◌, Option, none, some, ltb, leb, if◌then◌else◌,
  length, take, drop, Name, bytes_of, ℤ, pos, negsuc,
}
use video_match.Text.{atoi, starts, find_from}
use video_match.VideoDb.Index.{◌>>=◌}
use video_match.Connection.{
  RequestType, http_get, http_post, http_head, http_invalid, State, reading_header, reading_post,
  processing, write_header, write_body, crlf, HttpConnection,
}

-- `atoi` into an `unsigned int`
abbrev pub to_unsigned : ℤ → ℕ
to_unsigned (pos n) = n % 2 ^ 32
to_unsigned (negsuc n) = (2 ^ 32 - 1) - n % 2 ^ 32

-- The size that a request names: the text after "Content-Length: ", whose line is at most 16 bytes.
-- `substr(spos2, spos3)` takes the second place for a length.
unfoldable pub content_length : Name → Option ℕ
unfolding find_from atoi
content_length request = do
  at ← find_from (bytes_of "Content-Length: ") 0 request
  let spos2 = at + 16
  spos3 ← find_from crlf spos2 request
  if ltb 16 (spos3 - spos2)
      then none
      else some (to_unsigned (atoi (take spos3 (drop spos2 request))))

-- `try_parse_request` where the end of the header is at `spos`: the state of the connection where
-- it has read a request, or `none` for -1. `verb` is how long the name of the method is.
unfoldable pub parse_header : ℕ → RequestType → ℕ → HttpConnection → Option HttpConnection
unfolding find_from content_length
parse_header spos type verb c = do
  spos3 ← find_from (bytes_of " HTTP/1.") verb c.request
  let parsed = record c { type = type; path = take (spos3 - verb) (drop verb c.request) }
  elim type [
    | http_get ↦ some parsed
    | http_post ↦ do
      size ← content_length c.request
      some (record parsed {
        state = reading_post;
        post = drop (spos + 4) c.request;
        postsize = size;
      })
    | http_head ↦ none
    | http_invalid ↦ none
  ]

-- What `try_parse_request` returns: 0, 1 and -1, with the connection where it is used again.
pub data Parsed : Type 0 where
  parsed : HttpConnection → Parsed
  go_on : HttpConnection → Parsed
  refused : Parsed

abbrev pub is_reading_post : State → Bool
is_reading_post reading_header = false
is_reading_post reading_post = true
is_reading_post processing = false
is_reading_post write_header = false
is_reading_post write_body = false

abbrev pub wait_post : Option HttpConnection → Parsed
wait_post none = refused
wait_post (some c) =
    if is_reading_post c.state && ltb (length c.post) c.postsize then go_on c else parsed c

-- The two branches of `try_parse_request`, with the new bytes in their place.
unfoldable pub parse_request : HttpConnection → Parsed
unfolding parse_header starts find_from
parse_request c = elim (find_from (crlf ++ crlf) 0 c.request) [
  | some spos ↦
      if starts c.request (bytes_of "GET ")
      then wait_post (parse_header spos http_get 4 c)
      else if starts c.request (bytes_of "POST ")
      then wait_post (parse_header spos http_post 5 c)
      else refused
  | none ↦ if ltb 4096 (length c.request) then refused else go_on c
]

unfoldable pub parse_post : HttpConnection → Parsed
parse_post c = if leb c.postsize (length c.post) then parsed c else go_on c

unfoldable pub try_parse_request : Name → HttpConnection → Parsed
unfolding parse_request parse_post
try_parse_request bytes c = elim c.state [
  | reading_header ↦ parse_request (record c { request = c.request ++ bytes })
  | reading_post ↦ parse_post (record c { post = c.post ++ bytes })
  | processing ↦ refused
  | write_header ↦ refused
  | write_body ↦ refused
]
