-- ===== src/Connection/Responding.antt =====
-- `HttpConnection` of browse_server/http_server.cpp from a whole request to the bytes of the
-- response. The calls of boost::asio are not made here: an operation says what is asked for next,
-- and the caller hands in what came of it.
use video_match.Base.{
  Bool, true, false, ◌&&◌, not, [], ◌∷◌, ◌++◌, Option, some, ◌==◌, ltb, if◌then◌else◌, get_or,
  length, Name, bytes_of, ℤ, pos, negsuc,
}
use video_match.Cache.Files.{same_int}
use video_match.VideoDb.Index.{◌>>=◌}
use video_match.Connection.{
  http_get, http_post, http_head, http_invalid, reading_header, processing, http_switch_thread,
  http_200, http_503, http_508, http_end, crlf, kv_separator, status_code_str, Headers,
  HttpConnection, has_header, set_header, set_header_long, set_body,
}
use video_match.Connection.Parsing.{parsed, go_on, refused, try_parse_request}

-- What a handler leaves to be done.
pub data Next : Type 0 where
  async_read : Next
  shutdown_and_read : Next
  async_write : Name → Next
  to_threadpool : Next
  closed : Next

abbrev pub in_range : ℤ → Bool
in_range (pos n) = ltb n http_end
in_range (negsuc n) = false

abbrev pub status_line : ℤ → Name
status_line (pos n) = get_or status_code_str n []
status_line (negsuc n) = []

unfoldable pub header_lines : Headers → Name
header_lines [] = []
header_lines (e ∷ headers) = e.0 ++ kv_separator ++ e.1 ++ crlf ++ header_lines headers

-- `set_header` under `if (headers_.count(key) == 0)`
unfoldable pub default_header : Name → Name → HttpConnection → HttpConnection
unfolding has_header set_header
default_header key value c = if has_header key c.headers then c else set_header key value c

abbrev pub content_length_key : Name
content_length_key = bytes_of "Content-Length"

-- The steps of `begin_response` before it writes: an error without a body gets one, then the
-- headers are completed.
unfoldable pub error_body : HttpConnection → HttpConnection
unfolding set_body set_header
error_body c =
    let page =
      bytes_of "<html><body><h1>" ++ status_line c.http_ret ++ bytes_of "</h1></body></html>" in
    if not (same_int c.http_ret http_200) && length c.body == 0
    then set_header (bytes_of "Content-Type") (bytes_of "text/html") (set_body page c)
    else c

unfoldable pub length_header : HttpConnection → HttpConnection
unfolding set_header_long has_header
length_header c =
    if has_header content_length_key c.headers
    then c
    else set_header_long content_length_key (pos (length c.body)) c

unfoldable pub complete_response : HttpConnection → HttpConnection
unfolding error_body length_header default_header
complete_response c =
    let code = if in_range c.http_ret then c.http_ret else http_503 in
    default_header (bytes_of "Connection") (bytes_of "Keep-Alive") (
      default_header (bytes_of "Server") (bytes_of "SimpleWebSvr/1.0")
        (length_header (error_body (record c { http_ret = code }))))

-- The buffers that `begin_response` writes. One of them is a temporary of the source that is gone
-- before the write; here it holds its text.
unfoldable pub response_bytes : HttpConnection → Name
unfolding header_lines
response_bytes c = status_line c.http_ret ++ header_lines c.headers ++ crlf ++ c.body

unfoldable pub begin_response : HttpConnection → Next × HttpConnection
unfolding complete_response response_bytes
begin_response c =
    let done = complete_response c in
    if in_range done.http_ret then (async_write (response_bytes done), done) else (closed, done)

-- `handle_write`, with what `clear` and `start` do.
unfoldable pub handle_write : Bool → HttpConnection → Next × HttpConnection
handle_write error c = (
  if error then async_read else shutdown_and_read,
  record c {
    state = reading_header;
    headers = [];
    path = [];
    post = [];
    postsize = 0;
    body = [];
    request = [];
    header = [];
  },
)

-- The handler of a program whose own state is `S`; `none` is a fault.
abbrev pub RequestHandler : Type 0 → Type 0
RequestHandler S = HttpConnection → S → Option (ℤ × HttpConnection × S)

unfoldable pub process_request :
    {S : Type 0} → RequestHandler S → HttpConnection → S → Option (Next × HttpConnection × S)
unfolding set_body begin_response
process_request req_handler c s = do
  (code, c1, s1) ← req_handler c s
  let c2 = record c1 { http_ret = code }
  if same_int code http_switch_thread
      then (if c2.threaded
          then (let r = begin_response (set_body [] (record c2 { http_ret = http_508 })) in
              some (r.0, r.1, s1))
          else some (to_threadpool, record c2 { threaded = true }, s1))
      else (let r = begin_response c2 in some (r.0, r.1, s1))

unfoldable pub handle_read :
    {S : Type 0}
    → RequestHandler S
    → Bool
    → Name
    → HttpConnection
    → S
    → Option (Next × HttpConnection × S)
unfolding try_parse_request process_request
handle_read req_handler error bytes c s =
    if error then some (closed, c, s) else elim (try_parse_request bytes c) [
      | parsed c1 ↦ process_request req_handler (record c1 { state = processing }) s
      | go_on c1 ↦ some (async_read, c1, s)
      | refused ↦ some (closed, c, s)
    ]

-- `HttpServer::default_handler`
unfoldable pub default_handler : {S : Type 0} → RequestHandler S
unfolding set_body set_header
default_handler c s =
    let type : Name = elim c.type [
      | http_get ↦ bytes_of "GET"
      | http_post ↦ bytes_of "POST"
      | http_head ↦ []
      | http_invalid ↦ []
    ] in
    let body =
      bytes_of "<html><body><h1>Type: "
      ++ type
      ++ bytes_of "    Path: "
      ++ c.path
      ++ bytes_of "</h1></body></html>" in
    some (
      http_200,
      set_header (bytes_of "Content-Type") (bytes_of "text/html")
          (set_header (bytes_of "Server") (bytes_of "Demo Server 1.0") (set_body body c)),
      s,
    )
