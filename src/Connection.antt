-- ===== src/Connection.antt =====
-- `HttpConnection` of browse_server/http_server.hpp and http_server.cpp: the fields of a connection,
-- the codes and the headers.
pub mod Parsing
pub mod Responding
pub mod Fields
pub mod Responses
pub mod Chunks
use video_match.Base.{
  ℕ, ◌+◌, ◌-◌, ◌%◌, ◌^◌, Bool, true, false, ◌&&◌, ◌||◌, not, List, [], ◌∷◌, ◌++◌, Option, none,
  some, ◌==◌, ltb, leb, if◌then◌else◌, get_or, length, take, drop, Name, bytes_eq, bytes_of, ℤ, pos,
  negsuc,
}
use video_match.Cache.Files.{same_int}
use video_match.Text.{atoi, decimal, printed, bytes_ltb, starts, find_from}
use video_match.VideoDb.Index.{◌>>=◌}

pub data RequestType : Type 0 where
  http_get : RequestType
  http_post : RequestType
  http_head : RequestType
  http_invalid : RequestType

pub data State : Type 0 where
  reading_header : State
  reading_post : State
  processing : State
  write_header : State
  write_body : State

-- `STATUS_CODE`
abbrev pub http_switch_thread : ℤ
http_switch_thread = negsuc 99

abbrev pub http_200 : ℤ
http_200 = pos 0

abbrev pub http_404 : ℤ
http_404 = pos 1

abbrev pub http_503 : ℤ
http_503 = pos 2

abbrev pub http_508 : ℤ
http_508 = pos 3

abbrev pub http_end : ℕ
http_end = 5

abbrev pub crlf : Name
crlf = bytes_of "\r\n"

abbrev pub kv_separator : Name
kv_separator = bytes_of ": "

abbrev pub status_code_str : List Name
status_code_str =
    bytes_of "HTTP/1.1 200 OK\r\n"
    ∷ bytes_of "HTTP/1.1 404 Not Found\r\n"
    ∷ bytes_of "HTTP/1.1 503 Service Unavailable\r\n"
    ∷ bytes_of "HTTP/1.1 508 Bad Handler ( Recurive threaded switch)\r\n"
    ∷ bytes_of "HTTP/1.1 501 Not Implemented\r\n"
    ∷ []

abbrev pub Headers : Type 0
Headers = List (Name × Name)

pub record HttpConnection : Type 0 where
  pub state : State
  pub type : RequestType
  pub http_ret : ℤ
  pub threaded : Bool
  pub headers : Headers
  pub path : Name
  pub post : Name
  pub postsize : ℕ
  pub body : Name
  pub request : Name
  pub header : Name

-- `HttpConnection(http_server)` and `start`; the constructor leaves `postsize_` as it is.
unfoldable pub new_connection : ℕ → HttpConnection
new_connection postsize = record {
  state = reading_header;
  type = http_invalid;
  http_ret = http_200;
  threaded = false;
  headers = [];
  path = [];
  post = [];
  postsize = postsize;
  body = [];
  request = [];
  header = [];
}

-- `headers_[key] = value`, a map in the order of its keys
unfoldable pub put_header : Name → Name → Headers → Headers
unfolding bytes_ltb
put_header key value [] = (key, value) ∷ []
put_header key value (e ∷ headers) =
    let rest = put_header key value headers in
    if bytes_eq e.0 key
    then (key, value) ∷ headers
    else if bytes_ltb key e.0
    then (key, value) ∷ e ∷ headers
    else e ∷ rest

-- `headers_.count(key) != 0`
unfoldable pub has_header : Name → Headers → Bool
has_header key [] = false
has_header key (e ∷ headers) = bytes_eq e.0 key || has_header key headers

unfoldable pub set_header : Name → Name → HttpConnection → HttpConnection
unfolding put_header
set_header key value c = record c { headers = put_header key value c.headers }

unfoldable pub set_header_long : Name → ℤ → HttpConnection → HttpConnection
unfolding set_header decimal
set_header_long key value c = set_header key (printed 24 (decimal value)) c

unfoldable pub set_body : Name → HttpConnection → HttpConnection
set_body body c = record c { body = body }
