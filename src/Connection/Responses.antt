-- ===== src/Connection/Responses.antt =====
-- What the responses of browse_server/http_server.cpp are like.
use video_match.Base.{
  ◌⊎◌, ◌≡◌, refl, true, false, Bool-cases, inl, inr, [], some, if◌then◌else◌, ◌==◌, ◌&&◌, not, ◌∙◌,
  sym, ap, Name, bytes_eq, bytes_of, ℤ, pos, length,
}
use video_match.Cache.Files.{same_int}
use video_match.Connection.{
  HttpConnection, has_header, set_header, set_header_long, set_body, http_switch_thread, http_200,
  http_404, http_503, http_508,
}
use video_match.Connection.Responding.{
  async_write, in_range, response_bytes, complete_response, default_header, error_body,
  length_header, content_length_key, begin_response, RequestHandler, process_request,
}
use video_match.Text.{decimal, printed}
use video_match.Connection.Fields.{
  header_of, default_header-http_ret, default_header-body, header_of-put_header, header_of_other,
  has_header-header_of, default_header-header_of,
}

error_body-header_of :
    (c : HttpConnection)
    → header_of content_length_key (error_body c).headers ≡ header_of content_length_key c.headers
unfolding error_body set_header set_body bytes_eq
error_body-header_of c =
    elim (Bool-cases (not (same_int c.http_ret http_200) && length c.body == 0)) [
      | inl bare ↦ rw bare (
          header_of_other (bytes_of "Content-Type") content_length_key (bytes_of "text/html")
            c.headers refl)
      | inr whole ↦ rw whole refl
    ]

error_body-http_ret : (c : HttpConnection) → (error_body c).http_ret ≡ c.http_ret
unfolding error_body set_header set_body
error_body-http_ret c =
    elim (Bool-cases (not (same_int c.http_ret http_200) && length c.body == 0)) [
      | inl bare ↦ rw bare refl
      | inr whole ↦ rw whole refl
    ]

length_header-http_ret : (c : HttpConnection) → (length_header c).http_ret ≡ c.http_ret
unfolding length_header set_header_long set_header
length_header-http_ret c = elim (Bool-cases (has_header content_length_key c.headers)) [
  | inl there ↦ rw there refl
  | inr absent ↦ rw absent refl
]

length_header-body : (c : HttpConnection) → (length_header c).body ≡ c.body
unfolding length_header set_header_long set_header
length_header-body c = elim (Bool-cases (has_header content_length_key c.headers)) [
  | inl there ↦ rw there refl
  | inr absent ↦ rw absent refl
]

length_header-header_of :
    (c : HttpConnection)
    → has_header content_length_key c.headers ≡ false
    → header_of content_length_key (length_header c).headers
      ≡ some (printed 24 (decimal (pos (length c.body))))
unfolding length_header set_header_long set_header
length_header-header_of c absent =
    rw absent (
      header_of-put_header content_length_key (printed 24 (decimal (pos (length c.body))))
        c.headers)

http_ret_in_range : (code : ℤ) → in_range (if in_range code then code else http_503) ≡ true
http_ret_in_range code = elim (Bool-cases (in_range code)) [
  | inl inside ↦ rw inside inside
  | inr outside ↦ rw outside refl
]

complete_response-http_ret :
    (c : HttpConnection)
    → (complete_response c).http_ret ≡ (if in_range c.http_ret then c.http_ret else http_503)
unfolding complete_response
complete_response-http_ret c =
    let code = if in_range c.http_ret then c.http_ret else http_503 in
    let e = error_body (record c { http_ret = code }) in
    let l = length_header e in
    let s = default_header (bytes_of "Server") (bytes_of "SimpleWebSvr/1.0") l in
    default_header-http_ret (bytes_of "Connection") (bytes_of "Keep-Alive") s
    ∙ default_header-http_ret (bytes_of "Server") (bytes_of "SimpleWebSvr/1.0") l
    ∙ length_header-http_ret e
    ∙ error_body-http_ret (record c { http_ret = code })

complete_response-length :
    (c : HttpConnection)
    → has_header content_length_key c.headers ≡ false
    → header_of content_length_key (complete_response c).headers
      ≡ some (printed 24 (decimal (pos (length (complete_response c).body))))
unfolding complete_response bytes_eq
complete_response-length c absent =
    let code = if in_range c.http_ret then c.http_ret else http_503 in
    let e = error_body (record c { http_ret = code }) in
    let l = length_header e in
    let s = default_header (bytes_of "Server") (bytes_of "SimpleWebSvr/1.0") l in
    let absent' : has_header content_length_key e.headers ≡ false =
      has_header-header_of content_length_key e.headers
      ∙ rw (error_body-header_of (record c { http_ret = code }))
          (sym (has_header-header_of content_length_key c.headers) ∙ absent) in
    let same_body : (complete_response c).body ≡ e.body =
      default_header-body (bytes_of "Connection") (bytes_of "Keep-Alive") s
      ∙ default_header-body (bytes_of "Server") (bytes_of "SimpleWebSvr/1.0") l
      ∙ length_header-body e in
    default_header-header_of (bytes_of "Connection") content_length_key (bytes_of "Keep-Alive") s
      refl
    ∙ default_header-header_of (bytes_of "Server") content_length_key (bytes_of "SimpleWebSvr/1.0")
        l refl
    ∙ length_header-header_of e absent'
    ∙ ap (λ b. some (printed 24 (decimal (pos (length b))))) (sym same_body)

-- `begin_response` writes; it does not come to close the socket.
pub begin_response_write :
    (c : HttpConnection)
    → begin_response c ≡ (async_write (response_bytes (complete_response c)), complete_response c)
unfolding begin_response
begin_response_write c =
    let inside : in_range (complete_response c).http_ret ≡ true =
      ap in_range (complete_response-http_ret c) ∙ http_ret_in_range c.http_ret in
    rw inside refl

-- Where the handler has set no Content-Length, `begin_response` always writes a response and never
-- closes the socket: its code is that of the handler if there is such a code and 503 if not, and
-- its Content-Length is the number of bytes of the body that is written, in 23 characters.
pub begin_response-complete_response :
    (c : HttpConnection)
    → has_header content_length_key c.headers ≡ false
    → (begin_response c ≡ (async_write (response_bytes (complete_response c)), complete_response c))
      × ((complete_response c).http_ret ≡ (if in_range c.http_ret then c.http_ret else http_503))
      × (header_of content_length_key (complete_response c).headers
          ≡ some (printed 24 (decimal (pos (length (complete_response c).body)))))
begin_response-complete_response c absent =
    (begin_response_write c, complete_response-http_ret c, complete_response-length c absent)

-- The handler leaves alone what it has no method for.
abbrev pub KeepsThread : {S : Type 0} → RequestHandler S → Type 0
KeepsThread {S} req_handler =
    (c : HttpConnection) (s : S) (code : ℤ) (c' : HttpConnection) (s' : S)
    → req_handler c s ≡ some (code, c', s')
    → c'.threaded ≡ c.threaded

-- A request that a thread of the pool processes is answered there: if the handler asks for another
-- thread again, with code 508.
pub process_request_threaded :
    {S : Type 0} (req_handler : RequestHandler S)
    → KeepsThread req_handler
    → (c : HttpConnection) (s : S) → c.threaded ≡ true
    → (code : ℤ) (c' : HttpConnection) (s' : S) → req_handler c s ≡ some (code, c', s')
    → (text : Name) × (c2 : HttpConnection) × (process_request req_handler c s
        ≡ some (async_write text, c2, s'))
      × (c2.http_ret ≡ (
          if same_int code http_switch_thread
          then http_508
          else if in_range code
          then code
          else http_503))
unfolding process_request set_body
process_request_threaded req_handler keeps c s threaded code c' s' run =
    let still : c'.threaded ≡ true = keeps c s code c' s' run ∙ threaded in
    elim (Bool-cases (same_int code http_switch_thread)) [
      | inl again ↦
          let d = record c' { http_ret = http_508; body = [] } in
          let made : process_request req_handler c s
              ≡ some ((begin_response d).0, (begin_response d).1, s') =
            rw (run, process_request) (rw again (rw still refl)) in
          (
            response_bytes (complete_response d),
            complete_response d,
            made ∙ ap (λ r. some (r.0, r.1, s')) (begin_response_write d),
            rw again (complete_response-http_ret d),
          )
      | inr done ↦
          let d = record c' { http_ret = code } in
          let made : process_request req_handler c s
              ≡ some ((begin_response d).0, (begin_response d).1, s') =
            rw (run, process_request) (rw done refl) in
          (
            response_bytes (complete_response d),
            complete_response d,
            made ∙ ap (λ r. some (r.0, r.1, s')) (begin_response_write d),
            rw done (complete_response-http_ret d),
          )
    ]

-- A request whose code is 200 or 404 is answered where it is processed.
pub process_request_answered :
    {S : Type 0} (req_handler : RequestHandler S) (c : HttpConnection) (s : S)
    → (code : ℤ) (c' : HttpConnection) (s' : S) → (code ≡ http_200) ⊎ (code ≡ http_404)
    → req_handler c s ≡ some (code, c', s')
    → (text : Name) × (c2 : HttpConnection) × (process_request req_handler c s
        ≡ some (async_write text, c2, s'))
unfolding process_request
process_request_answered req_handler c s code c' s' is run =
    let d = record c' { http_ret = code } in
    let done : same_int code http_switch_thread ≡ false = elim is [
      | inl e ↦ rw e refl
      | inr e ↦ rw e refl
    ] in
    let made : process_request req_handler c s
        ≡ some ((begin_response d).0, (begin_response d).1, s') =
      rw (run, process_request) (rw done refl) in
    (
      response_bytes (complete_response d),
      complete_response d,
      made ∙ ap (λ r. some (r.0, r.1, s')) (begin_response_write d),
    )
