-- ===== src/Tests/Connections.antt =====
-- Requests in pieces and responses of a small handler.
use video_match.Base.{
  ℕ, ◌≡◌, refl, true, false, [], ◌∷◌, none, some, Name, bytes_of, pos, arith, length,
}
use video_match.Connection.{
  HttpConnection, http_404, http_508, http_switch_thread, new_connection, has_header,
}
use video_match.Connection.Chunks.{
  read_pieces, header_end, in_header, in_post, read_pieces-header, read_pieces-post,
}
use video_match.Connection.Parsing.{try_parse_request}
use video_match.Connection.Responding.{
  async_write, begin_response, complete_response, content_length_key, response_bytes,
  RequestHandler, process_request,
}
use video_match.Connection.Fields.{header_of}
use video_match.Connection.Responses.{
  KeepsThread, begin_response-complete_response, process_request_threaded,
}
use video_match.HttpServer.Reached.{Reach-IsHandled}
use video_match.HttpServer.Serving.{IsHandled, IsTotal}
use video_match.HttpServer.Sound.{Sound}
use video_match.HttpServer.{
  pushing, chose, unlocked, begin_push, HttpServer, accepting, reading, accepted, received, Reach,
  starts, happens, new_server, start_accept, handle, handle_accept, can_happen,
}
use video_match.ThreadPool.{Pool, choose_queue, choose, shortest, no_threads}
use video_match.Text.{decimal, printed, find_from}

abbrev fresh : HttpConnection
fresh = new_connection 7

no_end : header_end (bytes_of "GET /browse/v1 HT") ≡ none
unfolding find_from
no_end = refl

read_pieces-header_example :
    read_pieces
      (bytes_of "GET /bro" ∷ bytes_of "wse/v1 HT" ∷ bytes_of "TP/1.0\r\n\r\n" ∷ [])
      (in_header fresh [])
    ≡ try_parse_request (bytes_of "GET /browse/v1 HTTP/1.0\r\n\r\n") (in_header fresh [])
read_pieces-header_example =
    read_pieces-header fresh (bytes_of "GET /bro" ∷ bytes_of "wse/v1 HT" ∷ []) []
      (bytes_of "TP/1.0\r\n\r\n") no_end (omega arith)

read_pieces-post_example :
    read_pieces
      (bytes_of "ab" ∷ bytes_of "cd" ∷ bytes_of "efgh" ∷ [])
      (in_post fresh (bytes_of "x"))
    ≡ try_parse_request (bytes_of "abcdefgh") (in_post fresh (bytes_of "x"))
unfolding new_connection
read_pieces-post_example =
    read_pieces-post fresh (bytes_of "ab" ∷ bytes_of "cd" ∷ []) (bytes_of "x") (bytes_of "efgh")
      (omega arith)

abbrev missing : HttpConnection
missing = record fresh { http_ret = http_404 }

begin_response-complete_response_example :
    (begin_response missing
      ≡ (async_write (response_bytes (complete_response missing)), complete_response missing))
    × ((complete_response missing).http_ret ≡ http_404)
    × (header_of content_length_key (complete_response missing).headers
        ≡ some (printed 24 (decimal (pos (length (complete_response missing).body)))))
unfolding new_connection has_header
begin_response-complete_response_example = begin_response-complete_response missing refl

-- A handler that always asks for another thread.
abbrev shy : RequestHandler ℕ
shy c s = some (http_switch_thread, c, s)

shy-KeepsThread : KeepsThread shy
shy-KeepsThread c s code c' s' e = cc

abbrev handed_over : HttpConnection
handed_over = record fresh { threaded = true }

process_request_threaded_example :
    (text : Name) × (c2 : HttpConnection) × (process_request shy handed_over 4
      ≡ some (async_write text, c2, 4))
    × (c2.http_ret ≡ http_508)
process_request_threaded_example =
    process_request_threaded shy shy-KeepsThread handed_over 4 refl http_switch_thread handed_over 4
      refl

shy-IsTotal : IsTotal shy
shy-IsTotal c s = (http_switch_thread, c, s, refl)

-- The first client has been accepted, and the next connection waits.
abbrev one_client : HttpServer ℕ
one_client = record {
  clients =
      record { conn = fresh; pending = reading }
      ∷ record { conn = new_connection 8; pending = accepting }
      ∷ [];
  pool = no_threads;
  site = 4;
}

one_client_reached : Reach shy one_client
unfolding new_server start_accept handle handle_accept can_happen new_connection
one_client_reached = happens (accepted 0 false 8) (starts 7 4) refl refl

-- A whole request is received, which the handler wants in a thread.
Reach-IsHandled_example :
    Sound 1 one_client.clients one_client.pool
    × IsHandled shy (received 0 false (bytes_of "GET /browse/v1 HTTP/1.0\r\n\r\n")) one_client
unfolding can_happen
Reach-IsHandled_example =
    Reach-IsHandled shy shy-KeepsThread shy-IsTotal one_client one_client_reached
      (received 0 false (bytes_of "GET /browse/v1 HTTP/1.0\r\n\r\n")) refl

-- The first client is handed over to the pool, which has no thread, and then one thread.
abbrev one_pushing : Pool → HttpServer ℕ
one_pushing pool = record {
  clients =
      record { conn = handed_over; pending = pushing }
      ∷ record { conn = new_connection 8; pending = accepting }
      ∷ [];
  pool = pool;
  site = 4;
}

abbrev one_chosen : Pool
one_chosen = record {
  threads = record { q = []; locked = false } ∷ [];
  processed = [];
  choice = some 0;
}

choice_made : handle shy chose (one_pushing no_threads) ≡ some (one_pushing one_chosen)
unfolding handle begin_push choose_queue choose shortest
choice_made = refl

push_possible : can_happen (unlocked 0) (one_pushing one_chosen) ≡ true
unfolding can_happen
push_possible = refl
