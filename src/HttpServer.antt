-- ===== src/HttpServer.antt =====
-- `HttpServer` of browse_server/http_server.hpp and http_server.cpp as a whole: the connections, the
-- thread pool and the program's handler, driven by what boost::asio reports. One handler of an
-- event is one step; a connection is the number under which it was made.
pub mod Clients
pub mod Sound
pub mod Callbacks
pub mod Serving
pub mod Reached
use video_match.Base.{
  ℕ, zero, suc, ◌≡◌, Bool, true, false, ◌&&◌, not, List, [], ◌∷◌, ◌++◌, Option, none, some, any_of,
  if◌then◌else◌, set, Name,
}
use video_match.Connection.Responding.{
  Next, async_read, shutdown_and_read, async_write, to_threadpool, closed, RequestHandler,
  process_request, handle_read, handle_write,
}
use video_match.Connection.{HttpConnection, new_connection}
use video_match.ThreadPool.{
  ThreadState, Pool, no_threads, choose_queue, gets_lock, change, push_to_threadpool, Move,
  thread_proc,
}
use video_match.VideoDb.Index.{◌>>=◌}

-- What a connection waits for. `pushing` is a connection that the network thread is about to put
-- into a queue, which it chooses and for whose mutex it waits; nothing is left to come for an `ended` one.
pub data Pending : Type 0 where
  accepting : Pending
  reading : Pending
  writing : Name → Pending
  pushing : Pending
  in_pool : Pending
  ended : Pending

abbrev pub is_accepting : Pending → Bool
is_accepting accepting = true
is_accepting _ = false

abbrev pub is_pushing : Pending → Bool
is_pushing pushing = true
is_pushing _ = false

abbrev pub is_in_pool : Pending → Bool
is_in_pool in_pool = true
is_in_pool _ = false

-- A connection with what it waits for.
pub record Client : Type 0 where
  pub conn : HttpConnection
  pub pending : Pending

-- All connections that were made, the threads, and the state of the program.
pub record HttpServer (S : Type 0) : Type 0 where
  pub clients : List Client
  pub pool : Pool
  pub site : S

abbrev pub client_at : ℕ → List Client → Option Client
client_at i [] = none
client_at zero (c ∷ clients) = some c
client_at (suc i) (c ∷ clients) = client_at i clients

abbrev pub thread_at : ℕ → List ThreadState → Option ThreadState
thread_at i [] = none
thread_at zero (t ∷ threads) = some t
thread_at (suc i) (t ∷ threads) = thread_at i threads

-- The call that the code makes at the end of a handler.
abbrev pub carry_out : Next → Pending
carry_out async_read = reading
carry_out shutdown_and_read = reading
carry_out (async_write text) = writing text
carry_out to_threadpool = pushing
carry_out closed = ended

-- The constructor of a connection leaves `postsize_` as it finds it, here `postsize`.
unfoldable pub start_accept : {S : Type 0} → ℕ → HttpServer S → HttpServer S
unfolding new_connection
start_accept postsize s = record s {
  clients = s.clients ++ record { conn = new_connection postsize; pending = accepting } ∷ [];
}

-- `HttpServer::HttpServer`
unfoldable pub new_server : {S : Type 0} → ℕ → S → HttpServer S
unfolding start_accept
new_server postsize site =
    start_accept postsize (record { clients = []; pool = no_threads; site = site })

abbrev pub client_after : Next × HttpConnection → Client
client_after (next, conn) = record { conn = conn; pending = carry_out next }

-- What comes of a handler of connection `i`.
unfoldable pub answer :
    {S : Type 0} → ℕ → Option (Next × HttpConnection × S) → HttpServer S → Option (HttpServer S)
answer i outcome s = do
  (next, conn, site) ← outcome
  some (record s { clients = set s.clients i (client_after (next, conn)); site = site })

unfoldable pub handle_accept : {S : Type 0} → ℕ → Bool → ℕ → HttpServer S → Option (HttpServer S)
unfolding start_accept
handle_accept i error postsize s = do
  c ← client_at i s.clients
  let next : Client = record { conn = c.conn; pending = if error then ended else reading }
  some (start_accept postsize (record s { clients = set s.clients i next }))

-- The network thread chooses a queue for the connection that it is pushing.
unfoldable pub begin_push : {S : Type 0} → HttpServer S → Option (HttpServer S)
unfolding choose_queue
begin_push s = do pool ← choose_queue s.pool; some (record s { pool = pool })

-- The network thread puts the connection into the queue, once it has the mutex of the queue.
unfoldable pub finish_push : {S : Type 0} → ℕ → HttpServer S → Option (HttpServer S)
unfolding push_to_threadpool
finish_push i s = do
  c ← client_at i s.clients
  pool ← push_to_threadpool i s.pool
  some (record s {
    clients = set s.clients i (record { conn = c.conn; pending = in_pool });
    pool = pool;
  })

-- What boost::asio reports, and what the threads do.
pub data Event : Type 0 where
  accepted : ℕ → Bool → ℕ → Event
  received : ℕ → Bool → Name → Event
  written : ℕ → Bool → Event
  chose : Event
  unlocked : ℕ → Event
  moved : ℕ → Move → Event

-- A thread processes what it has taken from its queue.
unfoldable pub process_taken :
    {S : Type 0} → RequestHandler S → List ℕ → HttpServer S → Option (HttpServer S)
unfolding answer process_request
process_taken req_handler [] s = some s
process_taken req_handler (i ∷ taken) s = do
  c ← client_at i s.clients
  s' ← answer i (process_request req_handler c.conn s.site) s
  process_taken req_handler taken s'

unfoldable pub handle_move :
    {S : Type 0} → RequestHandler S → ℕ → Move → HttpServer S → Option (HttpServer S)
unfolding thread_proc change process_taken
handle_move req_handler n m s = do
  t ← thread_at n s.pool.threads
  (t', taken) ← thread_proc m t
  let pool : Pool = record {
    threads = change (λ _. t') n s.pool.threads;
    processed = taken ++ s.pool.processed;
    choice = s.pool.choice;
  }
  process_taken req_handler taken (record s { pool = pool })

-- `none` is a fault.
unfoldable pub handle :
    {S : Type 0} → RequestHandler S → Event → HttpServer S → Option (HttpServer S)
unfolding handle_accept handle_read handle_write answer begin_push finish_push handle_move
handle req_handler (accepted i error postsize) s = handle_accept i error postsize s
handle req_handler (received i error bytes) s = do
  c ← client_at i s.clients
  answer i (handle_read req_handler error bytes c.conn s.site) s
handle req_handler (written i error) s = do
  c ← client_at i s.clients
  let (next, conn) = handle_write error c.conn
  answer i (some (next, conn, s.site)) s
handle req_handler chose s = begin_push s
handle req_handler (unlocked i) s = finish_push i s
handle req_handler (moved n m) s = handle_move req_handler n m s

abbrev pub pending_at : ℕ → List Client → Pending
pending_at i clients = elim (client_at i clients) [ none ↦ ended | some c ↦ c.pending ]

abbrev pub is_reading : Pending → Bool
is_reading reading = true
is_reading _ = false

abbrev pub is_writing : Pending → Bool
is_writing (writing text) = true
is_writing _ = false

-- The network thread is not in the middle of a push.
abbrev pub is_free : List Client → Bool
is_free clients = not (any_of (λ c. is_pushing c.pending) clients)

abbrev pub is_unset : Option ℕ → Bool
is_unset none = true
is_unset (some i) = false

abbrev pub succeeds : Option (ThreadState × List ℕ) → Bool
succeeds none = false
succeeds (some _) = true

unfoldable pub can_move : Move → Option ThreadState → Bool
unfolding thread_proc
can_move m none = false
can_move m (some t) = succeeds (thread_proc m t)

-- Whether the event can happen: the callback is one that has been asked for and the network thread
-- has time for it, or the move is the next one of the thread.
unfoldable pub can_happen : {S : Type 0} → Event → HttpServer S → Bool
unfolding can_move
can_happen (accepted i error postsize) s =
    is_free s.clients && is_accepting (pending_at i s.clients)
can_happen (received i error bytes) s = is_free s.clients && is_reading (pending_at i s.clients)
can_happen (written i error) s = is_free s.clients && is_writing (pending_at i s.clients)
can_happen chose s = not (is_free s.clients) && is_unset s.pool.choice
can_happen (unlocked i) s = is_pushing (pending_at i s.clients) && gets_lock s.pool
can_happen (moved n m) s = can_move m (thread_at n s.pool.threads)

-- The states that the server can come to.
pub data Reach {S : Type 0} (req_handler : RequestHandler S) : HttpServer S → Type 0 where
  starts : (postsize : ℕ) (site : S) → Reach req_handler (new_server postsize site)
  happens :
      {s s' : HttpServer S} (e : Event)
      → Reach req_handler s
      → can_happen e s ≡ true
      → handle req_handler e s ≡ some s'
      → Reach req_handler s'
