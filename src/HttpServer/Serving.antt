-- ===== src/HttpServer/Serving.antt =====
-- Every event of the server in browse_server/http_server.cpp is handled.
use video_match.Base.{
  ℕ, ◌≡◌, refl, Bool, true, false, Option, some, if◌then◌else◌, set, arith, ap, ◌∙◌, sym, inl, inr,
  Bool-cases, Option-cases, length, ◌<◌, ℤ, Name,
}
use video_match.Cache.Files.{same_int}
use video_match.Connection.Parsing.{Parsed, try_parse_request, parsed, go_on, refused}
use video_match.Connection.Responding.{
  Next, async_read, shutdown_and_read, async_write, to_threadpool, closed, RequestHandler,
  process_request, handle_read, handle_write, begin_response, response_bytes, complete_response,
}
use video_match.Connection.Responses.{KeepsThread, begin_response_write, process_request_threaded}
use video_match.Connection.{HttpConnection, http_switch_thread, processing}
use video_match.HttpServer.Callbacks.{
  client_there, carry_out-waits, carry_out-in_pool, queues_kept, network-Sound,
}
use video_match.HttpServer.Sound.{Sound, Replaces-Sound, start_accept-Sound}
use video_match.HttpServer.{
  Pending, reading, in_pool, ended, is_accepting, is_pushing, is_in_pool, is_reading, is_writing,
  Client, HttpServer, carry_out, client_after, start_accept, answer, handle_accept, finish_push,
  Event, accepted, received, written, chose, begin_push, unlocked, handle, can_happen,
}
use video_match.ThreadPool.Counting.{Inside, choose_queue-Picks, push-Pushes}
use video_match.ThreadPool.{gets_lock}
use mathlib.Core.Path.{subst}

-- The event is handled, and the server stays sound.
abbrev pub IsHandled : {S : Type 0} → RequestHandler S → Event → HttpServer S → Type 0
IsHandled {S} req_handler e s =
    (s' : HttpServer S) × (handle req_handler e s ≡ some s') × Sound 1 s'.clients s'.pool

-- A handler that does not fault.
abbrev pub IsTotal : {S : Type 0} → RequestHandler S → Type 0
IsTotal {S} req_handler =
    (c : HttpConnection) (s : S)
    → (code : ℤ) × (c' : HttpConnection) × (s' : S) × (req_handler c s ≡ some (code, c', s'))

-- A connection waits for one thing at a time.
reads_only : (p : Pending) → is_reading p ≡ true → (is_accepting p ≡ false) × (is_in_pool p ≡ false)
reads_only p e = ground arith

writes_only :
    (p : Pending) → is_writing p ≡ true → (is_accepting p ≡ false) × (is_in_pool p ≡ false)
writes_only p e = ground arith

accepts_only : (p : Pending) → is_accepting p ≡ true → is_in_pool p ≡ false
accepts_only p e = ground arith

pushes_only :
    (p : Pending) → is_pushing p ≡ true → (is_accepting p ≡ false) × (is_in_pool p ≡ false)
pushes_only p e = ground arith

pub pooled_only :
    (p : Pending) → is_in_pool p ≡ true → (is_accepting p ≡ false) × (is_pushing p ≡ false)
pooled_only p e = ground arith

-- What an accepted connection waits for.
abbrev opened : Bool → Pending
opened error = if error then ended else reading

opened_only :
    (error : Bool)
    → (is_accepting (opened error) ≡ false)
      × (is_in_pool (opened error) ≡ false)
      × (is_pushing (opened error) ≡ false)
opened_only true = (refl, refl, refl)
opened_only false = (refl, refl, refl)

-- What a connection waits for after a response.
abbrev reopened : Bool → Next
reopened error = if error then async_read else shutdown_and_read

reopened_only : (error : Bool) → is_pushing (carry_out (reopened error)) ≡ false
reopened_only true = refl
reopened_only false = refl

module _ {S : Type 0} (req_handler : RequestHandler S) (keeps : KeepsThread req_handler)
    (total : IsTotal req_handler) where
  -- The request is answered, or handed over to a thread if it has not been.
  pub process_request_total :
      (c : HttpConnection) (s : S)
      → (next : Next) × (c2 : HttpConnection) × (s2 : S) × (process_request req_handler c s
          ≡ some (next, c2, s2))
        × (is_pushing (carry_out next) ≡ true → (c.threaded ≡ false) × (c2.threaded ≡ true))
  unfolding process_request
  process_request_total c s =
      let (code, c', s', run) = total c s in
      elim (Bool-cases c.threaded) [
        | inl twice ↦
            let (text, c2, made, is) =
              process_request_threaded req_handler keeps c s twice code c' s' run in
            (async_write text, c2, s', made, λ e. absurd (cc e))
        | inr once ↦ elim (Bool-cases (same_int code http_switch_thread)) [
          | inr done ↦
              let d = record c' { http_ret = code } in
              let made : process_request req_handler c s
                  ≡ some ((begin_response d).0, (begin_response d).1, s') =
                rw (run, process_request) (rw done refl) in
              (
                async_write (response_bytes (complete_response d)),
                complete_response d,
                s',
                made ∙ ap (λ r. some (r.0, r.1, s')) (begin_response_write d),
                λ e. absurd (cc e),
              )
          | inl again ↦
              let still : c'.threaded ≡ false = keeps c s code c' s' run ∙ once in
              (
                to_threadpool,
                record c' { http_ret = code; threaded = true },
                s',
                rw (run, process_request) (rw again (rw still refl)),
                λ e. (once, refl),
              )
        ]
      ]

  after_parse :
      (c : HttpConnection) (s : S) (o : Parsed)
      → (next : Next) × (c2 : HttpConnection) × (s2 : S) × (elim o
            as (λ _. Option (Next × HttpConnection × S)) [
              | parsed c1 ↦ process_request req_handler (record c1 { state = processing }) s
              | go_on c1 ↦ some (async_read, c1, s)
              | refused ↦ some (closed, c, s)
            ]
          ≡ some (next, c2, s2))
        × (is_pushing (carry_out next) ≡ true → c2.threaded ≡ true)
  after_parse c s (parsed c1) =
      let (next, c2, s2, run, hands) = process_request_total (record c1 { state = processing }) s in
      (next, c2, s2, run, λ e. (hands e).1)
  after_parse c s (go_on c1) = (async_read, c1, s, refl, λ e. absurd (cc e))
  after_parse c s refused = (closed, c, s, refl, λ e. absurd (cc e))

  handle_read_total :
      (error : Bool) (bytes : Name) (c : HttpConnection) (s : S)
      → (next : Next) × (c2 : HttpConnection) × (s2 : S) × (handle_read req_handler error bytes c s
          ≡ some (next, c2, s2))
        × (is_pushing (carry_out next) ≡ true → c2.threaded ≡ true)
  unfolding handle_read
  handle_read_total true bytes c s = (closed, c, s, refl, λ e. absurd (cc e))
  handle_read_total false bytes c s = after_parse c s (try_parse_request bytes c)

  pub accepted-IsHandled :
      (i : ℕ) (error : Bool) (postsize : ℕ) (s : HttpServer S)
      → Sound 1 s.clients s.pool
      → can_happen (accepted i error postsize) s ≡ true
      → IsHandled req_handler (accepted i error postsize) s
  unfolding can_happen handle handle_accept start_accept
  accepted-IsHandled i error postsize s sound can =
      let (c, at, waits_c) = client_there is_accepting i s.clients refl (ground (arith, can)) in
      let after : Client = record { conn = c.conn; pending = opened error } in
      let s1 : HttpServer S = record s { clients = set s.clients i after } in
      let (still, out, idle) = opened_only error in
      let sound1 : Sound 0 s1.clients s1.pool =
        network-Sound i c s sound at 0 after (ground (arith, can)) (ground (arith, waits_c, still))
          (accepts_only c.pending waits_c) out (λ e. absurd (cc (sym idle ∙ e))) in
      (start_accept postsize s1, rw at refl, start_accept-Sound 0 postsize s1 sound1)

  pub received-IsHandled :
      (i : ℕ) (error : Bool) (bytes : Name) (s : HttpServer S)
      → Sound 1 s.clients s.pool
      → can_happen (received i error bytes) s ≡ true
      → IsHandled req_handler (received i error bytes) s
  unfolding can_happen handle answer
  received-IsHandled i error bytes s sound can =
      let (c, at, reads) = client_there is_reading i s.clients refl (ground (arith, can)) in
      let (next, c2, site, run, hands) = handle_read_total error bytes c.conn s.site in
      let after : Client = client_after (next, c2) in
      (
        record s { clients = set s.clients i after; site = site },
        rw at (rw run refl),
        network-Sound i c s sound at 1 after (ground (arith, can))
            (ground (arith, (reads_only c.pending reads).0, carry_out-waits next))
            (reads_only c.pending reads).1 (carry_out-in_pool next) hands,
      )

  pub written-IsHandled :
      (i : ℕ) (error : Bool) (s : HttpServer S)
      → Sound 1 s.clients s.pool
      → can_happen (written i error) s ≡ true
      → IsHandled req_handler (written i error) s
  unfolding can_happen handle answer handle_write
  written-IsHandled i error s sound can =
      let (c, at, writes) = client_there is_writing i s.clients refl (ground (arith, can)) in
      let after : Client = client_after (handle_write error c.conn) in
      (
        record s { clients = set s.clients i after },
        rw at refl,
        network-Sound i c s sound at 1 after (ground (arith, can))
            (ground (arith, (writes_only c.pending writes).0, carry_out-waits (reopened error)))
            (writes_only c.pending writes).1 (carry_out-in_pool (reopened error))
            (λ e. absurd (cc (sym (reopened_only error) ∙ e))),
      )

  pub chose-IsHandled :
      (s : HttpServer S) → Sound 1 s.clients s.pool → IsHandled req_handler chose s
  unfolding handle begin_push
  chose-IsHandled s sound =
      let (pool, run, p) = choose_queue-Picks s.pool in
      (
        record s { pool = pool },
        rw run refl,
        record {
          waiting = sound.waiting;
          busy = sound.busy;
          placed = λ j. p.same j ∙ sound.placed j;
          handed = sound.handed;
          few = p.bounded sound.few;
          chosen = p.inside;
        },
      )

  chosen_queue :
      (s : HttpServer S)
      → Sound 1 s.clients s.pool
      → gets_lock s.pool ≡ true
      → (k : ℕ) × (s.pool.choice ≡ some k) × (k < length s.pool.threads)
  chosen_queue s sound can = elim (Option-cases s.pool.choice) [
    | inl miss ↦ absurd (cc (rw miss at can))
    | inr (k, chosen) ↦ (k, chosen, subst (λ o. Inside o s.pool.threads) chosen sound.chosen)
  ]

  pub unlocked-IsHandled :
      (i : ℕ) (s : HttpServer S)
      → Sound 1 s.clients s.pool
      → can_happen (unlocked i) s ≡ true
      → IsHandled req_handler (unlocked i) s
  unfolding can_happen handle finish_push
  unlocked-IsHandled i s sound can =
      let (c, at, waiting) = client_there is_pushing i s.clients refl (ground (arith, can)) in
      let (k, chosen, lt) = chosen_queue s sound (ground (arith, can)) in
      let (pool, run, p) = push-Pushes i k s.pool chosen lt in
      let after : Client = record { conn = c.conn; pending = in_pool } in
      let (still, out) = pushes_only c.pending waiting in
      let s1 : HttpServer S = record s { clients = set s.clients i after; pool = pool } in
      let sound1 : Sound 1 s1.clients s1.pool =
        Replaces-Sound i 1 1 c after s.clients s.pool pool sound record {
          at = at;
          waits_too = ground (arith, still);
          free = ground (arith, sound.busy, waiting);
          queues = λ j. ground (arith, p.pushed j, queues_kept i c s sound at ended out refl j);
          thread = λ needs. sound.handed i c at (ground (arith, waiting));
          few = omega (arith, p.same_length, sound.few);
          chosen = rw p.done tt;
        } in
      (s1, rw at (rw run refl), sound1)
