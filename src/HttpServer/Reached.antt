-- ===== src/HttpServer/Reached.antt =====
-- The states that the server in browse_server/http_server.cpp comes to.
use video_match.Base.{
  ℕ, ◌+◌, ◌≤◌, ◌≡◌, refl, true, false, List, [], ◌∷◌, ◌++◌, some, ==_iff, ==_refl, length, count,
  set, arith, ap, ◌∙◌, sym, inl, inr, Bool-cases, Option-cases, some_injective,
}
use mathlib.Core.Path.{subst}
use video_match.Connection.Responding.{RequestHandler}
use video_match.Connection.Responses.{KeepsThread}
use video_match.HttpServer.Callbacks.{client_there, carry_out-waits, carry_out-in_pool}
use video_match.HttpServer.Clients.{queued-change, thread_proc-out}
use video_match.HttpServer.Serving.{
  IsHandled, IsTotal, pooled_only, process_request_total, accepted-IsHandled, received-IsHandled,
  written-IsHandled, chose-IsHandled, unlocked-IsHandled,
}
use video_match.HttpServer.Sound.{Sound, none-Sound, Replaces-Sound, start_accept-Sound}
use video_match.HttpServer.{
  is_pushing, is_in_pool, Client, HttpServer, pending_at, thread_at, carry_out, client_after,
  new_server, answer, Event, accepted, received, written, chose, unlocked, moved, process_taken,
  handle_move, handle, can_happen, Reach, starts, can_move, succeeds, happens,
}
use video_match.ThreadPool.Counting.{Inside, Inside-length, queued, moved_parts, length-change}
use video_match.ThreadPool.{
  ThreadState, Pool, no_threads, max_thread_size, change, Move, thread_proc,
}

module _ {S : Type 0} (req_handler : RequestHandler S) (keeps : KeepsThread req_handler)
    (total : IsTotal req_handler) (n : ℕ) (m : Move) (s : HttpServer S) (t t' : ThreadState)
    (sound : Sound 1 s.clients s.pool) (at : thread_at n s.pool.threads ≡ some t) where
  abbrev pool_after : List ℕ → Pool
  pool_after out = record {
    threads = change (λ _. t') n s.pool.threads;
    processed = out ++ s.pool.processed;
    choice = s.pool.choice;
  }

  queued-move :
      (out : List ℕ)
      → thread_proc m t ≡ some (t', out)
      → (j : ℕ)
      → queued j (change (λ _. t') n s.pool.threads) + count j out ≡ queued j s.pool.threads
  queued-move out run j =
      omega (arith, moved_parts m t.q t.locked t' out run j, queued-change n j s.pool.threads t' at)

  few_after : length (change (λ _. t') n s.pool.threads) ≤ max_thread_size
  few_after = omega (arith, length-change (λ _. t') n s.pool.threads, sound.few)

  chosen_after : Inside s.pool.choice (change (λ _. t') n s.pool.threads)
  chosen_after =
      Inside-length s.pool.choice _ _ (length-change (λ _. t') n s.pool.threads) sound.chosen

  -- The thread takes or gives back its mutex.
  moved_idle : thread_proc m t ≡ some (t', []) → IsHandled req_handler (moved n m) s
  unfolding handle handle_move process_taken
  moved_idle run = (
    record s { pool = pool_after [] },
    rw at (rw run refl),
    record {
      waiting = sound.waiting;
      busy = sound.busy;
      placed = λ j. omega (arith, queued-move [] run j, sound.placed j);
      handed = sound.handed;
      few = few_after;
      chosen = chosen_after;
    },
  )

  -- The thread takes a connection and answers it.
  moved_taken : (i : ℕ) → thread_proc m t ≡ some (t', i ∷ []) → IsHandled req_handler (moved n m) s
  unfolding handle handle_move process_taken answer
  moved_taken i run =
      let there : is_in_pool (pending_at i s.clients) ≡ true =
        ground (arith, queued-move (i ∷ []) run i, sound.placed i, ==_refl i) in
      let (c, found, pooled) = client_there is_in_pool i s.clients refl there in
      let (still, idle) = pooled_only c.pending pooled in
      let threaded : c.conn.threaded ≡ true = sound.handed i c found (ground (arith, pooled)) in
      let (next, c2, site, done, hands) =
        process_request_total req_handler keeps total c.conn s.site in
      let answered : is_pushing (carry_out next) ≡ false =
        elim (Bool-cases (is_pushing (carry_out next))) [
          | inl again ↦ absurd (cc (sym threaded ∙ (hands again).0))
          | inr not_again ↦ not_again
        ] in
      let after : Client = client_after (next, c2) in
      let s1 : HttpServer S = record {
        clients = set s.clients i after;
        pool = pool_after (i ∷ []);
        site = site;
      } in
      let sound1 : Sound 1 s1.clients s1.pool =
        Replaces-Sound i 1 1 c after s.clients s.pool (pool_after (i ∷ [])) sound record {
          at = found;
          waits_too = ground (arith, still, carry_out-waits next);
          free = ground (arith, sound.busy, answered);
          queues = λ j. ground (
            arith,
            queued-move (i ∷ []) run j,
            sound.placed j,
            ==_iff i j,
            carry_out-in_pool next,
          );
          thread = λ needs. (hands (ground (arith, needs, carry_out-in_pool next))).1;
          few = few_after;
          chosen = chosen_after;
        } in
      (s1, rw at (rw run (rw found (rw done refl))), sound1)

module _ {S : Type 0} (req_handler : RequestHandler S) (keeps : KeepsThread req_handler)
    (total : IsTotal req_handler) where
  moved-IsHandled :
      (n : ℕ) (m : Move) (s : HttpServer S)
      → Sound 1 s.clients s.pool
      → can_happen (moved n m) s ≡ true
      → IsHandled req_handler (moved n m) s
  unfolding can_happen can_move
  moved-IsHandled n m s sound can = elim (Option-cases (thread_at n s.pool.threads)) [
    | inl miss ↦ absurd (cc (sym (ap (can_move m) miss) ∙ can))
    | inr (t, at) ↦ elim (Option-cases (thread_proc m t)) [
      | inl stuck ↦ absurd (cc (sym (ap (can_move m) at ∙ ap succeeds stuck) ∙ can))
      | inr ((t', out), run) ↦ elim (thread_proc-out m t.q t.locked run) [
        | inl idle ↦
            moved_idle req_handler keeps total n m s t t' sound at
              (run ∙ ap (λ o. some (t', o)) idle)
        | inr (i, takes) ↦
            moved_taken req_handler keeps total n m s t t' sound at i
              (run ∙ ap (λ o. some (t', o)) takes)
      ]
    ]
  ]

  event-IsHandled :
      (e : Event) (s : HttpServer S)
      → Sound 1 s.clients s.pool
      → can_happen e s ≡ true
      → IsHandled req_handler e s
  event-IsHandled (accepted i error postsize) s =
      accepted-IsHandled req_handler keeps total i error postsize s
  event-IsHandled (received i error bytes) s =
      received-IsHandled req_handler keeps total i error bytes s
  event-IsHandled (written i error) s = written-IsHandled req_handler keeps total i error s
  event-IsHandled chose s = λ sound can. chose-IsHandled req_handler keeps total s sound
  event-IsHandled (unlocked i) s = unlocked-IsHandled req_handler keeps total i s
  event-IsHandled (moved n m) s = moved-IsHandled n m s

  Reach-Sound : (s : HttpServer S) → Reach req_handler s → Sound 1 s.clients s.pool
  unfolding new_server
  Reach-Sound s (starts postsize site) =
      start_accept-Sound 0 postsize (record { clients = []; pool = no_threads; site = site })
        none-Sound
  Reach-Sound s' (happens {s} e r can run) =
      let (t, done, sound) = event-IsHandled e s (Reach-Sound s r) can in
      subst (λ (x : HttpServer S). Sound 1 x.clients x.pool) (some_injective (sym done ∙ run)) sound

-- In every state that the server comes to from its start, whatever boost::asio reports and however
-- the threads interleave with it: exactly one connection waits for the next client, at most one for
-- a place in a queue, those handed over to the pool are in one queue once each and no other is in a
-- queue, both kinds have `threaded_` set, there are at most 16 threads, and a queue that has been
-- chosen is there. Every event that can
-- happen there is handled without a fault, and leaves a state of which the same holds. The handler
-- of the program is one that does not fault and leaves `threaded_` alone.
pub Reach-IsHandled :
    {S : Type 0} (req_handler : RequestHandler S)
    → KeepsThread req_handler
    → IsTotal req_handler
    → (s : HttpServer S) → Reach req_handler s
    → (e : Event) → can_happen e s ≡ true
    → Sound 1 s.clients s.pool × IsHandled req_handler e s
Reach-IsHandled req_handler keeps total s r e can =
    let sound = Reach-Sound req_handler keeps total s r in
    (sound, event-IsHandled req_handler keeps total e s sound can)
