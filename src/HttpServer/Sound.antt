-- ===== src/HttpServer/Sound.antt =====
-- What stays true of the connections and the thread pool of the server in
-- browse_server/http_server.cpp.
use video_match.Base.{
  ℕ, ◌+◌, ◌≤◌, ◌≡◌, refl, Bool, true, false, ◌||◌, List, [], ◌∷◌, ◌++◌, Option, none, some, ◌==◌,
  ==_iff, if◌then◌else◌, length, count_if, count_if-append, set, arith, ap, ◌∙◌, sym, inl, inr,
  Bool-cases,
}
use mathlib.Core.Path.{subst}
use video_match.Connection.{new_connection}
use video_match.HttpServer.Clients.{client_at-set, client_at-append, count_if-set}
use video_match.HttpServer.{
  Pending, ended, is_accepting, is_pushing, is_in_pool, Client, HttpServer, client_at, pending_at,
  start_accept, accepting,
}
use video_match.ThreadPool.Counting.{Inside, queued}
use video_match.ThreadPool.{Pool, no_threads, max_thread_size}
use video_match.VideoDb.Sets.{bit}

abbrev pub waits : Client → Bool
waits c = is_accepting c.pending

abbrev pub pushes : Client → Bool
pushes c = is_pushing c.pending

abbrev pub needs_thread : Pending → Bool
needs_thread p = is_pushing p || is_in_pool p

-- `n` connections wait for a client, at most one for a mutex, those that wait for a thread are in
-- one queue once and have been handed over to the threads, there are at most 16 threads, and a
-- queue that has been chosen is there.
pub record Sound (n : ℕ) (clients : List Client) (pool : Pool) : Type 0 where
  pub waiting : count_if waits clients ≡ n
  pub busy : count_if pushes clients ≤ 1
  pub placed : (i : ℕ) → queued i pool.threads ≡ bit (is_in_pool (pending_at i clients))
  pub handed :
      (i : ℕ) (c : Client)
      → client_at i clients ≡ some c
      → needs_thread c.pending ≡ true
      → c.conn.threaded ≡ true
  pub few : length pool.threads ≤ max_thread_size
  pub chosen : Inside pool.choice pool.threads

pub none-Sound : Sound 0 [] no_threads
none-Sound = record {
  waiting = refl;
  busy = omega arith;
  placed = λ i. refl;
  handed = λ i c at. absurd (cc at);
  few = omega arith;
  chosen = tt;
}

-- The connection `i` goes from `before` to `after`, and the queues with it.
pub record Replaces (i n m : ℕ) (before after : Client) (clients : List Client) (pool pool' : Pool)
    : Type 0 where
  pub at : client_at i clients ≡ some before
  pub waits_too : m + bit (waits before) ≡ n + bit (waits after)
  pub free : count_if pushes clients + bit (pushes after) ≤ 1 + bit (pushes before)
  pub queues :
      (j : ℕ)
      → queued j pool'.threads
        ≡ (if i == j then bit (is_in_pool after.pending) else queued j pool.threads)
  pub thread : needs_thread after.pending ≡ true → after.conn.threaded ≡ true
  pub few : length pool'.threads ≤ max_thread_size
  pub chosen : Inside pool'.choice pool'.threads

pending_of : Option Client → Pending
pending_of none = ended
pending_of (some c) = c.pending

module _ (i n m : ℕ) (before after : Client) (clients : List Client) (pool pool' : Pool)
    (sound : Sound n clients pool) (r : Replaces i n m before after clients pool pool') where
  pending-set :
      (j : ℕ)
      → pending_at j (set clients i after)
        ≡ (if i == j then after.pending else pending_at j clients)
  pending-set j = ground (arith, client_at-set clients i j after r.at)

  handed-set :
      (j : ℕ) (c : Client)
      → client_at j (set clients i after) ≡ some c
      → needs_thread c.pending ≡ true
      → c.conn.threaded ≡ true
  handed-set j c at needs =
      let now = sym (client_at-set clients i j after r.at) ∙ at in
      elim (Bool-cases (i == j)) [
        | inl same ↦
            let e : some after ≡ some c = rw same at now in
            let q : after ≡ c = cc e in
            subst (λ (x : Client). x.conn.threaded ≡ true) q
              (r.thread (ap (λ (x : Client). needs_thread x.pending) q ∙ needs))
        | inr other ↦ sound.handed j c (rw other at now) needs
      ]

  pub Replaces-Sound : Sound m (set clients i after) pool'
  Replaces-Sound = record {
    waiting = omega (arith, count_if-set waits clients i after r.at, sound.waiting, r.waits_too);
    busy = omega (arith, count_if-set pushes clients i after r.at, r.free);
    placed = λ j. ground (arith, r.queues j, pending-set j, sound.placed j);
    handed = handed-set;
    few = r.few;
    chosen = r.chosen;
  }

pending-append :
    (clients : List Client) (c : Client) (j : ℕ)
    → pending_at j (clients ++ c ∷ [])
      ≡ (if j == length clients then c.pending else pending_at j clients)
pending-append clients c j = ground (arith, client_at-append clients j c)

client_at_end : (clients : List Client) → client_at (length clients) clients ≡ none
client_at_end [] = refl
client_at_end (x ∷ clients) = client_at_end clients

pending_at_end :
    (clients : List Client) (j : ℕ)
    → (j == length clients) ≡ true
    → is_in_pool (pending_at j clients) ≡ false
pending_at_end clients j same =
    subst (λ i. is_in_pool (pending_at i clients) ≡ false)
      (sym ((==_iff j (length clients)).0 same))
      (ap (λ (o : Option Client). is_in_pool (elim o [ none ↦ ended | some c ↦ c.pending ]))
        (client_at_end clients))

-- The next connection waits for a client.
pub start_accept-Sound :
    {S : Type 0} (n postsize : ℕ) (s : HttpServer S)
    → Sound n s.clients s.pool
    → Sound (n + 1) (start_accept postsize s).clients (start_accept postsize s).pool
unfolding start_accept
start_accept-Sound n postsize s sound =
    let c : Client = record { conn = new_connection postsize; pending = accepting } in
    record {
      waiting = omega (arith, count_if-append waits s.clients (c ∷ []), sound.waiting);
      busy = omega (arith, count_if-append pushes s.clients (c ∷ []), sound.busy);
      placed = λ j.
          ground (arith, sound.placed j, pending-append s.clients c j, pending_at_end s.clients j);
      handed = λ j d at needs.
          let now = sym (client_at-append s.clients j c) ∙ at in
          elim (Bool-cases (j == length s.clients)) [
            | inl last ↦
                let e : some c ≡ some d = rw last at now in
                let q : c ≡ d = cc e in
                absurd (cc (ap (λ (x : Client). needs_thread x.pending) q ∙ needs))
            | inr old ↦ sound.handed j d (rw old at now) needs
          ];
      few = sound.few;
      chosen = sound.chosen;
    }
