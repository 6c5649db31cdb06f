-- ===== src/HttpServer/Callbacks.antt =====
-- What a callback of the server in browse_server/http_server.cpp does to its connections.
use video_match.Base.{
  ℕ, ◌+◌, ◌≡◌, refl, Bool, true, false, List, Option, none, some, ◌==◌, ==_iff, if◌then◌else◌,
  any_of-count_if, set, arith, ap, ◌∙◌, sym, inl, inr, Bool-cases, Option-cases,
}
use mathlib.Core.Path.{subst}
use video_match.Connection.Responding.{
  Next, async_read, shutdown_and_read, async_write, to_threadpool, closed,
}
use video_match.HttpServer.Sound.{waits, pushes, Sound, Replaces-Sound}
use video_match.HttpServer.{
  Pending, ended, is_accepting, is_pushing, is_in_pool, is_free, Client, HttpServer, client_at,
  pending_at, carry_out,
}
use video_match.ThreadPool.Counting.{queued}
use video_match.VideoDb.Sets.{bit}

-- A test that the end of a connection fails finds a connection.
pub client_there :
    (f : Pending → Bool) (i : ℕ) (clients : List Client)
    → f ended ≡ false
    → f (pending_at i clients) ≡ true
    → (c : Client) × (client_at i clients ≡ some c) × (f c.pending ≡ true)
client_there f i clients off there = elim (Option-cases (client_at i clients)) [
  | inl miss ↦ absurd (
      cc (
        sym there
        ∙ ap (λ (o : Option Client). f (elim o [ none ↦ ended | some c ↦ c.pending ])) miss
        ∙ off))
  | inr (c, at) ↦ (
    c,
    at,
    ap (λ (o : Option Client). f (elim o [ none ↦ ended | some c ↦ c.pending ])) (sym at) ∙ there,
  )
]

pub carry_out-waits : (next : Next) → is_accepting (carry_out next) ≡ false
carry_out-waits async_read = refl
carry_out-waits shutdown_and_read = refl
carry_out-waits (async_write text) = refl
carry_out-waits to_threadpool = refl
carry_out-waits closed = refl

pub carry_out-in_pool : (next : Next) → is_in_pool (carry_out next) ≡ false
carry_out-in_pool async_read = refl
carry_out-in_pool shutdown_and_read = refl
carry_out-in_pool (async_write text) = refl
carry_out-in_pool to_threadpool = refl
carry_out-in_pool closed = refl

pub pending_at_client :
    (i : ℕ) (clients : List Client) (c : Client)
    → client_at i clients ≡ some c
    → pending_at i clients ≡ c.pending
pending_at_client i clients c at =
    ap (λ (o : Option Client). elim o [ none ↦ ended | some c ↦ c.pending ]) at

module _ {S : Type 0} (i : ℕ) (c : Client) (s : HttpServer S) (sound : Sound 1 s.clients s.pool)
    (at : client_at i s.clients ≡ some c) where
  -- Where the connection is not in the pool, the queues need not change.
  pub queues_kept :
      (p : Pending)
      → is_in_pool c.pending ≡ false
      → is_in_pool p ≡ false
      → (j : ℕ)
      → queued j s.pool.threads ≡ (if i == j then bit (is_in_pool p) else queued j s.pool.threads)
  queues_kept p out out' j = elim (Bool-cases (i == j)) [
    | inl same ↦
        let empty : queued i s.pool.threads ≡ 0 =
          sound.placed i
          ∙ ap (λ x. bit (is_in_pool x)) (pending_at_client i s.clients c at)
          ∙ ap bit out in
        let e : queued j s.pool.threads ≡ 0 =
          subst (λ x. queued x s.pool.threads ≡ 0) ((==_iff i j).0 same) empty in
        ground (arith, same, e, out')
    | inr other ↦ rw other refl
  ]

  -- A callback of the network thread.
  pub network-Sound :
      (n : ℕ) (after : Client)
      → is_free s.clients ≡ true
      → n + bit (waits c) ≡ 1 + bit (waits after)
      → is_in_pool c.pending ≡ false
      → is_in_pool after.pending ≡ false
      → (is_pushing after.pending ≡ true → after.conn.threaded ≡ true)
      → Sound n (set s.clients i after) s.pool
  network-Sound n after free wait out out' thread =
      Replaces-Sound i 1 n c after s.clients s.pool s.pool sound record {
        at = at;
        waits_too = wait;
        free = ground (arith, free, any_of-count_if pushes s.clients);
        queues = queues_kept after.pending out out';
        thread = λ needs. thread (ground (arith, needs, out'));
        few = sound.few;
        chosen = sound.chosen;
      }
