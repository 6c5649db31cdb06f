-- ===== src/ThreadPool/Counting.antt =====
-- The connections in the thread pool of browse_server/http_server.cpp: none is lost and none is
-- there twice.
use video_match.Base.{
  ltb, none, Option-cases, Bool-cases, inl, inr, ℕ, zero, suc, ◌+◌, ◌≤◌, ◌<◌, ◌≡◌, refl, Bool, true,
  false, List, [], ◌∷◌, ◌++◌, Option, some, ◌==◌, length, length-append, count, count_if-append,
  arith, ap, sym, ◌∙◌, some_injective,
}
use mathlib.Core.Path.{subst}
use video_match.ThreadPool.Shortest.{Chooses, choose-Chooses}
use video_match.ThreadPool.{
  ThreadState, Pool, no_threads, max_thread_size, Choice, new_thread, queue_of, out_of_bounds,
  choosing, choose_queue, choose, change, enqueue, push_to_threadpool, Move, lock, process, wait,
  thread_proc, Step, push, move, Runs, stop, goes,
}

-- How often a connection is in a queue, and in a queue or processed.
abbrev pub queued : ℕ → List ThreadState → ℕ
queued c [] = 0
queued c (t ∷ threads) = count c t.q + queued c threads

abbrev pub held : ℕ → Pool → ℕ
held c p = queued c p.threads + count c p.processed

queued-append : (c : ℕ) (ts us : List ThreadState) → queued c (ts ++ us) ≡ queued c ts + queued c us
queued-append c [] us = omega arith
queued-append c (t ∷ ts) us = omega (arith, queued-append c ts us)

queued-change :
    (c conn i : ℕ) (ts : List ThreadState)
    → i < length ts
    → queued c (change (enqueue conn) i ts) ≡ queued c ts + count c (conn ∷ [])
unfolding change
queued-change c conn i [] lt = elim lt [ ]
queued-change c conn zero (t ∷ ts) lt = omega (arith, count_if-append (λ x. x == c) t.q (conn ∷ []))
queued-change c conn (suc i) (t ∷ ts) lt = omega (arith, queued-change c conn i ts (omega arith))

pub length-change :
    (f : ThreadState → ThreadState) (i : ℕ) (ts : List ThreadState)
    → length (change f i ts) ≡ length ts
unfolding change
length-change f i [] = refl
length-change f zero (t ∷ ts) = refl
length-change f (suc i) (t ∷ ts) = ap suc (length-change f i ts)

-- The chosen queue is there.
abbrev pub Inside : Option ℕ → List ThreadState → Type 0
Inside none threads = Unit
Inside (some i) threads = i < length threads

pub Inside-length :
    (choice : Option ℕ) (ts us : List ThreadState)
    → length us ≡ length ts
    → Inside choice ts
    → Inside choice us
Inside-length none ts us e there = tt
Inside-length (some i) ts us e there = omega (arith, e, there)

-- What the choice of a queue does to the pool, and what a push does.
pub record Picks (p p' : Pool) : Type 0 where
  pub same : (c : ℕ) → queued c p'.threads ≡ queued c p.threads
  pub same_processed : p'.processed ≡ p.processed
  pub bounded : length p.threads ≤ max_thread_size → length p'.threads ≤ max_thread_size
  pub inside : Inside p'.choice p'.threads

pub record Pushes (conn : ℕ) (p p' : Pool) : Type 0 where
  pub pushed : (c : ℕ) → queued c p'.threads ≡ queued c p.threads + count c (conn ∷ [])
  pub same_processed : p'.processed ≡ p.processed
  pub same_length : length p'.threads ≡ length p.threads
  pub done : p'.choice ≡ none

picked :
    (p : Pool) (choice : Choice)
    → Chooses p.threads choice
    → choose p.threads ≡ choice
    → (p' : Pool) × (choose_queue p ≡ some p') × Picks p p'
unfolding choose_queue
picked p new_thread ok is =
    let t : ThreadState = record { q = []; locked = false } in
    (
      record p { threads = p.threads ++ t ∷ []; choice = some (length p.threads) },
      rw (is, choose_queue) refl,
      record {
        same = λ c. omega (arith, queued-append c p.threads (t ∷ []));
        same_processed = refl;
        bounded = λ le. omega (arith, ok.0, length-append p.threads (t ∷ []));
        inside = omega (arith, length-append p.threads (t ∷ []));
      },
    )
picked p (queue_of i) ok is = (
  record p { choice = some i },
  rw (is, choose_queue) refl,
  record { same = λ c. refl; same_processed = refl; bounded = λ le. le; inside = ok.0 },
)
picked p out_of_bounds ok is = absurd ok

-- A queue is always found.
pub choose_queue-Picks : (p : Pool) → (p' : Pool) × (choose_queue p ≡ some p') × Picks p p'
choose_queue-Picks p = picked p (choose p.threads) (choose-Chooses p.threads) refl

-- A push into a queue that is there.
pub push-Pushes :
    (conn i : ℕ) (p : Pool)
    → p.choice ≡ some i
    → i < length p.threads
    → (p' : Pool) × (push_to_threadpool conn p ≡ some p') × Pushes conn p p'
unfolding push_to_threadpool
push-Pushes conn i p chosen lt =
    let there : ltb i (length p.threads) ≡ true = ground (arith, lt) in
    (
      record p { threads = change (enqueue conn) i p.threads; choice = none },
      rw (chosen, push_to_threadpool) (rw there refl),
      record {
        pushed = λ c. queued-change c conn i p.threads lt;
        same_processed = refl;
        same_length = length-change (enqueue conn) i p.threads;
        done = refl;
      },
    )

-- A push that succeeds had such a queue.
pushed_inside :
    (conn : ℕ) (p p' : Pool)
    → push_to_threadpool conn p ≡ some p'
    → (i : ℕ) × (p.choice ≡ some i) × (i < length p.threads)
unfolding push_to_threadpool
pushed_inside conn p p' run = elim (Option-cases p.choice) [
  | inl miss ↦ (let e = rw (miss, push_to_threadpool) at run in absurd (cc e))
  | inr (i, chosen) ↦ elim (Bool-cases (ltb i (length p.threads))) [
    | inl there ↦ (i, chosen, ground (arith, there))
    | inr out ↦
        let e = rw (chosen, push_to_threadpool) at run in let e' = rw out at e in absurd (cc e')
  ]
]

choose-held :
    (p p' : Pool)
    → choose_queue p ≡ some p'
    → ((c : ℕ) → held c p' ≡ held c p)
      × (length p.threads ≤ max_thread_size → length p'.threads ≤ max_thread_size)
choose-held p p' run =
    let (q, found, r) = choose_queue-Picks p in
    let same : q ≡ p' = some_injective (sym found ∙ run) in
    let r' : Picks p p' = subst (Picks p) same r in
    (λ c. omega (arith, r'.same c, ap (count c) r'.same_processed), r'.bounded)

push-held :
    (conn : ℕ) (p p' : Pool)
    → push_to_threadpool conn p ≡ some p'
    → ((c : ℕ) → held c p' ≡ held c p + count c (conn ∷ []))
      × (length p.threads ≤ max_thread_size → length p'.threads ≤ max_thread_size)
push-held conn p p' run =
    let (i, chosen, lt) = pushed_inside conn p p' run in
    let (q, found, r) = push-Pushes conn i p chosen lt in
    let same : q ≡ p' = some_injective (sym found ∙ run) in
    let r' : Pushes conn p p' = subst (Pushes conn p) same r in
    (
      λ c. omega (arith, r'.pushed c, ap (count c) r'.same_processed),
      λ le. omega (arith, le, r'.same_length),
    )

-- A move takes from the queue what it processes.
same_move :
    (c : ℕ) (t t' : ThreadState) (q out done : List ℕ) (locked : Bool)
    → ◌≡◌ {A = Option (ThreadState × List ℕ)}
        (some (record { q = q; locked = locked }, done))
        (some (t', out))
    → count c q + count c done ≡ count c t.q
    → count c t'.q + count c out ≡ count c t.q
same_move c t t' q out done locked run sum =
    let left : t' ≡ record { q = q; locked = locked } = cc run in
    let right : out ≡ done = cc run in rw left (rw right sum)

pub moved_parts :
    (m : Move) (q : List ℕ) (locked : Bool) (t' : ThreadState) (out : List ℕ)
    → thread_proc m (record { q = q; locked = locked }) ≡ some (t', out)
    → (c : ℕ) → count c t'.q + count c out ≡ count c q
unfolding thread_proc
moved_parts lock q true t' out run c = absurd (cc run)
moved_parts lock q false t' out run c =
    same_move c (record { q = q; locked = false }) t' q out [] true run (omega arith)
moved_parts process [] locked t' out run c = absurd (cc run)
moved_parts process (conn ∷ q) false t' out run c = absurd (cc run)
moved_parts process (conn ∷ q) true t' out run c =
    same_move c (record { q = conn ∷ q; locked = true }) t' q out (conn ∷ []) true run (omega arith)
moved_parts wait (conn ∷ q) locked t' out run c = absurd (cc run)
moved_parts wait [] false t' out run c = absurd (cc run)
moved_parts wait [] true t' out run c =
    same_move c (record { q = []; locked = true }) t' [] out [] false run (omega arith)

Step-held :
    {p p' : Pool} {pushed : List ℕ}
    → Step p pushed p'
    → ((c : ℕ) → held c p' ≡ held c p + count c pushed)
      × (length p.threads ≤ max_thread_size → length p'.threads ≤ max_thread_size)
Step-held (choosing p p' ready run) =
    let (same, few) = choose-held p p' run in (λ c. omega (arith, same c), few)
Step-held (push conn p p' free run) = push-held conn p p' run
Step-held (move m before after t t' out processed choice run) = (
  λ c. omega (
    arith,
    moved_parts m t.q t.locked t' out run c,
    queued-append c before (t ∷ after),
    queued-append c before (t' ∷ after),
    count_if-append (λ x. x == c) out processed,
  ),
  λ le. omega (arith, le, length-append before (t ∷ after), length-append before (t' ∷ after)),
)

Runs-held :
    {p p' : Pool} {pushed : List ℕ}
    → Runs p pushed p'
    → ((c : ℕ) → held c p' ≡ held c p + count c pushed)
      × (length p.threads ≤ max_thread_size → length p'.threads ≤ max_thread_size)
Runs-held (stop p) = (λ c. omega arith, λ le. le)
Runs-held (goes pushed more s r) =
    let (first, few) = Step-held s in
    let (rest, few') = Runs-held r in
    (
      λ c. omega (arith, first c, rest c, count_if-append (λ x. x == c) pushed more),
      λ le. few' (few le),
    )

-- In every run of the pool from its start, however the choices of a queue, the pushes and the moves
-- of the threads interleave, each connection is in the queues and among the processed ones just as often as it was
-- pushed, and there are never more than 16 threads.
pub Runs-count :
    (pushed : List ℕ) (p : Pool)
    → Runs no_threads pushed p
    → ((c : ℕ) → held c p ≡ count c pushed) × (length p.threads ≤ max_thread_size)
Runs-count pushed p r =
    let (counted, few) = Runs-held r in (λ c. omega (arith, counted c), few (omega arith))
