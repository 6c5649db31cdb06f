-- ===== src/ThreadPool.antt =====
-- The thread pool of browse_server/http_server.hpp and http_server.cpp: `push_to_threadpool` and
-- `thread_proc`. Connections are numbers. `push_to_threadpool` is two steps: it chooses a queue by
-- the sizes, which are read at one moment, and puts the connection there once it has the mutex; the
-- threads go on in between. A thread that waits may go on at any time, as `cv_.wait` allows, with
-- `notify_one` or without: the runs here include those of the source.
pub mod Shortest
pub mod Counting
use video_match.Base.{
  ℕ, zero, suc, ◌+◌, ◌≡◌, Bool, true, false, ◌&&◌, not, List, [], ◌∷◌, ◌++◌, Option, none, some,
  ◌==◌, ltb, if◌then◌else◌, length,
}

abbrev pub max_thread_size : ℕ
max_thread_size = 16

-- `ThreadState` of a thread that has been started; `locked` says that the thread holds the mutex of
-- its queue, as it does from its wake-up until it waits again.
pub record ThreadState : Type 0 where
  pub q : List ℕ
  pub locked : Bool

-- The threads that have been started, the connections that they have processed, the last one first,
-- and the local variable `choice` of `push_to_threadpool` while it waits for a mutex.
pub record Pool : Type 0 where
  pub threads : List ThreadState
  pub processed : List ℕ
  pub choice : Option ℕ

abbrev pub no_threads : Pool
no_threads = record { threads = []; processed = []; choice = none }

abbrev pub sizes : List ThreadState → List ℕ
sizes [] = []
sizes (t ∷ threads) = length t.q ∷ sizes threads

-- The loop of `push_to_threadpool` from thread `i` on; `choice` is the number of a thread with the
-- size of its queue.
unfoldable pub shortest : List ℕ → ℕ → Option (ℕ × ℕ) → Option (ℕ × ℕ)
shortest [] i choice = choice
shortest (n ∷ ns) i none = shortest ns (i + 1) (some (i, n))
shortest (n ∷ ns) i (some (j, least)) =
    let next = shortest ns (i + 1) (some (i, n)) in
    let same = shortest ns (i + 1) (some (j, least)) in if ltb n least then next else same

pub data Choice : Type 0 where
  new_thread : Choice
  queue_of : ℕ → Choice
  out_of_bounds : Choice

abbrev pub is_busy : Option (ℕ × ℕ) → Bool
is_busy none = true
is_busy (some (j, size)) = not (size == 0)

unfoldable pub choose : List ThreadState → Choice
unfolding shortest
choose threads =
    let choice = shortest (sizes threads) 0 none in
    if is_busy choice && ltb (length threads) max_thread_size
    then new_thread
    else elim choice [ none ↦ out_of_bounds | some c ↦ queue_of c.0 ]

-- The thread `i` after a change.
unfoldable pub change : (ThreadState → ThreadState) → ℕ → List ThreadState → List ThreadState
change f i [] = []
change f zero (t ∷ threads) = f t ∷ threads
change f (suc i) (t ∷ threads) = t ∷ change f i threads

abbrev pub enqueue : ℕ → ThreadState → ThreadState
enqueue conn t = record t { q = t.q ++ conn ∷ [] }

-- The first part of `push_to_threadpool`: a queue is chosen, with a new thread where that is wanted.
-- `none` is a queue out of bounds.
unfoldable pub choose_queue : Pool → Option Pool
unfolding choose
choose_queue p = elim (choose p.threads) [
  | new_thread ↦ some (record p {
    threads = p.threads ++ record { q = []; locked = false } ∷ [];
    choice = some (length p.threads);
  })
  | queue_of i ↦ some (record p { choice = some i })
  | out_of_bounds ↦ none
]

-- The rest of it, with the mutex: the connection goes into the chosen queue.
unfoldable pub push_to_threadpool : ℕ → Pool → Option Pool
unfolding change
push_to_threadpool conn p = elim p.choice [
  | none ↦ none
  | some i ↦
      if ltb i (length p.threads)
      then some (record p { threads = change (enqueue conn) i p.threads; choice = none })
      else none
]

abbrev pub is_locked : ℕ → List ThreadState → Bool
is_locked i [] = false
is_locked zero (t ∷ threads) = t.locked
is_locked (suc i) (t ∷ threads) = is_locked i threads

-- Whether `push_to_threadpool` gets the mutex that it waits for.
abbrev pub gets_lock : Pool → Bool
gets_lock p = elim p.choice [ none ↦ false | some i ↦ not (is_locked i p.threads) ]

-- What happens in `thread_proc`: a thread gets its mutex, takes the first connection of its queue
-- and processes it, or finds the queue empty and waits.
pub data Move : Type 0 where
  lock : Move
  process : Move
  wait : Move

unfoldable pub thread_proc : Move → ThreadState → Option (ThreadState × List ℕ)
thread_proc lock t = if t.locked then none else some (record t { locked = true }, [])
thread_proc process t = elim t.q [
  | [] ↦ none
  | conn ∷ q ↦ if t.locked then some (record t { q = q }, conn ∷ []) else none
]
thread_proc wait t = elim t.q [
  | [] ↦ if t.locked then some (record t { locked = false }, []) else none
  | conn ∷ q ↦ none
]

-- A queue is chosen, a connection is pushed there, or the thread after those of `before` makes a
-- move; the list is of what is pushed.
pub data Step : Pool → List ℕ → Pool → Type 0 where
  choosing : (p p' : Pool) → p.choice ≡ none → choose_queue p ≡ some p' → Step p [] p'
  push :
      (conn : ℕ) (p p' : Pool)
      → gets_lock p ≡ true
      → push_to_threadpool conn p ≡ some p'
      → Step p (conn ∷ []) p'
  move :
      (m : Move) (before after : List ThreadState) (t t' : ThreadState) (out processed : List ℕ)
      (choice : Option ℕ)
      → thread_proc m t ≡ some (t', out)
      → Step
          (record { threads = before ++ t ∷ after; processed = processed; choice = choice })
          []
          (record { threads = before ++ t' ∷ after; processed = out ++ processed; choice = choice })

pub data Runs : Pool → List ℕ → Pool → Type 0 where
  stop : (p : Pool) → Runs p [] p
  goes :
      {p p' p'' : Pool} (pushed more : List ℕ)
      → Step p pushed p'
      → Runs p' more p''
      → Runs p (pushed ++ more) p''
